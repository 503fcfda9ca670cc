-- ===== src/Analysis/Complexity/Blocks.antt =====
-- crates/analysis/src/compiler_complexity.rs: the map of the blocks by their index.
use ferrum_atlas.Prelude.{
  ℕ_discrete, ◌≡◌, refl, ℕ, suc, ◌+◌, ◌≤◌, ◌<◌, List, [], ◌∷◌, true, false, inl, inr, Option, none,
  some, ◌==◌, nat_eq, find, length, Bool-cases, arith, lookup, insert, lookup-insert,
  lookup-insert_other,
}
use ferrum_atlas.Prelude.Ascending.{Above}
use ferrum_atlas.Model.Compiler.{CompilerBlock}
use ferrum_atlas.Analysis.Complexity.Report.{CompilerComplexityLimits}
use ferrum_atlas.Analysis.Complexity.Measure.{Blocks, contains_key, keys}

abbrev pub find_block : ℕ → List CompilerBlock → Option CompilerBlock
find_block k bs = find (λ b. b.index == k) bs

abbrev pub or_else : Option CompilerBlock → Option CompilerBlock → Option CompilerBlock
or_else none o = o
or_else (some b) o = some b

abbrev pub edges_of : CompilerBlock → ℕ
edges_of b = length b.terminator.successors

abbrev pub total : Blocks → ℕ
total [] = 0
total ((k, b) ∷ m) = edges_of b + total m

-- Rising keys, each that of its block.
abbrev pub IsIndexed : Blocks → Type 0
IsIndexed [] = Unit
IsIndexed ((k, b) ∷ m) = (b.index ≡ k) × Above k (keys m) × IsIndexed m

Above-trans : (a k : ℕ) (ks : List ℕ) → a < k → Above k ks → Above a ks
Above-trans a k [] l h = tt
Above-trans a k (x ∷ ks) l h = (omega (arith, h.0), Above-trans a k ks l h.1)

Above-insert :
    (a k : ℕ) (b : CompilerBlock) (m : Blocks)
    → a < k
    → Above a (keys m)
    → Above a (keys (insert k b m))
Above-insert a k b [] l h = (l, tt)
Above-insert a k b ((k', b') ∷ m) l h = ground (arith, Above-insert a k b m)

pub insert-IsIndexed :
    (b : CompilerBlock) (m : Blocks) → IsIndexed m → IsIndexed (insert b.index b m)
insert-IsIndexed b [] h = (refl, tt, tt)
insert-IsIndexed b ((k', b') ∷ m) h =
    ground
      (arith, insert-IsIndexed b m, Above-insert k' b.index b m, Above-trans b.index k' (keys m))

contains_key-lookup : (k : ℕ) (m : Blocks) → contains_key m k ≡ false → lookup k m ≡ none
contains_key-lookup k [] h = refl
contains_key-lookup k ((k', b) ∷ m) h = ground (arith, contains_key-lookup k m)

pub contains_key-true :
    (k : ℕ) (m : Blocks) → contains_key m k ≡ true → (b : CompilerBlock) × (lookup k m ≡ some b)
contains_key-true k [] h = cc
contains_key-true k ((k', b) ∷ m) h = elim (Bool-cases (k == k')) [
  | inl e ↦ (b, rw e refl)
  | inr e ↦ let (c, p) = contains_key-true k m (ground (arith, e, h)) in (c, rw e p)
]

pub total-insert :
    (b : CompilerBlock) (m : Blocks)
    → contains_key m b.index ≡ false
    → total (insert b.index b m) ≡ edges_of b + total m
total-insert b [] h = refl
total-insert b ((k', b') ∷ m) h = ground (arith, total-insert b m)

pub length-insert :
    (b : CompilerBlock) (m : Blocks)
    → contains_key m b.index ≡ false
    → length (insert b.index b m) ≡ suc (length m)
length-insert b [] h = refl
length-insert b ((k', b') ∷ m) h = ground (arith, length-insert b m)

-- The map that is read: that of the blocks so far with those of a list.
pub record IsRead (limits : CompilerComplexityLimits) (start : Blocks) (bs : List CompilerBlock)
    (m : Blocks) : Type 0 where
  pub indexed : IsIndexed m
  pub found : (k : ℕ) → lookup k m ≡ or_else (lookup k start) (find_block k bs)
  pub bounded : total m ≤ limits.max_edges
  pub counted : length m ≡ length start + length bs

pub or_else-none : (o : Option CompilerBlock) → or_else o none ≡ o
or_else-none none = refl
or_else-none (some b) = refl

pub found_step :
    (k : ℕ) (b : CompilerBlock) (m : Blocks) (bs : List CompilerBlock)
    → contains_key m b.index ≡ false
    → or_else (lookup k (insert b.index b m)) (find_block k bs)
      ≡ or_else (lookup k m) (find_block k (b ∷ bs))
found_step k b m bs fresh = elim (ℕ_discrete k b.index) [
  | yes e ↦ rw (e, lookup-insert b.index b m, contains_key-lookup b.index m fresh) (ground arith)
  | no n ↦ rw (lookup-insert_other k b.index b m n) (ground arith)
]
