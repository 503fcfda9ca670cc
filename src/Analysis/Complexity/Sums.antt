-- ===== src/Analysis/Complexity/Sums.antt =====
-- crates/analysis/src/compiler_complexity.rs: what the counts of a set of blocks should be, and their
-- bounds.
use ferrum_atlas.Prelude.{
  inl, inr, ◌≡◌, refl, sym, ap, ◌∙◌, subst, ℕ, suc, ◌≤◌, ◌+◌, ◌-◌, List, [], ◌∷◌, ◌++◌, Bool, true,
  Option, none, some, length, count_if, if◌then◌else◌, arith, lookup, remove_key,
  lookup-remove_key_other, Mem, Mem-append_left, Mem-append_right, nat_eq, length-append,
  Bool-cases,
}
use ferrum_atlas.Prelude.Ascending.{Ascending, Above-Mem, Ascending-length}
use ferrum_atlas.Model.Compiler.{CompilerBlock, CompilerSuccessor}
use ferrum_atlas.Analysis.Complexity.Measure.{Blocks, is_real, exit_kind}
use ferrum_atlas.Analysis.Complexity.Shape.{is_some}
use ferrum_atlas.Analysis.Complexity.Blocks.{total, edges_of}
use ferrum_atlas.Analysis.Complexity.Links.{HasEdge}
use ferrum_atlas.Analysis.Complexity.Reach.{Reachable, entry, follow, IsReachedSet}

-- The successors of a block that are not imaginary.
abbrev pub real_edges : CompilerBlock → ℕ
real_edges b = count_if (is_real b.terminator) b.terminator.successors

abbrev pub imaginary_edges : CompilerBlock → ℕ
imaginary_edges b = edges_of b - real_edges b

-- 1 for a block with an edge to the synthetic exit.
abbrev pub exit_edges : CompilerBlock → ℕ
exit_edges b = if is_some (exit_kind b.terminator (real_edges b)) then 1 else 0

abbrev pub at_block : (CompilerBlock → ℕ) → Option CompilerBlock → ℕ
at_block f none = 0
at_block f (some b) = f b

-- The sum over the blocks with the given numbers.
abbrev pub sum_of : (CompilerBlock → ℕ) → (ℕ → Option CompilerBlock) → List ℕ → ℕ
sum_of f block_of [] = 0
sum_of f block_of (x ∷ xs) = at_block f (block_of x) + sum_of f block_of xs

pub count_if-length {ℓ} : {A : Type ℓ} (p : A → Bool) (xs : List A) → count_if p xs ≤ length xs
count_if-length p [] = omega arith
count_if-length p (x ∷ xs) = ground (arith, count_if-length p xs)

sum_of-agree :
    (f : CompilerBlock → ℕ) (p q : ℕ → Option CompilerBlock) (xs : List ℕ)
    → ((z : ℕ) → Mem z xs → p z ≡ q z)
    → sum_of f p xs ≡ sum_of f q xs
sum_of-agree f p q [] h = refl
sum_of-agree f p q (x ∷ xs) h = rw (h x (inl refl), sum_of-agree f p q xs (λ z m. h z (inr m))) refl

total-remove_key : (x : ℕ) (m : Blocks) → total (remove_key x m) ≤ total m
total-remove_key x [] = omega arith
total-remove_key x ((k, b) ∷ m) = ground (arith, total-remove_key x m)

total-split :
    (x : ℕ) (m : Blocks) → at_block edges_of (lookup x m) + total (remove_key x m) ≤ total m
total-split x [] = omega arith
total-split x ((k, b) ∷ m) = ground (arith, total-split x m, total-remove_key x m)

-- A set of blocks has no more successors than all blocks.
pub sum_of-total :
    (xs : List ℕ) (m : Blocks) → Ascending xs → sum_of edges_of (λ k. lookup k m) xs ≤ total m
sum_of-total [] m h = omega arith
sum_of-total (x ∷ xs) m h =
    let same =
      sum_of-agree edges_of (λ k. lookup k m) (λ k. lookup k (remove_key x m)) xs
        (λ z i.
          let l = Above-Mem x z xs h.0 i in
          sym (lookup-remove_key_other z x m (λ e. omega (arith, e, l)))) in
    let rest = sum_of-total xs (remove_key x m) h.1 in omega (arith, same, rest, total-split x m)

targets_of : CompilerBlock → List CompilerSuccessor → List ℕ
targets_of b [] = []
targets_of b (e ∷ es) =
    let rest = targets_of b es in if is_real b.terminator e then e.target ∷ rest else rest

length-targets_of :
    (b : CompilerBlock) (es : List CompilerSuccessor)
    → length (targets_of b es) ≡ count_if (is_real b.terminator) es
unfolding targets_of
length-targets_of b [] = refl
length-targets_of b (e ∷ es) = elim (Bool-cases (is_real b.terminator e)) [
  | inl i ↦ rw i (ap suc (length-targets_of b es))
  | inr i ↦ rw i (length-targets_of b es)
]

Mem-targets_of :
    (b : CompilerBlock) (e : CompilerSuccessor) (es : List CompilerSuccessor)
    → Mem e es
    → is_real b.terminator e ≡ true
    → Mem e.target (targets_of b es)
unfolding targets_of
Mem-targets_of b e [] h i = absurd h
Mem-targets_of b e (e' ∷ es) (inl same) i =
    subst (λ (s : CompilerSuccessor). Mem e.target (targets_of b (s ∷ es))) same (rw i (inl refl))
Mem-targets_of b e (e' ∷ es) (inr m) i = elim (Bool-cases (is_real b.terminator e')) [
  | inl j ↦ rw j (inr (Mem-targets_of b e es m i))
  | inr j ↦ rw j (Mem-targets_of b e es m i)
]

targets_at : Option CompilerBlock → List ℕ
targets_at none = []
targets_at (some b) = targets_of b b.terminator.successors

all_targets : (ℕ → Option CompilerBlock) → List ℕ → List ℕ
all_targets block_of [] = []
all_targets block_of (x ∷ xs) = targets_at (block_of x) ++ all_targets block_of xs

length-targets_at : (o : Option CompilerBlock) → length (targets_at o) ≡ at_block real_edges o
unfolding targets_at
length-targets_at none = refl
length-targets_at (some b) = length-targets_of b b.terminator.successors

length-all_targets :
    (block_of : ℕ → Option CompilerBlock) (xs : List ℕ)
    → length (all_targets block_of xs) ≡ sum_of real_edges block_of xs
unfolding all_targets
length-all_targets block_of [] = refl
length-all_targets block_of (x ∷ xs) = omega (
  arith,
  length-append (targets_at (block_of x)) (all_targets block_of xs),
  length-targets_at (block_of x),
  length-all_targets block_of xs,
)

Mem-all_targets :
    (block_of : ℕ → Option CompilerBlock) (p x : ℕ) (xs : List ℕ)
    → Mem p xs
    → HasEdge block_of p x
    → Mem x (all_targets block_of xs)
unfolding all_targets targets_at
Mem-all_targets block_of p x [] h e = absurd h
Mem-all_targets block_of p x (y ∷ ys) (inl same) (b, e, at, me, r, t) =
    Mem-append_left x (targets_at (block_of y)) (all_targets block_of ys) (
      subst (λ o. Mem x (targets_at o)) (sym at ∙ ap block_of same)
        (subst (λ z. Mem z (targets_at (some b))) (sym t)
          (Mem-targets_of b e b.terminator.successors me r)))
Mem-all_targets block_of p x (y ∷ ys) (inr m) edge =
    Mem-append_right x (targets_at (block_of y)) (all_targets block_of ys)
      (Mem-all_targets block_of p x ys m edge)

-- Each reached block but the entry is the target of an edge, so the edges are at least as many.
pub IsReachedSet-length :
    (block_of : ℕ → Option CompilerBlock) (reached : List ℕ)
    → IsReachedSet block_of reached
    → length reached ≤ suc (sum_of real_edges block_of reached)
IsReachedSet-length block_of reached set = omega (
  arith,
  length-all_targets block_of reached,
  Ascending-length reached (0 ∷ all_targets block_of reached) set.rising
      (λ z m. covered (set.sound z m)),
)
  where
    covered : {z : ℕ} → Reachable block_of z → Mem z (0 ∷ all_targets block_of reached)
    covered entry = inl refl
    covered (follow p x r e) = inr (Mem-all_targets block_of p x reached (set.whole p r) e)

pub exits_bound :
    (block_of : ℕ → Option CompilerBlock) (xs : List ℕ) → sum_of exit_edges block_of xs ≤ length xs
exits_bound block_of [] = omega arith
exits_bound block_of (x ∷ xs) = omega (arith, at_most_one (block_of x), exits_bound block_of xs)
  where
    at_most_one : (o : Option CompilerBlock) → at_block exit_edges o ≤ 1
    at_most_one none = omega arith
    at_most_one (some b) = ground arith

pub sum_of-real_edges :
    (block_of : ℕ → Option CompilerBlock) (xs : List ℕ)
    → sum_of real_edges block_of xs ≤ sum_of edges_of block_of xs
sum_of-real_edges block_of [] = omega arith
sum_of-real_edges block_of (x ∷ xs) =
    omega (arith, fewer (block_of x), sum_of-real_edges block_of xs)
  where
    fewer : (o : Option CompilerBlock) → at_block real_edges o ≤ at_block edges_of o
    fewer none = omega arith
    fewer (some b) = count_if-length (is_real b.terminator) b.terminator.successors
