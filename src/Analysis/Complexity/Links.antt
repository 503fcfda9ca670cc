-- ===== src/Analysis/Complexity/Links.antt =====
-- crates/analysis/src/compiler_complexity.rs: the edges of the graph are the real successors of the
-- blocks.
use ferrum_atlas.Prelude.{
  inl, inr, ◌≡◌, refl, sym, ap, ◌∙◌, subst, ℕ, suc, ◌<◌, List, [], ◌∷◌, ◌++◌, true, false, Option,
  none, some, Bool-cases, arith, lookup, Mem, Mem-append_left, Mem-append_right, Mem-append-cases,
  nat_eq, ℕ_discrete,
}
use ferrum_atlas.Prelude.Text.{Text-discrete, codes}
use ferrum_atlas.Prelude.Ascending.{Above}
use ferrum_atlas.Model.Compiler.{CompilerBlock, CompilerSuccessor}
use ferrum_atlas.Analysis.Envelope.{AnalysisControl, invalid_input}
use ferrum_atlas.Analysis.Complexity.Shape.{imaginary}
use ferrum_atlas.Analysis.Complexity.Report.{CompilerComplexity, refused, check}
use ferrum_atlas.Analysis.Complexity.Measure.{
  Blocks, contains_key, keys, is_real, link_edges, link_blocks, counts_message,
}
use ferrum_atlas.Analysis.Complexity.Blocks.{IsIndexed}
use ferrum_atlas.Analysis.Complexity.Ends.{is_internal, Ends, Ends-bind, Ends-require, Ends-check}

-- A successor of the block at `p` that is not imaginary has the target `x`.
abbrev pub HasEdge : (ℕ → Option CompilerBlock) → ℕ → ℕ → Type 0
HasEdge block_of p x =
    (b : CompilerBlock) × (e : CompilerSuccessor) × (block_of p ≡ some b)
    × Mem e b.terminator.successors
    × (is_real b.terminator e ≡ true)
    × (x ≡ e.target)

abbrev Own : CompilerBlock → List CompilerSuccessor → ℕ → ℕ → Type 0
Own b es p x =
    (e : CompilerSuccessor) × (p ≡ b.index)
    × Mem e es
    × (is_real b.terminator e ≡ true)
    × (x ≡ e.target)

abbrev IsOwn : Blocks → CompilerBlock → List CompilerSuccessor → List (ℕ × ℕ) → Type 0
IsOwn blocks b es edges =
    ((p x : ℕ) → Mem (p, x) edges → Own b es p x × (contains_key blocks x ≡ true))
    × ((p x : ℕ) → Own b es p x → Mem (p, x) edges)

missing_fine :
    is_internal (refused (invalid_input (codes "compiler successor references a missing block")))
    ≡ false
unfolding is_internal counts_message Text-discrete
missing_fine = refl

skip :
    (blocks : Blocks) (b : CompilerBlock) (e : CompilerSuccessor) (es : List CompilerSuccessor)
    (edges : List (ℕ × ℕ))
    → imaginary b.terminator e.kind ≡ true
    → IsOwn blocks b es edges
    → IsOwn blocks b (e ∷ es) edges
skip blocks b e es edges i (to, from) = (
  λ p x m. let ((e', q, me, r, t), k) = to p x m in ((e', q, inr me, r, t), k),
  λ p x o.
      let (e', q, me, r, t) = o in
      elim me [ inl same ↦ absurd (kinds e' same r) | inr more ↦ from p x (e', q, more, r, t) ],
)
  where
    kinds : (e' : CompilerSuccessor) → e' ≡ e → is_real b.terminator e' ≡ true → ⊥
    kinds e' same r =
        let k : is_real b.terminator e ≡ true = subst (λ z. is_real b.terminator z ≡ true) same r in
        ground (arith, i, k)

push :
    (blocks : Blocks) (b : CompilerBlock) (e : CompilerSuccessor) (es : List CompilerSuccessor)
    (edges : List (ℕ × ℕ))
    → imaginary b.terminator e.kind ≡ false
    → contains_key blocks e.target ≡ true
    → IsOwn blocks b es edges
    → IsOwn blocks b (e ∷ es) ((b.index, e.target) ∷ edges)
push blocks b e es edges i key (to, from) = (
  λ p x m. elim m [
    | inl same ↦
        let first : p ≡ b.index = ap (λ (z : ℕ × ℕ). z.0) same in
        let second : x ≡ e.target = ap (λ (z : ℕ × ℕ). z.1) same in
        (
          (e, first, inl refl, ground (arith, i), second),
          subst (λ y. contains_key blocks y ≡ true) (sym second) key,
        )
    | inr more ↦ let ((e', q, me, r, t), k) = to p x more in ((e', q, inr me, r, t), k)
  ],
  λ p x o.
      let (e', q, me, r, t) = o in
      elim me [
        | inl same ↦
            let target : x ≡ e.target = t ∙ ap (λ (s : CompilerSuccessor). s.target) same in
            inl (λ j. (q j, target j))
        | inr more ↦ inr (from p x (e', q, more, r, t))
      ],
)

link_edges_lem :
    (blocks : Blocks) (b : CompilerBlock) (es : List CompilerSuccessor)
    → Ends (IsOwn blocks b es) (link_edges blocks b es)
unfolding link_edges
link_edges_lem blocks b [] = (λ p x m. absurd m, λ p x o. absurd o.2)
link_edges_lem blocks b (e ∷ es) =
    Ends-bind (λ u. contains_key blocks e.target ≡ true) (IsOwn blocks b (e ∷ es)) _ _
      (Ends-require (contains_key blocks e.target) _ missing_fine)
      λ u key.
        Ends-bind (IsOwn blocks b es) (IsOwn blocks b (e ∷ es)) (link_edges blocks b es) _
          (link_edges_lem blocks b es)
          λ edges own. elim (Bool-cases (imaginary b.terminator e.kind)) [
            | inl i ↦ rw i (skip blocks b e es edges i own)
            | inr i ↦ rw i (push blocks b e es edges i key own)
          ]

-- The edges of a map of blocks, whose targets are keys.
abbrev pub IsLinked : Blocks → Blocks → List (ℕ × ℕ) → Type 0
IsLinked blocks m edges =
    ((p x : ℕ) → Mem (p, x) edges → HasEdge (λ q. lookup q m) p x × (contains_key blocks x ≡ true))
    × ((p x : ℕ) → HasEdge (λ q. lookup q m) p x → Mem (p, x) edges)

key_below :
    (k x : ℕ) (m : Blocks) (b : CompilerBlock) → Above k (keys m) → lookup x m ≡ some b → k < x
key_below k x [] b h e = cc
key_below k x ((k', b') ∷ m) b h e = ground (arith, key_below k x m b h.1)

nothing_linked : (blocks : Blocks) → IsLinked blocks [] []
nothing_linked blocks = (λ p x m. absurd m, λ p x e. let (b, s, l, me, r, t) = e in cc (l))

join :
    (blocks : Blocks) (k : ℕ) (b : CompilerBlock) (m : Blocks) (own more : List (ℕ × ℕ))
    → b.index ≡ k
    → Above k (keys m)
    → IsOwn blocks b b.terminator.successors own
    → IsLinked blocks m more
    → IsLinked blocks ((k, b) ∷ m) (own ++ more)
join blocks k b m own more index above (own_to, own_from) (to, from) = (forth, back)
  where
    here : (p x : ℕ) → Own b b.terminator.successors p x → HasEdge (λ q. lookup q ((k, b) ∷ m)) p x
    here p x (e, q, me, r, t) = (b, e, ground (arith, q, index), me, r, t)

    there : (p x : ℕ) → HasEdge (λ q. lookup q m) p x → HasEdge (λ q. lookup q ((k, b) ∷ m)) p x
    there p x (b', e, at, me, r, t) =
        let below = key_below k p m b' above at in (b', e, ground (arith, below, at), me, r, t)

    forth :
        (p x : ℕ)
        → Mem (p, x) (own ++ more)
        → HasEdge (λ q. lookup q ((k, b) ∷ m)) p x × (contains_key blocks x ≡ true)
    forth p x z = elim (Mem-append-cases (p, x) own more z) [
      | inl mine ↦ let (o, key) = own_to p x mine in (here p x o, key)
      | inr later ↦ let (o, key) = to p x later in (there p x o, key)
    ]

    back : (p x : ℕ) → HasEdge (λ q. lookup q ((k, b) ∷ m)) p x → Mem (p, x) (own ++ more)
    back p x (b', e, at, me, r, t) = elim (ℕ_discrete p k) [
      | yes same ↦
          let it : b ≡ b' = ground (arith, same, at) in
          let mine : Mem e b.terminator.successors =
            subst (λ (c : CompilerBlock). Mem e c.terminator.successors) (sym it) me in
          let real : is_real b.terminator e ≡ true =
            subst (λ (c : CompilerBlock). is_real c.terminator e ≡ true) (sym it) r in
          Mem-append_left (p, x) own more (own_from p x (e, same ∙ sym index, mine, real, t))
      | no other ↦
          let at' : lookup p m ≡ some b' = ground (arith, other, at) in
          Mem-append_right (p, x) own more (from p x (b', e, at', me, r, t))
    ]

pub link_blocks_lem :
    (control : AnalysisControl) (report : CompilerComplexity) (clock : ℕ) (blocks m : Blocks)
    → report.metrics ≡ none
    → IsIndexed m
    → Ends (IsLinked blocks m) (link_blocks control report clock blocks m)
unfolding link_blocks
link_blocks_lem control report clock blocks [] none_yet indexed = nothing_linked blocks
link_blocks_lem control report clock blocks ((k, b) ∷ m) none_yet indexed =
    let All_linked = IsLinked blocks ((k, b) ∷ m) in
    Ends-bind (λ u. Unit {0}) All_linked (check control clock report) _
      (Ends-check control clock report none_yet)
      λ u x.
        Ends-bind (IsOwn blocks b b.terminator.successors) All_linked _ _
          (link_edges_lem blocks b b.terminator.successors)
          λ own is_own.
            Ends-bind (IsLinked blocks m) All_linked
              (link_blocks control report (suc clock) blocks m) _
              (link_blocks_lem control report (suc clock) blocks m none_yet indexed.2)
              λ more is_linked. join blocks k b m own more indexed.0 indexed.1 is_own is_linked
