-- ===== src/Analysis/Complexity/Reach.antt =====
-- crates/analysis/src/compiler_complexity.rs: the nodes that the search visits are the blocks that
-- the entry reaches.
use ferrum_atlas.Prelude.{
  inl, inr, ◌⊎◌, ◌↔◌, ◌≡◌, sym, subst, ℕ, suc, List, [], ◌∷◌, true, Option, none, arith, lookup,
  Mem, nat_eq, nat_ord, set_insert, Mem-set_insert, Mem-set_insert_other, Mem-set_insert-cases,
}
use ferrum_atlas.Prelude.Ascending.{Ascending, Ascending-set_insert}
use ferrum_atlas.Model.Compiler.{CompilerBlock}
use ferrum_atlas.Analysis.Envelope.{AnalysisControl}
use ferrum_atlas.Analysis.Complexity.Report.{CompilerComplexity, Graph, check}
use ferrum_atlas.Analysis.Complexity.Measure.{Blocks, contains_key, keys, visit}
use ferrum_atlas.Analysis.Complexity.Links.{HasEdge, IsLinked}
use ferrum_atlas.Analysis.Complexity.Ends.{Ends, Ends-bind, Ends-map, Ends-check}

-- The nodes that a walk along the edges of a graph comes to.
pub data Reach (g : Graph) (root : ℕ) : ℕ → Type 0 where
  start : Reach g root root
  step : (p x : ℕ) → Reach g root p → Mem (p, x) g.edges → Reach g root x

-- What petgraph documents of `Dfs`: from a node of the graph it visits exactly the nodes that the
-- edges reach.
abbrev pub IsDfs : (Graph → ℕ → List ℕ) → Type 0
IsDfs dfs =
    (g : Graph) (root : ℕ) → Mem root g.nodes → (x : ℕ) → Mem x (dfs g root) ↔ Reach g root x

-- The blocks that the entry block 0 reaches along successors that are not imaginary.
pub data Reachable (block_of : ℕ → Option CompilerBlock) : ℕ → Type 0 where
  entry : Reachable block_of 0
  follow : (p x : ℕ) → Reachable block_of p → HasEdge block_of p x → Reachable block_of x

pub keys-Mem : (k : ℕ) (m : Blocks) → contains_key m k ≡ true → Mem k (keys m)
keys-Mem k [] h = cc
keys-Mem k ((k', b) ∷ m) h = ground (arith, keys-Mem k m)

Reach-Reachable :
    (blocks : Blocks) (nodes : List ℕ) (edges : List (ℕ × ℕ)) {x : ℕ}
    → IsLinked blocks blocks edges
    → Reach (record { nodes = nodes; edges = edges }) 0 x
    → Reachable (λ k. lookup k blocks) x
Reach-Reachable blocks nodes edges l start = entry
Reach-Reachable blocks nodes edges l (step p x r m) =
    follow p x (Reach-Reachable blocks nodes edges l r) (l.0 p x m).0

Reachable-Reach :
    (blocks : Blocks) (nodes : List ℕ) (edges : List (ℕ × ℕ)) {x : ℕ}
    → IsLinked blocks blocks edges
    → Reachable (λ k. lookup k blocks) x
    → Reach (record { nodes = nodes; edges = edges }) 0 x
Reachable-Reach blocks nodes edges l entry = start
Reachable-Reach blocks nodes edges l (follow p x r e) =
    step p x (Reachable-Reach blocks nodes edges l r) (l.1 p x e)

-- A set of block numbers in rising order: those that the entry reaches.
pub record IsReachedSet (block_of : ℕ → Option CompilerBlock) (reached : List ℕ) : Type 0 where
  pub rising : Ascending reached
  pub sound : (x : ℕ) → Mem x reached → Reachable block_of x
  pub whole : (x : ℕ) → Reachable block_of x → Mem x reached

abbrev IsVisited : List ℕ → List ℕ → List ℕ → Type 0
IsVisited before order reached =
    Ascending reached
    × ((x : ℕ) → Mem x reached → Mem x before ⊎ Mem x order)
    × ((x : ℕ) → Mem x before ⊎ Mem x order → Mem x reached)

visit_step :
    (before : List ℕ) (node : ℕ) (order reached : List ℕ)
    → IsVisited (set_insert node before) order reached
    → IsVisited before (node ∷ order) reached
visit_step before node order reached (rising, sound, whole) = (
  rising,
  (λ x m. elim (sound x m) [
    | inl old ↦ elim (Mem-set_insert-cases x node before old) [
      | inl same ↦ inr (inl same)
      | inr earlier ↦ inl earlier
    ]
    | inr later ↦ inr (inr later)
  ]),
  (λ x m. elim m [
    | inl earlier ↦ whole x (inl (Mem-set_insert_other x node before earlier))
    | inr (inl same) ↦
        whole x (
          inl (subst (λ y. Mem y (set_insert node before)) (sym same) (Mem-set_insert node before)))
    | inr (inr later) ↦ whole x (inr later)
  ]),
)

visit_lem :
    (control : AnalysisControl) (report : CompilerComplexity) (clock : ℕ) (before order : List ℕ)
    → report.metrics ≡ none
    → Ascending before
    → Ends (IsVisited before order) (visit control report clock before order)
unfolding visit
visit_lem control report clock before [] none_yet rising =
    (rising, (λ x m. inl m), (λ x m. elim m [ inl e ↦ e | inr e ↦ absurd e ]))
visit_lem control report clock before (node ∷ order) none_yet rising =
    let Next = IsVisited before (node ∷ order) in
    Ends-bind (λ u. Unit {0}) Next (check control clock report) _
      (Ends-check control clock report none_yet)
      λ u x.
        Ends-map (IsVisited (set_insert node before) order) Next
          (visit control report (suc clock) (set_insert node before) order)
          (visit_lem control report (suc clock) (set_insert node before) order none_yet
            (Ascending-set_insert node before rising))
          (λ reached v. visit_step before node order reached v)

-- The nodes that the entry reaches, after the search.
pub visit-IsReachedSet :
    (control : AnalysisControl) (report : CompilerComplexity) (clock : ℕ) (blocks : Blocks)
    (edges : List (ℕ × ℕ)) (dfs : Graph → ℕ → List ℕ)
    → IsDfs dfs
    → report.metrics ≡ none
    → contains_key blocks 0 ≡ true
    → IsLinked blocks blocks edges
    → Ends
        (IsReachedSet (λ k. lookup k blocks))
        (visit control report clock [] (dfs (record { nodes = keys blocks; edges = edges }) 0))
visit-IsReachedSet control report clock blocks edges dfs search none_yet has linked =
    let g : Graph = record { nodes = keys blocks; edges = edges } in
    let exactly = search g 0 (keys-Mem 0 blocks has) in
    Ends-map (IsVisited [] (dfs g 0)) (IsReachedSet (λ k. lookup k blocks))
      (visit control report clock [] (dfs g 0))
      (visit_lem control report clock [] (dfs g 0) none_yet tt)
      λ reached v. record {
        rising = v.0;
        sound = λ x m. elim (v.1 x m) [
          | inl e ↦ absurd e
          | inr seen ↦ Reach-Reachable blocks (keys blocks) edges linked ((exactly x).0 seen)
        ];
        whole = λ x r.
            v.2 x (inr ((exactly x).1 (Reachable-Reach blocks (keys blocks) edges linked r)));
      }

-- Each reached block is the entry or the target of a real successor of a reached block.
pub Reachable-key :
    (blocks : Blocks) (edges : List (ℕ × ℕ)) {x : ℕ}
    → contains_key blocks 0 ≡ true
    → IsLinked blocks blocks edges
    → Reachable (λ k. lookup k blocks) x
    → contains_key blocks x ≡ true
Reachable-key blocks edges has l entry = has
Reachable-key blocks edges has l (follow p x r e) = (l.0 p x (l.1 p x e)).1
