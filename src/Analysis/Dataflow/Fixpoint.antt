-- ===== src/Analysis/Dataflow/Fixpoint.antt =====
-- The fixed point of crates/analysis/src/dataflow.rs: what its worklist ends in.
use ferrum_atlas.Prelude.{
  ℕ, zero, suc, List, [], ◌∷◌, arith, ◌≡◌, refl, sym, subst, ◌∙◌, ◌⊎◌, inl, inr, some, ok, true,
  lookup, Mem,
}
use ferrum_atlas.Model.Compiler.{CompilerBlock}
use ferrum_atlas.Analysis.Envelope.{AnalysisControl}
use ferrum_atlas.Analysis.Dataflow.Facts.{DataflowLimits, State}
use ferrum_atlas.Analysis.Dataflow.Run.{
  Run, M, ◌>>=◌, ◌>>◌, exit, edit, returned, check, limit_when, >>=-ok, >>-ok, pure-ok,
}
use ferrum_atlas.Analysis.Dataflow.Solve.{Flow, argument_state, flow_block, solve, not_converged}
use ferrum_atlas.Analysis.Dataflow.Executions.{
  Memory, initial, Arrives, starts, follows, run_edge, run_block,
}
use ferrum_atlas.Analysis.Dataflow.Cover.{Covers, Covers-initial}
use ferrum_atlas.Analysis.Dataflow.Advances.{Entries, Holds, Holds-Grows, Grows}
use ferrum_atlas.Analysis.Dataflow.Soundness.{Closed, flow_block-Advances}

-- Every state is closed under its block, or its block waits.
record IsSolving (count : ℕ) (blocks : List (ℕ × CompilerBlock)) (entries : Entries)
    (worklist : List ℕ) : Type 0 where
  begun : Holds entries 0 (initial count)
  settled :
      (b : ℕ) (s : State) → lookup b entries ≡ some s → Mem b worklist ⊎ Closed blocks entries b s

Closed-Grows :
    (blocks : List (ℕ × CompilerBlock)) (before after : Entries) (b : ℕ) (s : State)
    → Grows before after
    → Closed blocks before b s
    → Closed blocks after b s
Closed-Grows blocks before after b s grows closed m block edge covers found mem live =
    Holds-Grows before after edge.target (run_edge b block edge (run_block b block m)) grows
      (closed m block edge covers found mem live)

-- One block of the worklist keeps the invariant.
flow_block-IsSolving :
    (control : AnalysisControl) (limits : DataflowLimits) (count : ℕ)
    (blocks : List (ℕ × CompilerBlock)) (index : ℕ) (rest : List ℕ) (f g : Flow) (s u : Run)
    → f.worklist ≡ rest
    → flow_block control limits blocks index f s ≡ (ok g, u)
    → IsSolving count blocks f.entries (index ∷ rest)
    → IsSolving count blocks g.entries g.worklist
flow_block-IsSolving control limits count blocks index rest f g s u waits h solving =
    let (advances, (a, at, closed)) = flow_block-Advances control limits blocks index f g s u h in
    record {
      begun = Holds-Grows f.entries g.entries 0 (initial count) advances.grows solving.begun;
      settled = λ b q found. elim (advances.kept b q found) [
        | inl before ↦ elim (solving.settled b q before) [
          | inl (inl this) ↦
              let it : a ≡ q =
                the_same a q (sym at ∙ subst (λ z. lookup z f.entries ≡ some q) this before) in
              inr (
                subst (λ z. Closed blocks g.entries z q) (sym this)
                  (subst (Closed blocks g.entries index) it closed))
          | inl (inr later) ↦ inl (advances.queued b (subst (Mem b) (sym waits) later))
          | inr done ↦ inr (Closed-Grows blocks f.entries g.entries b q advances.grows done)
        ]
        | inr waiting ↦ inl waiting
      ];
    }
  where
    the_same : (p q : State) → some p ≡ some q → p ≡ q
    the_same p q e = cc

solve-IsSolving :
    (control : AnalysisControl) (limits : DataflowLimits) (count : ℕ)
    (blocks : List (ℕ × CompilerBlock)) (left : ℕ) (entries result : Entries) (worklist : List ℕ)
    (retained : ℕ) (s u : Run)
    → solve control limits blocks left entries worklist retained s ≡ (ok result, u)
    → IsSolving count blocks entries worklist
    → IsSolving count blocks result []
unfolding solve
solve-IsSolving control limits count blocks left entries result [] retained s u h solving =
    subst (λ e. IsSolving count blocks e []) (pure-ok entries result s u h) solving
solve-IsSolving control limits count blocks zero entries result (index ∷ rest) retained s u h
      solving =
    let stops : M Entries = limit_when true not_converged returned >> exit returned in
    let (s1, checked, h1) = >>-ok (check control returned) stops s u result h in
    let (s2, limited, h2) =
      >>-ok (limit_when true not_converged returned) (exit returned) s1 u result h1 in
    cc
solve-IsSolving control limits count blocks (suc left) entries result (index ∷ rest) retained s u h
      solving =
    let bump : M (Unit {0}) = edit (λ r. record r { iterations = suc r.iterations }) in
    let f : Flow = record { entries = entries; worklist = rest; retained = retained } in
    let next : Flow → M Entries =
      λ g. solve control limits blocks left g.entries g.worklist g.retained in
    let (s1, checked, h1) =
      >>-ok (check control returned) (bump >> (flow_block control limits blocks index f >>= next)) s
        u result h in
    let (s2, bumped, h2) =
      >>-ok bump (flow_block control limits blocks index f >>= next) s1 u result h1 in
    let (g, s3, flowed, h3) =
      >>=-ok (flow_block control limits blocks index f) next s2 u result h2 in
    solve-IsSolving control limits count blocks left g.entries result g.worklist g.retained s3 u h3
      (flow_block-IsSolving control limits count blocks index rest f g s2 s3 refl flowed solving)

start-IsSolving :
    (count : ℕ) (blocks : List (ℕ × CompilerBlock))
    → IsSolving count blocks ((0, argument_state count) ∷ []) (0 ∷ [])
start-IsSolving count blocks = record {
  begun = (argument_state count, ground arith, Covers-initial count);
  settled = λ b s found. inl (inl (ground arith));
}

-- When the worklist runs empty, the state at a block's entry covers every execution that arrives
-- there: each local that has a value has its last assignment among the definitions of the state, each
-- that has none may be uninitialized, and every unknown effect on the way is in the state.
pub solve-Covers :
    (control : AnalysisControl) (limits : DataflowLimits) (count : ℕ)
    (blocks : List (ℕ × CompilerBlock)) (left : ℕ) (result : Entries) (retained : ℕ) (s u : Run)
    (b : ℕ) (m : Memory)
    → solve control limits blocks left ((0, argument_state count) ∷ []) (0 ∷ []) retained s
      ≡ (ok result, u)
    → Arrives count blocks b m
    → (t : State) × (lookup b result ≡ some t) × Covers t m
solve-Covers control limits count blocks left result retained s u b m h arrives = go b m arrives
  where
    solved : IsSolving count blocks result []
    solved =
        solve-IsSolving control limits count blocks left ((0, argument_state count) ∷ []) result
          (0 ∷ []) retained s u h (start-IsSolving count blocks)

    go : (b : ℕ) (m : Memory) → Arrives count blocks b m → Holds result b m
    go _ _ starts = solved.begun
    go _ _ (follows index m block edge before found mem live) =
        let (t, at, covers) = go index m before in
        elim (solved.settled index t at) [
          | inl none_waits ↦ absurd none_waits
          | inr closed ↦ closed m block edge covers found mem live
        ]
