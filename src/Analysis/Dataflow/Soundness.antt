-- ===== src/Analysis/Dataflow/Soundness.antt =====
-- The worklist of crates/analysis/src/dataflow.rs ends in states that cover every execution.
use ferrum_atlas.Prelude.{
  ℕ, List, [], ◌∷◌, ◌≡◌, sym, subst, ap, ◌∙◌, Option, none, some, ok, nat_eq, nat_ord, lookup, Mem,
  sort_by, Mem-sort_by, ltb,
}
use ferrum_atlas.Prelude.Text.{codes}
use ferrum_atlas.Model.Compiler.{CompilerStatement, CompilerBlock, CompilerSuccessor, edge_kind_eq}
use ferrum_atlas.Analysis.Envelope.{AnalysisControl}
use ferrum_atlas.Analysis.Dataflow.Facts.{
  DataflowLimits, statement, terminator, State, state_eq, facts, transfer, terminator_effects,
  edge_less,
}
use ferrum_atlas.Analysis.Dataflow.Run.{
  Run, M, ◌>>=◌, ◌>>◌, returned, check, limit_when, >>=-ok, >>-ok, pure-ok,
}
use ferrum_atlas.Analysis.Dataflow.Solve.{Flow, index_map, flow_statements, flow_edges, flow_block}
use ferrum_atlas.Analysis.Dataflow.Executions.{
  Memory, run_effects, run_statements, run_block, run_edge,
}
use ferrum_atlas.Analysis.Dataflow.Cover.{Covers, Covers-transfer}
use ferrum_atlas.Analysis.Dataflow.Advances.{Entries, Holds, IsLive, Advances, flow_edges-Advances}

pub flow_statements-Covers :
    (control : AnalysisControl) (limits : DataflowLimits) (block : ℕ) (sts : List CompilerStatement)
    (a b : State) (m : Memory) (s u : Run)
    → flow_statements control limits block sts a s ≡ (ok b, u)
    → Covers a m
    → Covers b (run_statements block sts m)
unfolding flow_statements run_statements
flow_statements-Covers control limits block [] a b m s u h covers =
    subst (λ z. Covers z m) (pure-ok a b s u h) covers
flow_statements-Covers control limits block (st ∷ sts) a b m s u h covers =
    let t = transfer st.locals (statement block st.index) a in
    let limit : M (Unit {0}) =
      limit_when (ltb limits.max_facts (facts t))
        (codes "Transfer state exceeds the abstract-state fact budget") returned in
    let (s1, checked, h1) =
      >>-ok (check control returned) (limit >> flow_statements control limits block sts t) s u b
        h in
    let (s2, fits, h2) = >>-ok limit (flow_statements control limits block sts t) s1 u b h1 in
    flow_statements-Covers control limits block sts t b
      (run_effects st.locals (statement block st.index) m) s2 u h2
      (Covers-transfer st.locals (statement block st.index) a m covers)

-- Whatever is covered at the block's entry is covered where its edges lead.
abbrev pub Closed : List (ℕ × CompilerBlock) → Entries → ℕ → State → Type 0
Closed blocks entries index s =
    (m : Memory) (block : CompilerBlock) (edge : CompilerSuccessor)
    → Covers s m
    → lookup index blocks ≡ some block
    → Mem edge block.terminator.successors
    → IsLive edge
    → Holds entries edge.target (run_edge index block edge (run_block index block m))

pub index_map-ok {ℓ} :
    {V : Type ℓ} (o : Option V) (v : V) (s u : Run) → index_map o s ≡ (ok v, u) → o ≡ some v
index_map-ok none v s u h = cc
index_map-ok (some w) v s u h = ap some (pure-ok w v s u h)

pub flow_block-Advances :
    (control : AnalysisControl) (limits : DataflowLimits) (blocks : List (ℕ × CompilerBlock))
    (index : ℕ) (f g : Flow) (s u : Run)
    → flow_block control limits blocks index f s ≡ (ok g, u)
    → Advances f g
      × ((a : State) × (lookup index f.entries ≡ some a) × Closed blocks g.entries index a)
unfolding flow_block run_block
flow_block-Advances control limits blocks index f g s u h =
    let edges : CompilerBlock → State → M Flow = λ block out.
      flow_edges control limits block index out (sort_by edge_less block.terminator.successors) f in
    let limit : State → M (Unit {0}) = λ out.
      limit_when (ltb limits.max_facts (facts out))
        (codes "Terminator state exceeds the abstract-state fact budget") returned in
    let at_end : CompilerBlock → State → State =
      λ block t. transfer (terminator_effects block) (terminator index) t in
    let third : CompilerBlock → State → M Flow =
      λ block t. limit (at_end block t) >> edges block (at_end block t) in
    let second : CompilerBlock → State → M Flow =
      λ block a. flow_statements control limits index block.statements a >>= λ t. third block t in
    let first : CompilerBlock → M Flow =
      λ block. index_map (lookup index f.entries) >>= λ a. second block a in
    let (block, s1, is_block, h1) = >>=-ok (index_map (lookup index blocks)) first s u g h in
    let (a, s2, is_entry, h2) =
      >>=-ok (index_map (lookup index f.entries)) (second block) s1 u g h1 in
    let (t, s3, flowed, h3) =
      >>=-ok (flow_statements control limits index block.statements a) (third block) s2 u g h2 in
    let (s4, fits, h4) = >>-ok (limit (at_end block t)) (edges block (at_end block t)) s3 u g h3 in
    let (advances, leads) =
      flow_edges-Advances control limits block index (at_end block t)
        (sort_by edge_less block.terminator.successors) f g s4 u h4 in
    (
      advances,
      (
        a,
        index_map-ok (lookup index f.entries) a s1 s2 is_entry,
        λ m other edge covers found mem live.
            let it : block ≡ other =
              the_same block other
                (sym (index_map-ok (lookup index blocks) block s s1 is_block) ∙ found) in
            subst (λ z. Holds g.entries edge.target (run_edge index z edge (run_block index z m)))
              it
              (leads edge
                (Mem-sort_by edge_less edge block.terminator.successors
                  (subst (λ z. Mem edge z.terminator.successors) (sym it) mem))
                live (run_block index block m)
                (Covers-transfer (terminator_effects block) (terminator index) t
                  (run_statements index block.statements m)
                  (flow_statements-Covers control limits index block.statements a t m s2 s3 flowed
                    covers))),
      ),
    )
  where
    the_same : (p q : CompilerBlock) → some p ≡ some q → p ≡ q
    the_same p q e = cc
