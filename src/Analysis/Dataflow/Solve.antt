-- ===== src/Analysis/Dataflow/Solve.antt =====
-- crates/analysis/src/dataflow.rs: the worklist of `reaching_definitions`.
use ferrum_atlas.Prelude.{
  ℕ, zero, suc, ◌+◌, ◌-◌, List, [], ◌∷◌, true, Option, none, some, ltb, ◌==◌, nat_eq, nat_ord,
  lookup, insert, set_insert, sort_by, if◌then◌else◌,
}
use ferrum_atlas.Prelude.Text.{Text, codes}
use ferrum_atlas.Model.Compiler.{
  CompilerStatement, CompilerBlock, CompilerSuccessor, CompilerEdgeKind, edge_kind_eq,
}
use ferrum_atlas.Analysis.Envelope.{AnalysisControl}
use ferrum_atlas.Analysis.Dataflow.Facts.{
  DataflowLimits, statement, terminator, normal_return, State, state_eq, empty_state, entry, facts,
  define_all, transfer, terminator_effects, edge_less,
}
use ferrum_atlas.Analysis.Dataflow.Input.{range}
use ferrum_atlas.Analysis.Dataflow.Run.{
  M, ◌>>=◌, ◌>>◌, pure, exit, edit, returned, panicked, check, limit_when, join,
}

-- The states at the entries of the blocks, the worklist, and the facts that the states hold.
pub record Flow : Type 0 where
  pub entries : List (ℕ × State)
  pub worklist : List ℕ
  pub retained : ℕ

-- `map[&index]`.
abbrev pub index_map {ℓ} : {V : Type ℓ} → Option V → M V
index_map none = exit panicked
index_map (some v) = pure v

-- The arguments are defined at the entry.
unfoldable pub argument_state : ℕ → State
argument_state count = define_all entry (range 1 count) empty_state

unfoldable pub flow_statements :
    AnalysisControl → DataflowLimits → ℕ → List CompilerStatement → State → M State
flow_statements control limits block [] s = pure s
flow_statements control limits block (st ∷ sts) s = do
  check control returned
  let t = transfer st.locals (statement block st.index) s
  limit_when (ltb limits.max_facts (facts t))
      (codes "Transfer state exceeds the abstract-state fact budget") returned
  flow_statements control limits block sts t

-- The state that leaves a block by an edge.
unfoldable pub leave : CompilerBlock → ℕ → CompilerSuccessor → State → State
leave block index edge s =
    if edge.kind == CompilerEdgeKind.normal
    then define_all (normal_return index edge.target) block.terminator.normal_return_defs s
    else s

unfoldable pub retain : DataflowLimits → ℕ → ℕ → State → Flow → M Flow
retain limits target previous_facts outgoing f = do
  let retained = f.retained - previous_facts + facts outgoing
  limit_when (ltb limits.max_facts retained)
      (codes "Reaching-definition states exceed the retained fact budget") returned
  pure (record {
    entries = insert target outgoing f.entries;
    worklist = set_insert target f.worklist;
    retained = retained;
  })

unfoldable pub merge_into :
    AnalysisControl → DataflowLimits → ℕ → State → Option State → Flow → M Flow
merge_into control limits target outgoing none f = retain limits target 0 outgoing f
merge_into control limits target outgoing (some previous) f = do
  merged ← join control previous outgoing
  if merged == previous then pure f else retain limits target (facts previous) merged f

unfoldable pub flow_edge :
    AnalysisControl → DataflowLimits → CompilerBlock → ℕ → State → CompilerSuccessor → Flow → M Flow
flow_edge control limits block index s edge f =
    if edge.kind == CompilerEdgeKind.imaginary then pure f else (do
      check control returned
      merge_into control limits edge.target (leave block index edge s)
          (lookup edge.target f.entries) f)

unfoldable pub flow_edges :
    AnalysisControl
    → DataflowLimits
    → CompilerBlock
    → ℕ
    → State
    → List CompilerSuccessor
    → Flow
    → M Flow
flow_edges control limits block index s [] f = pure f
flow_edges control limits block index s (edge ∷ edges) f = do
  g ← flow_edge control limits block index s edge f
  flow_edges control limits block index s edges g

-- One block of the worklist.
unfoldable pub flow_block :
    AnalysisControl → DataflowLimits → List (ℕ × CompilerBlock) → ℕ → Flow → M Flow
flow_block control limits blocks index f = do
  block ← index_map (lookup index blocks)
  s ← index_map (lookup index f.entries)
  t ← flow_statements control limits index block.statements s
  let out = transfer (terminator_effects block) (terminator index) t
  limit_when (ltb limits.max_facts (facts out))
      (codes "Terminator state exceeds the abstract-state fact budget") returned
  flow_edges control limits block index out (sort_by edge_less block.terminator.successors) f

abbrev pub not_converged : Text
not_converged = codes "Reaching definitions did not converge within the iteration budget"

-- The `while` loop; the first argument is what is left of `max_iterations`.
unfoldable pub solve :
    AnalysisControl
    → DataflowLimits
    → List (ℕ × CompilerBlock)
    → ℕ
    → List (ℕ × State)
    → List ℕ
    → ℕ
    → M (List (ℕ × State))
solve control limits blocks left entries [] retained = pure entries
solve control limits blocks zero entries (index ∷ rest) retained = do
  check control returned
  limit_when true not_converged returned
  exit returned
solve control limits blocks (suc left) entries (index ∷ rest) retained = do
  check control returned
  edit (λ r. record r { iterations = suc r.iterations })
  f ←
      flow_block control limits blocks index
        (record { entries = entries; worklist = rest; retained = retained })
  solve control limits blocks left f.entries f.worklist f.retained
