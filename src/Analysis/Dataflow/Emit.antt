-- ===== src/Analysis/Dataflow/Emit.antt =====
-- crates/analysis/src/dataflow.rs: the emission of uses, definitions and unknown effects.
use ferrum_atlas.Prelude.{
  ℕ, suc, ◌+◌, List, [], ◌∷◌, ◌++◌, Bool, true, false, not, ◌||◌, ◌==◌, nat_eq, nat_ord, length,
  map, ltb, lookup, set_extend,
}
use ferrum_atlas.Prelude.Text.{Text, codes}
use ferrum_atlas.Model.Compiler.{
  CompilerUnknownEffect, unknown_effect_eq, unknown_effect_ord, CompilerLocalEffects, CompilerBlock,
  CompilerSuccessor, CompilerEdgeKind, edge_kind_eq,
}
use ferrum_atlas.Analysis.Envelope.{AnalysisControl}
use ferrum_atlas.Analysis.Dataflow.Facts.{
  DataflowLimits, MirPoint, statement, terminator, normal_return, LocalDefinition,
  local_definition_eq, local_definition_ord, LocalUse, State, value_of, transfer,
  terminator_effects,
}
use ferrum_atlas.Analysis.Dataflow.Run.{
  Run, M, ◌>>=◌, ◌>>◌, pure, get, put, when, broken, unsupported, check, limit_when,
}
use ferrum_atlas.Analysis.Dataflow.Solve.{index_map}

-- The points of a block, in the order of their execution.
abbrev pub points : ℕ → CompilerBlock → List (MirPoint × CompilerLocalEffects)
points index block =
    map (λ s. (statement index s.index, s.locals)) block.statements
    ++ (terminator index, terminator_effects block) ∷ []

abbrev pub is_empty : List CompilerUnknownEffect → Bool
is_empty [] = true
is_empty (e ∷ es) = false

abbrev pub used_locals : CompilerLocalEffects → List ℕ
used_locals effects = set_extend [] (effects.uses ++ effects.moves)

abbrev pub use_facts : State → List ℕ → ℕ
use_facts s [] = 0
use_facts s (local ∷ locals) = 1 + length (value_of local s).definitions + use_facts s locals

abbrev pub local_use : MirPoint → CompilerLocalEffects → State → ℕ → LocalUse
local_use point effects s local = record {
  local = local;
  point = point;
  reaching = (value_of local s).definitions;
  may_be_uninitialized = (value_of local s).uninitialized;
  possibly_changed_by_unknown_memory =
      not (is_empty s.unknown) || not (is_empty effects.unknown_effects);
}

abbrev pub output_budget : Text
output_budget = codes "Reaching-definition output exceeds the fact budget"

abbrev pub unresolved : Text
unresolved = codes "Unknown call, pointer, alias, or external memory effects remain unresolved"

abbrev pub definitions_at : MirPoint → List ℕ → List LocalDefinition
definitions_at point locals = map (λ local. record { local = local; point = point }) locals

abbrev pub push_uses : ℕ → List LocalUse → Run → Run
push_uses total uses r = record r {
  output_facts = total;
  report = record r.report { uses = r.report.uses ++ uses };
}

abbrev pub push_unknown : MirPoint → List CompilerUnknownEffect → Run → Run
push_unknown point effects r = record r {
  report = record r.report {
    unknown_memory_effects =
        r.report.unknown_memory_effects
        ++ record { point = point; effects = set_extend [] effects } ∷ [];
  };
}

abbrev pub push_definitions : List LocalDefinition → Run → Run
push_definitions definitions r = record r { definitions = set_extend r.definitions definitions }

abbrev pub change : (Run → Run) → M (Unit {0})
change f = get >>= λ r. put (f r)

unfoldable pub emit_point :
    AnalysisControl → DataflowLimits → MirPoint → CompilerLocalEffects → State → M State
emit_point control limits point effects s = do
  check control broken
  run ← get
  let used = used_locals effects
  let extra = use_facts s used + length effects.defs + length effects.unknown_effects
  let total = run.output_facts + extra
  limit_when (ltb limits.max_facts total) output_budget broken
  change (push_uses total (map (local_use point effects s) used))
  when (not (is_empty effects.unknown_effects))
      (do change (push_unknown point effects.unknown_effects); unsupported unresolved)
  change (push_definitions (definitions_at point effects.defs))
  pure (transfer effects point s)

unfoldable pub emit_points :
    AnalysisControl → DataflowLimits → List (MirPoint × CompilerLocalEffects) → State → M (Unit {0})
emit_points control limits [] s = pure tt
emit_points control limits ((point, effects) ∷ rest) s = do
  t ← emit_point control limits point effects s
  emit_points control limits rest t

unfoldable pub emit_returns : DataflowLimits → MirPoint → List ℕ → M (Unit {0})
emit_returns limits point [] = pure tt
emit_returns limits point (local ∷ locals) = do
  change (λ r. record r { output_facts = suc r.output_facts })
  run ← get
  limit_when (ltb limits.max_facts run.output_facts) output_budget broken
  change (push_definitions (record { local = local; point = point } ∷ []))
  emit_returns limits point locals

unfoldable pub emit_edges :
    DataflowLimits → ℕ → CompilerBlock → List CompilerSuccessor → M (Unit {0})
emit_edges limits index block [] = pure tt
emit_edges limits index block (edge ∷ edges) = do
  when (edge.kind == CompilerEdgeKind.normal)
      (emit_returns limits (normal_return index edge.target) block.terminator.normal_return_defs)
  emit_edges limits index block edges

unfoldable pub emit_blocks :
    AnalysisControl → DataflowLimits → List (ℕ × CompilerBlock) → List (ℕ × State) → M (Unit {0})
emit_blocks control limits blocks [] = pure tt
emit_blocks control limits blocks ((index, s) ∷ entries) = do
  block ← index_map (lookup index blocks)
  emit_points control limits (points index block) s
  emit_edges limits index block block.terminator.successors
  emit_blocks control limits blocks entries
