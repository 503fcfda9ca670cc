-- ===== src/Analysis/Dataflow/Executions.antt =====
-- What the reaching definitions of crates/analysis/src/dataflow.rs are about: the executions of a
-- body, each with the last assignment of every local.
use ferrum_atlas.Prelude.{
  ℕ, List, [], ◌∷◌, ◌++◌, ◌≡◌, ◌≢◌, Option, none, some, ◌==◌, nat_eq, lookup, Mem, if◌then◌else◌,
}
use ferrum_atlas.Model.Compiler.{
  CompilerUnknownEffect, CompilerLocalEffects, CompilerStatement, CompilerBlock, CompilerSuccessor,
  CompilerEdgeKind, edge_kind_eq,
}
use ferrum_atlas.Analysis.Dataflow.Facts.{
  MirPoint, statement, terminator, normal_return, entry, LocalDefinition, cleared,
  terminator_effects,
}
use ferrum_atlas.Analysis.Dataflow.Input.{range}

-- Where each local got its value, if it has one, and the unknown effects so far.
pub record Memory : Type 0 where
  pub defined : ℕ → Option LocalDefinition
  pub seen : List CompilerUnknownEffect

abbrev pub assign :
    ℕ → Option LocalDefinition → (ℕ → Option LocalDefinition) → ℕ → Option LocalDefinition
assign local value defined q = if q == local then value else defined q

abbrev pub Defined : Type 0
Defined = ℕ → Option LocalDefinition

unfoldable pub run_clear : List ℕ → Defined → Defined
run_clear [] d = d
run_clear (local ∷ locals) d = run_clear locals (assign local none d)

unfoldable pub run_define : MirPoint → List ℕ → Defined → Defined
run_define point [] d = d
run_define point (local ∷ locals) d =
    run_define point locals (assign local (some (record { local = local; point = point })) d)

unfoldable pub run_effects : CompilerLocalEffects → MirPoint → Memory → Memory
run_effects e point m = record {
  defined = run_define point e.defs (run_clear (cleared e) m.defined);
  seen = m.seen ++ e.unknown_effects;
}

unfoldable pub run_statements : ℕ → List CompilerStatement → Memory → Memory
run_statements block [] m = m
run_statements block (st ∷ sts) m =
    run_statements block sts (run_effects st.locals (statement block st.index) m)

unfoldable pub run_block : ℕ → CompilerBlock → Memory → Memory
run_block index block m =
    run_effects (terminator_effects block) (terminator index)
      (run_statements index block.statements m)

-- A call's destination is assigned on the edge of its normal return.
unfoldable pub run_edge : ℕ → CompilerBlock → CompilerSuccessor → Memory → Memory
run_edge index block edge m =
    if edge.kind == CompilerEdgeKind.normal
    then record m {
      defined =
          run_define (normal_return index edge.target) block.terminator.normal_return_defs
            m.defined;
    }
    else m

-- Nothing has a value at the entry but the arguments.
unfoldable pub initial : ℕ → Memory
initial argument_count = record {
  defined = run_define entry (range 1 argument_count) (λ q. none);
  seen = [];
}

-- An execution that stands at the entry of a block.
pub data Arrives (argument_count : ℕ) (blocks : List (ℕ × CompilerBlock))
    : ℕ → Memory → Type 0 where
  starts : Arrives argument_count blocks 0 (initial argument_count)
  follows :
      (index : ℕ) (m : Memory) (block : CompilerBlock) (edge : CompilerSuccessor)
      → Arrives argument_count blocks index m
      → lookup index blocks ≡ some block
      → Mem edge block.terminator.successors
      → edge.kind ≢ CompilerEdgeKind.imaginary
      → Arrives argument_count blocks edge.target
          (run_edge index block edge (run_block index block m))
