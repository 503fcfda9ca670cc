-- ===== src/Analysis/Dataflow/Tests.antt =====
-- A run of the reaching definitions (crates/analysis/src/dataflow.rs) on two blocks.
use ferrum_atlas.Prelude.{
  true, ℕ, List, [], ◌∷◌, ◌≡◌, refl, inl, false, none, some, Result, ok, err, lookup, ℕ_discrete,
  Bool, ◌⊎◌,
}
use ferrum_atlas.Prelude.Text.{codes, Text-discrete}
use ferrum_atlas.Model.{complete, Coverage}
use ferrum_atlas.Model.Compiler.{
  CompilerSourceMapping, CompilerLocal, CompilerLocalEffects, CompilerEdgeKind, CompilerSuccessor,
  CompilerBlock, CompilerBody, CompilerEdgeKind-discrete, CompilerUnknownEffect-discrete,
}
use ferrum_atlas.Analysis.Envelope.{AnalysisControl}
use ferrum_atlas.Analysis.Dataflow.Facts.{
  default_limits, statement, terminator, LocalDefinition-discrete, State, State-discrete, facts,
  define, define_all, clear_all, transfer, terminator_effects, new_report, LocalUse,
  ReachingDefinitions, validate_limits,
}
use ferrum_atlas.Analysis.Dataflow.Run.{
  limited, Run, Exit, check, limit_when, forget_missing, merge_values, join,
}
use ferrum_atlas.Analysis.Dataflow.Solve.{
  argument_state, flow_statements, leave, retain, merge_into, flow_edge, flow_edges, flow_block,
  solve,
}
use ferrum_atlas.Analysis.Dataflow.Emit.{
  emit_point, emit_points, emit_returns, emit_edges, emit_blocks,
}
use ferrum_atlas.Analysis.Dataflow.Report.{
  begin, Sizes, check_input, fit_response, emit, analyse, Outcome, reports, fails, panics,
  reaching_definitions,
}
use ferrum_atlas.Analysis.Dataflow.Reports.{IsBudgeted, IsEarly, reaching_definitions-IsBudgeted}
use ferrum_atlas.Analysis.Dataflow.Input.{
  check_blocks, check_block, check_effects, check_references, check_successors,
}
use ferrum_atlas.Analysis.Dataflow.Executions.{
  Memory, initial, run_block, run_edge, Arrives, starts, follows,
}
use ferrum_atlas.Analysis.Dataflow.Cover.{Covers}
use ferrum_atlas.Analysis.Dataflow.Advances.{Entries}
use ferrum_atlas.Analysis.Dataflow.Fixpoint.{solve-Covers}
use ferrum_atlas.Analysis.Dataflow.Uses.{here, Reported}
use ferrum_atlas.Analysis.Dataflow.Complete.{solve-emit_reports}

abbrev span : CompilerSourceMapping
span = CompilerSourceMapping.unavailable (codes "test")

abbrev no_effects : CompilerLocalEffects
no_effects = record {
  defs = [];
  uses = [];
  moves = [];
  storage_live = [];
  storage_dead = [];
  unknown_effects = [];
}

abbrev copy : ℕ → ℕ → CompilerLocalEffects
copy from to = record no_effects { defs = to ∷ []; uses = from ∷ [] }

abbrev block : ℕ → CompilerLocalEffects → List CompilerSuccessor → CompilerBlock
block index effects successors = record {
  index = index;
  is_cleanup = false;
  statements =
      record { index = 0; kind = codes "assign"; source_scope = 0; span = span; locals = effects }
      ∷ [];
  terminator = record {
    kind = codes "goto";
    source_scope = 0;
    span = span;
    locals = no_effects;
    normal_return_defs = [];
    successors = successors;
    unwind = none;
    call_target = none;
    assert_expected = none;
  };
}

abbrev edge : CompilerSuccessor
edge = record { target = 1; kind = CompilerEdgeKind.otherwise; switch_value = none }

-- `_2 = _1; goto bb1` and `_0 = _2`.
abbrev first_block : CompilerBlock
first_block = block 0 (copy 1 2) (edge ∷ [])

abbrev second_block : CompilerBlock
second_block = block 1 (copy 2 0) []

abbrev blocks : List (ℕ × CompilerBlock)
blocks = (0, first_block) ∷ (1, second_block) ∷ []

abbrev local : ℕ → CompilerLocal
local index = record {
  index = index;
  role = codes "temp";
  names = [];
  type_display = codes "u8";
  source_scope = 0;
  span = span;
}

abbrev body : CompilerBody
body = record {
  body_id = codes "body";
  def_path = codes "f";
  kind = codes "fn";
  span = span;
  argument_count = 1;
  locals = local 0 ∷ local 1 ∷ local 2 ∷ [];
  source_scopes = [];
  blocks = first_block ∷ second_block ∷ [];
}

abbrev control : AnalysisControl
control = record { cancelled = λ n. false; deadline_reached = λ n. false }

abbrev full_coverage : Coverage
full_coverage = record { status = complete; reasons = []; limitations = [] }

abbrev run : Run
run = begin body full_coverage

solved : Result Exit Entries × Run
unfolding default_limits
solved = solve control default_limits blocks 9 ((0, argument_state 1) ∷ []) (0 ∷ []) 2 run

abbrev entries_of : Result Exit Entries → Entries
entries_of (ok entries) = entries
entries_of (err e) = []

solve-solved :
    solve control default_limits blocks 9 ((0, argument_state 1) ∷ []) (0 ∷ []) 2 run
    ≡ (ok (entries_of solved.0), solved.1)
unfolding solved solve flow_block flow_statements flow_edges flow_edge merge_into retain join
    forget_missing merge_values check limit_when argument_state define define_all clear_all transfer
    terminator_effects facts leave default_limits ℕ_discrete Text-discrete CompilerEdgeKind-discrete
    State-discrete LocalDefinition-discrete CompilerUnknownEffect-discrete new_report
solve-solved = refl

arrives : Arrives 1 blocks 1 (run_edge 0 first_block edge (run_block 0 first_block (initial 1)))
unfolding ℕ_discrete
arrives = follows 0 (initial 1) first_block edge starts refl (inl refl) (λ same. cc)

solve-Covers_example :
    (t : State) × (lookup 1 (entries_of solved.0) ≡ some t)
    × Covers t (run_edge 0 first_block edge (run_block 0 first_block (initial 1)))
solve-Covers_example =
    solve-Covers control default_limits 1 blocks 9 (entries_of solved.0) 2 run solved.1 1
      (run_edge 0 first_block edge (run_block 0 first_block (initial 1))) solve-solved arrives

emitted : Result Exit (Unit {0}) × Run
unfolding default_limits
emitted = emit_blocks control default_limits blocks (entries_of solved.0) run

emit_blocks-emitted :
    emit_blocks control default_limits blocks (entries_of solved.0) run ≡ (ok tt, emitted.1)
unfolding emitted emit_blocks emit_points emit_point emit_returns emit_edges solved solve flow_block
    flow_statements flow_edges flow_edge merge_into retain join forget_missing merge_values check
    limit_when argument_state define define_all clear_all transfer terminator_effects facts leave
    default_limits ℕ_discrete Text-discrete CompilerEdgeKind-discrete State-discrete
    LocalDefinition-discrete CompilerUnknownEffect-discrete new_report
emit_blocks-emitted = refl

abbrev at_second : Memory
at_second = run_edge 0 first_block edge (run_block 0 first_block (initial 1))

solve-emit_reports_example : Reported emitted.1.report.uses (statement 1 0) 2 at_second
unfolding ℕ_discrete terminator_effects
solve-emit_reports_example =
    solve-emit_reports control default_limits 1 blocks 9 2 (entries_of solved.0) run solved.1 run
      emitted.1 1 second_block at_second (statement 1 0) (copy 2 0) at_second 2 solve-solved
      emit_blocks-emitted arrives refl
      (here (statement 1 0) (copy 2 0) ((terminator 1, terminator_effects second_block) ∷ [])
        at_second)
      (inl refl)

-- A budget that a report with uses does not fit.
abbrev without_uses : List LocalUse → Bool
without_uses [] = true
without_uses (u ∷ us) = false

abbrev sizes : Sizes
sizes = record { body_fits = true; report_fits = λ r. without_uses r.uses }

abbrev report_of : Outcome → ReachingDefinitions
report_of (reports r) = r
report_of (fails e) = run.report
report_of panics = run.report

withheld : ReachingDefinitions
unfolding default_limits
withheld = report_of (reaching_definitions control sizes body full_coverage default_limits)

reaching_definitions-withheld :
    reaching_definitions control sizes body full_coverage default_limits ≡ reports withheld
unfolding withheld reaching_definitions validate_limits analyse check_input check_blocks check_block
    check_effects check_references check_successors emit fit_response limited emit_blocks
    emit_points emit_point emit_returns emit_edges solve flow_block flow_statements flow_edges
    flow_edge merge_into retain join forget_missing merge_values check limit_when argument_state
    define define_all clear_all transfer terminator_effects facts leave default_limits ℕ_discrete
    Text-discrete CompilerEdgeKind-discrete State-discrete LocalDefinition-discrete
    CompilerUnknownEffect-discrete new_report
reaching_definitions-withheld = refl

reaching_definitions-IsBudgeted_example :
    IsBudgeted control sizes body full_coverage default_limits withheld
    ⊎ IsEarly control sizes body full_coverage default_limits withheld
reaching_definitions-IsBudgeted_example =
    reaching_definitions-IsBudgeted control sizes body full_coverage default_limits withheld
      reaching_definitions-withheld
