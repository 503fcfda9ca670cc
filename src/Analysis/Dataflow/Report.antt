-- ===== src/Analysis/Dataflow/Report.antt =====
-- crates/analysis/src/dataflow.rs: `reaching_definitions`.
use ferrum_atlas.Prelude.{
  ℕ, ◌+◌, List, [], ◌∷◌, Bool, true, not, ◌&&◌, ◌||◌, Result, ok, err, length, ltb, leb, ◌==◌,
  nat_eq, set_extend, if◌then◌else◌,
}
use ferrum_atlas.Prelude.Text.{Text, codes}
use ferrum_atlas.Model.{Coverage}
use ferrum_atlas.Model.Compiler.{CompilerBlock, CompilerBody}
use ferrum_atlas.Analysis.Envelope.{AnalysisError, invalid_input, budget_exhausted, AnalysisControl}
use ferrum_atlas.Analysis.Dataflow.Facts.{
  DataflowLimits, validate_limits, entry, local_definition_eq, local_definition_ord,
  ReachingDefinitions, new_report, State, facts,
}
use ferrum_atlas.Analysis.Dataflow.Run.{
  Run, Exit, returned, broken, panicked, exhausted, invalid, M, ◌>>=◌, ◌>>◌, pure, exit, get, when,
  labelled, edit, limited, check, limit_when,
}
use ferrum_atlas.Analysis.Dataflow.Input.{
  add_blocks, add_locals, range, is_well_formed, check_blocks,
}
use ferrum_atlas.Analysis.Dataflow.Solve.{argument_state, solve}
use ferrum_atlas.Analysis.Dataflow.Emit.{definitions_at, change, emit_blocks}

-- What `byte_budget` answers, which counts the bytes of the JSON form: for the body and 32 MiB, and
-- for a report and `max_response_bytes`.
pub record Sizes : Type 0 where
  pub body_fits : Bool
  pub report_fits : ReachingDefinitions → Bool

abbrev pub blocks_of : CompilerBody → List (ℕ × CompilerBlock)
blocks_of body = add_blocks [] body.blocks

abbrev pub is_zero : ℕ → Bool
is_zero n = n == 0

-- Everything before the worklist; the blocks by their index are its result.
unfoldable pub check_input :
    AnalysisControl → Sizes → CompilerBody → DataflowLimits → M (List (ℕ × CompilerBlock))
check_input control sizes body limits = do
  check control returned
  limit_when
      (ltb limits.max_blocks (length body.blocks) || ltb limits.max_locals (length body.locals))
      (codes "Selected body exceeds the block or local budget") returned
  limit_when (not sizes.body_fits) (codes "Selected compiler body exceeds the 32 MiB input budget")
      returned
  when (is_zero (length body.blocks) || is_zero (length body.locals))
      (exit (invalid (codes "a MIR body requires an entry block and a return local")))
  let blocks = blocks_of body
  let locals = add_locals [] body.locals
  when (not (is_well_formed body blocks locals))
      (exit (invalid (codes "duplicate or missing entry block, return local, or argument local")))
  n ← check_blocks control limits blocks locals (length blocks + length locals) blocks
  limit_when (ltb limits.max_facts (facts (argument_state body.argument_count)))
      (codes "Argument state exceeds the retained fact budget") returned
  pure blocks

abbrev pub keys : List (ℕ × State) → List ℕ
keys [] = []
keys ((index, s) ∷ entries) = index ∷ keys entries

abbrev pub begin_output : ℕ → List (ℕ × State) → Run → Run
begin_output count entries r =
    let arguments = set_extend [] (definitions_at entry (range 1 count)) in
    record r {
      report = record r.report { fixed_point = true; reachable_blocks = keys entries };
      definitions = arguments;
      output_facts = length arguments + length entries;
    }

abbrev pub withhold : ReachingDefinitions → ReachingDefinitions
withhold r = record r {
  definitions = [];
  uses = [];
  unknown_memory_effects = [];
  reachable_blocks = [];
}

-- The response budget: claims are withheld if they do not fit.
unfoldable pub fit_response : Sizes → M (Unit {0})
fit_response sizes = do
  run ← get
  when (not (sizes.report_fits run.report)) (do
    edit withhold
    edit (limited (codes "Reaching-definition response exceeds the byte budget; claims withheld"))
    last ← get
    when (not (sizes.report_fits last.report)) (exit exhausted))

unfoldable pub emit :
    AnalysisControl
    → Sizes
    → CompilerBody
    → DataflowLimits
    → List (ℕ × CompilerBlock)
    → List (ℕ × State)
    → M (Unit {0})
emit control sizes body limits blocks entries = do
  change (begin_output body.argument_count entries)
  labelled (emit_blocks control limits blocks entries)
  change (λ r. record r { report = record r.report { definitions = r.definitions } })
  fit_response sizes

unfoldable pub analyse : AnalysisControl → Sizes → CompilerBody → DataflowLimits → M (Unit {0})
analyse control sizes body limits = do
  blocks ← check_input control sizes body limits
  let start = argument_state body.argument_count
  entries ←
      solve control limits blocks limits.max_iterations ((0, start) ∷ []) (0 ∷ []) (facts start)
  emit control sizes body limits blocks entries

pub data Outcome : Type 0 where
  reports : ReachingDefinitions → Outcome
  fails : AnalysisError → Outcome
  panics : Outcome

abbrev pub outcome : Result Exit (Unit {0}) × Run → Outcome
outcome (ok done, s) = reports s.report
outcome (err returned, s) = reports s.report
outcome (err (invalid message), s) = fails (invalid_input message)
outcome (err exhausted, s) = fails budget_exhausted
outcome (err broken, s) = panics
outcome (err panicked, s) = panics

abbrev pub begin : CompilerBody → Coverage → Run
begin body coverage = record {
  report = new_report body coverage;
  definitions = [];
  output_facts = 0;
  clock = 0;
}

abbrev pub is_body_id : Text → Bool
is_body_id text = leb 1 (length text) && leb (length text) 256

unfoldable pub reaching_definitions :
    AnalysisControl → Sizes → CompilerBody → Coverage → DataflowLimits → Outcome
reaching_definitions control sizes body coverage limits = elim (validate_limits limits) [
  | err e ↦ fails e
  | ok valid ↦
      if is_body_id body.body_id
      then outcome (analyse control sizes body limits (begin body coverage))
      else fails (invalid_input (codes "compiler body identity must contain 1..256 bytes"))
]
