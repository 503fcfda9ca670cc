-- ===== src/Analysis/Complexity/Report.antt =====
-- crates/analysis/src/compiler_complexity.rs: limits, the report, and how the analysis ends.
use ferrum_atlas.Prelude.{
  ℕ, suc, List, [], ◌∷◌, ◌++◌, Bool, true, false, Option, none, Result, ok, err, bind, ensure, leb,
  if◌then◌else◌,
}
use ferrum_atlas.Prelude.Text.{Text, codes}
use ferrum_atlas.Model.{UnknownReason, unsupported_construct}
use ferrum_atlas.Model.Compiler.{CompilerSourceMapping}
use ferrum_atlas.Model.Flow.{CompilerFlowPage, CompilerIdentity}
use ferrum_atlas.Analysis.Trace.Compare.{to_string}
use ferrum_atlas.Analysis.Envelope.{
  AnalysisError, invalid_input, budget_exhausted, AnalysisControl, stopped_at, AnalysisEnvelope,
  new_envelope, note_partial, stop_envelope,
}

pub record CompilerComplexityLimits : Type 0 where
  pub max_blocks : ℕ
  pub max_edges : ℕ
  pub max_response_bytes : ℕ

abbrev pub default_complexity_limits : CompilerComplexityLimits
default_complexity_limits = record {
  max_blocks = 200;
  max_edges = 2000;
  max_response_bytes = 262144;
}

pub record CfgComplexityMetrics : Type 0 where
  pub nodes : ℕ
  pub edges : ℕ
  pub components : ℕ
  pub cyclomatic : ℕ
  pub runtime_blocks : ℕ
  pub runtime_edges : ℕ
  pub synthetic_exit_edges : ℕ
  pub excluded_imaginary_edges : ℕ

pub record CfgExitSite : Type 0 where
  pub block : ℕ
  pub kind : Text
  pub span : CompilerSourceMapping

pub record CompilerComplexity : Type 0 where
  pub envelope : AnalysisEnvelope
  pub input_digest : Text
  pub definition_id : Text
  pub import_id : Text
  pub body_id : Text
  pub compiler : CompilerIdentity
  pub phase : Text
  pub input_manifest_hash : Text
  pub panic_strategy : Text
  pub body_span : CompilerSourceMapping
  pub formula : Text
  pub metrics : Option CfgComplexityMetrics
  pub locations_truncated : Bool
  pub reachable_blocks : List ℕ
  pub unreachable_blocks : List ℕ
  pub exit_sites : List CfgExitSite

-- A directed multigraph of block indices.
pub record Graph : Type 0 where
  pub nodes : List ℕ
  pub edges : List (ℕ × ℕ)

-- What other code answers: the sizes that `byte_budget` counts in the JSON form, the hash of the
-- input, and the order in which petgraph's `Dfs` visits a graph from a node.
pub record Library : Type 0 where
  pub page_bytes : CompilerFlowPage → ℕ
  pub report_bytes : CompilerComplexity → ℕ
  pub digest : Text → CompilerFlowPage → CompilerComplexityLimits → Text
  pub dfs : Graph → ℕ → List ℕ

-- An error that the function returns, or a panic: an index that is missing, or an integer that
-- overflows.
pub data Failure : Type 0 where
  refused : AnalysisError → Failure
  panicked : Failure

-- A loop goes on with a value, or the function returns: `finish(report, limits)`, or a failure.
pub data Leave : Type 0 where
  finished : CompilerComplexity → Leave
  failed : Failure → Leave

abbrev pub Flow : Type 0 → Type 0
Flow A = Result Leave A

infixl 5 ◌>>=◌ ◌>>◌
abbrev pub ◌>>=◌ : {A B : Type 0} → Flow A → (A → Flow B) → Flow B
m >>= f = bind m f

abbrev pub ◌>>◌ : {B : Type 0} → Flow (Unit {0}) → Flow B → Flow B
m >> k = bind m λ _. k

abbrev pub invalid : Text → Failure
invalid message = refused (invalid_input message)

-- `if !test { return Err(invalid(message)) }`.
abbrev pub require : Bool → Text → Flow (Unit {0})
require test message = ensure test (failed (invalid message))

unfoldable pub limited : CompilerComplexity → Text → CompilerComplexity
limited report message = record report {
  envelope =
      note_partial UnknownReason.budget_exhausted message
        (record report.envelope { truncated = true });
}

unfoldable pub unsupported : CompilerComplexity → Text → CompilerComplexity
unsupported report message = record report {
  envelope = note_partial unsupported_construct message report.envelope;
}

unfoldable pub withheld : CompilerComplexity → CompilerComplexity
withheld report = record report {
  reachable_blocks = [];
  unreachable_blocks = [];
  exit_sites = [];
  locations_truncated = true;
  envelope =
      note_partial UnknownReason.budget_exhausted
        (codes
          "CFG location records withheld by response byte budget; completed counts remain separate")
        report.envelope;
}

unfoldable pub finish :
    Library → CompilerComplexityLimits → CompilerComplexity → Result Failure CompilerComplexity
finish lib limits report =
    let small = withheld report in
    if leb (lib.report_bytes report) limits.max_response_bytes
    then ok report
    else bind
        (ensure (leb (lib.report_bytes small) limits.max_response_bytes) (refused budget_exhausted))
        λ _. ok small

-- `if control.stopped() { report.envelope.stop(control); return finish(report, limits); }`, where
-- `clock` numbers the readings of the control.
unfoldable pub check : AnalysisControl → ℕ → CompilerComplexity → Flow (Unit {0})
check control clock report =
    if stopped_at control clock
    then err
        (finished (record report { envelope = stop_envelope control (suc clock) report.envelope }))
    else ok tt

unfoldable pub assumptions : CompilerComplexityLimits → List Text
assumptions limits =
    codes
      "A complete validated compiler body is required; compiler trust, source mapping and MIR effects remain the importer responsibility"
    ∷ codes
        "Only bb0-reachable blocks participate; runtime successor alternatives remain parallel multigraph edges even when targets coincide"
    ∷ codes
        "Imaginary edges and false_unwind cleanup alternatives are excluded; excluded-edge count covers reachable source blocks only"
    ∷ codes
        "Each block with external Continue/Terminate unwind contributes one synthetic-exit edge; otherwise a terminal leaf contributes one edge; false_unwind metadata is excluded"
    ∷ codes
        "A terminal leaf may be unreachable, tail call, nonreturning call or assembly: its synthetic edge does not assert return or termination"
    ∷ codes
        "N includes the synthetic exit, E includes its edges, P=1 for the entry-reachable connected graph; no exit endpoint means value unavailable"
    ∷ codes
        "No implicit execution paths or hidden assembly/external effects are added; this measure is distinct from source-flow branches and nesting"
    ∷ (codes "Configured limits: "
        ++ to_string limits.max_blocks
        ++ codes " blocks, "
        ++ to_string limits.max_edges
        ++ codes " normalized edges and "
        ++ to_string limits.max_response_bytes
        ++ codes " response bytes")
    ∷ []

abbrev pub version : Text
version = codes "compiler-cyclomatic-v1"

unfoldable pub new_complexity :
    Library → CompilerFlowPage → CompilerComplexityLimits → CompilerComplexity
new_complexity lib page limits = record {
  envelope =
      record (note_partial unsupported_construct
        (codes
          "Structural measure of the selected imported CFG, not execution feasibility, termination, or code quality")
        (new_envelope version page.coverage)) { assumptions = assumptions limits };
  input_digest = lib.digest version page limits;
  definition_id = page.definition_id;
  import_id = page.import_id;
  body_id = page.body.body_id;
  compiler = page.compiler;
  phase = page.phase;
  input_manifest_hash = page.input_manifest_hash;
  panic_strategy = page.panic_strategy;
  body_span = page.body.span;
  formula = codes "E - N + 2P";
  metrics = none;
  locations_truncated = false;
  reachable_blocks = [];
  unreachable_blocks = [];
  exit_sites = [];
}
