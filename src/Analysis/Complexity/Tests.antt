-- ===== src/Analysis/Complexity/Tests.antt =====
-- Runs of the cyclomatic measure (crates/analysis/src/compiler_complexity.rs) on two blocks.
use ferrum_atlas.Prelude.{
  ◌≡◌, refl, ℕ, List, [], ◌∷◌, false, none, some, Option, Result, ok, err, ℕ_discrete,
}
use ferrum_atlas.Prelude.Text.{Text, codes, Text-discrete}
use ferrum_atlas.Model.{complete, Status-discrete}
use ferrum_atlas.Model.Compiler.{
  CompilerSourceMapping, CompilerUnwind, continue_unwind, CompilerEdgeKind, CompilerSuccessor,
  CompilerBlock, CompilerEdgeKind-discrete,
}
use ferrum_atlas.Model.Flow.{CompilerFlowPage}
use ferrum_atlas.Analysis.Envelope.{note_partial, AnalysisControl, invalid_input}
use ferrum_atlas.Analysis.Complexity.Report.{
  CompilerComplexity, CfgComplexityMetrics, Library, Failure, refused, finish, new_complexity,
  limited, unsupported, withheld, check, default_complexity_limits,
}
use ferrum_atlas.Analysis.Complexity.Measure.{
  analyze_compiler_complexity, analyze_flow, are_valid_limits, is_whole, is_available, read_blocks,
  measure_graph, link_blocks, link_edges, visit, tally_blocks, tally_block, exit_kind, external,
  with_locations, measure, counts_message,
}
use ferrum_atlas.Analysis.Complexity.Shape.{
  add_switch, read_switches, read_switch, check_unwind, is_valid_kind, validate_graph_term,
}
use ferrum_atlas.Analysis.Complexity.Blocks.{find_block}
use ferrum_atlas.Analysis.Complexity.Cyclomatic.{IsMeasure}
use ferrum_atlas.Analysis.Complexity.Correct.{
  analyze_compiler_complexity-IsMeasure, analyze_compiler_complexity-is_internal,
}
use ferrum_atlas.Analysis.Complexity.Ends.{is_internal}
use ferrum_atlas.Analysis.Complexity.Search.{search_from, search_from-IsDfs}

abbrev span : CompilerSourceMapping
span = CompilerSourceMapping.unavailable (codes "test")

abbrev kind_of : Option CompilerUnwind → Text
kind_of none = codes "return"
kind_of (some unwind) = codes "call"

abbrev block : ℕ → List CompilerSuccessor → Option CompilerUnwind → CompilerBlock
block index successors unwind = record {
  index = index;
  is_cleanup = false;
  statements = [];
  terminator = record {
    kind = kind_of unwind;
    source_scope = 0;
    span = span;
    locals = record {
      defs = [];
      uses = [];
      moves = [];
      storage_live = [];
      storage_dead = [];
      unknown_effects = [];
    };
    normal_return_defs = [];
    successors = successors;
    unwind = unwind;
    call_target = none;
    assert_expected = none;
  };
}

abbrev to_block : ℕ → CompilerSuccessor
to_block target = record { target = target; kind = CompilerEdgeKind.normal; switch_value = none }

-- A page of the given blocks.
abbrev page_of : List CompilerBlock → ℕ → CompilerFlowPage
page_of blocks total = record {
  snapshot_id = codes "s";
  context_id = codes "c";
  import_id = codes "i";
  definition_id = codes "d";
  compiler = record {
    adapter = [];
    adapter_version = [];
    release = [];
    commit_hash = [];
    commit_date = [];
    host = [];
    llvm_version = [];
  };
  phase = codes "runtime_optimized";
  input_manifest_hash = codes "h";
  panic_strategy = codes "unwind";
  body = record {
    body_id = codes "body";
    def_path = codes "f";
    kind = codes "fn";
    span = span;
    argument_count = 0;
    locals = [];
    source_scopes = [];
    blocks = blocks;
  };
  offset = 0;
  total_blocks = total;
  next_offset = none;
  coverage = record { status = complete; reasons = []; limitations = [] };
}

abbrev lib : Library
lib = record {
  page_bytes = λ p. 500;
  report_bytes = λ r. 900;
  digest = λ v p l. v;
  dfs = search_from;
}

abbrev control : AnalysisControl
control = record { cancelled = λ n. false; deadline_reached = λ n. false }

-- A call that may unwind and returns to itself or, in block 1, does not return.
abbrev looping : CompilerFlowPage
looping = page_of (block 0 (to_block 0 ∷ []) (some continue_unwind) ∷ []) 1

abbrev no_entry : CompilerFlowPage
no_entry = page_of (block 1 [] none ∷ []) 1

abbrev metrics_of : Result Failure CompilerComplexity → Option CfgComplexityMetrics
metrics_of (ok report) = report.metrics
metrics_of (err failure) = none

abbrev expected : CfgComplexityMetrics
expected = record {
  nodes = 2;
  edges = 2;
  components = 1;
  cyclomatic = 2;
  runtime_blocks = 1;
  runtime_edges = 1;
  synthetic_exit_edges = 1;
  excluded_imaginary_edges = 0;
}

abbrev report_or : CompilerComplexity → Result Failure CompilerComplexity → CompilerComplexity
report_or r (ok report) = report
report_or r (err failure) = r

run : CompilerFlowPage → Result Failure CompilerComplexity
run page = analyze_compiler_complexity lib page default_complexity_limits control

published : CompilerComplexity
published = report_or (new_complexity lib looping default_complexity_limits) (run looping)

runs : run looping ≡ ok published
unfolding run published analyze_compiler_complexity analyze_flow are_valid_limits is_whole
    is_available new_complexity check read_blocks validate_graph_term read_switches read_switch
    check_unwind is_valid_kind measure_graph link_blocks link_edges search_from visit tally_blocks
    tally_block exit_kind external with_locations measure finish Text-discrete Status-discrete
    CompilerEdgeKind-discrete ℕ_discrete limited unsupported withheld note_partial counts_message
    add_switch
runs = refl

metrics : published.metrics ≡ some expected
unfolding run published analyze_compiler_complexity analyze_flow are_valid_limits is_whole
    is_available new_complexity check read_blocks validate_graph_term read_switches read_switch
    check_unwind is_valid_kind measure_graph link_blocks link_edges search_from visit tally_blocks
    tally_block exit_kind external with_locations measure finish Text-discrete Status-discrete
    CompilerEdgeKind-discrete ℕ_discrete limited unsupported withheld note_partial counts_message
    add_switch
metrics = refl

analyze_compiler_complexity-IsMeasure_example :
    IsMeasure (λ k. find_block k looping.body.blocks) expected
unfolding run
analyze_compiler_complexity-IsMeasure_example =
    analyze_compiler_complexity-IsMeasure lib looping default_complexity_limits control published
      expected search_from-IsDfs runs metrics

missing : Failure
missing = refused (invalid_input (codes "compiler CFG has no entry block bb0"))

refuses : run no_entry ≡ err missing
unfolding run missing analyze_compiler_complexity analyze_flow are_valid_limits is_whole
    is_available new_complexity check read_blocks validate_graph_term read_switches read_switch
    check_unwind is_valid_kind measure_graph link_blocks link_edges search_from visit tally_blocks
    tally_block exit_kind external with_locations measure finish Text-discrete Status-discrete
    CompilerEdgeKind-discrete ℕ_discrete limited unsupported withheld note_partial counts_message
    add_switch
refuses = refl

analyze_compiler_complexity-is_internal_example : is_internal missing ≡ false
unfolding run
analyze_compiler_complexity-is_internal_example =
    analyze_compiler_complexity-is_internal lib no_entry default_complexity_limits control missing
      search_from-IsDfs refuses
