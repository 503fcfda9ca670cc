-- ===== src/Analysis/Graph/MetricsTests.antt =====
-- Runs of `analyze_graph` (crates/analysis/src/graph.rs) over two definitions and one call.
use ferrum_atlas.Prelude.{
  ℕ, ◌≡◌, refl, List, [], ◌∷◌, map, false, none, Result, ok, err, All, arith, ℕ_discrete,
}
use ferrum_atlas.Prelude.Text.{Text, codes, Text-discrete}
use ferrum_atlas.Model.{complete}
use ferrum_atlas.Model.Definitions.{Definition, active, CfgStatus-discrete, resolved}
use ferrum_atlas.Analysis.Envelope.{new_envelope, AnalysisError, invalid_input, AnalysisControl}
use ferrum_atlas.Analysis.Graph.Prepare.{
  SelectedGraph, AnalysisLimits, CallGraph, Prepared, validate_analysis_limits, scan_nodes,
  scan_edges, note_inactive, link_calls, retain, prepare,
}
use ferrum_atlas.Analysis.Graph.Path.{PathFailure, refused}
use ferrum_atlas.Analysis.Graph.Metrics.{scan_components, tally_sites, scan_metrics, distribution}
use ferrum_atlas.Analysis.Graph.Report.{
  GraphAnalysis, MetricsLibrary, find_components, tally, metrics, analyze_graph,
}
use ferrum_atlas.Analysis.Graph.Parts.{Summaries, HasNodes}
use ferrum_atlas.Analysis.Graph.Tallied.{IsCounted}
use ferrum_atlas.Analysis.Graph.Analyzed.{
  analyze_graph-Summaries, analyze_graph-IsCounted, analyze_graph-refused,
}

abbrev definition : Text → ℕ → Definition
definition id lines = record {
  id = id;
  context_id = codes "c";
  file_id = codes "f";
  name = id;
  qualified_name = id;
  kind = codes "fn";
  parent_id = none;
  signature = [];
  signature_hash = [];
  body_hash = [];
  span = record { file_id = codes "f"; start = 0; end = 1 };
  body_span = none;
  cfg = [];
  cfg_status = active;
  visibility = codes "pub";
  metrics = record { lines = lines; branches = 0; returns = 0; awaits = 0; unsafe_blocks = 0 };
}

abbrev input : SelectedGraph
input = record {
  nodes = definition (codes "a") 3 ∷ definition (codes "b") 7 ∷ [];
  edges =
      record {
        id = codes "r";
        source = codes "a";
        target = resolved (codes "b");
        kind = codes "calls";
        span = record { file_id = codes "f"; start = 0; end = 1 };
        evidence_id = codes "e";
      }
      ∷ [];
  coverage = record { status = complete; reasons = []; limitations = [] };
  input_truncated = false;
}

abbrev lib : MetricsLibrary
lib = record {
  input_bytes = λ i. 100;
  report_bytes = λ r. 100;
  kosaraju_scc = λ g. map (λ n. n.0 ∷ []) g.nodes;
  digest = λ members. codes "scc";
}

abbrev control : AnalysisControl
control = record { cancelled = λ n. false; deadline_reached = λ n. false }

abbrev limits : AnalysisLimits
limits = record {
  max_nodes = 10;
  max_edges = 10;
  max_visits = 10;
  max_depth = 8;
  max_response_bytes = 1000;
}

has_nodes : (g : CallGraph) → HasNodes (lib.kosaraju_scc g)
has_nodes g = go g.nodes
  where
    go : (nodes : List (Text × Definition)) → HasNodes (map (λ n. n.0 ∷ []) nodes)
    go [] = tt
    go (n ∷ nodes) = (omega arith, go nodes)

abbrev empty_report : GraphAnalysis
empty_report = record {
  envelope = new_envelope [] (record { status = complete; reasons = []; limitations = [] });
  selected_nodes = 0;
  selected_call_sites = 0;
  components = [];
  component_links = [];
  metrics = [];
  distributions = [];
  unknown_frontier = [];
}

abbrev report_or : Result PathFailure GraphAnalysis → GraphAnalysis
report_or (ok r) = r
report_or (err e) = empty_report

abbrev empty_prepared : Prepared
empty_prepared = record {
  graph = record { nodes = []; edges = [] };
  scan = record {
    envelope = new_envelope [] (record { status = complete; reasons = []; limitations = [] });
    clock = 0;
  };
  unknown = [];
  sites = [];
}

abbrev prepared_or : Result AnalysisError Prepared → Prepared
prepared_or (ok q) = q
prepared_or (err e) = empty_prepared

abbrev report : GraphAnalysis
report = report_or (analyze_graph lib input limits control)

abbrev prepared : Prepared
prepared =
    prepared_or
      (prepare lib.input_bytes input limits control (codes "selected-call-graph-scc-metrics-v1"))

reports : analyze_graph lib input limits control ≡ ok report
unfolding analyze_graph prepare validate_analysis_limits scan_nodes scan_edges retain note_inactive
    link_calls find_components scan_components tally tally_sites metrics scan_metrics distribution
    Text-discrete ℕ_discrete CfgStatus-discrete
reports = refl

prepares :
    prepare lib.input_bytes input limits control (codes "selected-call-graph-scc-metrics-v1")
    ≡ ok prepared
unfolding prepare validate_analysis_limits scan_nodes scan_edges retain note_inactive link_calls
    Text-discrete ℕ_discrete CfgStatus-discrete
prepares = refl

analyze_graph-Summaries_example : Summaries report.metrics report.distributions
analyze_graph-Summaries_example = analyze_graph-Summaries lib input limits control report reports

analyze_graph-IsCounted_example :
    All (IsCounted prepared) report.metrics
    × (map (λ m. m.definition_id) report.metrics ≡ map (λ n. n.0) prepared.graph.nodes)
analyze_graph-IsCounted_example =
    analyze_graph-IsCounted lib input limits control report prepared (λ n. refl) prepares reports

abbrev tight : AnalysisLimits
tight = record limits { max_nodes = 0 }

abbrev message : Text
message =
    codes
      "limits require 1..10000 nodes/visits, 1..50000 edges, depth <=64 and 256..2097152 response bytes"

refuses : analyze_graph lib input tight control ≡ err (refused (invalid_input message))
unfolding analyze_graph prepare validate_analysis_limits
refuses = refl

analyze_graph-refused_example : (e : AnalysisError) × (refused (invalid_input message) ≡ refused e)
analyze_graph-refused_example =
    analyze_graph-refused lib input tight control (refused (invalid_input message)) has_nodes
      refuses
