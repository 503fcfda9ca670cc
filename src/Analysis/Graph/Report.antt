-- ===== src/Analysis/Graph/Report.antt =====
-- crates/analysis/src/graph.rs: `analyze_graph`.
use ferrum_atlas.Prelude.{
  ℕ, List, [], ◌∷◌, map, Option, none, some, Result, ok, bind, ensure, ok_or, length, sort_by, leb,
  if◌then◌else◌, ◌++◌,
}
use ferrum_atlas.Prelude.Text.{Text, codes}
use ferrum_atlas.Prelude.Words.{as_u32}
use ferrum_atlas.Analysis.Envelope.{budget_exhausted, AnalysisControl, stopped_at, AnalysisEnvelope}
use ferrum_atlas.Analysis.Graph.Prepare.{
  SelectedGraph, AnalysisLimits, UnknownFrontier, CallGraph, Scan, Prepared, tick, stop, prepare,
}
use ferrum_atlas.Analysis.Graph.Path.{PathFailure, refused, panicked, refuse}
use ferrum_atlas.Analysis.Graph.Metrics.{
  RecursiveComponent, DefinitionMetrics, MetricDistribution, Components, scan_components,
  component_less, Sets, count_unknown, Tally, tally_sites, scan_metrics, distribution,
}

pub record ComponentLink : Type 0 where
  pub source : Text
  pub target : Text

pub record GraphAnalysis : Type 0 where
  pub envelope : AnalysisEnvelope
  pub selected_nodes : ℕ
  pub selected_call_sites : ℕ
  pub components : List RecursiveComponent
  pub component_links : List ComponentLink
  pub metrics : List DefinitionMetrics
  pub distributions : List MetricDistribution
  pub unknown_frontier : List UnknownFrontier

-- What other code answers: the sizes that `byte_budget` counts, the components that petgraph's
-- `kosaraju_scc` finds, and the digest of the members of one.
pub record MetricsLibrary : Type 0 where
  pub input_bytes : SelectedGraph → ℕ
  pub report_bytes : GraphAnalysis → ℕ
  pub kosaraju_scc : CallGraph → List (List Text)
  pub digest : List Text → Text

abbrev pub no_components : Scan → Components
no_components s = record { scan = s; components = []; component_for = [] }

unfoldable pub find_components :
    MetricsLibrary → AnalysisControl → CallGraph → Scan → Option Components
find_components lib control g s =
    if stopped_at control s.clock
    then some (no_components (stop control s))
    else scan_components lib.digest control g (lib.kosaraju_scc g) (no_components (tick s))

abbrev pub first_tally : Scan → Tally
first_tally s = record {
  scan = s;
  links = [];
  callers = [];
  callees = [];
  incoming = [];
  outgoing = [];
}

abbrev pub links_of : Sets → List ComponentLink
links_of [] = []
links_of ((source, targets) ∷ sets) =
    map (λ target. record { source = source; target = target }) targets ++ links_of sets

abbrev pub both : {A : Type 0} → Option A → Option (List A) → Option (List A)
both none rest = none
both (some a) none = none
both (some a) (some rest) = some (a ∷ rest)

abbrev pub distributions_of : List DefinitionMetrics → Option (List MetricDistribution)
distributions_of [] = some []
distributions_of (m ∷ ms) =
    both (distribution (codes "source_lines") (map (λ d. d.source_lines) (m ∷ ms))) (
      both (distribution (codes "distinct_callers") (map (λ d. d.distinct_callers) (m ∷ ms))) (
        both (distribution (codes "distinct_callees") (map (λ d. d.distinct_callees) (m ∷ ms))) (
          both
            (distribution (codes "source_unsafe_blocks")
              (map (λ d. d.source_unsafe_blocks) (m ∷ ms)))
            (some []))))

-- The tally of the call sites, and the metrics of the definitions.
unfoldable pub tally : AnalysisControl → Prepared → Components → Tally
tally control p c = tally_sites control p.graph.nodes c.component_for p.sites (first_tally c.scan)

unfoldable pub metrics : AnalysisControl → Prepared → Tally → List DefinitionMetrics × Scan
metrics control p t = scan_metrics control t (count_unknown p.unknown []) p.graph.nodes t.scan

abbrev pub analysis_of :
    Prepared
    → Components
    → Tally
    → List DefinitionMetrics × Scan
    → List MetricDistribution
    → GraphAnalysis
analysis_of p c t m distributions = record {
  envelope = m.1.envelope;
  selected_nodes = as_u32 (length p.graph.nodes);
  selected_call_sites = as_u32 (length p.sites);
  components = sort_by component_less c.components;
  component_links = links_of t.links;
  metrics = m.0;
  distributions = distributions;
  unknown_frontier = p.unknown;
}

unfoldable pub analyze_graph :
    MetricsLibrary
    → SelectedGraph
    → AnalysisLimits
    → AnalysisControl
    → Result PathFailure GraphAnalysis
analyze_graph lib input limits control =
    bind
      (refuse
        (prepare lib.input_bytes input limits control (codes "selected-call-graph-scc-metrics-v1")))
      λ p. bind (ok_or (find_components lib control p.graph p.scan) panicked) λ c.
        let t = tally control p c in
        let m = metrics control p t in
        bind (ok_or (distributions_of m.0) panicked) λ distributions.
          let report = analysis_of p c t m distributions in
          bind
            (ensure (leb (lib.report_bytes report) limits.max_response_bytes)
              (refused budget_exhausted))
            λ _. ok report
