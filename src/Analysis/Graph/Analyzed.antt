-- ===== src/Analysis/Graph/Analyzed.antt =====
-- crates/analysis/src/graph.rs: what `analyze_graph` reports, and how it fails.
use ferrum_atlas.Prelude.{
  ℕ, List, [], map, Bool, true, false, Option, none, some, Result, ok, err, bind, ensure, ok_or,
  bind-ok, bind-err, ok_or-ok, ◌≡◌, sym, ap, subst, ◌∙◌, inl, inr, All, leb,
}
use ferrum_atlas.Prelude.Text.{text_eq, codes}
use ferrum_atlas.Analysis.Envelope.{AnalysisError, budget_exhausted, AnalysisControl, stopped_at}
use ferrum_atlas.Analysis.Graph.Prepare.{
  SelectedGraph, AnalysisLimits, CallGraph, Prepared, prepare,
}
use ferrum_atlas.Analysis.Graph.Path.{PathFailure, refused, panicked, refuse}
use ferrum_atlas.Analysis.Graph.Metrics.{MetricDistribution, Components, count_unknown}
use ferrum_atlas.Analysis.Graph.Report.{
  GraphAnalysis, MetricsLibrary, find_components, distributions_of, tally, metrics, analysis_of,
  analyze_graph,
}
use ferrum_atlas.Analysis.Graph.Parts.{
  Summaries, distributions_of-Summaries, HasNodes, find_components-some,
}
use ferrum_atlas.Analysis.Graph.Tallied.{IsCounted, at-Mem, metrics_of-IsCounted, scan_metrics-All}

-- How a report comes about.
record IsReport (lib : MetricsLibrary) (input : SelectedGraph) (limits : AnalysisLimits)
    (control : AnalysisControl) (report : GraphAnalysis) : Type 0 where
  prepared : Prepared
  components : Components
  distributions : List MetricDistribution
  prepares :
      prepare lib.input_bytes input limits control (codes "selected-call-graph-scc-metrics-v1")
      ≡ ok prepared
  distributes :
      distributions_of (metrics control prepared (tally control prepared components)).0
      ≡ some distributions
  same :
      analysis_of prepared components
        (tally control prepared components)
        (metrics control prepared (tally control prepared components))
        distributions
      ≡ report

refuse-ok : {A : Type 0} (r : Result AnalysisError A) (a : A) → refuse r ≡ ok a → r ≡ ok a
refuse-ok (ok b) a h = ap (λ (r : Result PathFailure _). elim r [ ok c ↦ ok c | err e ↦ ok b ]) h
refuse-ok (err e) a h = cc

analyze_graph-IsReport :
    (lib : MetricsLibrary) (input : SelectedGraph) (limits : AnalysisLimits)
    (control : AnalysisControl) (report : GraphAnalysis)
    → analyze_graph lib input limits control ≡ ok report
    → IsReport lib input limits control report
unfolding analyze_graph
analyze_graph-IsReport lib input limits control report h =
    let (p, ep, h1) =
      bind-ok
        (refuse (
          prepare lib.input_bytes input limits control
            (codes "selected-call-graph-scc-metrics-v1")))
        _ report h in
    let (c, ec, h2) =
      bind-ok (ok_or (find_components lib control p.graph p.scan) panicked) _ report h1 in
    let (ds, ed, h3) =
      bind-ok (ok_or (distributions_of (metrics control p (tally control p c)).0) panicked) _ report
        h2 in
    let (u, eu, h4) =
      bind-ok
        (ensure
          (leb
            (lib.report_bytes
              (analysis_of p c (tally control p c) (metrics control p (tally control p c)) ds))
            limits.max_response_bytes)
          (refused budget_exhausted))
        _ report h3 in
    record {
      prepared = p;
      components = c;
      distributions = ds;
      prepares = refuse-ok _ p ep;
      distributes = ok_or-ok _ panicked ds ed;
      same = ap (λ (r : Result PathFailure GraphAnalysis). elim r [ ok a ↦ a | err e ↦ report ]) h4;
    }

-- A report has no distribution when it has no definition, and otherwise one of each of four metrics
-- over its definitions: the extremes, the median and p95 are values of them in this order, and the
-- extremes bound all. Half of the values are at most the median, half at least it, and fewer than half
-- below it, so it is the lower of two middle ones; 95 in 100 are at most p95 and fewer below it, so it
-- is the value of the nearest rank.
pub analyze_graph-Summaries :
    (lib : MetricsLibrary) (input : SelectedGraph) (limits : AnalysisLimits)
    (control : AnalysisControl) (report : GraphAnalysis)
    → analyze_graph lib input limits control ≡ ok report
    → Summaries report.metrics report.distributions
analyze_graph-Summaries lib input limits control report h =
    let r = analyze_graph-IsReport lib input limits control report h in
    let ms = (metrics control r.prepared (tally control r.prepared r.components)).0 in
    let (ds, es, summaries) = distributions_of-Summaries ms in
    let found_them =
      subst (Summaries ms)
        (ap (λ (o : Option (List MetricDistribution)). elim o [ none ↦ ds | some x ↦ x ])
          (sym es ∙ r.distributes))
        summaries in
    subst (λ (a : GraphAnalysis). Summaries a.metrics a.distributions) r.same found_them

-- When the control never stops, the report has the metrics of exactly the definitions that `prepare`
-- selects, in their order, and the counts of each are those of the call sites that leave it and that
-- resolve to it and of its unknown frontiers.
pub analyze_graph-IsCounted :
    (lib : MetricsLibrary) (input : SelectedGraph) (limits : AnalysisLimits)
    (control : AnalysisControl) (report : GraphAnalysis) (p : Prepared)
    → ((n : ℕ) → stopped_at control n ≡ false)
    → prepare lib.input_bytes input limits control (codes "selected-call-graph-scc-metrics-v1")
      ≡ ok p
    → analyze_graph lib input limits control ≡ ok report
    → All (IsCounted p) report.metrics
      × (map (λ m. m.definition_id) report.metrics ≡ map (λ n. n.0) p.graph.nodes)
unfolding metrics
analyze_graph-IsCounted lib input limits control report p runs prepares h =
    let r = analyze_graph-IsReport lib input limits control report h in
    let same_p =
      ap (λ (o : Result AnalysisError Prepared). elim o [ ok q ↦ q | err e ↦ p ])
        (sym r.prepares ∙ prepares) in
    let counted =
      scan_metrics-All control runs (IsCounted r.prepared) (tally control r.prepared r.components)
        (count_unknown r.prepared.unknown []) r.prepared.graph.nodes
        (tally control r.prepared r.components).scan
        (λ id d m.
          metrics_of-IsCounted control runs r.prepared r.components id d
            (at-Mem id d r.prepared.graph.nodes m)) in
    subst
      (λ (q : Prepared).
        All (IsCounted q) report.metrics
        × (map (λ m. m.definition_id) report.metrics ≡ map (λ n. n.0) q.graph.nodes))
      same_p
      (subst
        (λ (a : GraphAnalysis).
          All (IsCounted r.prepared) a.metrics
          × (map (λ m. m.definition_id) a.metrics ≡ map (λ n. n.0) r.prepared.graph.nodes))
        r.same counted)

abbrev IsRefused : PathFailure → Type 0
IsRefused failure = (e : AnalysisError) × (failure ≡ refused e)

refuse-IsRefused :
    {A : Type 0} (r : Result AnalysisError A) (f : PathFailure) → refuse r ≡ err f → IsRefused f
refuse-IsRefused (ok a) f h = cc
refuse-IsRefused (err e) f h =
    (e, sym (ap (λ (r : Result PathFailure _). elim r [ ok a ↦ f | err x ↦ x ]) h))

budget-IsRefused :
    {A : Type 0} (test : Bool) (e : AnalysisError) (a : A) (f : PathFailure)
    → bind (ensure test (refused e)) (λ _. ok a) ≡ err f
    → IsRefused f
budget-IsRefused true e a f h = cc
budget-IsRefused {A} false e a f h =
    (e, sym (ap (λ (r : Result PathFailure A). elim r [ ok b ↦ f | err x ↦ x ]) h))

never_panics :
    {A : Type 0} (o : Option A) (a : A) (f : PathFailure)
    → o ≡ some a
    → ok_or o panicked ≡ err f
    → IsRefused f
never_panics none a f is h = cc
never_panics (some b) a f is h = cc

-- When every component that the library finds has a node, `analyze_graph` neither indexes an empty
-- component nor an empty list of values: a failure is an error that it returns.
pub analyze_graph-refused :
    (lib : MetricsLibrary) (input : SelectedGraph) (limits : AnalysisLimits)
    (control : AnalysisControl) (failure : PathFailure)
    → ((g : CallGraph) → HasNodes (lib.kosaraju_scc g))
    → analyze_graph lib input limits control ≡ err failure
    → (e : AnalysisError) × (failure ≡ refused e)
unfolding analyze_graph
analyze_graph-refused lib input limits control failure has_nodes h =
    elim (bind-err
      (refuse
        (prepare lib.input_bytes input limits control (codes "selected-call-graph-scc-metrics-v1")))
      _ failure h) [
        | inl e ↦ refuse-IsRefused _ failure e
        | inr (p, ep, h1) ↦
            let (c, is_c) = find_components-some lib control p.graph p.scan (has_nodes p.graph) in
            elim (bind-err (ok_or (find_components lib control p.graph p.scan) panicked) _ failure
              h1) [
                | inl e ↦ never_panics _ c failure is_c e
                | inr (c', ec, h2) ↦
                    let ms = (metrics control p (tally control p c')).0 in
                    let (ds, is_ds, summaries) = distributions_of-Summaries ms in
                    elim (bind-err (ok_or (distributions_of ms) panicked) _ failure h2) [
                      | inl e ↦ never_panics _ ds failure is_ds e
                      | inr (ds', ed, h3) ↦ budget-IsRefused _ budget_exhausted _ failure h3
                    ]
              ]
      ]
