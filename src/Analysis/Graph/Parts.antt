-- ===== src/Analysis/Graph/Parts.antt =====
-- crates/analysis/src/graph.rs: the components and the distributions of `analyze_graph`.
use ferrum_atlas.Prelude.{
  ℕ, ◌<◌, List, [], ◌∷◌, map, Bool, true, false, some, ◌≡◌, refl, All, length, if◌then◌else◌, arith,
}
use ferrum_atlas.Prelude.Text.{Text, text_eq, codes}
use ferrum_atlas.Analysis.Envelope.{AnalysisControl, stopped_at}
use ferrum_atlas.Analysis.Graph.Prepare.{CallGraph, Scan, tick, stop}
use ferrum_atlas.Analysis.Graph.Metrics.{
  DefinitionMetrics, MetricDistribution, Components, add_component, scan_components, distribution,
}
use ferrum_atlas.Analysis.Graph.Report.{
  MetricsLibrary, no_components, find_components, distributions_of,
}
use ferrum_atlas.Analysis.Graph.Distribution.{IsDistribution, distribution-IsDistribution}

-- One distribution for each of four metrics over the reported definitions, or none when there are none.
abbrev pub Summaries : List DefinitionMetrics → List MetricDistribution → Type 0
Summaries [] ds = ds ≡ []
Summaries (m ∷ ms) ds =
    (a : MetricDistribution) × (b : MetricDistribution) × (c : MetricDistribution)
    × (d : MetricDistribution) × (ds ≡ a ∷ b ∷ c ∷ d ∷ [])
    × IsDistribution (codes "source_lines") (map (λ x. x.source_lines) (m ∷ ms)) a
    × IsDistribution (codes "distinct_callers") (map (λ x. x.distinct_callers) (m ∷ ms)) b
    × IsDistribution (codes "distinct_callees") (map (λ x. x.distinct_callees) (m ∷ ms)) c
    × IsDistribution (codes "source_unsafe_blocks") (map (λ x. x.source_unsafe_blocks) (m ∷ ms)) d

pub distributions_of-Summaries :
    (ms : List DefinitionMetrics)
    → (ds : List MetricDistribution) × (distributions_of ms ≡ some ds) × Summaries ms ds
distributions_of-Summaries [] = ([], refl, refl)
distributions_of-Summaries (m ∷ ms) =
    let (a, ea, ha) = of (codes "source_lines") (λ x. x.source_lines) in
    let (b, eb, hb) = of (codes "distinct_callers") (λ x. x.distinct_callers) in
    let (c, ec, hc) = of (codes "distinct_callees") (λ x. x.distinct_callees) in
    let (d, ed, hd) = of (codes "source_unsafe_blocks") (λ x. x.source_unsafe_blocks) in
    (a ∷ b ∷ c ∷ d ∷ [], rw (ea, eb, ec, ed) refl, (a, b, c, d, refl, ha, hb, hc, hd))
  where
    of :
        (metric : Text) (f : DefinitionMetrics → ℕ)
        → (d : MetricDistribution) × (distribution metric (map f (m ∷ ms)) ≡ some d)
          × IsDistribution metric (map f (m ∷ ms)) d
    of metric f = distribution-IsDistribution metric (map f (m ∷ ms)) (omega arith)

-- Every component that the library finds has a node.
abbrev pub HasNodes : List (List Text) → Type 0
HasNodes components = All (λ c. 0 < length c) components

scan_components-some :
    (digest : List Text → Text) (control : AnalysisControl) (g : CallGraph)
    (components : List (List Text)) (c : Components)
    → HasNodes components
    → (c' : Components) × (scan_components digest control g components c ≡ some c')
unfolding scan_components
scan_components-some digest control g [] c h = (c, refl)
scan_components-some digest control g ([] ∷ rest) c h = absurd (omega (arith, h.0))
scan_components-some digest control g ((x ∷ xs) ∷ rest) c h =
    go (stopped_at control c.scan.clock)
      (scan_components-some digest control g rest (add_component digest g x xs c) h.1)
  where
    go :
        (b : Bool)
        → (c' : Components) × (scan_components digest control g rest (add_component digest g x xs c)
            ≡ some c')
        → (c' : Components) × ((elim b [
          | true ↦ some (record { scan = stop control c.scan; components = []; component_for = [] })
          | false ↦ scan_components digest control g rest (add_component digest g x xs c)
        ])
            ≡ some c')
    go true more =
        (record { scan = stop control c.scan; components = []; component_for = [] }, refl)
    go false more = more

pub find_components-some :
    (lib : MetricsLibrary) (control : AnalysisControl) (g : CallGraph) (s : Scan)
    → HasNodes (lib.kosaraju_scc g)
    → (c : Components) × (find_components lib control g s ≡ some c)
unfolding find_components
find_components-some lib control g s h = go (stopped_at control s.clock)
  where
    go :
        (b : Bool)
        → (c : Components) × ((if b
              then some (no_components (stop control s))
              else scan_components lib.digest control g
                  (lib.kosaraju_scc g)
                  (no_components (tick s)))
            ≡ some c)
    go true = (no_components (stop control s), refl)
    go false =
        scan_components-some lib.digest control g (lib.kosaraju_scc g) (no_components (tick s)) h
