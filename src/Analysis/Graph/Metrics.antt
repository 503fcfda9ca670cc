-- ===== src/Analysis/Graph/Metrics.antt =====
-- crates/analysis/src/graph.rs: the parts of the report of `analyze_graph`.
use ferrum_atlas.Prelude.{
  ℕ, suc, List, [], ◌∷◌, ◌++◌, Bool, true, false, ◌&&◌, ◌||◌, ◌+◌, ◌-◌, ◌*◌, ◌/◌, Option, none,
  some, length, any, set_insert, sort_by, last?, get_elem?, ltb, lex_lt, ◌==◌, if◌then◌else◌,
}
use ferrum_atlas.Prelude.Text.{Text, text_eq, text_ord, codes}
use ferrum_atlas.Prelude.Words.{as_u32}
use ferrum_atlas.Prelude.Maps.{at, put}
use ferrum_atlas.Model.Definitions.{Definition, Target, resolved, unknown_target, Relation}
use ferrum_atlas.Analysis.Envelope.{AnalysisControl, stopped_at}
use ferrum_atlas.Analysis.Graph.Prepare.{UnknownFrontier, CallGraph, Scan, tick, stop, is_some}

pub record RecursiveComponent : Type 0 where
  pub id : Text
  pub members : List Text
  pub recursive : Bool

pub record DefinitionMetrics : Type 0 where
  pub definition_id : Text
  pub distinct_callers : ℕ
  pub distinct_callees : ℕ
  pub incoming_call_sites : ℕ
  pub outgoing_call_sites : ℕ
  pub unknown_call_sites : ℕ
  pub source_lines : ℕ
  pub source_branches : ℕ
  pub source_returns : ℕ
  pub source_awaits : ℕ
  pub source_unsafe_blocks : ℕ
  pub declared_public : Bool

pub record MetricDistribution : Type 0 where
  pub metric : Text
  pub minimum : ℕ
  pub median : ℕ
  pub p95 : ℕ
  pub maximum : ℕ

-- The components with the map from a definition to the component that it is in.
pub record Components : Type 0 where
  pub scan : Scan
  pub components : List RecursiveComponent
  pub component_for : List (Text × Text)

abbrev pub has_loop : CallGraph → Text → Bool
has_loop g index = any (λ e. e.from == index && e.to == index) g.edges

abbrev pub assign : Text → List Text → List (Text × Text) → List (Text × Text)
assign id [] m = m
assign id (x ∷ xs) m = assign id xs (put x id m)

-- A component, of which the code reads the first node.
abbrev pub add_component :
    (List Text → Text) → CallGraph → Text → List Text → Components → Components
add_component digest g first rest c =
    let members = sort_by lex_lt (first ∷ rest) in
    let id = digest members in
    record {
      scan = tick c.scan;
      components =
          c.components
          ++ record {
            id = id;
            members = members;
            recursive = ltb 1 (length (first ∷ rest)) || has_loop g first;
          }
            ∷ [];
      component_for = assign id members c.component_for;
    }

-- The loop over the components. `none` is the panic for a component without a node.
unfoldable pub scan_components :
    (List Text → Text)
    → AnalysisControl
    → CallGraph
    → List (List Text)
    → Components
    → Option Components
scan_components digest control g [] c = some c
scan_components digest control g (component ∷ rest) c = elim (stopped_at control c.scan.clock) [
  | true ↦ some (record { scan = stop control c.scan; components = []; component_for = [] })
  | false ↦ elim component [
    | [] ↦ none
    | first ∷ others ↦ scan_components digest control g rest (add_component digest g first others c)
  ]
]

-- The derived order of a list of texts.
abbrev pub texts_lt : List Text → List Text → Bool
texts_lt [] [] = false
texts_lt [] (y ∷ ys) = true
texts_lt (x ∷ xs) [] = false
texts_lt (x ∷ xs) (y ∷ ys) = lex_lt x y || (x == y && texts_lt xs ys)

abbrev pub component_less : RecursiveComponent → RecursiveComponent → Bool
component_less a b = texts_lt a.members b.members

-- The links are an ordered set of pairs: for each source the set of its targets.
abbrev pub Sets : Type 0
Sets = List (Text × List Text)

abbrev pub or_empty : Option (List Text) → List Text
or_empty none = []
or_empty (some s) = s

-- `entry(k).or_default().insert(x)` and `*entry(k).or_default() += 1`. A count is at most the number
-- of the edges that `prepare` lets through, far below the bound of a u32.
abbrev pub add_to : Text → Text → Sets → Sets
add_to k x m = put k (set_insert x (or_empty (at k m))) m

abbrev pub or_zero : Option ℕ → ℕ
or_zero none = 0
or_zero (some n) = n

abbrev pub bump : Text → List (Text × ℕ) → List (Text × ℕ)
bump k m = put k (suc (or_zero (at k m))) m

abbrev pub count_unknown : List UnknownFrontier → List (Text × ℕ) → List (Text × ℕ)
count_unknown [] m = m
count_unknown (f ∷ fs) m = count_unknown fs (bump f.source m)

pub record Tally : Type 0 where
  pub scan : Scan
  pub links : Sets
  pub callers : Sets
  pub callees : Sets
  pub incoming : List (Text × ℕ)
  pub outgoing : List (Text × ℕ)

abbrev pub link_components : Option Text → Option Text → Sets → Sets
link_components (some source) (some target) links =
    if source == target then links else add_to source target links
link_components (some source) none links = links
link_components none target links = links

abbrev pub tally_call : List (Text × Text) → Text → Text → Tally → Tally
tally_call component_for source id t = record t {
  incoming = bump id t.incoming;
  callers = add_to id source t.callers;
  callees = add_to source id t.callees;
  links = link_components (at source component_for) (at id component_for) t.links;
}

abbrev pub tally_target :
    List (Text × Definition) → List (Text × Text) → Text → Target → Tally → Tally
tally_target nodes component_for source (resolved id) t =
    if is_some (at id nodes) then tally_call component_for source id t else t
tally_target nodes component_for source (unknown_target reason label) t = t

abbrev pub tally_site : List (Text × Definition) → List (Text × Text) → Relation → Tally → Tally
tally_site nodes component_for r t =
    tally_target nodes component_for r.source r.target
      (record t { outgoing = bump r.source t.outgoing; scan = tick t.scan })

-- The loop over the call sites.
unfoldable pub tally_sites :
    AnalysisControl → List (Text × Definition) → List (Text × Text) → List Relation → Tally → Tally
tally_sites control nodes component_for [] t = t
tally_sites control nodes component_for (r ∷ rs) t = elim (stopped_at control t.scan.clock) [
  | true ↦ record t { scan = stop control t.scan }
  | false ↦ tally_sites control nodes component_for rs (tally_site nodes component_for r t)
]

abbrev pub metrics_of : Tally → List (Text × ℕ) → Text → Definition → DefinitionMetrics
metrics_of t unknown id d = record {
  definition_id = id;
  distinct_callers = as_u32 (length (or_empty (at id t.callers)));
  distinct_callees = as_u32 (length (or_empty (at id t.callees)));
  incoming_call_sites = or_zero (at id t.incoming);
  outgoing_call_sites = or_zero (at id t.outgoing);
  unknown_call_sites = or_zero (at id unknown);
  source_lines = d.metrics.lines;
  source_branches = d.metrics.branches;
  source_returns = d.metrics.returns;
  source_awaits = d.metrics.awaits;
  source_unsafe_blocks = d.metrics.unsafe_blocks;
  declared_public = d.visibility == codes "pub";
}

-- The loop over the definitions.
unfoldable pub scan_metrics :
    AnalysisControl
    → Tally
    → List (Text × ℕ)
    → List (Text × Definition)
    → Scan
    → List DefinitionMetrics × Scan
scan_metrics control t unknown [] s = ([], s)
scan_metrics control t unknown ((id, d) ∷ nodes) s = elim (stopped_at control s.clock) [
  | true ↦ ([], stop control s)
  | false ↦
      let rest = scan_metrics control t unknown nodes (tick s) in
      (metrics_of t unknown id d ∷ rest.0, rest.1)
]

-- `distribution`, whose panic is `none`.
abbrev pub distribution_of :
    Text → Option ℕ → Option ℕ → Option ℕ → Option ℕ → Option MetricDistribution
distribution_of metric (some a) (some b) (some c) (some d) =
    some (record { metric = metric; minimum = a; median = b; p95 = c; maximum = d })
distribution_of metric a b c d = none

unfoldable pub distribution : Text → List ℕ → Option MetricDistribution
distribution metric values =
    let sorted = sort_by ltb values in
    let n = length sorted in
    distribution_of metric (get_elem? sorted 0) (get_elem? sorted ((n - 1) / 2))
      (get_elem? sorted ((n * 95 + 99) / 100 - 1)) (last? sorted)
