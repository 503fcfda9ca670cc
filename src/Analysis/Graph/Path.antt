-- ===== src/Analysis/Graph/Path.antt =====
-- crates/analysis/src/graph.rs: `find_path`.
use ferrum_atlas.Prelude.{
  ℕ, zero, suc, List, [], ◌∷◌, Bool, true, false, not, ◌&&◌, ◌||◌, Option, none, some, Result, ok,
  err, bind, ensure, ok_or, length, keep_if, set_extend, leb, ltb, ◌==◌, if◌then◌else◌,
}
use ferrum_atlas.Prelude.Text.{Text, text_eq, text_ord, codes}
use ferrum_atlas.Prelude.Maps.{at, put}
use ferrum_atlas.Model.{external_boundary, complete, status_eq}
use ferrum_atlas.Analysis.Envelope.{
  AnalysisError, invalid_input, budget_exhausted, AnalysisControl, stopped_at, AnalysisEnvelope,
}
use ferrum_atlas.Analysis.Graph.Prepare.{
  SelectedGraph, AnalysisLimits, UnknownFrontier, CallEdge, CallGraph, Scan, Prepared, note,
  truncate, tick, stop, is_some, contains, prepare,
}

pub data PathOutcome : Type 0 where
  found not_found_in_selection reachability_complete unknown_outcome : PathOutcome

pub record PathAnalysis : Type 0 where
  pub envelope : AnalysisEnvelope
  pub outcome : PathOutcome
  pub path : List Text
  pub relations : List Text
  pub reachable : List Text
  pub unknown_frontier : List UnknownFrontier

-- What other code answers: the sizes that `byte_budget` counts, the order in which petgraph's `Bfs`
-- visits a graph from a node, and the order of the edges that leave a node.
pub record GraphLibrary : Type 0 where
  pub input_bytes : SelectedGraph → ℕ
  pub path_bytes : PathAnalysis → ℕ
  pub bfs : CallGraph → Text → List Text
  pub edges : CallGraph → Text → List CallEdge

-- How a node was first reached.
pub record Back : Type 0 where
  pub parent : Text
  pub relation : Text

-- `distances`, `previous`, the visited nodes, the last first, and whether the target is found.
pub record Search : Type 0 where
  pub scan : Scan
  pub visited : List Text
  pub distances : List (Text × ℕ)
  pub previous : List (Text × Back)
  pub hit : Option Text

-- The loop over the edges that leave a visited node.
unfoldable pub discover : Text → ℕ → List CallEdge → Search → Search
discover index depth [] t = t
discover index depth (e ∷ es) t = discover index depth es (
    if is_some (at e.to t.distances) then t else record t {
      distances = put e.to (suc depth) t.distances;
      previous = put e.to (record { parent = index; relation = e.weight.id }) t.previous;
    })

abbrev pub is_target : Option Text → Text → Bool
is_target none id = false
is_target (some target) id = target == id

abbrev pub visit : Text → Search → Search
visit index t = record t { visited = index ∷ t.visited; scan = tick t.scan }

abbrev pub exhaust : Search → Search
exhaust t = record t {
  scan =
      truncate
        (codes
          "Reachability visited-set or depth budget exhausted; no complete negative is available")
        (tick t.scan);
}

-- `distances[&index]`, whose panic is `none`.
abbrev pub with_distance : Option ℕ → (ℕ → Option Search) → Option Search
with_distance none go = none
with_distance (some depth) go = go depth

abbrev pub is_spent : AnalysisLimits → ℕ → ℕ → Bool
is_spent limits visits depth = leb limits.max_visits visits || ltb limits.max_depth depth

-- The `while` loop over what the search visits.
unfoldable pub walk :
    GraphLibrary
    → AnalysisControl
    → AnalysisLimits
    → Option Text
    → CallGraph
    → List Text
    → Search
    → Option Search
walk lib control limits target g [] t = some t
walk lib control limits target g (index ∷ order) t =
    if stopped_at control t.scan.clock
    then some (record t { scan = stop control t.scan })
    else with_distance (at index t.distances) (λ depth.
      if is_spent limits (length t.visited) depth
      then some (exhaust t)
      else if is_target target index
      then some (record (visit index t) { hit = some index })
      else walk lib control limits target g order
          (discover index depth (lib.edges g index) (visit index t)))

-- The `while let` loop from the target back to the start, with what it has pushed, the last first:
-- the nodes and the relations. `none` is a loop that does not end.
abbrev pub go_back :
    (Text → List Text → List Text → Option (List Text × List Text))
    → Option Back
    → List Text
    → List Text
    → Option (List Text × List Text)
go_back further none path relations = some (path, relations)
go_back further (some back) path relations =
    further back.parent (back.parent ∷ path) (back.relation ∷ relations)

unfoldable pub trace :
    ℕ → List (Text × Back) → Text → List Text → List Text → Option (List Text × List Text)
trace zero previous index path relations =
    go_back (λ parent p r. none) (at index previous) path relations
trace (suc fuel) previous index path relations =
    go_back (λ parent p r. trace fuel previous parent p r) (at index previous) path relations

-- A failure that the function returns, or a panic, or a loop that does not end.
pub data PathFailure : Type 0 where
  refused : AnalysisError → PathFailure
  panicked endless : PathFailure

abbrev pub first_search : Text → Scan → Search
first_search root s = record {
  scan = s;
  visited = [];
  distances = (root, 0) ∷ [];
  previous = [];
  hit = none;
}

abbrev pub is_within : CallGraph → Option Text → Bool
is_within g none = true
is_within g (some target) = is_some (at target g.nodes)

-- The outcome after the search.
unfoldable pub outcome_of : CallGraph → Option Text → Search → PathOutcome
outcome_of g target t =
    if is_some t.hit
    then found
    else if not t.scan.envelope.truncated
        && t.scan.envelope.coverage.status == complete
        && is_within g target
    then (if is_some target then not_found_in_selection else reachability_complete)
    else unknown_outcome

-- The fuel of the loop back is the greatest depth that is searched.
abbrev pub path_to :
    AnalysisLimits → Search → Option Text → Result PathFailure (List Text × List Text)
path_to limits t none = ok ([], [])
path_to limits t (some index) =
    ok_or (trace limits.max_depth t.previous index (index ∷ []) []) endless

-- What the search gives: the visited nodes in their order, the outcome, the nodes and the relations.
pub record Explored : Type 0 where
  pub scan : Scan
  pub visited : List Text
  pub outcome : PathOutcome
  pub path : List Text
  pub relations : List Text

abbrev pub reverse_onto : List Text → List Text → List Text
reverse_onto [] acc = acc
reverse_onto (x ∷ xs) acc = reverse_onto xs (x ∷ acc)

-- With a start that is selected.
unfoldable pub explore :
    GraphLibrary
    → AnalysisControl
    → AnalysisLimits
    → Option Text
    → Text
    → Prepared
    → Result PathFailure Explored
explore lib control limits target start p =
    bind
      (ok_or
        (walk lib control limits target p.graph (lib.bfs p.graph start) (first_search start p.scan))
        panicked)
      λ t. bind (path_to limits t t.hit) λ chain. ok (record {
        scan = t.scan;
        visited = reverse_onto t.visited [];
        outcome = outcome_of p.graph target t;
        path = chain.0;
        relations = chain.1;
      })

abbrev pub unexplored : Prepared → Explored
unexplored p = record {
  scan = p.scan;
  visited = [];
  outcome = unknown_outcome;
  path = [];
  relations = [];
}

unfoldable pub search :
    GraphLibrary
    → AnalysisControl
    → AnalysisLimits
    → Option Text
    → Text
    → Prepared
    → Result PathFailure Explored
search lib control limits target start p =
    if is_some (at start p.graph.nodes)
    then explore lib control limits target start p
    else bind
        (ensure p.scan.envelope.truncated
          (refused (invalid_input (codes "start definition is absent from selected graph"))))
        λ _. ok (unexplored p)

abbrev pub note_target : CallGraph → Option Text → Scan → Scan
note_target g target s =
    if is_within g target
    then s
    else note external_boundary
        (codes
          "Requested target is outside the selected graph; absence cannot establish unreachability")
        s

abbrev pub path_report : Option Text → Prepared → Explored → PathAnalysis
path_report target p e = record {
  envelope = (note_target p.graph target e.scan).envelope;
  outcome = e.outcome;
  path = e.path;
  relations = e.relations;
  reachable = e.visited;
  unknown_frontier = keep_if (λ f. contains (set_extend [] e.visited) f.source) p.unknown;
}

abbrev pub refuse : {A : Type 0} → Result AnalysisError A → Result PathFailure A
refuse (ok a) = ok a
refuse (err e) = err (refused e)

unfoldable pub find_path :
    GraphLibrary
    → SelectedGraph
    → Text
    → Option Text
    → AnalysisLimits
    → AnalysisControl
    → Result PathFailure PathAnalysis
find_path lib input start target limits control =
    bind
      (refuse (prepare lib.input_bytes input limits control (codes "selected-call-graph-bfs-v1")))
      λ p. bind (search lib control limits target start p) λ e.
        bind
          (ensure (leb (lib.path_bytes (path_report target p e)) limits.max_response_bytes)
            (refused budget_exhausted))
          λ _. ok (path_report target p e)
