-- ===== src/Analysis/Graph/Prepare.antt =====
-- crates/analysis/src/graph.rs: limits and `prepare`, which builds the graph of the selected calls.
use ferrum_atlas.Prelude.{
  ℕ, suc, List, [], ◌∷◌, ◌++◌, Bool, true, false, not, ◌&&◌, ◌||◌, Option, none, some, Result, ok,
  bind, ensure, length, any, set_insert, sort_by, leb, ltb, lex_lt, ◌==◌, if◌then◌else◌,
}
use ferrum_atlas.Prelude.Text.{Text, text_eq, text_ord, codes}
use ferrum_atlas.Prelude.Maps.{at, put}
use ferrum_atlas.Model.{Coverage, UnknownReason, cfg_unknown, external_boundary}
use ferrum_atlas.Model.Definitions.{
  active, cfg_status_eq, Definition, Target, resolved, unknown_target, Relation,
}
use ferrum_atlas.Analysis.Trace.Window.{take}
use ferrum_atlas.Analysis.Envelope.{
  AnalysisError, invalid_input, budget_exhausted, AnalysisControl, stopped_at, AnalysisEnvelope,
  new_envelope, note_partial, stop_envelope,
}

pub record SelectedGraph : Type 0 where
  pub nodes : List Definition
  pub edges : List Relation
  pub coverage : Coverage
  pub input_truncated : Bool

pub record AnalysisLimits : Type 0 where
  pub max_nodes : ℕ
  pub max_edges : ℕ
  pub max_visits : ℕ
  pub max_depth : ℕ
  pub max_response_bytes : ℕ

abbrev pub default_analysis_limits : AnalysisLimits
default_analysis_limits = record {
  max_nodes = 200;
  max_edges = 500;
  max_visits = 200;
  max_depth = 8;
  max_response_bytes = 2097152;
}

unfoldable pub validate_analysis_limits : AnalysisLimits → Result AnalysisError (Unit {0})
validate_analysis_limits l =
    ensure
      (leb 1 l.max_nodes
        && leb l.max_nodes 10000
        && leb 1 l.max_edges
        && leb l.max_edges 50000
        && leb 1 l.max_visits
        && leb l.max_visits 10000
        && leb l.max_depth 64
        && leb 256 l.max_response_bytes
        && leb l.max_response_bytes 2097152)
      (invalid_input (
        codes
          "limits require 1..10000 nodes/visits, 1..50000 edges, depth <=64 and 256..2097152 response bytes"))

pub record UnknownFrontier : Type 0 where
  pub source : Text
  pub relation_id : Text
  pub target_definition_id : Option Text
  pub reason : UnknownReason

-- An edge of the graph with its weight. A node of the graph stands for the definition with its id,
-- which is added once, so that an index is written as the id.
pub record CallEdge : Type 0 where
  pub from : Text
  pub to : Text
  pub weight : Relation

pub record CallGraph : Type 0 where
  pub nodes : List (Text × Definition)
  pub edges : List CallEdge

-- The envelope, with the number of the next reading of the control.
pub record Scan : Type 0 where
  pub envelope : AnalysisEnvelope
  pub clock : ℕ

pub record Prepared : Type 0 where
  pub graph : CallGraph
  pub scan : Scan
  pub unknown : List UnknownFrontier
  pub sites : List Relation

-- `envelope.partial`, and `envelope.truncated = true` before it.
unfoldable pub note : UnknownReason → Text → Scan → Scan
note reason message s = record s { envelope = note_partial reason message s.envelope }

unfoldable pub truncate : Text → Scan → Scan
truncate message s = record s {
  envelope =
      note_partial UnknownReason.budget_exhausted message (record s.envelope { truncated = true });
}

-- A reading of the control that does not stop, and `envelope.stop` after one that does.
abbrev pub tick : Scan → Scan
tick s = record s { clock = suc s.clock }

unfoldable pub stop : AnalysisControl → Scan → Scan
stop control s = record {
  envelope = stop_envelope control (suc s.clock) s.envelope;
  clock = suc (suc s.clock);
}

abbrev pub is_context : Option Text → Text → Bool
is_context none id = true
is_context (some context) id = context == id

abbrev pub is_some : {A : Type 0} → Option A → Bool
is_some none = false
is_some (some a) = true

abbrev pub contains : List Text → Text → Bool
contains s id = any (λ x. x == id) s

-- The loop over the selected definitions.
unfoldable pub scan_nodes :
    AnalysisControl
    → Option Text
    → List (Text × Definition)
    → List Definition
    → Scan
    → Result AnalysisError (List (Text × Definition) × Scan)
scan_nodes control context nodes [] s = ok (nodes, s)
scan_nodes control context nodes (d ∷ ds) s = elim (stopped_at control s.clock) [
  | true ↦ ok (nodes, stop control s)
  | false ↦
      bind
        (ensure (is_context context d.context_id)
          (invalid_input (codes "selected definitions mix build contexts")))
        λ _.
          bind
            (ensure (not (is_some (at d.id nodes)))
              (invalid_input (codes "duplicate definition identity")))
            λ _. scan_nodes control (some d.context_id) (put d.id d nodes) ds (tick s)
]

-- The loop over the selected relations: the calls among them.
unfoldable pub scan_edges :
    AnalysisControl
    → List Text
    → List Relation
    → List Relation
    → Scan
    → Result AnalysisError (List Relation × Scan)
scan_edges control ids edges [] s = ok (edges, s)
scan_edges control ids edges (r ∷ rs) s = elim (stopped_at control s.clock) [
  | true ↦ ok (edges, stop control s)
  | false ↦
      bind (ensure (not (contains ids r.id)) (invalid_input (codes "duplicate relation identity")))
        λ _.
          scan_edges control (set_insert r.id ids)
            (if r.kind == codes "calls" then edges ++ r ∷ [] else edges) rs (tick s)
]

abbrev pub target_id : Target → Option Text
target_id (resolved id) = some id
target_id (unknown_target reason label) = none

abbrev pub sort_key : Target → Text
sort_key (resolved id) = id
sort_key (unknown_target reason label) = []

abbrev pub id_less : Relation → Relation → Bool
id_less a b = lex_lt a.id b.id

-- The order of the insertion: the targets fall, then the ids.
abbrev pub retained_less : Relation → Relation → Bool
retained_less a b =
    lex_lt (sort_key b.target) (sort_key a.target)
    || (sort_key a.target == sort_key b.target && lex_lt b.id a.id)

-- `if node.cfg_status != Active` for each retained definition.
unfoldable pub note_inactive : List (Text × Definition) → Scan → Scan
note_inactive [] s = s
note_inactive ((id, d) ∷ nodes) s = note_inactive nodes (
    if d.cfg_status == active
    then s
    else note cfg_unknown
        (codes "Selected graph contains inactive or unresolved configuration definitions") s)

-- What a retained call adds: an edge, or an unknown frontier.
pub data Link : Type 0 where
  outside : Link
  edge_to : Text → Link
  frontier : Option Text → UnknownReason → Link

abbrev pub link_target : List (Text × Definition) → Target → Link
link_target nodes (unknown_target reason label) = frontier none reason
link_target nodes (resolved id) =
    if is_some (at id nodes) then edge_to id else frontier (some id) external_boundary

abbrev pub link_of : List (Text × Definition) → Relation → Link
link_of nodes r = if is_some (at r.source nodes) then link_target nodes r.target else outside

abbrev pub frontier_of : Relation → Option Text → UnknownReason → UnknownFrontier
frontier_of r target reason = record {
  source = r.source;
  relation_id = r.id;
  target_definition_id = target;
  reason = reason;
}

abbrev pub add_link : Relation → Link → Prepared → Prepared
add_link r outside p = record p {
  scan =
      note external_boundary (codes "Call sites from outside the selected node set were omitted")
        p.scan;
  unknown = p.unknown ++ frontier_of r (target_id r.target) external_boundary ∷ [];
}
add_link r (edge_to id) p = record p {
  graph = record p.graph {
    edges = p.graph.edges ++ record { from = r.source; to = id; weight = r } ∷ [];
  };
  sites = p.sites ++ r ∷ [];
}
add_link r (frontier target reason) p = record p {
  scan =
      note reason (codes "Unresolved or unselected call targets remain explicit unknown frontiers")
        p.scan;
  unknown = p.unknown ++ frontier_of r target reason ∷ [];
  sites = p.sites ++ r ∷ [];
}

-- The loop over the retained calls.
unfoldable pub link_calls : AnalysisControl → List Relation → Prepared → Prepared
link_calls control [] p = p
link_calls control (r ∷ rs) p = elim (stopped_at control p.scan.clock) [
  | true ↦ record p { scan = stop control p.scan }
  | false ↦
      link_calls control rs (add_link r (link_of p.graph.nodes r) (record p { scan = tick p.scan }))
]

abbrev pub frontier_less : UnknownFrontier → UnknownFrontier → Bool
frontier_less a b =
    lex_lt a.source b.source || (a.source == b.source && lex_lt a.relation_id b.relation_id)

unfoldable pub graph_assumptions : List Text
graph_assumptions =
    codes
      "Only selected direct calls are analyzed; selected-subgraph SCCs and fan counts do not describe the entire repository"
    ∷ codes
        "Resolved static calls show possible call relations, not path feasibility or execution evidence"
    ∷ codes
        "Source line/branch/return/await/unsafe counts retain frontend semantics; they are not compiler CFG complexity or noncomment LOC"
    ∷ []

abbrev pub first_scan : Text → Coverage → Scan
first_scan version coverage = record {
  envelope = record (new_envelope version coverage) { assumptions = graph_assumptions };
  clock = 0;
}

-- From the two scans to the graph.
unfoldable pub retain :
    AnalysisControl
    → SelectedGraph
    → AnalysisLimits
    → List (Text × Definition)
    → List Relation
    → Scan
    → Prepared
retain control input limits nodes edges s =
    let calls = sort_by id_less edges in
    let cut =
      if input.input_truncated
        || ltb limits.max_nodes (length nodes)
        || ltb limits.max_edges (length calls)
      then truncate
          (codes
            "Selected graph was truncated; omitted nodes or call sites can change reachability, SCCs and fan counts")
          s
      else s in
    let kept = take limits.max_nodes nodes in
    let retained = sort_by retained_less (take limits.max_edges calls) in
    let p = link_calls control retained (record {
      graph = record { nodes = kept; edges = [] };
      scan = note_inactive kept cut;
      unknown = [];
      sites = [];
    }) in
    record p { unknown = sort_by frontier_less p.unknown }

-- `prepare`; the size that `byte_budget` counts is a parameter.
unfoldable pub prepare :
    (SelectedGraph → ℕ)
    → SelectedGraph
    → AnalysisLimits
    → AnalysisControl
    → Text
    → Result AnalysisError Prepared
prepare bytes input limits control version = bind (validate_analysis_limits limits) λ _.
    bind
      (ensure (leb (length input.nodes) 10000 && leb (length input.edges) 50000) budget_exhausted)
      λ _. bind (ensure (leb (bytes input) 16777216) budget_exhausted) λ _.
        bind (scan_nodes control none [] input.nodes (first_scan version input.coverage)) λ scanned.
          bind (scan_edges control [] [] input.edges scanned.1)
            λ calls. ok (retain control input limits scanned.0 calls.0 calls.1)
