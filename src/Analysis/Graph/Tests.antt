-- ===== src/Analysis/Graph/Tests.antt =====
-- Runs of `find_path` (crates/analysis/src/graph.rs) over one call.
use ferrum_atlas.Prelude.{
  ◌≡◌, refl, sym, ap, ◌∙◌, subst, inl, inr, ◌↔◌, List, [], ◌∷◌, false, none, some, Result, ok, err,
  Mem, keep_if, length, ◌≤◌, ◌==◌, if◌then◌else◌, arith, ℕ_discrete,
}
use ferrum_atlas.Prelude.Text.{Text, text_eq, codes, Text-discrete}
use ferrum_atlas.Model.{complete, Status-discrete}
use ferrum_atlas.Model.Definitions.{Definition, active, CfgStatus-discrete, Relation, resolved}
use ferrum_atlas.Analysis.Envelope.{new_envelope, AnalysisError, invalid_input, AnalysisControl}
use ferrum_atlas.Analysis.Graph.Prepare.{
  SelectedGraph, AnalysisLimits, CallEdge, CallGraph, Prepared, validate_analysis_limits,
  scan_nodes, scan_edges, note_inactive, link_calls, retain, prepare,
}
use ferrum_atlas.Analysis.Graph.Path.{
  found, not_found_in_selection, PathAnalysis, GraphLibrary, PathFailure, refused, discover, walk,
  trace, outcome_of, explore, search, find_path,
}
use ferrum_atlas.Analysis.Graph.Walk.{Reached, origin, next}
use ferrum_atlas.Analysis.Graph.Found.{
  Calls, IsSuited, find_path-Calls, find_path-unreachable, find_path-refused,
}

abbrev definition : Text → Definition
definition id = record {
  id = id;
  context_id = codes "c";
  file_id = codes "f";
  name = id;
  qualified_name = id;
  kind = codes "fn";
  parent_id = none;
  signature = [];
  signature_hash = [];
  body_hash = [];
  span = record { file_id = codes "f"; start = 0; end = 1 };
  body_span = none;
  cfg = [];
  cfg_status = active;
  visibility = codes "pub";
  metrics = record { lines = 1; branches = 0; returns = 0; awaits = 0; unsafe_blocks = 0 };
}

abbrev relation : Relation
relation = record {
  id = codes "r";
  source = codes "a";
  target = resolved (codes "b");
  kind = codes "calls";
  span = record { file_id = codes "f"; start = 0; end = 1 };
  evidence_id = codes "e";
}

-- `a` calls `b`.
abbrev input : SelectedGraph
input = record {
  nodes = definition (codes "a") ∷ definition (codes "b") ∷ [];
  edges = relation ∷ [];
  coverage = record { status = complete; reasons = []; limitations = [] };
  input_truncated = false;
}

abbrev leaving : CallGraph → Text → List CallEdge
leaving g p = keep_if (λ e. e.from == p) g.edges

abbrev lib : GraphLibrary
lib = record {
  input_bytes = λ i. 100;
  path_bytes = λ r. 100;
  bfs = λ g root. if root == codes "a" then codes "a" ∷ codes "b" ∷ [] else root ∷ [];
  edges = leaving;
}

abbrev control : AnalysisControl
control = record { cancelled = λ n. false; deadline_reached = λ n. false }

abbrev limits : AnalysisLimits
limits = record {
  max_nodes = 10;
  max_edges = 10;
  max_visits = 10;
  max_depth = 8;
  max_response_bytes = 1000;
}

abbrev only_edge : CallEdge
only_edge = record { from = codes "a"; to = codes "b"; weight = relation }

abbrev prepared_or : Prepared → Result AnalysisError Prepared → Prepared
prepared_or p (ok q) = q
prepared_or p (err e) = p

prepared :
    (p : Prepared)
    → prepare lib.input_bytes input limits control (codes "selected-call-graph-bfs-v1") ≡ ok p
    → p.graph.edges ≡ only_edge ∷ []
unfolding prepare validate_analysis_limits scan_nodes scan_edges retain note_inactive link_calls
    Text-discrete ℕ_discrete CfgStatus-discrete
prepared p h =
    ap (λ (r : Result AnalysisError Prepared). elim r [ ok q ↦ q.graph.edges | err e ↦ [] ]) (sym h)

leaving_iff :
    (es : List CallEdge) (p : Text) (e : CallEdge)
    → Mem e (keep_if (λ x. x.from == p) es) ↔ (Mem e es × (e.from ≡ p))
leaving_iff es p e = (to es, λ h. back es h.0 h.1)
  where
    to : (es : List CallEdge) → Mem e (keep_if (λ x. x.from == p) es) → Mem e es × (e.from ≡ p)
    to [] m = absurd m
    to (x ∷ xs) m = ground (arith, to xs)

    back : (es : List CallEdge) → Mem e es → e.from ≡ p → Mem e (keep_if (λ x. x.from == p) es)
    back [] m q = absurd m
    back (x ∷ xs) (inl same) q = ground arith
    back (x ∷ xs) (inr m) q = ground (arith, back xs m q)

in_only :
    (g : CallGraph) (p : Text) (e : CallEdge)
    → g.edges ≡ only_edge ∷ []
    → Mem e (leaving g p)
    → (e ≡ only_edge) × (e.from ≡ p)
in_only g p e only m =
    let (inside, leaves) = (leaving_iff g.edges p e).0 m in
    (
      elim (subst (Mem e) only inside) [ inl same ↦ same | inr none_left ↦ absurd none_left ],
      leaves,
    )

differ : codes "a" ≡ codes "b" → ⊥
differ e = ground (arith, e)

differ_z : codes "a" ≡ codes "z" → ⊥
differ_z e = ground (arith, e)

from_a :
    (g : CallGraph) {x : Text}
    → g.edges ≡ only_edge ∷ []
    → Reached (leaving g) (codes "a") x
    → Mem x (codes "a" ∷ codes "b" ∷ [])
from_a g only origin = inl refl
from_a g only (next p e r m) = inr (inl (ap (λ (c : CallEdge). c.to) (in_only g p e only m).0))

from_b :
    (g : CallGraph) {x : Text}
    → g.edges ≡ only_edge ∷ []
    → Reached (leaving g) (codes "b") x
    → Mem x (codes "b" ∷ [])
from_b g only origin = inl refl
from_b g only (next p e r m) =
    let (same, leaves) = in_only g p e only m in
    elim (from_b g only r) [
      | inl at_b ↦ absurd (differ (sym (ap (λ (c : CallEdge). c.from) same) ∙ leaves ∙ at_b))
      | inr none_left ↦ absurd none_left
    ]

from_z :
    (g : CallGraph) {x : Text}
    → g.edges ≡ only_edge ∷ []
    → Reached (leaving g) (codes "z") x
    → Mem x (codes "z" ∷ [])
from_z g only origin = inl refl
from_z g only (next p e r m) =
    let (same, leaves) = in_only g p e only m in
    elim (from_z g only r) [
      | inl at_z ↦ absurd (differ_z (sym (ap (λ (c : CallEdge). c.from) same) ∙ leaves ∙ at_z))
      | inr none_left ↦ absurd none_left
    ]

edge_inside : (g : CallGraph) → g.edges ≡ only_edge ∷ [] → Mem only_edge (leaving g (codes "a"))
edge_inside g only =
    (leaving_iff g.edges (codes "a") only_edge).1
      (subst (Mem only_edge) (sym only) (inl refl), refl)

IsSuited-a : IsSuited lib input (codes "a") limits control
unfolding Text-discrete ℕ_discrete
IsSuited-a p h =
    let only = prepared p h in
    record {
      searched =
          (inl refl, (inr (codes "a", inl refl, (only_edge, edge_inside p.graph only, refl)), tt));
      complete = λ x r. from_a p.graph only r;
      outgoing = λ q e. leaving_iff p.graph.edges q e;
    }

IsSuited-b : IsSuited lib input (codes "b") limits control
unfolding Text-discrete ℕ_discrete
IsSuited-b p h =
    let only = prepared p h in
    record {
      searched = (inl refl, tt);
      complete = λ x r. from_b p.graph only r;
      outgoing = λ q e. leaving_iff p.graph.edges q e;
    }

abbrev report_or : PathAnalysis → Result PathFailure PathAnalysis → PathAnalysis
report_or r (ok report) = report
report_or r (err e) = r

abbrev empty_report : PathAnalysis
empty_report = record {
  envelope = new_envelope [] input.coverage;
  outcome = found;
  path = [];
  relations = [];
  reachable = [];
  unknown_frontier = [];
}

run : Text → Text → Result PathFailure PathAnalysis
run start target = find_path lib input start (some target) limits control

finds : run (codes "a") (codes "b") ≡ ok (report_or empty_report (run (codes "a") (codes "b")))
unfolding run find_path prepare validate_analysis_limits scan_nodes scan_edges retain note_inactive
    link_calls search explore walk discover trace outcome_of Text-discrete ℕ_discrete
    CfgStatus-discrete Status-discrete
finds = refl

finds_path :
    (report_or empty_report (run (codes "a") (codes "b"))).path ≡ codes "a" ∷ codes "b" ∷ []
unfolding run find_path prepare validate_analysis_limits scan_nodes scan_edges retain note_inactive
    link_calls search explore walk discover trace outcome_of Text-discrete ℕ_discrete
    CfgStatus-discrete Status-discrete
finds_path = refl

is_found : (report_or empty_report (run (codes "a") (codes "b"))).outcome ≡ found
unfolding run find_path prepare validate_analysis_limits scan_nodes scan_edges retain note_inactive
    link_calls search explore walk discover trace outcome_of Text-discrete ℕ_discrete
    CfgStatus-discrete Status-discrete
is_found = refl

find_path-Calls_example :
    Calls input.edges
      (codes "a")
      (codes "b")
      (report_or empty_report (run (codes "a") (codes "b"))).path
      (report_or empty_report (run (codes "a") (codes "b"))).relations
    × (length (report_or empty_report (run (codes "a") (codes "b"))).relations ≤ limits.max_depth)
unfolding run
find_path-Calls_example =
    find_path-Calls lib input (codes "a") (codes "b") limits control
      (report_or empty_report (run (codes "a") (codes "b"))) IsSuited-a finds is_found

misses : run (codes "b") (codes "a") ≡ ok (report_or empty_report (run (codes "b") (codes "a")))
unfolding run find_path prepare validate_analysis_limits scan_nodes scan_edges retain note_inactive
    link_calls search explore walk discover trace outcome_of Text-discrete ℕ_discrete
    CfgStatus-discrete Status-discrete
misses = refl

is_missed : (report_or empty_report (run (codes "b") (codes "a"))).outcome ≡ not_found_in_selection
unfolding run find_path prepare validate_analysis_limits scan_nodes scan_edges retain note_inactive
    link_calls search explore walk discover trace outcome_of Text-discrete ℕ_discrete
    CfgStatus-discrete Status-discrete
is_missed = refl

find_path-unreachable_example :
    ¬ Calls input.edges (codes "b") (codes "a") (codes "b" ∷ codes "a" ∷ []) (codes "r" ∷ [])
unfolding run
find_path-unreachable_example =
    find_path-unreachable lib input (codes "b") (codes "a") limits control
      (report_or empty_report (run (codes "b") (codes "a"))) (codes "b" ∷ codes "a" ∷ [])
      (codes "r" ∷ []) IsSuited-b misses is_missed

abbrev absent : PathFailure
absent = refused (invalid_input (codes "start definition is absent from selected graph"))

refuses : find_path lib input (codes "z") none limits control ≡ err absent
unfolding find_path prepare validate_analysis_limits scan_nodes scan_edges retain note_inactive
    link_calls search Text-discrete ℕ_discrete CfgStatus-discrete Status-discrete
refuses = refl

IsSuited-z : IsSuited lib input (codes "z") limits control
unfolding Text-discrete ℕ_discrete
IsSuited-z p h =
    let only = prepared p h in
    record {
      searched = (inl refl, tt);
      complete = λ x r. from_z p.graph only r;
      outgoing = λ q e. leaving_iff p.graph.edges q e;
    }

find_path-refused_example : (e : AnalysisError) × (absent ≡ refused e)
find_path-refused_example =
    find_path-refused lib input (codes "z") none limits control absent IsSuited-z refuses
