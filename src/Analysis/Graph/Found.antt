-- ===== src/Analysis/Graph/Found.antt =====
-- crates/analysis/src/graph.rs: what the outcomes of `find_path` say of the selected calls.
use ferrum_atlas.Prelude.{
  ◌≡◌, refl, sym, ap, ◌∙◌, subst, ◌≤◌, List, [], ◌∷◌, Bool, true, false, Option, some, Result, ok,
  err, bind, ensure, Mem, length, leb,
}
use ferrum_atlas.Prelude.Text.{Text, text_eq, codes}
use ferrum_atlas.Model.{status_eq}
use ferrum_atlas.Model.Definitions.{resolved, Relation}
use ferrum_atlas.Analysis.Envelope.{AnalysisError, budget_exhausted, AnalysisControl}
use ferrum_atlas.Analysis.Graph.Prepare.{SelectedGraph, AnalysisLimits, CallEdge, Prepared, prepare}
use ferrum_atlas.Analysis.Graph.Path.{
  found, not_found_in_selection, PathAnalysis, GraphLibrary, PathFailure, refused, panicked,
  endless, Explored, search, path_report, refuse, find_path,
}
use ferrum_atlas.Analysis.Graph.Back.{Way, stay, along}
use ferrum_atlas.Analysis.Graph.Walk.{Reached, origin, next, IsGraphLibrary}
use ferrum_atlas.Analysis.Graph.Explored.{IsExplored, Searched, search-Searched}
use ferrum_atlas.Analysis.Graph.Selected.{IsClean, IsCall, call_edge}
use ferrum_atlas.Analysis.Graph.Prepared.{IsSelection, prepare-IsSelection}

-- A chain of calls of the selection, with its definitions and its relations.
pub data Calls (rs : List Relation) : Text → Text → List Text → List Text → Type 0 where
  here : (x : Text) → Calls rs x x (x ∷ []) []
  call :
      (r : Relation) (x y z : Text) (path ids : List Text)
      → Mem r rs
      → IsCall r
      → r.source ≡ x
      → r.target ≡ resolved y
      → Calls rs y z path ids
      → Calls rs x z (x ∷ path) (r.id ∷ ids)

module _ (lib : GraphLibrary) (root : Text) (input : SelectedGraph) (p : Prepared)
    (is_lib : IsGraphLibrary lib p.graph root) (selection : IsSelection input p) where
  Way-Calls :
      {x z : Text} {path ids : List Text}
      → Way (lib.edges p.graph) x z path ids
      → Calls input.edges x z path ids
  Way-Calls (stay x) = here x
  Way-Calls (along x y z relation path ids (e, m, to, id) way) =
      let (inside, leaves) = (is_lib.outgoing x e).0 m in
      let (listed, is_call, source, target) = selection.sound e inside in
      subst (λ i. Calls input.edges x z (x ∷ path) (i ∷ ids)) id
        (call e.weight x y z path ids listed is_call (source ∙ leaves) (target ∙ ap resolved to)
          (Way-Calls way))

  Calls-Reached :
      {x z : Text} {path ids : List Text}
      → IsClean p.scan
      → Reached (lib.edges p.graph) root x
      → Calls input.edges x z path ids
      → Reached (lib.edges p.graph) root z
  Calls-Reached clean reach (here x) = reach
  Calls-Reached clean reach (call r x y z path ids m c source target rest) =
      let (to, same, inside) = selection.whole clean r m c in
      let edge : CallEdge = call_edge r to in
      let leaves = (is_lib.outgoing x edge).1 (inside, source) in
      let at_y : to ≡ y = ap (λ t. elim t [ resolved i ↦ i | other ↦ to ]) (sym same ∙ target) in
      Calls-Reached clean (subst (Reached (lib.edges p.graph) root) at_y (next x edge reach leaves))
        rest

-- What `find_path` returns: a report with a property, or an error.
abbrev Answers : (PathAnalysis → Type 0) → Result PathFailure PathAnalysis → Type 0
Answers P (ok report) = P report
Answers P (err (refused e)) = Unit
Answers P (err panicked) = ⊥
Answers P (err endless) = ⊥

record IsAnswer (input : SelectedGraph) (limits : AnalysisLimits) (target : Option Text)
    (start : Text) (report : PathAnalysis) : Type 0 where
  reached :
      (t : Text)
      → target ≡ some t
      → report.outcome ≡ found
      → Calls input.edges start t report.path report.relations
        × (length report.relations ≤ limits.max_depth)
  missed :
      (t : Text) (path ids : List Text)
      → target ≡ some t
      → report.outcome ≡ not_found_in_selection
      → Calls input.edges start t path ids
      → ⊥

-- What petgraph documents, of the graph that `prepare` builds.
abbrev pub IsSuited :
    GraphLibrary → SelectedGraph → Text → AnalysisLimits → AnalysisControl → Type 0
IsSuited lib input start limits control =
    (p : Prepared)
    → prepare lib.input_bytes input limits control (codes "selected-call-graph-bfs-v1") ≡ ok p
    → IsGraphLibrary lib p.graph start

find_path-Answers :
    (lib : GraphLibrary) (input : SelectedGraph) (start : Text) (target : Option Text)
    (limits : AnalysisLimits) (control : AnalysisControl)
    → IsSuited lib input start limits control
    → Answers (IsAnswer input limits target start) (find_path lib input start target limits control)
unfolding find_path
find_path-Answers lib input start target limits control is_lib =
    go (prepare lib.input_bytes input limits control (codes "selected-call-graph-bfs-v1"))
      (λ p e.
        prepare-IsSelection lib.input_bytes input limits control
          (codes "selected-call-graph-bfs-v1") p e)
      is_lib
  where
    answer :
        (p : Prepared) (x : Explored)
        → IsGraphLibrary lib p.graph start
        → IsSelection input p
        → IsExplored lib limits target start p x
        → IsAnswer input limits target start (path_report target p x)
    answer p x is_lib selection explored = record {
      reached = λ t e o.
          let (way, small) = explored.reached t e o in
          (Way-Calls lib start input p is_lib selection way, small);
      missed = λ t path ids e o calls.
          let (clean, absent) = explored.missed t e o in
          absent (
            is_lib.complete t
              (Calls-Reached lib start input p is_lib selection clean origin calls));
    }

    sized :
        (b : Bool) (report : PathAnalysis)
        → IsAnswer input limits target start report
        → Answers
            (IsAnswer input limits target start)
            (bind (ensure b (refused budget_exhausted)) (λ _. ok report))
    sized true report a = a
    sized false report a = tt

    searched :
        (p : Prepared) (r : Result PathFailure Explored)
        → IsGraphLibrary lib p.graph start
        → IsSelection input p
        → Searched (IsExplored lib limits target start p) r
        → Answers (IsAnswer input limits target start) (
            bind r (λ e.
              bind
                (ensure
                  (leb (lib.path_bytes (path_report target p e)) limits.max_response_bytes)
                  (refused budget_exhausted))
                (λ _. ok (path_report target p e))))
    searched p (ok x) is_lib selection s =
        sized (leb (lib.path_bytes (path_report target p x)) limits.max_response_bytes)
          (path_report target p x) (answer p x is_lib selection s)
    searched p (err (refused e)) is_lib selection s = tt
    searched p (err panicked) is_lib selection s = absurd s
    searched p (err endless) is_lib selection s = absurd s

    go :
        (r : Result AnalysisError Prepared)
        → ((p : Prepared) → r ≡ ok p → IsSelection input p)
        → ((p : Prepared) → r ≡ ok p → IsGraphLibrary lib p.graph start)
        → Answers (IsAnswer input limits target start) (
            bind (refuse r) (λ p. bind (search lib control limits target start p) (λ e.
              bind
                (ensure
                  (leb (lib.path_bytes (path_report target p e)) limits.max_response_bytes)
                  (refused budget_exhausted))
                (λ _. ok (path_report target p e)))))
    go (ok p) is suits =
        searched p (search lib control limits target start p) (suits p refl) (is p refl)
          (search-Searched lib control limits target start p (suits p refl))
    go (err e) is suits = tt

-- When the search visits what the edges reach, each node after one whose edge leads to it, a path that
-- is reported as found is a chain of calls of the selection from the start to the target, with the
-- relations of its steps, and has at most `max_depth` of them.
pub find_path-Calls :
    (lib : GraphLibrary) (input : SelectedGraph) (start target : Text) (limits : AnalysisLimits)
    (control : AnalysisControl) (report : PathAnalysis)
    → IsSuited lib input start limits control
    → find_path lib input start (some target) limits control ≡ ok report
    → report.outcome ≡ found
    → Calls input.edges start target report.path report.relations
      × (length report.relations ≤ limits.max_depth)
find_path-Calls lib input start target limits control report is_lib runs finds =
    let a =
      subst (Answers (IsAnswer input limits (some target) start)) runs
        (find_path-Answers lib input start (some target) limits control is_lib) in
    a.reached target refl finds

-- When the search visits what the edges reach, each node after one whose edge leads to it, a target that
-- is reported as not found in the selection is the end of no chain of calls of the selection from the
-- start: the negative answer is given only when nothing was cut, stopped or unknown.
pub find_path-unreachable :
    (lib : GraphLibrary) (input : SelectedGraph) (start target : Text) (limits : AnalysisLimits)
    (control : AnalysisControl) (report : PathAnalysis) (path ids : List Text)
    → IsSuited lib input start limits control
    → find_path lib input start (some target) limits control ≡ ok report
    → report.outcome ≡ not_found_in_selection
    → ¬ Calls input.edges start target path ids
find_path-unreachable lib input start target limits control report path ids is_lib runs misses
      calls =
    let a =
      subst (Answers (IsAnswer input limits (some target) start)) runs
        (find_path-Answers lib input start (some target) limits control is_lib) in
    a.missed target path ids refl misses calls

-- When the search visits what the edges reach, each node after one whose edge leads to it, `find_path`
-- finds the distance of every node that it visits, and its way back ends within `max_depth` steps: a
-- failure is an error that it returns.
pub find_path-refused :
    (lib : GraphLibrary) (input : SelectedGraph) (start : Text) (target : Option Text)
    (limits : AnalysisLimits) (control : AnalysisControl) (failure : PathFailure)
    → IsSuited lib input start limits control
    → find_path lib input start target limits control ≡ err failure
    → (e : AnalysisError) × (failure ≡ refused e)
find_path-refused lib input start target limits control failure is_lib fails = go failure (
    subst (Answers (IsAnswer input limits target start)) fails
      (find_path-Answers lib input start target limits control is_lib))
  where
    go :
        (f : PathFailure)
        → Answers (IsAnswer input limits target start) (err f)
        → (e : AnalysisError) × (f ≡ refused e)
    go (refused e) a = (e, refl)
    go panicked a = absurd a
    go endless a = absurd a
