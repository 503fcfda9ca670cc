-- ===== src/Analysis/Graph/Prepared.antt =====
-- crates/analysis/src/graph.rs: what `prepare` leaves, of the whole selection.
use ferrum_atlas.Prelude.{
  ◌&&◌, ◌≡◌, refl, sym, ap, subst, inl, inr, ℕ, zero, suc, ◌≤◌, List, [], ◌∷◌, Bool, true, false,
  ◌||◌, none, Result, ok, err, ensure, bind-ok, Mem, Mem-sort_by, Mem-sort_by_back, sort_by, length,
  leb, ltb, ◌==◌, if◌then◌else◌, arith,
}
use ferrum_atlas.Prelude.Text.{Text, text_eq, codes}
use ferrum_atlas.Model.{cfg_unknown}
use ferrum_atlas.Model.Definitions.{active, cfg_status_eq, resolved, Relation}
use ferrum_atlas.Analysis.Trace.Window.{take}
use ferrum_atlas.Analysis.Envelope.{AnalysisError, budget_exhausted, AnalysisControl}
use ferrum_atlas.Analysis.Graph.Prepare.{
  SelectedGraph, AnalysisLimits, CallEdge, Scan, Prepared, note, truncate, id_less, retained_less,
  note_inactive, scan_nodes, scan_edges, link_calls, first_scan, retain, prepare,
  validate_analysis_limits,
}
use ferrum_atlas.Analysis.Graph.Selected.{
  IsClean, noted, cut, Nodes, IsCall, call_edge, IsScanned, scan_edges-IsScanned, IsLinkedCalls,
  link_calls-IsLinkedCalls,
}

note_inactive-IsClean : (nodes : Nodes) (s : Scan) → IsClean (note_inactive nodes s) → IsClean s
unfolding note_inactive
note_inactive-IsClean [] s h = h
note_inactive-IsClean ((id, d) ∷ nodes) s h =
    go (d.cfg_status == active) (note_inactive-IsClean nodes _ h)
  where
    message : Text
    message = codes "Selected graph contains inactive or unresolved configuration definitions"

    go : (b : Bool) → IsClean (if b then s else note cfg_unknown message s) → IsClean s
    go true c = c
    go false c = absurd (noted cfg_unknown message s c)

take-all : {A : Type 0} (n : ℕ) (xs : List A) → length xs ≤ n → take n xs ≡ xs
take-all zero [] h = refl
take-all zero (x ∷ xs) h = absurd (omega (arith, h))
take-all (suc n) [] h = refl
take-all (suc n) (x ∷ xs) h = ap (λ r. x ∷ r) (take-all n xs (omega (arith, h)))

Mem-take : {A : Type 0} (z : A) (n : ℕ) (xs : List A) → Mem z (take n xs) → Mem z xs
Mem-take z zero xs h = absurd h
Mem-take z (suc n) [] h = absurd h
Mem-take z (suc n) (x ∷ xs) (inl e) = inl e
Mem-take z (suc n) (x ∷ xs) (inr m) = inr (Mem-take z n xs m)

-- The edges are calls of the selection between the two definitions that they name; when nothing was
-- cut and the coverage is complete, every call of the selection is an edge.
pub record IsSelection (input : SelectedGraph) (p : Prepared) : Type 0 where
  pub sound :
      (e : CallEdge)
      → Mem e p.graph.edges
      → Mem e.weight input.edges
        × IsCall e.weight
        × (e.weight.source ≡ e.from)
        × (e.weight.target ≡ resolved e.to)
  pub whole :
      IsClean p.scan
      → (r : Relation) → Mem r input.edges
      → IsCall r
      → (to : Text) × (r.target ≡ resolved to) × Mem (call_edge r to) p.graph.edges

uncut :
    (test : Bool) (message : Text) (s : Scan)
    → IsClean (if test then truncate message s else s)
    → (test ≡ false) × IsClean s
uncut true message s h = absurd (cut message s h)
uncut false message s h = (refl, h)

fits : (a b : Bool) (n m : ℕ) → (a || b || ltb n m) ≡ false → m ≤ n
fits a b n m h = ground (arith, h)

retain-IsSelection :
    (control : AnalysisControl) (input : SelectedGraph) (limits : AnalysisLimits) (nodes : Nodes)
    (calls : List Relation × Scan) (s : Scan)
    → IsScanned [] input.edges s calls
    → IsSelection input (retain control input limits nodes calls.0 calls.1)
unfolding retain
retain-IsSelection control input limits nodes calls s (from, to) = record {
  sound = λ e m. elim (linked.from e m) [
    | inl nothing ↦ absurd nothing
    | inr new ↦
        elim (from e.weight (
          Mem-sort_by_back id_less e.weight calls.0 (
            Mem-take e.weight limits.max_edges sorted
              (Mem-sort_by_back retained_less e.weight (take limits.max_edges sorted) new.0)))) [
                | inl nothing ↦ absurd nothing
                | inr there ↦ (there.0, there.1, new.1, new.2)
              ]
  ];
  whole = λ clean r m call.
      let (before, links) = linked.clean clean in
      let (small, unhurt) =
        uncut test message calls.1
          (note_inactive-IsClean (take limits.max_nodes nodes) cut_scan before) in
      let listed = (to unhurt).1 r (inr (m, call)) in
      let fit =
        fits input.input_truncated (ltb limits.max_nodes (length nodes)) limits.max_edges
          (length sorted) small in
      links r (
        Mem-sort_by retained_less r (take limits.max_edges sorted) (
          subst (Mem r) (sym (take-all limits.max_edges sorted fit))
            (Mem-sort_by id_less r calls.0 listed)));
}
  where
    sorted : List Relation
    sorted = sort_by id_less calls.0

    test : Bool
    test =
        input.input_truncated
        || ltb limits.max_nodes (length nodes)
        || ltb limits.max_edges (length (sort_by id_less calls.0))

    message : Text
    message =
        codes
          "Selected graph was truncated; omitted nodes or call sites can change reachability, SCCs and fan counts"

    cut_scan : Scan
    cut_scan =
        if input.input_truncated
          || ltb limits.max_nodes (length nodes)
          || ltb limits.max_edges (length (sort_by id_less calls.0))
        then truncate message calls.1
        else calls.1

    linked :
        IsLinkedCalls
          (sort_by retained_less (take limits.max_edges (sort_by id_less calls.0)))
          (record {
            graph = record { nodes = take limits.max_nodes nodes; edges = [] };
            scan = note_inactive (take limits.max_nodes nodes) (
                if input.input_truncated
                  || ltb limits.max_nodes (length nodes)
                  || ltb limits.max_edges (length (sort_by id_less calls.0))
                then truncate
                    (codes
                      "Selected graph was truncated; omitted nodes or call sites can change reachability, SCCs and fan counts")
                    calls.1
                else calls.1);
            unknown = [];
            sites = [];
          })
          (link_calls control
            (sort_by retained_less (take limits.max_edges (sort_by id_less calls.0)))
            (record {
              graph = record { nodes = take limits.max_nodes nodes; edges = [] };
              scan = note_inactive (take limits.max_nodes nodes) (
                  if input.input_truncated
                    || ltb limits.max_nodes (length nodes)
                    || ltb limits.max_edges (length (sort_by id_less calls.0))
                  then truncate
                      (codes
                        "Selected graph was truncated; omitted nodes or call sites can change reachability, SCCs and fan counts")
                      calls.1
                  else calls.1);
              unknown = [];
              sites = [];
            }))
    linked = link_calls-IsLinkedCalls control _ _

pub prepare-IsSelection :
    (bytes : SelectedGraph → ℕ) (input : SelectedGraph) (limits : AnalysisLimits)
    (control : AnalysisControl) (version : Text) (p : Prepared)
    → prepare bytes input limits control version ≡ ok p
    → IsSelection input p
unfolding prepare
prepare-IsSelection bytes input limits control version p h =
    let (a, ea, h1) = bind-ok (validate_analysis_limits limits) _ p h in
    let (b, eb, h2) =
      bind-ok
        (ensure (leb (length input.nodes) 10000 && leb (length input.edges) 50000) budget_exhausted)
        _ p h1 in
    let (c, ec, h3) = bind-ok (ensure (leb (bytes input) 16777216) budget_exhausted) _ p h2 in
    let (nodes, en, h4) =
      bind-ok (scan_nodes control none [] input.nodes (first_scan version input.coverage)) _ p h3 in
    let (calls, es, h5) = bind-ok (scan_edges control [] [] input.edges nodes.1) _ p h4 in
    subst (IsSelection input)
      (ap (λ (r : Result AnalysisError Prepared). elim r [ ok q ↦ q | err e ↦ p ]) h5)
      (retain-IsSelection control input limits nodes.0 calls nodes.1
        (scan_edges-IsScanned control [] [] input.edges nodes.1 calls es))
