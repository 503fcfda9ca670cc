-- ===== src/Analysis/Graph/Explored.antt =====
-- crates/analysis/src/graph.rs: what the search of `find_path` knows when it ends.
use ferrum_atlas.Prelude.{
  ◌≡◌, refl, sym, ap, ◌∙◌, subst, ℕ, zero, suc, ◌≤◌, List, [], ◌∷◌, Bool, true, false, not, ◌&&◌,
  Option, none, some, Result, ok, err, bind, ensure, ok_or, Mem, length, ◌==◌, if◌then◌else◌, arith,
}
use ferrum_atlas.Prelude.Text.{Text, text_eq, codes}
use ferrum_atlas.Prelude.Maps.{at}
use ferrum_atlas.Model.{Status, complete, status_eq}
use ferrum_atlas.Analysis.Envelope.{invalid_input, AnalysisControl, AnalysisEnvelope}
use ferrum_atlas.Analysis.Graph.Prepare.{AnalysisLimits, CallGraph, Prepared, is_some}
use ferrum_atlas.Analysis.Graph.Path.{
  PathOutcome, found, not_found_in_selection, reachability_complete, unknown_outcome, GraphLibrary,
  Search, is_target, PathFailure, refused, panicked, endless, first_search, is_within, outcome_of,
  path_to, Explored, reverse_onto, explore, unexplored, search,
}
use ferrum_atlas.Analysis.Graph.Back.{Origin, Way, stay, IsTraced, trace-Way}
use ferrum_atlas.Analysis.Graph.Walk.{IsGraphLibrary, IsExpanded, IsWalked, walk-IsWalked}
use ferrum_atlas.Analysis.Graph.Selected.{IsClean}

-- What the search knows.
pub record IsExplored (lib : GraphLibrary) (limits : AnalysisLimits) (target : Option Text)
    (root : Text) (p : Prepared) (x : Explored) : Type 0 where
  pub reached :
      (t : Text)
      → target ≡ some t
      → x.outcome ≡ found
      → Way (lib.edges p.graph) root t x.path x.relations × (length x.relations ≤ limits.max_depth)
  pub missed :
      (t : Text)
      → target ≡ some t
      → x.outcome ≡ not_found_in_selection
      → IsClean p.scan × (Mem t (lib.bfs p.graph root) → ⊥)

status_complete : (s : Status) → (s == complete) ≡ true → s ≡ complete
status_complete s h = ground (arith, h)

is_complete_target : (t x : Text) → is_target (some t) x ≡ true → x ≡ t
is_complete_target t x h = ground (arith, h)

negative :
    (g : CallGraph) (target : Option Text) (cut : Bool) (s : Status) (w : Bool)
    → (if not cut && s == complete && w
        then (if is_some target then not_found_in_selection else reachability_complete)
        else unknown_outcome)
      ≡ not_found_in_selection
    → (cut ≡ false) × (s ≡ complete)
negative g target cut s w h = go (not cut && s == complete && w) refl h
  where
    go :
        (b : Bool)
        → (not cut && s == complete && w) ≡ b
        → (if b
            then (if is_some target then not_found_in_selection else reachability_complete)
            else unknown_outcome)
          ≡ not_found_in_selection
        → (cut ≡ false) × (s ≡ complete)
    go true e k = (ground (arith, e), status_complete s (ground (arith, e)))
    go false e k = cc

not_negative :
    (target : Option Text) (b : Bool)
    → (if b
        then (if is_some target then not_found_in_selection else reachability_complete)
        else unknown_outcome)
      ≡ found
    → ⊥
not_negative none true h = cc
not_negative (some t) true h = cc
not_negative target false h = cc

module _ (lib : GraphLibrary) (control : AnalysisControl) (limits : AnalysisLimits)
    (target : Option Text) (root : Text) (p : Prepared) where
  begun : IsTraced (lib.edges p.graph) root (first_search root p.scan)
  begun x d h = go (x == root) refl d h
    where
      go :
          (b : Bool)
          → (x == root) ≡ b
          → (n : ℕ) → (if b then some 0 else none) ≡ some n
          → Origin (lib.edges p.graph) root (first_search root p.scan) x n
      go true e zero k = (ground (arith, e), refl)
      go true e (suc n) k = absurd (ground (arith, k))
      go false e n k = cc

  explore_some :
      (t : Search) (i : Text)
      → t.hit ≡ some i
      → IsWalked
          (lib.edges p.graph)
          root
          limits
          target
          (lib.bfs p.graph root)
          (first_search root p.scan)
          t
      → (chain : List Text × List Text) × (path_to limits t t.hit ≡ ok chain)
        × Way (lib.edges p.graph) root i chain.0 chain.1
        × (length chain.1 ≤ limits.max_depth)
  explore_some t i at_i w =
      let (is, (d, dist, small)) = w.hit i at_i in
      let (chain, ran, way, size) =
        trace-Way (lib.edges p.graph) root t limits.max_depth d i i (i ∷ []) [] w.traced dist small
          (stay i) in
      (
        chain,
        ap (path_to limits t) at_i ∙ ap (λ o. ok_or o endless) ran,
        way,
        omega (arith, size, small),
      )

  conclude :
      (t : Search) (hit : Option Text)
      → t.hit ≡ hit
      → IsWalked
          (lib.edges p.graph)
          root
          limits
          target
          (lib.bfs p.graph root)
          (first_search root p.scan)
          t
      → (chain : List Text × List Text) × (path_to limits t t.hit ≡ ok chain)
        × IsExplored lib limits target root p (record {
          scan = t.scan;
          visited = reverse_onto t.visited [];
          outcome = outcome_of p.graph target t;
          path = chain.0;
          relations = chain.1;
        })
  unfolding outcome_of
  conclude t (some i) at_i w =
      let (chain, ran, way, small) = explore_some t i at_i w in
      let (is, rest) = w.hit i at_i in
      (
        chain,
        ran,
        record {
          reached = λ x same e. (
            subst (λ y. Way (lib.edges p.graph) root y chain.0 chain.1)
                (is_complete_target x i (subst (λ o. is_target o i ≡ true) same is)) way,
            small,
          );
          missed = λ x same e. absurd (hit_found e);
        },
      )
    where
      hit_found : outcome_of p.graph target t ≡ not_found_in_selection → ⊥
      hit_found e =
          let k : found ≡ not_found_in_selection =
            subst
              (λ o.
                (if is_some o
                  then found
                  else if not t.scan.envelope.truncated
                      && t.scan.envelope.coverage.status == complete
                      && is_within p.graph target
                  then (if is_some target then not_found_in_selection else reachability_complete)
                  else unknown_outcome)
                ≡ not_found_in_selection)
              at_i e in
          cc (k)
  conclude t none at_i w = (
    ([], []),
    ap (path_to limits t) at_i,
    record {
      reached = λ x same e. absurd (not_negative target _ (from_hit found e));
      missed = λ x same e.
          let (uncut, whole) =
            negative p.graph target t.scan.envelope.truncated t.scan.envelope.coverage.status
              (is_within p.graph target) (from_hit not_found_in_selection e) in
          let calm = w.calm uncut in
          (
            (
              ap (λ (v : AnalysisEnvelope). v.truncated) (sym calm) ∙ uncut,
              ap (λ (v : AnalysisEnvelope). v.coverage.status) (sym calm) ∙ whole,
            ),
            λ m.
                let other = w.exhausted at_i uncut x m in
                let it : is_target (some x) x ≡ false =
                  subst (λ o. is_target o x ≡ false) same other in
                ground (arith, it),
          );
    },
  )
    where
      from_hit :
          (o : PathOutcome)
          → outcome_of p.graph target t ≡ o
          → (if not t.scan.envelope.truncated
                && t.scan.envelope.coverage.status == complete
                && is_within p.graph target
              then (if is_some target then not_found_in_selection else reachability_complete)
              else unknown_outcome)
            ≡ o
      from_hit o e =
          subst
            (λ h.
              (if is_some h
                then found
                else if not t.scan.envelope.truncated
                    && t.scan.envelope.coverage.status == complete
                    && is_within p.graph target
                then (if is_some target then not_found_in_selection else reachability_complete)
                else unknown_outcome)
              ≡ o)
            at_i e

  explore-IsExplored :
      IsGraphLibrary lib p.graph root
      → (x : Explored) × (explore lib control limits target root p ≡ ok x)
        × IsExplored lib limits target root p x
  unfolding explore
  explore-IsExplored is_lib =
      let expanded : IsExpanded (lib.edges p.graph) root (first_search root p.scan) =
        ((0, at_root), (λ q e m me. absurd m)) in
      let (t, ran, w) =
        walk-IsWalked lib control limits target p.graph root (lib.bfs p.graph root)
          (first_search root p.scan) begun expanded (is_lib.searched) refl in
      let (chain, back, explored) = conclude t t.hit refl w in
      (
        _,
        ap
              (λ o.
                bind (ok_or o panicked) (λ s. bind (path_to limits s s.hit) (λ c. ok (result s c))))
              ran
            ∙ ap (λ r. bind r (λ c. ok (result t c))) back,
        explored,
      )
    where
      at_root : at {V = ℕ} root ((root, 0) ∷ []) ≡ some 0
      at_root = ground arith

      result : Search → List Text × List Text → Explored
      result s c = record {
        scan = s.scan;
        visited = reverse_onto s.visited [];
        outcome = outcome_of p.graph target s;
        path = c.0;
        relations = c.1;
      }

-- A result of the search, or an error that is returned.
abbrev pub Searched : (Explored → Type 0) → Result PathFailure Explored → Type 0
Searched P (ok x) = P x
Searched P (err (refused e)) = Unit
Searched P (err panicked) = ⊥
Searched P (err endless) = ⊥

pub search-Searched :
    (lib : GraphLibrary) (control : AnalysisControl) (limits : AnalysisLimits)
    (target : Option Text) (root : Text) (p : Prepared)
    → IsGraphLibrary lib p.graph root
    → Searched (IsExplored lib limits target root p) (search lib control limits target root p)
unfolding search
search-Searched lib control limits target root p is_lib = go (is_some (at root p.graph.nodes))
  where
    absent :
        (b : Bool)
        → Searched (IsExplored lib limits target root p) (
            bind
              (ensure b
                (refused (invalid_input (codes "start definition is absent from selected graph"))))
              (λ _. ok (unexplored p)))
    absent true = record { reached = λ t e o. absurd (cc (o)); missed = λ t e o. absurd (cc (o)) }
    absent false = tt

    go :
        (b : Bool)
        → Searched (IsExplored lib limits target root p) (
            if b
            then explore lib control limits target root p
            else bind
                (ensure p.scan.envelope.truncated (
                  refused (invalid_input (codes "start definition is absent from selected graph"))))
                λ _. ok (unexplored p))
    go true =
        let (x, ran, explored) = explore-IsExplored lib control limits target root p is_lib in
        subst (Searched (IsExplored lib limits target root p)) (sym ran) explored
    go false = absent p.scan.envelope.truncated
