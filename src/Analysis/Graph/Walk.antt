-- ===== src/Analysis/Graph/Walk.antt =====
-- crates/analysis/src/graph.rs: the search of `find_path` meets no missing distance, and what it knows
-- when it ends.
use ferrum_atlas.Prelude.{
  ◌≡◌, refl, sym, ap, ◌∙◌, subst, ◌⊎◌, inl, inr, ◌↔◌, ℕ, ◌≤◌, List, [], ◌∷◌, Bool, true, false,
  Option, none, some, Mem, length, if◌then◌else◌, arith,
}
use ferrum_atlas.Prelude.Text.{Text, text_eq, codes}
use ferrum_atlas.Prelude.Maps.{at}
use ferrum_atlas.Analysis.Envelope.{AnalysisControl, stopped_at, stop_envelope, note_partial}
use ferrum_atlas.Analysis.Graph.Prepare.{
  AnalysisLimits, CallEdge, CallGraph, Scan, tick, stop, truncate,
}
use ferrum_atlas.Analysis.Graph.Path.{
  GraphLibrary, Search, with_distance, is_spent, discover, visit, exhaust, is_target, walk,
}
use ferrum_atlas.Analysis.Graph.Back.{IsTraced, IsDiscovered, discover-IsDiscovered}

-- The nodes that the edges reach from a root.
pub data Reached (edges : Text → List CallEdge) (root : Text) : Text → Type 0 where
  origin : Reached edges root root
  next :
      (p : Text) (e : CallEdge) → Reached edges root p → Mem e (edges p) → Reached edges root e.to

-- Each node of an order is the root or the end of an edge of a node before it.
abbrev pub IsSearched : (Text → List CallEdge) → Text → List Text → List Text → Type 0
IsSearched edges root before [] = Unit
IsSearched edges root before (x ∷ order) =
    ((x ≡ root) ⊎ ((p : Text) × Mem p before × ((e : CallEdge) × Mem e (edges p) × (e.to ≡ x))))
    × IsSearched edges root (x ∷ before) order

-- What petgraph documents of `Bfs` and of the edges of a node: the search goes from visited nodes to
-- the ends of their edges and visits all that can be reached; the edges are those that leave the node.
pub record IsGraphLibrary (lib : GraphLibrary) (g : CallGraph) (root : Text) : Type 0 where
  pub searched : IsSearched (lib.edges g) root [] (lib.bfs g root)
  pub complete : (x : Text) → Reached (lib.edges g) root x → Mem x (lib.bfs g root)
  pub outgoing : (p : Text) (e : CallEdge) → Mem e (lib.edges g p) ↔ (Mem e g.edges × (e.from ≡ p))

-- A visited node has a distance, and so have the ends of its edges.
abbrev pub IsExpanded : (Text → List CallEdge) → Text → Search → Type 0
IsExpanded edges root t =
    ((d : ℕ) × (at root t.distances ≡ some d))
    × ((p : Text) (e : CallEdge)
        → Mem p t.visited
        → Mem e (edges p)
        → (d : ℕ) × (at e.to t.distances ≡ some d))

pub record IsWalked (edges : Text → List CallEdge) (root : Text) (limits : AnalysisLimits)
    (target : Option Text) (order : List Text) (t u : Search) : Type 0 where
  pub traced : IsTraced edges root u
  pub hit :
      (x : Text)
      → u.hit ≡ some x
      → (is_target target x ≡ true)
        × ((d : ℕ) × (at x u.distances ≡ some d) × (d ≤ limits.max_depth))
  pub calm : u.scan.envelope.truncated ≡ false → u.scan.envelope ≡ t.scan.envelope
  pub exhausted :
      u.hit ≡ none
      → u.scan.envelope.truncated ≡ false
      → (x : Text) → Mem x order
      → is_target target x ≡ false

stop_truncated : (control : AnalysisControl) (s : Scan) → (stop control s).envelope.truncated ≡ true
unfolding stop stop_envelope note_partial
stop_truncated control s = refl

truncate_truncated : (message : Text) (s : Scan) → (truncate message s).envelope.truncated ≡ true
unfolding truncate note_partial
truncate_truncated message s = refl

depth_fits :
    (limits : AnalysisLimits) (visits depth : ℕ)
    → is_spent limits visits depth ≡ false
    → depth ≤ limits.max_depth
depth_fits limits visits depth h = ground (arith, h)

module _ (lib : GraphLibrary) (control : AnalysisControl) (limits : AnalysisLimits)
    (target : Option Text) (g : CallGraph) (root : Text) where
  has_distance :
      (x : Text) (t : Search)
      → IsExpanded (lib.edges g) root t
      → (x ≡ root)
        ⊎ ((p : Text) × Mem p t.visited × ((e : CallEdge) × Mem e (lib.edges g p) × (e.to ≡ x)))
      → (d : ℕ) × (at x t.distances ≡ some d)
  has_distance x t (at_root, others) (inl same) =
      let (d, h) = at_root in (d, ap (λ y. at y t.distances) same ∙ h)
  has_distance x t (at_root, others) (inr (p, m, found)) =
      let (e, me, same) = found in
      let (d, h) = others p e m me in (d, ap (λ y. at y t.distances) (sym same) ∙ h)

  expand :
      (index : Text) (t u : Search)
      → IsExpanded (lib.edges g) root t
      → IsDiscovered (lib.edges g) root (lib.edges g index) (visit index t) u
      → IsExpanded (lib.edges g) root u
  expand index t u (at_root, others) d = (
    let (n, h) = at_root in (n, d.kept root n h),
    λ p e m me. elim (subst (Mem p) d.visited m) [
      | inl same ↦ d.reached e (subst (λ y. Mem e (lib.edges g y)) same me)
      | inr old ↦ let (n, h) = others p e old me in (n, d.kept e.to n h)
    ],
  )

  Result : Text → List Text → Search → Option Search → Type 0
  Result index order t o =
      (u : Search) × (o ≡ some u) × IsWalked (lib.edges g) root limits target (index ∷ order) t u

  stopped_result :
      (index : Text) (order : List Text) (t : Search)
      → IsTraced (lib.edges g) root t
      → t.hit ≡ none
      → Result index order t (some (record t { scan = stop control t.scan }))
  unfolding Result
  stopped_result index order t traced missed =
      let cut = stop_truncated control t.scan in
      (
        record t { scan = stop control t.scan },
        refl,
        record {
          traced = traced;
          hit = λ x e. absurd (cc (missed, e));
          calm = λ e. absurd (ground (arith, cut, e));
          exhausted = λ e f x m. absurd (ground (arith, cut, f));
        },
      )

  spent_result :
      (index : Text) (order : List Text) (t : Search)
      → IsTraced (lib.edges g) root t
      → t.hit ≡ none
      → Result index order t (some (exhaust t))
  unfolding Result
  spent_result index order t traced missed =
      let cut =
        truncate_truncated
          (codes
            "Reachability visited-set or depth budget exhausted; no complete negative is available")
          (tick t.scan) in
      (
        exhaust t,
        refl,
        record {
          traced = traced;
          hit = λ x e. absurd (cc (missed, e));
          calm = λ e. absurd (ground (arith, cut, e));
          exhausted = λ e f x m. absurd (ground (arith, cut, f));
        },
      )

  hit_result :
      (index : Text) (order : List Text) (t : Search) (depth : ℕ)
      → IsTraced (lib.edges g) root t
      → at index t.distances ≡ some depth
      → depth ≤ limits.max_depth
      → is_target target index ≡ true
      → Result index order t (some (record (visit index t) { hit = some index }))
  unfolding Result
  hit_result index order t depth traced here small is = (
    record (visit index t) { hit = some index },
    refl,
    record {
      traced = traced;
      hit = λ x e.
          let same : index ≡ x = ap (λ o. elim o [ none ↦ index | some y ↦ y ]) e in
          (
            subst (λ y. is_target target y ≡ true) same is,
            (depth, subst (λ y. at y t.distances ≡ some depth) same here, small),
          );
      calm = λ e. refl;
      exhausted = λ e f x m. absurd (cc (e));
    },
  )

  further_result :
      (index : Text) (order : List Text) (t t1 : Search) (o : Option Search)
      → is_target target index ≡ false
      → t1.scan ≡ tick t.scan
      → (u : Search) × (o ≡ some u) × IsWalked (lib.edges g) root limits target order t1 u
      → Result index order t o
  unfolding Result
  further_result index order t t1 o not_it same (u, ran, w) = (
    u,
    ran,
    record {
      traced = w.traced;
      hit = w.hit;
      calm = λ e. w.calm e ∙ ap (λ (s : Scan). s.envelope) same;
      exhausted = λ e f x m. elim m [
        | inl first ↦ ap (is_target target) first ∙ not_it
        | inr later ↦ w.exhausted e f x later
      ];
    },
  )

  choose :
      (index : Text) (order : List Text) (t : Search) (b : Bool) (x y : Option Search)
      → (b ≡ true → Result index order t x)
      → (b ≡ false → Result index order t y)
      → Result index order t (if b then x else y)
  choose index order t true x y p q = p refl
  choose index order t false x y p q = q refl

  pub walk-IsWalked :
      (order : List Text) (t : Search)
      → IsTraced (lib.edges g) root t
      → IsExpanded (lib.edges g) root t
      → IsSearched (lib.edges g) root t.visited order
      → t.hit ≡ none
      → (u : Search) × (walk lib control limits target g order t ≡ some u)
        × IsWalked (lib.edges g) root limits target order t u
  unfolding walk Result
  walk-IsWalked [] t traced expanded searched missed = (
    t,
    refl,
    record {
      traced = traced;
      hit = λ x e. absurd (cc (missed, e));
      calm = λ e. refl;
      exhausted = λ e f x m. absurd m;
    },
  )
  walk-IsWalked (index ∷ order) t traced expanded (from, searched) missed =
      let (depth, here) = has_distance index t expanded from in
      let t1 : Search = discover index depth (lib.edges g index) (visit index t) in
      let d =
        discover-IsDiscovered (lib.edges g) root index depth (lib.edges g index) (visit index t)
          traced here (λ e m. m) in
      let searched1 = subst (λ v. IsSearched (lib.edges g) root v order) (sym d.visited) searched in
      let rest =
        walk-IsWalked order t1 d.traced (expand index t t1 expanded d) searched1 (d.hit ∙ missed) in
      let spent : Bool = is_spent limits (length t.visited) depth in
      choose index order t (stopped_at control t.scan.clock) _ _
        (λ e. stopped_result index order t traced missed)
        (λ e.
          subst
            (λ o. Result index order t (
              with_distance o (λ depth.
                if is_spent limits (length t.visited) depth
                then some (exhaust t)
                else if is_target target index
                then some (record (visit index t) { hit = some index })
                else walk lib control limits target g order
                    (discover index depth (lib.edges g index) (visit index t)))))
            (sym here)
            (choose index order t spent _ _ (λ k. spent_result index order t traced missed)
              (λ k.
                choose index order t (is_target target index) _ _
                  (λ is.
                    hit_result index order t depth traced here
                      (depth_fits limits (length t.visited) depth k) is)
                  (λ no_hit. further_result index order t t1 _ no_hit d.scan rest))))
