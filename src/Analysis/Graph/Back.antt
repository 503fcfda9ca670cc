-- ===== src/Analysis/Graph/Back.antt =====
-- crates/analysis/src/graph.rs: the distances of a search, and the way back from a node.
use ferrum_atlas.Prelude.{
  ◌+◌, ◌≡◌, ◌≢◌, refl, sym, ap, ◌∙◌, subst, inl, inr, ℕ, zero, suc, ◌≤◌, List, [], ◌∷◌, none, some,
  Mem, length, Option-cases, if◌then◌else◌, arith,
}
use ferrum_atlas.Prelude.Text.{Text, text_eq, Text-discrete}
use ferrum_atlas.Prelude.Maps.{at, put, at-put, at-put_other}
use ferrum_atlas.Analysis.Graph.Prepare.{CallEdge, is_some}
use ferrum_atlas.Analysis.Graph.Path.{Back, Search, discover, go_back, trace}

-- One edge that leaves a node, in the order in which the graph lists them.
abbrev pub IsStep : (Text → List CallEdge) → Text → Text → Text → Type 0
IsStep edges p relation x = (e : CallEdge) × Mem e (edges p) × (e.to ≡ x) × (e.weight.id ≡ relation)

-- A way along the edges, with its nodes and its relations.
pub data Way (edges : Text → List CallEdge) : Text → Text → List Text → List Text → Type 0 where
  stay : (x : Text) → Way edges x x (x ∷ []) []
  along :
      (x y z relation : Text) (path relations : List Text)
      → IsStep edges x relation y
      → Way edges y z path relations
      → Way edges x z (x ∷ path) (relation ∷ relations)

-- Where a distance comes from.
abbrev pub Origin : (Text → List CallEdge) → Text → Search → Text → ℕ → Type 0
Origin edges root t x zero = (x ≡ root) × (at x t.previous ≡ none)
Origin edges root t x (suc d) =
    (b : Back) × (at x t.previous ≡ some b)
    × (at b.parent t.distances ≡ some d)
    × IsStep edges b.parent b.relation x

abbrev pub IsTraced : (Text → List CallEdge) → Text → Search → Type 0
IsTraced edges root t = (x : Text) (d : ℕ) → at x t.distances ≡ some d → Origin edges root t x d

-- The loop back ends at the root within the distance.
pub trace-Way :
    (edges : Text → List CallEdge) (root : Text) (t : Search) (fuel d : ℕ) (x z : Text)
    (path relations : List Text)
    → IsTraced edges root t
    → at x t.distances ≡ some d
    → d ≤ fuel
    → Way edges x z path relations
    → (out : List Text × List Text) × (trace fuel t.previous x path relations ≡ some out)
      × Way edges root z out.0 out.1
      × (length out.1 ≡ d + length relations)
unfolding trace
trace-Way edges root t zero zero x z path relations traced has small way =
    let (same, last) = traced x 0 has in
    (
      (path, relations),
      ap (λ o. go_back (λ parent p r. none) o path relations) last,
      subst (λ y. Way edges y z path relations) same way,
      omega arith,
    )
trace-Way edges root t (suc fuel) zero x z path relations traced has small way =
    let (same, last) = traced x 0 has in
    (
      (path, relations),
      ap (λ o. go_back (λ parent p r. trace fuel t.previous parent p r) o path relations) last,
      subst (λ y. Way edges y z path relations) same way,
      omega arith,
    )
trace-Way edges root t zero (suc d) x z path relations traced has small way =
    absurd (omega (arith, small))
trace-Way edges root t (suc fuel) (suc d) x z path relations traced has small way =
    let (b, prev, dist, step) = traced x (suc d) has in
    let (out, ran, chain, size) =
      trace-Way edges root t fuel d b.parent z (b.parent ∷ path) (b.relation ∷ relations) traced
        dist (omega (arith, small)) (along b.parent x z b.relation path relations step way) in
    (
      out,
      ap (λ o. go_back (λ parent p r. trace fuel t.previous parent p r) o path relations) prev
          ∙ ran,
      chain,
      omega (arith, size),
    )

-- What the loop over the edges of a node leaves.
pub record IsDiscovered (edges : Text → List CallEdge) (root : Text) (es : List CallEdge)
    (t u : Search) : Type 0 where
  pub traced : IsTraced edges root u
  pub scan : u.scan ≡ t.scan
  pub visited : u.visited ≡ t.visited
  pub hit : u.hit ≡ t.hit
  pub kept : (x : Text) (d : ℕ) → at x t.distances ≡ some d → at x u.distances ≡ some d
  pub reached : (e : CallEdge) → Mem e es → (d : ℕ) × (at e.to u.distances ≡ some d)

abbrev add_edge : Text → ℕ → CallEdge → Search → Search
add_edge index depth e t = record t {
  distances = put e.to (suc depth) t.distances;
  previous = put e.to (record { parent = index; relation = e.weight.id }) t.previous;
}

differs : (m : List (Text × ℕ)) (x y : Text) (d : ℕ) → at x m ≡ some d → at y m ≡ none → x ≢ y
differs m x y d h k = λ e. cc (e, h, k)

add_edge-IsTraced :
    (edges : Text → List CallEdge) (root index : Text) (depth : ℕ) (e : CallEdge) (t : Search)
    → IsTraced edges root t
    → at index t.distances ≡ some depth
    → Mem e (edges index)
    → at e.to t.distances ≡ none
    → IsTraced edges root (add_edge index depth e t)
add_edge-IsTraced edges root index depth e t traced here m vacant x d has =
    elim (Text-discrete x e.to) [
      | yes same ↦ fresh x d same has
      | no other ↦ old x d other (sym (at-put_other x e.to (suc depth) t.distances other) ∙ has)
    ]
  where
    back : Back
    back = record { parent = index; relation = e.weight.id }

    fresh :
        (x : Text) (d : ℕ)
        → x ≡ e.to
        → at x (put e.to (suc depth) t.distances) ≡ some d
        → Origin edges root (add_edge index depth e t) x d
    fresh x zero same has' =
        let k = at-put e.to (suc depth) t.distances in absurd (ground (arith, same, has', k))
    fresh x (suc n) same has' =
        let k = at-put e.to (suc depth) t.distances in
        let d : depth ≡ n = ground (arith, same, has', k) in
        (
          back,
          ap (λ z. at z (put e.to back t.previous)) same ∙ at-put e.to back t.previous,
          at-put_other index e.to (suc depth) t.distances
                (differs t.distances index e.to depth here vacant)
              ∙ here
              ∙ ap some d,
          (e, m, sym same, refl),
        )

    old :
        (x : Text) (d : ℕ)
        → x ≢ e.to
        → at x t.distances ≡ some d
        → Origin edges root (add_edge index depth e t) x d
    old x zero other has' =
        let (same, last) = traced x 0 has' in
        (same, at-put_other x e.to back t.previous other ∙ last)
    old x (suc n) other has' =
        let (b, prev, dist, step) = traced x (suc n) has' in
        (
          b,
          at-put_other x e.to back t.previous other ∙ prev,
          at-put_other b.parent e.to (suc depth) t.distances
                (differs t.distances b.parent e.to n dist vacant)
              ∙ dist,
          step,
        )

pub discover-IsDiscovered :
    (edges : Text → List CallEdge) (root index : Text) (depth : ℕ) (es : List CallEdge) (t : Search)
    → IsTraced edges root t
    → at index t.distances ≡ some depth
    → ((e : CallEdge) → Mem e es → Mem e (edges index))
    → IsDiscovered edges root es t (discover index depth es t)
unfolding discover
discover-IsDiscovered edges root index depth [] t traced here inside = record {
  traced = traced;
  scan = refl;
  visited = refl;
  hit = refl;
  kept = λ x d h. h;
  reached = λ e m. absurd m;
}
discover-IsDiscovered edges root index depth (e ∷ es) t traced here inside =
    elim (Option-cases (at e.to t.distances)) [
      | inl vacant ↦
          subst
            (λ o.
              IsDiscovered edges root (e ∷ es) t
                (discover index depth es (if is_some o then t else add_edge index depth e t)))
            (sym vacant)
            (with_edge vacant (
              discover-IsDiscovered edges root index depth es (add_edge index depth e t)
                (add_edge-IsTraced edges root index depth e t traced here (inside e (inl refl))
                  vacant)
                (at-put_other index e.to (suc depth) t.distances
                    (differs t.distances index e.to depth here vacant)
                  ∙ here)
                (λ f m. inside f (inr m))))
      | inr (d, known) ↦
          subst
            (λ o.
              IsDiscovered edges root (e ∷ es) t
                (discover index depth es (if is_some o then t else add_edge index depth e t)))
            (sym known)
            (without d known (
              discover-IsDiscovered edges root index depth es t traced here
                (λ f m. inside f (inr m))))
    ]
  where
    with_edge :
        at e.to t.distances ≡ none
        → {u : Search} → IsDiscovered edges root es (add_edge index depth e t) u
        → IsDiscovered edges root (e ∷ es) t u
    with_edge vacant {u} r = record {
      traced = r.traced;
      scan = r.scan;
      visited = r.visited;
      hit = r.hit;
      kept = λ x d h.
          r.kept x d (
            at-put_other x e.to (suc depth) t.distances (differs t.distances x e.to d h vacant)
            ∙ h);
      reached = λ f m. elim m [
        | inl same ↦ (
          suc depth,
          ap (λ (c : CallEdge). at c.to u.distances) same
              ∙ r.kept e.to (suc depth) (at-put e.to (suc depth) t.distances),
        )
        | inr later ↦ r.reached f later
      ];
    }

    without :
        (d : ℕ)
        → at e.to t.distances ≡ some d
        → {u : Search} → IsDiscovered edges root es t u
        → IsDiscovered edges root (e ∷ es) t u
    without d known {u} r = record {
      traced = r.traced;
      scan = r.scan;
      visited = r.visited;
      hit = r.hit;
      kept = r.kept;
      reached = λ f m. elim m [
        | inl same ↦ (d, ap (λ (c : CallEdge). at c.to u.distances) same ∙ r.kept e.to d known)
        | inr later ↦ r.reached f later
      ];
    }
