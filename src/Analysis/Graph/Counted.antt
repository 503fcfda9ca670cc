-- ===== src/Analysis/Graph/Counted.antt =====
-- crates/analysis/src/graph.rs: the counts that `analyze_graph` gives when it is not stopped.
use ferrum_atlas.Prelude.{
  ℕ, suc, ◌+◌, List, [], ◌∷◌, Bool, true, false, ◌≡◌, refl, ap, count_if, ◌==◌, if◌then◌else◌,
  arith,
}
use ferrum_atlas.Prelude.Text.{Text, text_eq, text_ord}
use ferrum_atlas.Prelude.Maps.{at, at-put, at-put_other}
use ferrum_atlas.Model.Definitions.{Definition, Target, resolved, unknown_target, Relation}
use ferrum_atlas.Analysis.Envelope.{AnalysisControl, stopped_at}
use ferrum_atlas.Analysis.Graph.Prepare.{UnknownFrontier, tick, stop, is_some}
use ferrum_atlas.Analysis.Graph.Metrics.{
  or_zero, bump, count_unknown, Tally, tally_target, tally_site, tally_sites,
}

abbrev pub is_target_of : Text → Target → Bool
is_target_of id (resolved target) = target == id
is_target_of id (unknown_target reason label) = false

-- A site with its source counted.
abbrev counted : Relation → Tally → Tally
counted r t = record t { outgoing = bump r.source t.outgoing; scan = tick t.scan }

abbrev Counts : Type 0
Counts = List (Text × ℕ)

bump_lem :
    (q k : Text) (m : Counts)
    → or_zero (at q (bump k m)) ≡ (if k == q then suc (or_zero (at q m)) else or_zero (at q m))
bump_lem q k m =
    ground (arith, at-put k (suc (or_zero (at k m))) m, at-put_other q k (suc (or_zero (at k m))) m)

pub count_unknown_lem :
    (q : Text) (fs : List UnknownFrontier) (m : Counts)
    → or_zero (at q (count_unknown fs m)) ≡ or_zero (at q m) + count_if (λ f. f.source == q) fs
count_unknown_lem q [] m = omega arith
count_unknown_lem q (f ∷ fs) m =
    ground (arith, count_unknown_lem q fs (bump f.source m), bump_lem q f.source m)

module _ (control : AnalysisControl) (nodes : List (Text × Definition))
    (for : List (Text × Text)) where
  target_outgoing :
      (source : Text) (target : Target) (t : Tally)
      → (tally_target nodes for source target t).outgoing ≡ t.outgoing
  target_outgoing source (unknown_target reason label) t = refl
  target_outgoing source (resolved id) t = ground arith

  target_incoming :
      (q source : Text) (target : Target) (t : Tally)
      → is_some (at q nodes) ≡ true
      → or_zero (at q (tally_target nodes for source target t).incoming)
        ≡ or_zero (at q t.incoming) + count_if (is_target_of q) (target ∷ [])
  target_incoming q source (unknown_target reason label) t h = omega arith
  target_incoming q source (resolved id) t h = ground (arith, bump_lem q id t.incoming, h)

  target_scan :
      (source : Text) (target : Target) (t : Tally)
      → (tally_target nodes for source target t).scan ≡ t.scan
  target_scan source (unknown_target reason label) t = refl
  target_scan source (resolved id) t = ground arith

  module _ (runs : (n : ℕ) → stopped_at control n ≡ false) (q : Text) where
    next_site :
        (r : Relation) (rs : List Relation) (t : Tally)
        → tally_sites control nodes for (r ∷ rs) t
          ≡ tally_sites control nodes for rs (tally_site nodes for r t)
    unfolding tally_sites
    next_site r rs t =
        ap
          (λ stopped. elim stopped [
            | true ↦ record t { scan = stop control t.scan }
            | false ↦ tally_sites control nodes for rs (tally_site nodes for r t)
          ])
          (runs t.scan.clock)

    pub sites_outgoing :
        (rs : List Relation) (t : Tally)
        → or_zero (at q (tally_sites control nodes for rs t).outgoing)
          ≡ or_zero (at q t.outgoing) + count_if (λ r. r.source == q) rs
    unfolding tally_sites
    sites_outgoing [] t = omega arith
    sites_outgoing (r ∷ rs) t =
        rw
          (
            next_site r rs t,
            sites_outgoing rs (tally_site nodes for r t),
            target_outgoing r.source r.target (counted r t),
            bump_lem q r.source t.outgoing,
          )
          (ground arith)

    pub sites_incoming :
        is_some (at q nodes) ≡ true
        → (rs : List Relation) (t : Tally)
        → or_zero (at q (tally_sites control nodes for rs t).incoming)
          ≡ or_zero (at q t.incoming) + count_if (λ r. is_target_of q r.target) rs
    unfolding tally_sites
    sites_incoming h [] t = omega arith
    sites_incoming h (r ∷ rs) t =
        rw
          (
            next_site r rs t,
            sites_incoming h rs (tally_site nodes for r t),
            target_incoming q r.source r.target (counted r t) h,
          )
          (ground arith)
