-- ===== src/Analysis/Graph/Tallied.antt =====
-- crates/analysis/src/graph.rs: the metrics of `analyze_graph` against its call sites.
use ferrum_atlas.Prelude.{
  ℕ, List, [], ◌∷◌, map, true, false, ◌≡◌, refl, sym, ap, subst, inl, inr, All, Mem, count_if, ◌==◌,
  arith,
}
use ferrum_atlas.Prelude.Text.{Text, text_eq}
use ferrum_atlas.Prelude.Maps.{at}
use ferrum_atlas.Model.Definitions.{Definition}
use ferrum_atlas.Analysis.Envelope.{AnalysisControl, stopped_at}
use ferrum_atlas.Analysis.Graph.Prepare.{Scan, Prepared, tick, stop, is_some}
use ferrum_atlas.Analysis.Graph.Metrics.{
  DefinitionMetrics, Components, count_unknown, Tally, metrics_of, scan_metrics,
}
use ferrum_atlas.Analysis.Graph.Report.{first_tally, tally}
use ferrum_atlas.Analysis.Graph.Counted.{
  is_target_of, count_unknown_lem, sites_outgoing, sites_incoming,
}

-- The counts of a definition are those of the call sites and of the unknown frontiers.
pub record IsCounted (p : Prepared) (m : DefinitionMetrics) : Type 0 where
  pub outgoing : m.outgoing_call_sites ≡ count_if (λ r. r.source == m.definition_id) p.sites
  pub incoming :
      m.incoming_call_sites ≡ count_if (λ r. is_target_of m.definition_id r.target) p.sites
  pub unknown : m.unknown_call_sites ≡ count_if (λ f. f.source == m.definition_id) p.unknown

pub at-Mem :
    (id : Text) (d : Definition) (nodes : List (Text × Definition))
    → Mem (id, d) nodes
    → is_some (at id nodes) ≡ true
at-Mem id d [] m = absurd m
at-Mem id d ((k, e) ∷ nodes) (inl same) = ground (arith, ap (λ (q : Text × Definition). q.0) same)
at-Mem id d ((k, e) ∷ nodes) (inr m) = ground (arith, at-Mem id d nodes m)

module _ (control : AnalysisControl) (runs : (n : ℕ) → stopped_at control n ≡ false) where
  pub metrics_of-IsCounted :
      (p : Prepared) (c : Components) (id : Text) (d : Definition)
      → is_some (at id p.graph.nodes) ≡ true
      → IsCounted p (metrics_of (tally control p c) (count_unknown p.unknown []) id d)
  unfolding tally
  metrics_of-IsCounted p c id d h =
      let sent =
        sites_outgoing control p.graph.nodes c.component_for runs id p.sites (first_tally c.scan) in
      let received =
        sites_incoming control p.graph.nodes c.component_for runs id h p.sites
          (first_tally c.scan) in
      let open_ended = count_unknown_lem id p.unknown [] in
      record {
        outgoing = omega (arith, sent);
        incoming = omega (arith, received);
        unknown = omega (arith, open_ended);
      }

  next_metrics :
      (t : Tally) (unknown : List (Text × ℕ)) (id : Text) (d : Definition)
      (nodes : List (Text × Definition)) (s : Scan)
      → scan_metrics control t unknown ((id, d) ∷ nodes) s ≡ (
        metrics_of t unknown id d ∷ (scan_metrics control t unknown nodes (tick s)).0,
        (scan_metrics control t unknown nodes (tick s)).1,
      )
  unfolding scan_metrics
  next_metrics t unknown id d nodes s =
      ap
        (λ stopped. elim stopped [
          | true ↦ ([], stop control s)
          | false ↦ (
            metrics_of t unknown id d ∷ (scan_metrics control t unknown nodes (tick s)).0,
            (scan_metrics control t unknown nodes (tick s)).1,
          )
        ])
        (runs s.clock)

  pub scan_metrics-All :
      (P : DefinitionMetrics → Type 0) (t : Tally) (unknown : List (Text × ℕ))
      (nodes : List (Text × Definition)) (s : Scan)
      → ((id : Text) (d : Definition) → Mem (id, d) nodes → P (metrics_of t unknown id d))
      → All P (scan_metrics control t unknown nodes s).0
        × (map (λ m. m.definition_id) (scan_metrics control t unknown nodes s).0
            ≡ map (λ n. n.0) nodes)
  unfolding scan_metrics
  scan_metrics-All P t unknown [] s h = (tt, refl)
  scan_metrics-All P t unknown ((id, d) ∷ nodes) s h =
      let (all_rest, ids) = scan_metrics-All P t unknown nodes (tick s) (λ k e m. h k e (inr m)) in
      subst
        (λ (r : List DefinitionMetrics × Scan).
          All P r.0 × (map (λ m. m.definition_id) r.0 ≡ id ∷ map (λ n. n.0) nodes))
        (sym (next_metrics t unknown id d nodes s))
        ((h id d (inl refl), all_rest), ap (λ ks. id ∷ ks) ids)
