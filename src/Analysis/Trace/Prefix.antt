-- ===== src/Analysis/Trace/Prefix.antt =====
-- The prefix that the comparison of crates/analysis/src/trace.rs matches, and its first divergence.
use ferrum_atlas.Prelude.{
  ℕ, zero, suc, ◌<◌, List, [], ◌∷◌, ◌≡◌, ◌≢◌, refl, ap, subst, ◌⊎◌, inl, inr, true, false, Option,
  none, some, arith, length, get_elem?, Bool-cases, Option-cases,
}
use ferrum_atlas.Prelude.Text.{Text, text_eq, codes}
use ferrum_atlas.Model.Observations.{TraceEvent}
use ferrum_atlas.Analysis.Envelope.{AnalysisControl, stopped_at}
use ferrum_atlas.Analysis.Trace.Compare.{
  Divergence, option_text_eq, both_differ, Comparison, diverges, ends, one_more, compare_events,
}

abbrev pub Agree : TraceEvent → TraceEvent → Type 0
Agree a b = (a.kind ≡ b.kind) × (a.correlation_id ≡ b.correlation_id)

-- Why two events, or an event and the end of a window, are the first that differ.
abbrev pub Differ : Option TraceEvent → Option TraceEvent → Text → Type 0
Differ (some a) (some b) reason =
    ((reason ≡ codes "event_kind") × (a.kind ≢ b.kind))
    ⊎ ((reason ≡ codes "semantic_anchor")
        × (a.kind ≡ b.kind)
        × (a.correlation_id ≢ b.correlation_id))
Differ none none reason = ⊥
Differ _ _ reason = reason ≡ codes "selected_window_event_count"

abbrev pub AgreeAt : List TraceEvent → List TraceEvent → ℕ → Type 0
AgreeAt left right i =
    (a : TraceEvent) × (b : TraceEvent) × (get_elem? left i ≡ some a)
    × (get_elem? right i ≡ some b)
    × Agree a b

pub record IsFirst (left right : List TraceEvent) (c : Comparison) : Type 0 where
  pub agreed : (i : ℕ) → i < c.matching_prefix_events → AgreeAt left right i
  pub differs :
      (d : Divergence)
      → c.divergence ≡ some d
      → (c.compared_events ≡ suc c.matching_prefix_events)
        × (get_elem? left c.matching_prefix_events ≡ d.before)
        × (get_elem? right c.matching_prefix_events ≡ d.after)
        × Differ d.before d.after d.reason
  pub whole :
      c.divergence ≡ none
      → c.stopped ≡ false
      → (c.compared_events ≡ c.matching_prefix_events)
        × (c.matching_prefix_events ≡ length left)
        × (c.matching_prefix_events ≡ length right)

stopped-IsFirst : (left right : List TraceEvent) → IsFirst left right (ends true)
stopped-IsFirst left right = record {
  agreed = λ i h. absurd (nothing i h);
  differs = λ d h. cc;
  whole = λ h k. cc;
}
  where
    nothing : (i : ℕ) → i < 0 → ⊥
    nothing i h = omega arith

diverges-IsFirst :
    (left right : List TraceEvent) (reason : Text) (a b : Option TraceEvent)
    → get_elem? left 0 ≡ a
    → get_elem? right 0 ≡ b
    → Differ a b reason
    → IsFirst left right (diverges reason a b)
diverges-IsFirst left right reason a b at_left at_right differ = record {
  agreed = λ i h. absurd (nothing i h);
  differs = λ d h.
      subst
        (λ e.
          (◌≡◌ {A = ℕ} 1 1)
          × (get_elem? left 0 ≡ e.before)
          × (get_elem? right 0 ≡ e.after)
          × Differ e.before e.after e.reason)
        (the_same (record { reason = reason; before = a; after = b }) d h)
        (refl, at_left, at_right, differ);
  whole = λ h k. cc;
}
  where
    nothing : (i : ℕ) → i < 0 → ⊥
    nothing i h = omega arith

    the_same : (p q : Divergence) → some p ≡ some q → p ≡ q
    the_same p q e = cc

both_differ-none : (a b : TraceEvent) → both_differ a b ≡ none → Agree a b
both_differ-none a b h = ground arith

both_differ-some :
    (a b : TraceEvent) (reason : Text)
    → both_differ a b ≡ some reason
    → Differ (some a) (some b) reason
both_differ-some a b reason h = ground arith

one_more-IsFirst :
    (a b : TraceEvent) (left right : List TraceEvent) (c : Comparison)
    → Agree a b
    → IsFirst left right c
    → IsFirst (a ∷ left) (b ∷ right) (one_more c)
one_more-IsFirst a b left right c agree first = record {
  agreed = go;
  differs = λ d h. let (n, l, r, differ) = first.differs d h in (ap suc n, l, r, differ);
  whole = λ h k. let (n, l, r) = first.whole h k in (ap suc n, ap suc l, ap suc r);
}
  where
    go : (i : ℕ) → i < suc c.matching_prefix_events → AgreeAt (a ∷ left) (b ∷ right) i
    go zero h = (a, b, refl, refl, agree)
    go (suc i) h = first.agreed i (omega arith)

-- The events that are counted as matching agree in kind and correlation; a divergence is at the next
-- place, with the two events there and a reason that holds of them; with no divergence, unless the
-- analysis was stopped, both windows have been matched to their ends.
pub compare_events-IsFirst :
    (control : AnalysisControl) (clock : ℕ) (left right : List TraceEvent)
    → IsFirst left right (compare_events control clock left right)
unfolding compare_events
compare_events-IsFirst control clock [] [] = record {
  agreed = λ i h. absurd (nothing i h);
  differs = λ d h. cc;
  whole = λ h k. (refl, refl, refl);
}
  where
    nothing : (i : ℕ) → i < 0 → ⊥
    nothing i h = omega arith
compare_events-IsFirst control clock (a ∷ left) [] = elim (Bool-cases (stopped_at control clock)) [
  | inl stopped ↦ rw stopped (stopped-IsFirst (a ∷ left) [])
  | inr goes ↦ rw goes (
      diverges-IsFirst (a ∷ left) [] (codes "selected_window_event_count") (some a) none refl refl
        refl)
]
compare_events-IsFirst control clock [] (b ∷ right) = elim (Bool-cases (stopped_at control clock)) [
  | inl stopped ↦ rw stopped (stopped-IsFirst [] (b ∷ right))
  | inr goes ↦ rw goes (
      diverges-IsFirst [] (b ∷ right) (codes "selected_window_event_count") none (some b) refl refl
        refl)
]
compare_events-IsFirst control clock (a ∷ left) (b ∷ right) =
    let rest = compare_events-IsFirst control (suc clock) left right in
    elim (Bool-cases (stopped_at control clock)) [
      | inl stopped ↦ rw stopped (stopped-IsFirst (a ∷ left) (b ∷ right))
      | inr goes ↦ rw goes (elim (Option-cases (both_differ a b)) [
        | inl same ↦ rw same (
            one_more-IsFirst a b left right (compare_events control (suc clock) left right)
              (both_differ-none a b same) rest)
        | inr (reason, differ) ↦ rw differ (
            diverges-IsFirst (a ∷ left) (b ∷ right) reason (some a) (some b) refl refl
              (both_differ-some a b reason differ))
      ])
    ]
