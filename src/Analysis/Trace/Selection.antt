-- ===== src/Analysis/Trace/Selection.antt =====
-- What crates/analysis/src/trace.rs selects: a stream that is in order, and a slice of it.
use ferrum_atlas.Prelude.{
  ℕ, zero, suc, ◌+◌, ◌≤◌, ◌<◌, List, [], ◌∷◌, ◌≡◌, refl, sym, subst, ap, ◌∙◌, Bool, true, ◌&&◌,
  Option, none, some, Result, ok, err, arith, bind-ok, ensure, ensure-ok, length, get_elem?,
  keep_if, ltb, leb, ◌==◌, if◌then◌else◌, Bool-cases, inl, inr,
}
use ferrum_atlas.Prelude.Text.{Text, text_eq, codes}
use ferrum_atlas.Model.Observations.{TraceEvent, TraceStream, ObservationBundle}
use ferrum_atlas.Analysis.Envelope.{AnalysisError, invalid_input, budget_exhausted}
use ferrum_atlas.Analysis.Trace.Window.{
  decimal, optional_decimal, total_events, rises, check_events, only_stream, selected_stream, skip,
  take, window,
}

-- Each event has a higher sequence number than the one before it.
abbrev pub IsRising : List TraceEvent → Type 0
IsRising events =
    (i : ℕ) (a b : TraceEvent)
    → get_elem? events i ≡ some a
    → get_elem? events (suc i) ≡ some b
    → (m : ℕ) × (n : ℕ) × (decimal a.sequence ≡ ok m) × (decimal b.sequence ≡ ok n) × (m < n)

check_events-cons :
    (previous : Option ℕ) (e : TraceEvent) (es : List TraceEvent)
    → check_events previous (e ∷ es) ≡ ok tt
    → (m : ℕ) × (decimal e.sequence ≡ ok m)
      × (rises previous m ≡ true)
      × (check_events (some m) es ≡ ok tt)
unfolding check_events
check_events-cons previous e es h =
    let (m, is_m, h1) = bind-ok (decimal e.sequence) _ tt h in
    let (_, _, h2) = bind-ok (decimal e.timestamp) _ tt h1 in
    let (_, _, h3) = bind-ok (optional_decimal e.loss_count) _ tt h2 in
    let (_, up, h4) =
      bind-ok
        (ensure (rises previous m) (invalid_input (codes "stream sequence must increase strictly")))
        _ tt h3 in
    (
      m,
      is_m,
      ensure-ok (rises previous m) (invalid_input (codes "stream sequence must increase strictly"))
          up,
      h4,
    )

check_events-IsRising :
    (previous : Option ℕ) (events : List TraceEvent)
    → check_events previous events ≡ ok tt
    → IsRising events
check_events-IsRising previous [] h i a b at next = cc
check_events-IsRising previous (e ∷ es) h zero a b at next = go es refl next
  where
    the_same : (p q : TraceEvent) → some p ≡ some q → p ≡ q
    the_same p q e = cc

    go :
        (rest : List TraceEvent)
        → es ≡ rest
        → get_elem? rest 0 ≡ some b
        → (m : ℕ) × (n : ℕ) × (decimal a.sequence ≡ ok m) × (decimal b.sequence ≡ ok n) × (m < n)
    go [] same here = cc
    go (e2 ∷ rest) same here =
        let (m, is_m, _, h1) = check_events-cons previous e es h in
        let (n, is_n, up, _) =
          check_events-cons (some m) e2 rest
            (subst (λ z. check_events (some m) z ≡ ok tt) same h1) in
        (
          m,
          n,
          subst (λ z. decimal z.sequence ≡ ok m) (the_same e a at) is_m,
          subst (λ z. decimal z.sequence ≡ ok n) (the_same e2 b here) is_n,
          ground arith,
        )
check_events-IsRising previous (e ∷ es) h (suc i) a b at next =
    let (m, _, _, h1) = check_events-cons previous e es h in
    check_events-IsRising (some m) es h1 i a b at next

only_stream-ok :
    (streams : List TraceStream) (stream : TraceStream)
    → only_stream streams ≡ ok stream
    → streams ≡ stream ∷ []
only_stream-ok [] stream h = cc
only_stream-ok (s ∷ []) stream h = ap (λ r. elim r [ ok x ↦ x ∷ [] | err e ↦ s ∷ [] ]) h
only_stream-ok (s ∷ t ∷ ss) stream h = cc

-- A stream that is selected is the only one of the bundle with the identity, its events rise strictly
-- in their sequence numbers, and the bundle is within its budget.
pub selected_stream-IsRising :
    (bundle : ObservationBundle) (id : Text) (stream : TraceStream)
    → selected_stream bundle id ≡ ok stream
    → (keep_if (λ s. s.id == id) bundle.streams ≡ stream ∷ [])
      × IsRising stream.events
      × (length bundle.streams ≤ 64)
      × (total_events bundle.streams ≤ 10000)
unfolding selected_stream
selected_stream-IsRising bundle id stream h =
    let test = leb (length bundle.streams) 64 && leb (total_events bundle.streams) 10000 in
    let (_, small, h1) = bind-ok (ensure test budget_exhausted) _ stream h in
    let (found, only, h2) =
      bind-ok (only_stream (keep_if (λ s. s.id == id) bundle.streams)) _ stream h1 in
    let (_, checked, h3) = bind-ok (check_events none found.events) _ stream h2 in
    let it : found ≡ stream = ap (λ r. elim r [ ok x ↦ x | err e ↦ found ]) h3 in
    let fits = ensure-ok test budget_exhausted small in
    (
      only_stream-ok (keep_if (λ s. s.id == id) bundle.streams) found only ∙ ap (λ s. s ∷ []) it,
      subst (λ s. IsRising s.events) it (check_events-IsRising none found.events checked),
      ground (arith, fits),
      ground (arith, fits),
    )

get_elem?-skip :
    (n i : ℕ) (events : List TraceEvent) → get_elem? (skip n events) i ≡ get_elem? events (n + i)
get_elem?-skip zero i events = ap (get_elem? events) (omega arith)
get_elem?-skip (suc n) i [] = refl
get_elem?-skip (suc n) i (e ∷ es) =
    let step : suc n + i ≡ suc (n + i) = omega arith in
    get_elem?-skip n i es ∙ sym (ap (get_elem? (e ∷ es)) step)

get_elem?-take :
    (n i : ℕ) (events : List TraceEvent) → i < n → get_elem? (take n events) i ≡ get_elem? events i
get_elem?-take zero i events h = absurd (nothing i h)
  where
    nothing : (i : ℕ) → i < 0 → ⊥
    nothing i h = omega arith
get_elem?-take (suc n) i [] h = refl
get_elem?-take (suc n) zero (e ∷ es) h = refl
get_elem?-take (suc n) (suc i) (e ∷ es) h = get_elem?-take n i es (omega arith)

length-take : (n : ℕ) (events : List TraceEvent) → length (take n events) ≤ n
length-take zero events = omega arith
length-take (suc n) [] = omega arith
length-take (suc n) (e ∷ es) = omega (arith, length-take n es)

-- A window holds at most `limit` events, those of the stream from the offset on; the
-- offset is not past the end.
pub window-slice :
    (stream : TraceStream) (offset limit : ℕ) (events : List TraceEvent)
    → window stream offset limit ≡ ok events
    → (offset ≤ length stream.events)
      × (length events ≤ limit)
      × ((i : ℕ) → i < limit → get_elem? events i ≡ get_elem? stream.events (offset + i))
unfolding window
window-slice stream offset limit events h = elim (Bool-cases (ltb (length stream.events) offset)) [
  | inl past ↦ absurd (refused (subst (λ b. next b ≡ ok events) past h))
  | inr within ↦
      let it : take limit (skip offset stream.events) ≡ events =
        ap (λ r. elim r [ ok x ↦ x | err e ↦ take limit (skip offset stream.events) ])
          (subst (λ b. next b ≡ ok events) within h) in
      (
        ground (arith, within),
        subst (λ z. length z ≤ limit) it (length-take limit (skip offset stream.events)),
        λ i below.
            subst (λ z. get_elem? z i ≡ get_elem? stream.events (offset + i)) it
              (get_elem?-take limit i (skip offset stream.events) below
                ∙ get_elem?-skip offset i stream.events),
      )
]
  where
    next : Bool → Result AnalysisError (List TraceEvent)
    next b =
        if b
        then err (invalid_input (codes "trace offset exceeds selected stream"))
        else ok (take limit (skip offset stream.events))

    refused : next true ≡ ok events → ⊥
    refused e = cc
