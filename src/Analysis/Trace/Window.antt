-- ===== src/Analysis/Trace/Window.antt =====
-- crates/analysis/src/trace.rs: the selected stream, its window and the anchors in it.
use ferrum_atlas.Prelude.{
  ℕ, zero, suc, ◌+◌, List, [], ◌∷◌, ◌++◌, Bool, true, not, ◌&&◌, Option, none, some, Result, ok,
  err, bind, ensure, length, all, keep_if, ltb, leb, lex_lt, ◌==◌, if◌then◌else◌,
}
use ferrum_atlas.Prelude.Text.{Text, text_eq, codes, is_ascii_digit}
use ferrum_atlas.Prelude.Decimal.{parse_unsigned}
use ferrum_atlas.Prelude.Words.{u64_max}
use ferrum_atlas.Model.Observations.{TraceEvent, TraceStream, ObservationBundle}
use ferrum_atlas.Analysis.Envelope.{
  AnalysisError, invalid_input, budget_exhausted, AnalysisControl, stopped_at,
}

abbrev pub parsed : Option ℕ → Result AnalysisError ℕ
parsed none = err (invalid_input (codes "trace integer exceeds u64"))
parsed (some n) = ok n

unfoldable pub decimal : Text → Result AnalysisError ℕ
decimal value =
    bind
      (ensure (not (value == codes "") && all is_ascii_digit value)
        (invalid_input (codes "trace integers must be decimal u64 strings")))
      λ _. parsed (parse_unsigned u64_max value)

abbrev pub optional_decimal : Option Text → Result AnalysisError ℕ
optional_decimal none = ok 0
optional_decimal (some text) = decimal text

abbrev pub total_events : List TraceStream → ℕ
total_events [] = 0
total_events (s ∷ ss) = length s.events + total_events ss

abbrev pub rises : Option ℕ → ℕ → Bool
rises none value = true
rises (some previous) value = ltb previous value

-- The loop over the events; the first argument is the sequence number before.
unfoldable pub check_events : Option ℕ → List TraceEvent → Result AnalysisError (Unit {0})
check_events previous [] = ok tt
check_events previous (event ∷ events) = bind (decimal event.sequence) λ value.
    bind (decimal event.timestamp) λ _. bind (optional_decimal event.loss_count) λ _.
      bind
        (ensure (rises previous value)
          (invalid_input (codes "stream sequence must increase strictly")))
        λ _. check_events (some value) events

abbrev pub only_stream : List TraceStream → Result AnalysisError TraceStream
only_stream (stream ∷ []) = ok stream
only_stream _ = err (invalid_input (codes "selected stream must exist exactly once"))

unfoldable pub selected_stream : ObservationBundle → Text → Result AnalysisError TraceStream
selected_stream bundle id =
    bind
      (ensure (leb (length bundle.streams) 64 && leb (total_events bundle.streams) 10000)
        budget_exhausted)
      λ _.
        bind (only_stream (keep_if (λ stream. stream.id == id) bundle.streams))
          λ stream. bind (check_events none stream.events) λ _. ok stream

-- `events[start..]` and `events[..limit]`.
abbrev pub skip {ℓ} : {A : Type ℓ} → ℕ → List A → List A
skip zero events = events
skip (suc n) [] = []
skip (suc n) (event ∷ events) = skip n events

abbrev pub take {ℓ} : {A : Type ℓ} → ℕ → List A → List A
take zero events = []
take (suc n) [] = []
take (suc n) (event ∷ events) = event ∷ take n events

unfoldable pub window : TraceStream → ℕ → ℕ → Result AnalysisError (List TraceEvent)
window stream offset limit =
    if ltb (length stream.events) offset
    then err (invalid_input (codes "trace offset exceeds selected stream"))
    else ok (take limit (skip offset stream.events))

-- The anchors by their text, each with the places where it occurs.
abbrev pub Anchors : Type 0
Anchors = List (Text × List ℕ)

-- `map.entry(anchor).or_default().push(index)`.
unfoldable pub push_anchor : Text → ℕ → Anchors → Anchors
push_anchor anchor index [] = (anchor, index ∷ []) ∷ []
push_anchor anchor index ((other, places) ∷ rest) =
    let later = push_anchor anchor index rest in
    if anchor == other
    then (other, places ++ index ∷ []) ∷ rest
    else if lex_lt anchor other
    then (anchor, index ∷ []) ∷ (other, places) ∷ rest
    else (other, places) ∷ later

abbrev pub add_anchor : Option Text → ℕ → Anchors → Anchors
add_anchor none index anchors = anchors
add_anchor (some anchor) index anchors =
    if anchor == codes "" then anchors else push_anchor anchor index anchors

-- The loop of `anchors`, with the number of the next reading of the control.
unfoldable pub collect_anchors : AnalysisControl → ℕ → ℕ → List TraceEvent → Anchors → Anchors × ℕ
collect_anchors control clock index [] anchors = (anchors, clock)
collect_anchors control clock index (event ∷ events) anchors =
    let rest =
      collect_anchors control (suc clock) (suc index) events
        (add_anchor event.correlation_id index anchors) in
    if stopped_at control clock then (anchors, suc clock) else rest

-- `map.get(key)`.
abbrev pub find_anchor : Text → Anchors → Option (List ℕ)
find_anchor key [] = none
find_anchor key ((other, places) ∷ rest) =
    if key == other then some places else find_anchor key rest
