-- ===== src/Analysis/Trace/Compare.antt =====
-- crates/analysis/src/trace.rs: the loop that compares the events after the anchor, and `interval`.
use ferrum_atlas.Prelude.{
  ℕ, zero, suc, ◌+◌, ◌-◌, ◌/◌, ◌%◌, List, [], ◌∷◌, Bool, true, false, not, ◌&&◌, Option, none, some,
  Result, ok, bind, last?, ltb, leb, ◌==◌, PartialEq, if◌then◌else◌,
}
use ferrum_atlas.Prelude.Text.{Text, Text-discrete, text_eq, codes}
use ferrum_atlas.Model.Observations.{TraceEvent}
use ferrum_atlas.Analysis.Envelope.{AnalysisError, AnalysisControl, stopped_at}
use ferrum_atlas.Analysis.Trace.Window.{decimal}

unfoldable pub Option-Text-discrete : Discrete (Option Text)
Option-Text-discrete = hlevel Text-discrete

instance abbrev pub option_text_eq : PartialEq (Option Text)
option_text_eq = record { dec = Option-Text-discrete }

pub record Divergence : Type 0 where
  pub reason : Text
  pub before : Option TraceEvent
  pub after : Option TraceEvent

abbrev pub both_differ : TraceEvent → TraceEvent → Option Text
both_differ a b =
    if not (a.kind == b.kind)
    then some (codes "event_kind")
    else if not (a.correlation_id == b.correlation_id)
    then some (codes "semantic_anchor")
    else none

-- The `match` on the two events.
abbrev pub reason_of : Option TraceEvent → Option TraceEvent → Option Text
reason_of (some a) (some b) = both_differ a b
reason_of _ _ = some (codes "selected_window_event_count")

pub record Comparison : Type 0 where
  pub compared_events : ℕ
  pub matching_prefix_events : ℕ
  pub divergence : Option Divergence
  pub stopped : Bool

abbrev pub diverges : Text → Option TraceEvent → Option TraceEvent → Comparison
diverges reason a b = record {
  compared_events = 1;
  matching_prefix_events = 0;
  divergence = some (record { reason = reason; before = a; after = b });
  stopped = false;
}

abbrev pub ends : Bool → Comparison
ends stopped = record {
  compared_events = 0;
  matching_prefix_events = 0;
  divergence = none;
  stopped = stopped;
}

abbrev pub one_more : Comparison → Comparison
one_more c = record c {
  compared_events = suc c.compared_events;
  matching_prefix_events = suc c.matching_prefix_events;
}

abbrev pub after_reason :
    Option Text → Option TraceEvent → Option TraceEvent → Comparison → Comparison
after_reason none a b rest = one_more rest
after_reason (some reason) a b rest = diverges reason a b

-- The `for` loop over the longer of the two slices; `clock` numbers the readings of the control.
unfoldable pub compare_events : AnalysisControl → ℕ → List TraceEvent → List TraceEvent → Comparison
compare_events control clock [] [] = ends false
compare_events control clock (a ∷ left) [] =
    if stopped_at control clock
    then ends true
    else after_reason (reason_of (some a) none) (some a) none (ends false)
compare_events control clock [] (b ∷ right) =
    if stopped_at control clock
    then ends true
    else after_reason (reason_of none (some b)) none (some b) (ends false)
compare_events control clock (a ∷ left) (b ∷ right) =
    let rest = compare_events control (suc clock) left right in
    if stopped_at control clock
    then ends true
    else after_reason (reason_of (some a) (some b)) (some a) (some b) rest

-- `to_string` of an unsigned integer: a `u128` has at most 39 digits.
unfoldable pub digits_of : ℕ → ℕ → Text → Text
digits_of zero n acc = (b'0' + n % 10) ∷ acc
digits_of (suc fuel) n acc =
    let more = digits_of fuel (n / 10) ((b'0' + n % 10) ∷ acc) in
    if ltb n 10 then (b'0' + n) ∷ acc else more

unfoldable pub to_string : ℕ → Text
to_string n = digits_of 39 n []

unfoldable pub timestamps : List TraceEvent → Result AnalysisError (List ℕ)
timestamps [] = ok []
timestamps (event ∷ events) =
    let rest = timestamps events in
    bind (decimal event.timestamp) λ value. bind rest λ values. ok (value ∷ values)

-- `windows(2)`: no value is below the one before it.
abbrev pub is_monotonic : List ℕ → Bool
is_monotonic [] = true
is_monotonic (a ∷ []) = true
is_monotonic (a ∷ b ∷ values) = leb a b && is_monotonic (b ∷ values)

abbrev pub elapsed_of : Option ℕ → List ℕ → Option Text
elapsed_of none values = none
elapsed_of (some last) [] = none
elapsed_of (some last) (first ∷ values) = some (to_string (last - first))

unfoldable pub interval : List TraceEvent → Result AnalysisError (Option Text)
interval events =
    bind (timestamps events)
      λ values. ok (if is_monotonic values then elapsed_of (last? values) values else none)
