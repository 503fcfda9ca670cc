-- ===== src/Analysis/Trace/Tests.antt =====
-- A comparison of two short windows by crates/analysis/src/trace.rs.
use ferrum_atlas.Prelude.{
  keep_if, length, ◌==◌, ◌≤◌, ◌<◌, ℕ, ◌+◌, List, [], ◌∷◌, ◌≡◌, refl, false, none, some, ok, last?,
  get_elem?, ℕ_discrete,
}
use ferrum_atlas.Prelude.Text.{Text, Text-discrete, text_eq, codes}
use ferrum_atlas.Prelude.Decimal.{parse_unsigned, digits_from}
use ferrum_atlas.Model.Observations.{TraceEvent, TraceStream, ObservationBundle}
use ferrum_atlas.Analysis.Envelope.{AnalysisControl}
use ferrum_atlas.Analysis.Trace.Window.{
  decimal, total_events, check_events, selected_stream, window,
}
use ferrum_atlas.Analysis.Trace.Compare.{
  Option-Text-discrete, compare_events, digits_of, to_string, timestamps, interval,
}
use ferrum_atlas.Analysis.Trace.Prefix.{IsFirst, compare_events-IsFirst}
use ferrum_atlas.Analysis.Trace.Selection.{IsRising, selected_stream-IsRising, window-slice}
use ferrum_atlas.Analysis.Trace.Interval.{IsOrdered, interval-elapsed}

abbrev control : AnalysisControl
control = record { cancelled = λ n. false; deadline_reached = λ n. false }

abbrev event : Text → Text → TraceEvent
event timestamp kind = record {
  sequence = timestamp;
  timestamp = timestamp;
  kind = kind;
  definition_id = none;
  correlation_id = some (codes "a");
  loss_count = none;
}

abbrev left : List TraceEvent
left = event (codes "5") (codes "call") ∷ event (codes "9") (codes "exit") ∷ []

abbrev right : List TraceEvent
right = event (codes "7") (codes "call") ∷ event (codes "8") (codes "trap") ∷ []

matching : (compare_events control 0 left right).matching_prefix_events ≡ 1
unfolding compare_events ℕ_discrete Text-discrete Option-Text-discrete
matching = refl

compare_events-IsFirst_example : IsFirst left right (compare_events control 0 left right)
compare_events-IsFirst_example = compare_events-IsFirst control 0 left right

interval-left : interval left ≡ ok (some (codes "4"))
unfolding interval timestamps decimal parse_unsigned digits_from to_string digits_of ℕ_discrete
    Text-discrete
interval-left = refl

interval-elapsed_example :
    (values : List ℕ) × (first : ℕ) × (last : ℕ) × (elapsed : ℕ) × (timestamps left ≡ ok values)
    × (get_elem? values 0 ≡ some first)
    × (last? values ≡ some last)
    × IsOrdered values
    × (first + elapsed ≡ last)
    × (codes "4" ≡ to_string elapsed)
interval-elapsed_example = interval-elapsed left (codes "4") interval-left

abbrev stream : TraceStream
stream = record {
  id = codes "s";
  process_or_device = codes "p";
  thread_or_hart = codes "t";
  clock_domain = codes "c";
  timestamp_unit = codes "ns";
  events = left;
}

abbrev bundle : ObservationBundle
bundle = record {
  schema_version = 1;
  snapshot_id = codes "n";
  artifact = record {
    sha256 = codes "h";
    source_id = codes "o";
    context_id = codes "x";
    producer = codes "q";
  };
  tests = [];
  streams = stream ∷ record stream { id = codes "other" } ∷ [];
  limitations = [];
}

selected : selected_stream bundle (codes "s") ≡ ok stream
unfolding selected_stream check_events decimal parse_unsigned digits_from ℕ_discrete Text-discrete
selected = refl

selected_stream-IsRising_example :
    (keep_if (λ s. s.id == codes "s") bundle.streams ≡ stream ∷ [])
    × IsRising left
    × (length bundle.streams ≤ 64)
    × (total_events bundle.streams ≤ 10000)
selected_stream-IsRising_example = selected_stream-IsRising bundle (codes "s") stream selected

windowed : window stream 1 5 ≡ ok (event (codes "9") (codes "exit") ∷ [])
unfolding window
windowed = refl

window-slice_example :
    (1 ≤ length left)
    × (length (event (codes "9") (codes "exit") ∷ []) ≤ 5)
    × ((i : ℕ)
        → i < 5
        → get_elem? (event (codes "9") (codes "exit") ∷ []) i ≡ get_elem? left (1 + i))
window-slice_example = window-slice stream 1 5 (event (codes "9") (codes "exit") ∷ []) windowed
