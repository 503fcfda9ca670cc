-- ===== src/Analysis/Trace/Report.antt =====
-- crates/analysis/src/trace.rs: `compare_trace_windows`.
use ferrum_atlas.Prelude.{
  ℕ, suc, ◌+◌, List, [], ◌∷◌, ◌++◌, Bool, not, ◌||◌, Option, none, some, Result, ok, bind, ensure,
  length, ltb, ◌==◌, nat_eq, if◌then◌else◌,
}
use ferrum_atlas.Prelude.Text.{Text, text_ord, text_eq, codes}
use ferrum_atlas.Model.{Coverage, complete, unsupported_construct}
use ferrum_atlas.Model.Observations.{TraceEvent, TraceStream, ObservationBundle}
use ferrum_atlas.Analysis.Envelope.{
  AnalysisError, invalid_input, budget_exhausted, AnalysisControl, stopped_at, AnalysisEnvelope,
  new_envelope, note_partial,
}
use ferrum_atlas.Analysis.Trace.Window.{selected_stream, window, collect_anchors, skip, take}
use ferrum_atlas.Analysis.Trace.Compare.{compare_events, to_string, interval}
use ferrum_atlas.Analysis.Trace.Anchors.{
  TraceCompareRequest, TraceComparison, divergence_of, is_valid_request, ambiguous_anchors, Pair,
  unique_anchors, loss, add_limitations, note_when, truncate_when, stop_when, outside, is_none,
}

-- The fields that the comparison of the events fills.
unfoldable pub align :
    AnalysisControl
    → ℕ
    → TraceStream
    → TraceStream
    → List TraceEvent
    → List TraceEvent
    → Option Pair
    → TraceComparison
    → Result AnalysisError TraceComparison
align control clock before after before_events after_events none report = ok (record report {
  envelope =
      note_partial unsupported_construct
        (codes
          "No usable unique common semantic anchor exists in the selected windows; no divergence or equivalence is asserted")
        report.envelope;
})
align control clock before after before_events after_events (some (i, j, anchor)) report =
    let left = skip i before_events in
    let right = skip j after_events in
    let c = compare_events control clock left right in
    let unaligned = not (i == 0) || not (j == 0) in
    let noted =
      note_when unaligned unsupported_construct
        (codes "Events before the first common unique anchor are unaligned and were not compared")
        report.envelope in
    let stopped = stop_when c.stopped control (suc (clock + c.compared_events)) noted in
    let count = c.matching_prefix_events in
    let filled : TraceComparison = record report {
      anchor = some anchor;
      compared_events = c.compared_events;
      matching_prefix_events = count;
      first_observed_divergence = divergence_of before after c.divergence;
      envelope = stopped;
    } in
    if count == 0
    then ok filled
    else bind (interval (take count left)) λ before_interval.
      bind (interval (take count right)) λ after_interval. ok (record filled {
        before_interval = before_interval;
        after_interval = after_interval;
        envelope =
            note_when (is_none before_interval || is_none after_interval) unsupported_construct
              (codes
                "Nonmonotonic timestamps prevent an elapsed interval in at least one selected stream")
              stopped;
      })

abbrev assumptions : List Text
assumptions =
    codes
      "Only the explicitly selected per-stream windows are compared; timestamps never impose a cross-stream total order"
    ∷ codes
        "A unique correlation ID is a producer-supplied semantic anchor, not independently verified workload or test-contract compatibility"
    ∷ codes
        "Equality compares event kind and correlation ID only; payload, source semantics, device state and run inputs may differ"
    ∷ codes "The first observed divergence under this alignment rule is not proof of root cause"
    ∷ codes
        "Artifact identities remain separate; no historical result reuse or original-pass/Rust-fail classification is inferred"
    ∷ codes
        "Intervals use each stream's own unit and clock domain, never CPU-time conversion or cross-clock subtraction"
    ∷ []

abbrev complete_coverage : Coverage
complete_coverage = record { status = complete; reasons = []; limitations = [] }

-- The envelope before the anchors are looked for.
unfoldable pub begin_envelope : ObservationBundle → ObservationBundle → AnalysisEnvelope
begin_envelope before after =
    let noted =
      note_partial unsupported_construct
        (codes
          "Trace comparison is an observation-window interpretation, not proof of behavioral equivalence; different work, instrumentation, buffering, sampling or event loss can change event counts")
        (record (new_envelope (codes "stream-correlation-anchor-prefix-v1") complete_coverage) {
          assumptions = assumptions;
        }) in
    record noted {
      coverage = record noted.coverage {
        limitations =
            add_limitations noted.coverage.limitations (before.limitations ++ after.limitations);
      };
    }

-- What `byte_budget` answers: for both bundles and 16 MiB, and for a report and 2 MiB.
pub record TraceSizes : Type 0 where
  pub input_fits : Bool
  pub report_fits : TraceComparison → Bool

abbrev pub first_pair : Bool → List Pair → Option Pair
first_pair cleared [] = none
first_pair cleared (pair ∷ pairs) = if cleared then none else some pair

-- From the two windows on.
unfoldable pub compare_windows :
    AnalysisControl
    → ObservationBundle
    → ObservationBundle
    → TraceCompareRequest
    → TraceStream
    → TraceStream
    → List TraceEvent
    → List TraceEvent
    → Result AnalysisError TraceComparison
compare_windows control before after request before_stream after_stream before_events after_events =
    let bounded =
      outside before_stream request.before_offset before_events
      || outside after_stream request.after_offset after_events in
    let selected =
      truncate_when bounded
        (codes "Only bounded trace windows were selected; events outside them were not compared")
        (begin_envelope before after) in
    let (before_map, second) = collect_anchors control 0 0 before_events [] in
    let (after_map, third) = collect_anchors control second 0 after_events [] in
    let ambiguous = ambiguous_anchors before_map after_map in
    let many =
      ltb request.max_anchors (length before_map) || ltb request.max_anchors (length after_map) in
    let budgeted =
      truncate_when many (codes "Semantic-anchor budget exhausted; no alignment is asserted")
        selected in
    let repeated =
      note_when (not (length ambiguous == 0)) unsupported_construct
        (codes
          "Repeated correlation IDs are ambiguous within a selected window and are not used as alignment anchors")
        budgeted in
    let stopped = stopped_at control third in
    let halted = stop_when stopped control (suc third) repeated in
    let clock = if stopped then suc (suc third) else suc third in
    let chosen = first_pair (many || stopped) (unique_anchors before_map after_map) in
    bind (loss before_events) λ before_loss. bind (loss after_events) λ after_loss.
      let lossy =
        not (to_string before_loss == codes "0") || not (to_string after_loss == codes "0") in
      align control clock before_stream after_stream before_events after_events chosen (record {
        envelope =
            note_when lossy unsupported_construct
              (codes
                "Selected windows contain explicit event loss; missing observations cannot establish absent execution")
              halted;
        before_artifact = before.artifact;
        after_artifact = after.artifact;
        anchor = none;
        compared_events = 0;
        matching_prefix_events = 0;
        ambiguous_anchors = take request.max_anchors ambiguous;
        first_observed_divergence = none;
        before_loss_count = to_string before_loss;
        after_loss_count = to_string after_loss;
        before_interval = none;
        after_interval = none;
        before_clock_domain = before_stream.clock_domain;
        after_clock_domain = after_stream.clock_domain;
        before_timestamp_unit = before_stream.timestamp_unit;
        after_timestamp_unit = after_stream.timestamp_unit;
      })

unfoldable pub compare_trace_windows :
    AnalysisControl
    → TraceSizes
    → ObservationBundle
    → ObservationBundle
    → TraceCompareRequest
    → Result AnalysisError TraceComparison
compare_trace_windows control sizes before after request =
    bind
      (ensure (is_valid_request request) (
        invalid_input
          (codes "trace windows require 1..2000 events/anchors and stream IDs <=256 bytes")))
      λ _. bind (ensure sizes.input_fits budget_exhausted) λ _.
        bind (selected_stream before request.before_stream_id) λ before_stream.
          bind (selected_stream after request.after_stream_id) λ after_stream.
            bind (window before_stream request.before_offset request.max_events) λ before_events.
              bind (window after_stream request.after_offset request.max_events) λ after_events.
                bind
                  (compare_windows control before after request before_stream after_stream
                    before_events after_events)
                  λ report. bind (ensure (sizes.report_fits report) budget_exhausted) λ _. ok report
