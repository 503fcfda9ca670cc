-- ===== src/Analysis/Trace/Anchors.antt =====
-- crates/analysis/src/trace.rs: the request, the report and the anchors of `compare_trace_windows`.
use ferrum_atlas.Prelude.{
  ℕ, ◌+◌, List, [], ◌∷◌, ◌++◌, Bool, true, false, not, ◌&&◌, ◌||◌, Option, none, some, Result, ok,
  bind, length, any, map, keep_if, ltb, leb, lex_lt, sort_by, set_insert, ◌==◌, nat_eq,
  if◌then◌else◌,
}
use ferrum_atlas.Prelude.Text.{Text, text_ord, text_eq}
use ferrum_atlas.Model.{UnknownReason}
use ferrum_atlas.Model.Observations.{ArtifactIdentity, TraceEvent, TraceStream}
use ferrum_atlas.Analysis.Envelope.{
  AnalysisError, AnalysisControl, AnalysisEnvelope, note_partial, stop_envelope,
}
use ferrum_atlas.Analysis.Trace.Window.{optional_decimal, Anchors, find_anchor}
use ferrum_atlas.Analysis.Trace.Compare.{Divergence}

pub record TraceCompareRequest : Type 0 where
  pub before_stream_id : Text
  pub after_stream_id : Text
  pub before_offset : ℕ
  pub after_offset : ℕ
  pub max_events : ℕ
  pub max_anchors : ℕ

pub record TracePosition : Type 0 where
  pub stream_id : Text
  pub sequence : Text
  pub timestamp : Text
  pub clock_domain : Text
  pub timestamp_unit : Text

pub record TraceDivergence : Type 0 where
  pub reason : Text
  pub before : Option TracePosition
  pub after : Option TracePosition
  pub before_kind : Option Text
  pub after_kind : Option Text

pub record TraceComparison : Type 0 where
  pub envelope : AnalysisEnvelope
  pub before_artifact : ArtifactIdentity
  pub after_artifact : ArtifactIdentity
  pub anchor : Option Text
  pub compared_events : ℕ
  pub matching_prefix_events : ℕ
  pub ambiguous_anchors : List Text
  pub first_observed_divergence : Option TraceDivergence
  pub before_loss_count : Text
  pub after_loss_count : Text
  pub before_interval : Option Text
  pub after_interval : Option Text
  pub before_clock_domain : Text
  pub after_clock_domain : Text
  pub before_timestamp_unit : Text
  pub after_timestamp_unit : Text

abbrev pub position : TraceStream → TraceEvent → TracePosition
position stream event = record {
  stream_id = stream.id;
  sequence = event.sequence;
  timestamp = event.timestamp;
  clock_domain = stream.clock_domain;
  timestamp_unit = stream.timestamp_unit;
}

abbrev pub position_of : TraceStream → Option TraceEvent → Option TracePosition
position_of stream none = none
position_of stream (some event) = some (position stream event)

abbrev pub kind_of : Option TraceEvent → Option Text
kind_of none = none
kind_of (some event) = some event.kind

abbrev pub divergence_of : TraceStream → TraceStream → Option Divergence → Option TraceDivergence
divergence_of before after none = none
divergence_of before after (some d) = some (record {
  reason = d.reason;
  before = position_of before d.before;
  after = position_of after d.after;
  before_kind = kind_of d.before;
  after_kind = kind_of d.after;
})

abbrev pub is_valid_request : TraceCompareRequest → Bool
is_valid_request r =
    leb 1 r.max_events
    && leb r.max_events 2000
    && leb 1 r.max_anchors
    && leb r.max_anchors 2000
    && leb (length r.before_stream_id) 256
    && leb (length r.after_stream_id) 256

abbrev pub is_many : Option (List ℕ) → Bool
is_many none = false
is_many (some places) = ltb 1 (length places)

abbrev pub keys : Anchors → List Text
keys anchors = map (λ entry. entry.0) anchors

abbrev pub text_set : List Text → List Text
text_set [] = []
text_set (t ∷ ts) = set_insert t (text_set ts)

-- The anchors that occur more than once in a window.
unfoldable pub ambiguous_anchors : Anchors → Anchors → List Text
ambiguous_anchors before after = text_set (
    keep_if (λ key. is_many (find_anchor key before) || is_many (find_anchor key after))
      (keys before ++ keys after))

-- The places of an anchor that is alone in each window.
abbrev pub Pair : Type 0
Pair = ℕ × ℕ × Text

abbrev pub add_pair : Text → List ℕ → Option (List ℕ) → List Pair → List Pair
add_pair key (i ∷ []) (some (j ∷ [])) pairs = (i, j, key) ∷ pairs
add_pair key _ _ pairs = pairs

unfoldable pub pairs_of : Anchors → Anchors → List Pair
pairs_of [] after = []
pairs_of ((key, places) ∷ before) after =
    add_pair key places (find_anchor key after) (pairs_of before after)

abbrev pub pair_less : Pair → Pair → Bool
pair_less (i, j, key) (k, l, other) = lex_lt (i ∷ j ∷ key) (k ∷ l ∷ other)

unfoldable pub unique_anchors : Anchors → Anchors → List Pair
unique_anchors before after = sort_by pair_less (pairs_of before after)

unfoldable pub loss : List TraceEvent → Result AnalysisError ℕ
loss [] = ok 0
loss (event ∷ events) =
    let rest = loss events in
    bind (optional_decimal event.loss_count) λ n. bind rest λ sum. ok (n + sum)

abbrev pub add_limitations : List Text → List Text → List Text
add_limitations known [] = known
add_limitations known (text ∷ texts) =
    if any (λ t. t == text) known
    then add_limitations known texts
    else add_limitations (known ++ text ∷ []) texts

abbrev pub note_when : Bool → UnknownReason → Text → AnalysisEnvelope → AnalysisEnvelope
note_when test reason message e = if test then note_partial reason message e else e

abbrev pub truncate_when : Bool → Text → AnalysisEnvelope → AnalysisEnvelope
truncate_when test message e =
    if test
    then note_partial UnknownReason.budget_exhausted message (record e { truncated = true })
    else e

abbrev pub stop_when : Bool → AnalysisControl → ℕ → AnalysisEnvelope → AnalysisEnvelope
stop_when test control clock e = if test then stop_envelope control clock e else e

abbrev pub outside : TraceStream → ℕ → List TraceEvent → Bool
outside stream offset events =
    not (offset == 0) || ltb (length events + offset) (length stream.events)

abbrev pub is_none : Option Text → Bool
is_none none = true
is_none (some text) = false
