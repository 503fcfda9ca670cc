-- ===== src/Analysis/Envelope.antt =====
-- crates/analysis/src/lib.rs: the envelope of every analysis, and its control.
use ferrum_atlas.Prelude.{
  ℕ, List, [], ◌∷◌, ◌++◌, Bool, true, false, ◌||◌, ◌==◌, any, ltb, if◌then◌else◌, sort_by,
}
use ferrum_atlas.Prelude.Text.{Text, text_eq, codes}
use ferrum_atlas.Prelude.Words.{saturating_add}
use ferrum_atlas.Model.{
  complete, partial, status_eq, UnknownReason, missing_dependency, cfg_unknown, macro_unavailable,
  indirect_target_unknown, external_boundary, unsupported_construct, analysis_failed,
  artifact_mismatch, syntax_only, unknown_reason_eq, ReasonCount, Coverage,
}

pub data AnalysisError : Type 0 where
  invalid_input : Text → AnalysisError
  budget_exhausted : AnalysisError

-- The cancellation flag and the clock, as they answer at each reading.
pub record AnalysisControl : Type 0 where
  pub cancelled : ℕ → Bool
  pub deadline_reached : ℕ → Bool

abbrev pub stopped_at : AnalysisControl → ℕ → Bool
stopped_at control n = control.cancelled n || control.deadline_reached n

pub record AnalysisEnvelope : Type 0 where
  pub algorithm_version : Text
  pub coverage : Coverage
  pub truncated : Bool
  pub cancelled : Bool
  pub deadline_reached : Bool
  pub assumptions : List Text

abbrev pub new_envelope : Text → Coverage → AnalysisEnvelope
new_envelope version coverage = record {
  algorithm_version = version;
  coverage = coverage;
  truncated = false;
  cancelled = false;
  deadline_reached = false;
  assumptions = [];
}

-- The derived `Ord`: the position of the variant.
abbrev pub reason_rank : UnknownReason → ℕ
reason_rank missing_dependency = 0
reason_rank cfg_unknown = 1
reason_rank macro_unavailable = 2
reason_rank indirect_target_unknown = 3
reason_rank external_boundary = 4
reason_rank unsupported_construct = 5
reason_rank UnknownReason.budget_exhausted = 6
reason_rank analysis_failed = 7
reason_rank artifact_mismatch = 8
reason_rank syntax_only = 9

-- The first count of the reason is raised, or a new one is pushed.
abbrev pub count_reason : UnknownReason → List ReasonCount → List ReasonCount
count_reason reason [] = record { reason = reason; count = 1 } ∷ []
count_reason reason (r ∷ rs) =
    if r.reason == reason
    then record r { count = saturating_add r.count 1 } ∷ rs
    else r ∷ count_reason reason rs

abbrev pub reason_less : ReasonCount → ReasonCount → Bool
reason_less a b = ltb (reason_rank a.reason) (reason_rank b.reason)

abbrev pub partial_coverage : UnknownReason → Text → Coverage → Coverage
partial_coverage reason message c = record {
  status = if c.status == complete then partial else c.status;
  reasons = sort_by reason_less (count_reason reason c.reasons);
  limitations =
      if any (λ text. text == message) c.limitations
      then c.limitations
      else c.limitations ++ message ∷ [];
}

unfoldable pub note_partial : UnknownReason → Text → AnalysisEnvelope → AnalysisEnvelope
note_partial reason message e = record e { coverage = partial_coverage reason message e.coverage }

-- `stop`, at a reading of the control.
unfoldable pub stop_envelope : AnalysisControl → ℕ → AnalysisEnvelope → AnalysisEnvelope
unfolding note_partial
stop_envelope control n e =
    note_partial UnknownReason.budget_exhausted
      (codes "Analysis stopped before all selected facts were processed")
      (record e {
        cancelled = control.cancelled n;
        deadline_reached = control.deadline_reached n;
        truncated = true;
      })
