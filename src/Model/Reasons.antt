-- ===== src/Model/Reasons.antt =====
-- crates/model/src/lib.rs: coverage, with the reasons for what an analysis does not know.
use ferrum_atlas.Prelude.{ℕ, List, ℕ_discrete, PartialEq}
use ferrum_atlas.Prelude.Text.{Text, Text-discrete}

pub data Status : Type 0 where
  complete partial failed unavailable : Status

unfoldable pub Status-discrete : Discrete Status
Status-discrete = hlevel

instance abbrev pub status_eq : PartialEq Status
status_eq = record { dec = Status-discrete }

-- In the order of the derived `Ord`.
pub data UnknownReason : Type 0 where
  missing_dependency cfg_unknown macro_unavailable indirect_target_unknown : UnknownReason
  external_boundary unsupported_construct budget_exhausted analysis_failed : UnknownReason
  artifact_mismatch syntax_only : UnknownReason

unfoldable pub UnknownReason-discrete : Discrete UnknownReason
UnknownReason-discrete = hlevel

instance abbrev pub unknown_reason_eq : PartialEq UnknownReason
unknown_reason_eq = record { dec = UnknownReason-discrete }

pub record ReasonCount : Type 0 where
  pub reason : UnknownReason
  pub count : ℕ

pub record Coverage : Type 0 where
  pub status : Status
  pub reasons : List ReasonCount
  pub limitations : List Text

pub Coverage-discrete : Discrete Coverage
Coverage-discrete = hlevel (ℕ_discrete, Text-discrete, Status-discrete, UnknownReason-discrete)
