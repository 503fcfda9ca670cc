-- ===== src/Model/Jobs.antt =====
-- crates/model/src/jobs.rs.
use ferrum_atlas.Prelude.{ℕ, Bool, true, false, Option, List, PartialEq}
use ferrum_atlas.Prelude.Text.{Text, Text-discrete}
use ferrum_atlas.Model.Context.{BuildContext, BuildContext-discrete}

pub data JobLevel : Type 0 where
  syntax semantic : JobLevel

pub data JobPriority : Type 0 where
  foreground workspace background : JobPriority

-- The derived `Ord`: the position of the variant.
abbrev pub rank : JobPriority → ℕ
rank foreground = 0
rank workspace = 1
rank background = 2

pub record JobRequest : Type 0 where
  pub profile : Text
  pub level : JobLevel
  pub priority : JobPriority
  pub context : Option BuildContext

unfoldable pub JobRequest-discrete : Discrete JobRequest
JobRequest-discrete = hlevel (Text-discrete, BuildContext-discrete)

instance abbrev pub job_request_eq : PartialEq JobRequest
job_request_eq = record { dec = JobRequest-discrete }

pub data JobStatus : Type 0 where
  queued running cancelling cancelled succeeded failed : JobStatus

unfoldable pub JobStatus-discrete : Discrete JobStatus
JobStatus-discrete = hlevel

instance abbrev pub job_status_eq : PartialEq JobStatus
job_status_eq = record { dec = JobStatus-discrete }

abbrev pub terminal : JobStatus → Bool
terminal cancelled = true
terminal succeeded = true
terminal failed = true
terminal _ = false

pub data JobStage : Type 0 where
  queued capture syntax semantics validation publication finished : JobStage

pub record JobEvent : Type 0 where
  pub sequence : ℕ
  pub timestamp_ms : Text
  pub stage : JobStage
  pub status : JobStatus

pub record JobRecord : Type 0 where
  pub id : Text
  pub request : JobRequest
  pub status : JobStatus
  pub created_ms : Text
  pub snapshot_id : Option Text
  pub message : Option Text
  pub events : List JobEvent
