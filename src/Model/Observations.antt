-- ===== src/Model/Observations.antt =====
-- crates/model/src/observations.rs: observed tests and traces.
use ferrum_atlas.Prelude.{ℕ, Option, List}
use ferrum_atlas.Prelude.Text.{Text}

pub data TestOutcome : Type 0 where
  pass fail expected_fail unexpected_pass timeout infrastructure_error not_run unknown : TestOutcome

pub record ArtifactIdentity : Type 0 where
  pub sha256 : Text
  pub source_id : Text
  pub context_id : Text
  pub producer : Text

pub record TestObservation : Type 0 where
  pub name : Text
  pub outcome : TestOutcome
  pub elapsed_ns : Option Text
  pub timeout_ns : Option Text
  pub reason : Option Text
  pub definition_ids : List Text

pub record TraceEvent : Type 0 where
  pub sequence : Text
  pub timestamp : Text
  pub kind : Text
  pub definition_id : Option Text
  pub correlation_id : Option Text
  pub loss_count : Option Text

pub record TraceStream : Type 0 where
  pub id : Text
  pub process_or_device : Text
  pub thread_or_hart : Text
  pub clock_domain : Text
  pub timestamp_unit : Text
  pub events : List TraceEvent

pub record ObservationBundle : Type 0 where
  pub schema_version : ℕ
  pub snapshot_id : Text
  pub artifact : ArtifactIdentity
  pub tests : List TestObservation
  pub streams : List TraceStream
  pub limitations : List Text
