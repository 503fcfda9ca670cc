-- ===== src/Scheduler/Events.antt =====
-- crates/scheduler/src/lib.rs: `event`.
use ferrum_atlas.Prelude.{
  ℕ, List, [], ◌∷◌, ◌++◌, Option, none, some, length, last?, ◌==◌, nat_eq, if◌then◌else◌,
}
use ferrum_atlas.Prelude.Text.{Text}
use ferrum_atlas.Prelude.Words.{saturating_add}
use ferrum_atlas.Model.{JobRecord, JobStage, JobEvent}

abbrev pub max_history : ℕ
max_history = 128

abbrev pub max_events : ℕ
max_events = 32

-- `remove(0)`.
abbrev pub rest_of : List JobEvent → List JobEvent
rest_of [] = []
rest_of (e ∷ es) = es

abbrev pub trimmed : List JobEvent → List JobEvent
trimmed events = if length events == max_events then rest_of events else events

abbrev pub next_sequence : Option JobEvent → ℕ
next_sequence none = 1
next_sequence (some e) = saturating_add e.sequence 1

abbrev pub next_event : Text → JobStage → JobRecord → JobEvent
next_event now stage job = record {
  sequence = next_sequence (last? (trimmed job.events));
  timestamp_ms = now;
  stage = stage;
  status = job.status;
}

unfoldable pub event : Text → JobStage → JobRecord → JobRecord
unfolding saturating_add
event now stage job = record job { events = trimmed job.events ++ next_event now stage job ∷ [] }
