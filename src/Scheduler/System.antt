-- ===== src/Scheduler/System.antt =====
-- crates/scheduler/src/lib.rs: the worker thread beside the callers of `submit` and `cancel`, as
-- interleavings of the steps that hold the mutex.
use ferrum_atlas.Prelude.{
  List, [], ◌∷◌, true, Option, none, some, Result, ok, err, ◌==◌, if◌then◌else◌,
}
use ferrum_atlas.Prelude.Text.{Text}
use ferrum_atlas.Model.{JobRequest, JobRecord, running, job_status_eq, JobStage}
use ferrum_atlas.Scheduler.Config.{SchedulerConfig, Error}
use ferrum_atlas.Scheduler.State.{Io, Inner}
use ferrum_atlas.Scheduler.Events.{event}
use ferrum_atlas.Scheduler.Submit.{submit_locked}
use ferrum_atlas.Scheduler.Cancel.{cancel_locked, update}
use ferrum_atlas.Scheduler.Worker.{
  Outcome, Poll, Verdict, goes_on, ends, records, pick, start_job, finish_job, poll,
}

-- Where the worker is between two steps: before it takes the mutex to pick a job, to start it, to ask
-- whether it was cancelled, to record a stage that it has seen, and to finish it. The mutex is free at
-- each of these points.
pub data Phase : Type 0 where
  idle exited : Phase
  starting : Text → Phase
  executing recording : Text → JobStage → Phase
  finishing : Text → Outcome → Phase

pub record System : Type 0 where
  pub inner : Inner
  pub phase : Phase

-- An error of `next_job` stops the worker.
abbrev pub give_up : Inner → System
give_up s = record { inner = record s { stop = true }; phase = exited }

abbrev pub after_pick : Result Error (Option JobRecord) × Inner → System
after_pick (ok none, s) = record { inner = s; phase = idle }
after_pick (ok (some job), s) = record { inner = s; phase = starting job.id }
after_pick (err e, s) = give_up s

abbrev pub after_start : Text → Result Error JobRecord × Inner → System
after_start id (ok started, s) = record {
  inner = s;
  phase = if started.status == running then executing id JobStage.capture else idle;
}
after_start id (err e, s) = give_up s

abbrev pub after_poll : Text → JobStage → Verdict → Phase
after_poll id last goes_on = executing id last
after_poll id last (ends outcome) = finishing id outcome
after_poll id last (records seen) = recording id seen

-- If the stage is not recorded, the execution fails.
abbrev pub after_record : Text → JobStage → Result Error JobRecord × Inner → System
after_record id seen (ok job, s) = record { inner = s; phase = executing id seen }
after_record id seen (err e, s) = record { inner = s; phase = finishing id none }

abbrev pub after_finish : Result Error JobRecord × Inner → System
after_finish (ok job, s) = record { inner = s; phase = idle }
after_finish (err e, s) = give_up s

-- One step of the worker thread, which takes the mutex at most once. The test of `stop` before a job is
-- picked needs no step of its own: a shutdown between the two gives the state that it gives after the
-- pick.
unfoldable pub work : Io → SchedulerConfig → Poll → Phase → Inner → System
work io config p idle s =
    if s.stop then record { inner = s; phase = exited } else after_pick (pick s)
work io config p exited s = record { inner = s; phase = exited }
work io config p (starting id) s =
    after_start id (update io.journal_write id (start_job (io.stamp 0)) s)
work io config p (executing id last) s = record {
  inner = s;
  phase = after_poll id last (poll config id p last s);
}
work io config p (recording id seen) s =
    after_record id seen (update io.journal_write id (event (io.stamp 0) seen) s)
work io config p (finishing id outcome) s =
    after_finish (update io.journal_write id (finish_job (io.stamp 0) outcome s.stop) s)

-- `submit` and `cancel` read before they take the lock of the fence, and change nothing there, so
-- their steps begin at that lock. `shuts_down` is the drop of the last `Scheduler`.
pub data Call : Type 0 where
  submits : JobRequest → Call
  cancels : Text → Call
  works : Poll → Call
  shuts_down : Call

unfoldable pub step : SchedulerConfig → Io × Call → System → System
unfolding work
step config (io, submits request) x = record x {
  inner = (submit_locked io config request x.inner).1;
}
step config (io, cancels id) x = record x { inner = (cancel_locked io id x.inner).1 }
step config (io, works p) x = work io config p x.phase x.inner
step config (io, shuts_down) x = record x { inner = record x.inner { stop = true } }

unfoldable pub run : SchedulerConfig → List (Io × Call) → System → System
unfolding step
run config [] x = x
run config (c ∷ cs) x = run config cs (step config c x)
