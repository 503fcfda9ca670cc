-- ===== src/Scheduler/Worker.antt =====
-- crates/scheduler/src/lib.rs: `next_job`, and what the loop of `execute` decides about its child
-- process.
use ferrum_atlas.Prelude.{
  ℕ, suc, ◌+◌, ◌*◌, List, [], ◌∷◌, Bool, false, not, ◌&&◌, ◌||◌, Option, none, some, ltb, leb, ◌==◌,
  nat_eq, if◌then◌else◌, PartialEq,
}
use ferrum_atlas.Prelude.Text.{Text, codes}
use ferrum_atlas.Model.{
  JobRecord, queued, running, cancelling, cancelled, succeeded, failed, job_status_eq, rank,
  JobStage,
}
use ferrum_atlas.Scheduler.Config.{SchedulerConfig}
use ferrum_atlas.Scheduler.State.{Inner, M, ◌>>=◌, pure}
use ferrum_atlas.Scheduler.Events.{event}
use ferrum_atlas.Scheduler.Cancel.{lock, is_cancelled}

-- The key is the pair of the priority and the index.
abbrev pub key_lt : JobRecord × ℕ → JobRecord × ℕ → Bool
key_lt (a, i) (b, j) =
    ltb (rank a.request.priority) (rank b.request.priority)
    || (rank a.request.priority == rank b.request.priority && ltb i j)

-- `min_by_key` over the rest and one more element before it.
abbrev pub min_key : JobRecord × ℕ → Option (JobRecord × ℕ) → JobRecord × ℕ
min_key first none = first
min_key first (some other) = if key_lt other first then other else first

unfoldable pub pick_from : ℕ → List JobRecord → Option (JobRecord × ℕ)
pick_from i [] = none
pick_from i (job ∷ jobs) =
    let rest = pick_from (suc i) jobs in
    if job.status == queued then some (min_key (job, i) rest) else rest

abbrev pub picked_job : Option (JobRecord × ℕ) → Option JobRecord
picked_job none = none
picked_job (some (job, i)) = some job

unfoldable pub pick : M (Option JobRecord)
unfolding lock pick_from
pick = do jobs ← lock; pure (picked_job (pick_from 0 jobs))

unfoldable pub start_job : Text → JobRecord → JobRecord
start_job now job =
    if job.status == queued
    then event now JobStage.capture (record job { status = running })
    else job

-- `Some(snapshot id)` for the child's snapshot, `None` for an error.
abbrev pub Outcome : Type 0
Outcome = Option Text

abbrev failed_message : Text
failed_message =
    codes "Analysis failed or exceeded its budget; previously published snapshots remain available."

abbrev pub settle : Outcome → Bool → JobRecord → JobRecord
settle (some snapshot) stop job = record job {
  status = succeeded;
  snapshot_id = some snapshot;
  message = none;
}
settle none stop job =
    if job.status == cancelling || stop
    then record job { status = cancelled }
    else record job { status = failed; message = some failed_message }

unfoldable pub finish_job : Text → Outcome → Bool → JobRecord → JobRecord
finish_job now outcome stop job = event now JobStage.finished (settle outcome stop job)

-- What one round of the loop in `execute` sees.
pub data Wait : Type 0 where
  still_running wait_failed : Wait
  exited : Bool → Wait

pub data Progress : Type 0 where
  unreadable metadata_failed : Progress
  stage : JobStage → Progress

pub record Poll : Type 0 where
  pub wait : Wait
  pub output_bytes : Option ℕ
  pub snapshot : Option Text
  pub elapsed_ms : ℕ
  pub progress : Progress

unfoldable pub JobStage-discrete : Discrete JobStage
JobStage-discrete = hlevel

instance abbrev pub job_stage_eq : PartialEq JobStage
job_stage_eq = record { dec = JobStage-discrete }

-- What a round decides: to go on, to end, or to record a new stage in the job, for which it takes the
-- mutex again.
pub data Verdict : Type 0 where
  goes_on : Verdict
  ends : Outcome → Verdict
  records : JobStage → Verdict

abbrev pub output_fits : Option ℕ → Bool
output_fits none = false
output_fits (some n) = leb n 2097152

abbrev pub exit_outcome : Bool → Poll → Outcome
exit_outcome success p = if success && output_fits p.output_bytes then p.snapshot else none

unfoldable pub read_progress : Progress → JobStage → Verdict
read_progress unreadable last = goes_on
read_progress metadata_failed last = ends none
read_progress (stage seen) last = if seen == last then goes_on else records seen

-- The state is read in the one call of `cancelled`.
unfoldable pub poll_running : SchedulerConfig → Text → Poll → JobStage → Inner → Verdict
unfolding read_progress
poll_running config id p last s =
    if is_cancelled s id
      || not (leb p.elapsed_ms ((config.timeout_seconds + 10) * 1000))
      || not (output_fits p.output_bytes)
    then ends none
    else read_progress p.progress last

abbrev pub poll_wait : Wait → SchedulerConfig → Text → Poll → JobStage → Inner → Verdict
poll_wait wait_failed config id p last s = ends none
poll_wait (exited success) config id p last s = ends (exit_outcome success p)
poll_wait still_running config id p last s = poll_running config id p last s

unfoldable pub poll : SchedulerConfig → Text → Poll → JobStage → Inner → Verdict
unfolding poll_running
poll config id p last s = poll_wait p.wait config id p last s
