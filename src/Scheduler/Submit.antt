-- ===== src/Scheduler/Submit.antt =====
-- crates/scheduler/src/lib.rs: `Scheduler::submit`.
use ferrum_atlas.Prelude.{
  ℕ, zero, suc, List, [], ◌∷◌, ◌++◌, Bool, true, false, not, ◌&&◌, none, some, Result, ok, err,
  ok_or, ensure, length, find, count_if, position, remove, ltb, leb, ◌==◌, if◌then◌else◌,
}
use ferrum_atlas.Prelude.Text.{Text, text_eq, codes}
use ferrum_atlas.Prelude.Hex.{hex}
use ferrum_atlas.Model.{
  JobRequest, job_request_eq, JobRecord, JobStatus, queued, cancelling, cancelled, job_status_eq,
  terminal, JobStage,
}
use ferrum_atlas.Scheduler.Config.{
  SchedulerConfig, Error, unavailable, fence_unavailable, queue_full, history_full,
  entropy_unavailable,
}
use ferrum_atlas.Scheduler.Request.{validate_request}
use ferrum_atlas.Scheduler.State.{Io, M, ◌>>=◌, ◌>>◌, pure, lift, get, commit}
use ferrum_atlas.Scheduler.Events.{max_history, event}

-- A job that a request for the same analysis joins.
abbrev pub joins : JobRequest → JobRecord → Bool
joins request j = j.request == request && not (terminal j.status) && not (j.status == cancelling)

abbrev pub waits_elsewhere : Text → JobRecord → Bool
waits_elsewhere profile j = j.status == queued && not (j.request.profile == profile)

-- The status and the event of a job that is cancelled or superseded.
abbrev pub stopping : JobStatus → JobStatus
stopping status = if status == queued then cancelled else cancelling

abbrev pub stopping_stage : JobStatus → JobStage
stopping_stage status = if status == cancelled then JobStage.finished else JobStage.queued

abbrev pub superseded_message : Text
superseded_message = codes "Superseded by a newer request for this profile."

unfoldable pub stop_superseded : Text → JobRecord → JobRecord
stop_superseded now job =
    let stopped = record job { status = stopping job.status; message = some superseded_message } in
    event now (stopping_stage stopped.status) stopped

unfoldable pub supersede_job : Text → Text → JobRecord → JobRecord
unfolding stop_superseded
supersede_job now profile job =
    if job.request.profile == profile && not (terminal job.status)
    then stop_superseded now job
    else job

-- The loop over the copied jobs; `n` numbers the readings of the clock.
unfoldable pub supersede : (ℕ → Text) → ℕ → Text → List JobRecord → List JobRecord
supersede stamp n profile [] = []
supersede stamp n profile (job ∷ jobs) =
    supersede_job (stamp n) profile job ∷ supersede stamp (suc n) profile jobs

-- The `while` loop; each round removes a job, so the length of the list is fuel enough.
unfoldable pub evict_loop : ℕ → List JobRecord → Result Error (List JobRecord)
evict_loop zero jobs = ok jobs
evict_loop (suc fuel) jobs = elim (leb max_history (length jobs)) [
  | true ↦ elim (position (λ j. terminal j.status) jobs) [
    | some index ↦ evict_loop fuel (remove index jobs)
    | none ↦ err history_full
  ]
  | false ↦ ok jobs
]

unfoldable pub evict : List JobRecord → Result Error (List JobRecord)
evict jobs = evict_loop (length jobs) jobs

unfoldable pub new_job : Text → Text → Text → JobRequest → JobRecord
new_job id created now request = event now JobStage.queued (record {
  id = id;
  request = request;
  status = queued;
  created_ms = created;
  snapshot_id = none;
  message = none;
  events = [];
})

unfoldable pub enqueue : Io → SchedulerConfig → JobRequest → List JobRecord → M JobRecord
unfolding new_job commit
enqueue io config request jobs = do
  lift (ensure (ltb (count_if (waits_elsewhere request.profile) jobs) config.max_queued) queue_full)
  updated ← lift (evict (supersede io.stamp 0 request.profile jobs))
  entropy ← lift (ok_or io.entropy entropy_unavailable)
  let reading = length jobs
  let job =
      new_job (codes "job:" ++ hex entropy) (io.stamp reading) (io.stamp (suc reading)) request
  commit io request.profile job.id (updated ++ job ∷ []) job

-- From the lock of the fence on.
unfoldable pub submit_locked : Io → SchedulerConfig → JobRequest → M JobRecord
submit_locked io config request = do
  lift (ensure io.fence_free fence_unavailable)
  s ← get
  lift (ensure (not s.poisoned) unavailable)
  elim (find (joins request) s.jobs) [
    | some job ↦ pure job
    | none ↦ enqueue io config request s.jobs
  ]

unfoldable pub submit : Io → SchedulerConfig → JobRequest → M JobRecord
unfolding submit_locked
submit io config request = do
  lift (validate_request io.request_bytes request)
  s ← get
  lift (ensure (not s.stop) unavailable)
  submit_locked io config request
