-- ===== src/Scheduler/Cancel.antt =====
-- crates/scheduler/src/lib.rs: `list`, `get`, `cancel`, `update`, `cancelled`, `publication_guard`.
use ferrum_atlas.Prelude.{
  ℕ, List, [], ◌∷◌, Bool, true, not, ◌||◌, Option, none, some, Result, ok_or, bind, ensure, find,
  length, ◌+◌, ◌==◌, leb, if◌then◌else◌,
}
use ferrum_atlas.Prelude.Text.{Text, text_eq, codes}
use ferrum_atlas.Model.{JobRecord, cancelling, job_status_eq, terminal, JobLevel, JobPriority}
use ferrum_atlas.Scheduler.Config.{
  Error, unavailable, fence_unavailable, unknown_job, io_failed, invalid_fence, superseded,
}
use ferrum_atlas.Scheduler.Request.{validate_request}
use ferrum_atlas.Scheduler.State.{
  Io, Inner, M, ◌>>=◌, ◌>>◌, pure, lift, get, set_jobs, persist, commit, WriteOutcome,
}
use ferrum_atlas.Scheduler.Events.{event}
use ferrum_atlas.Scheduler.Submit.{stopping, stopping_stage}

-- `jobs.lock()`.
unfoldable pub lock : M (List JobRecord)
lock = do s ← get; lift (ensure (not s.poisoned) unavailable); pure s.jobs

abbrev pub has_id : Text → JobRecord → Bool
has_id id job = job.id == id

unfoldable pub get_job : Text → M JobRecord
unfolding lock
get_job id = do jobs ← lock; lift (ok_or (find (has_id id) jobs) unknown_job)

-- `iter_mut().find(..)` and a change of the job that it finds.
unfoldable pub change_first : (JobRecord → JobRecord) → Text → List JobRecord → List JobRecord
change_first change id [] = []
change_first change id (j ∷ js) =
    if has_id id j then change j ∷ js else j ∷ change_first change id js

abbrev pub is_stopped : JobRecord → Bool
is_stopped job = terminal job.status || job.status == cancelling

unfoldable pub stop_job : Text → JobRecord → JobRecord
stop_job now job =
    let stopped = record job { status = stopping job.status } in
    event now (stopping_stage stopped.status) stopped

-- The fence names no job after a cancellation.
abbrev pub cancelled_fence : Text
cancelled_fence = codes "cancelled"

unfoldable pub cancel_live : Io → Text → List JobRecord → JobRecord → M JobRecord
unfolding stop_job commit
cancel_live io id jobs job =
    commit io job.request.profile cancelled_fence (change_first (stop_job (io.stamp 0)) id jobs)
      (stop_job (io.stamp 0) job)

unfoldable pub cancel_locked : Io → Text → M JobRecord
unfolding lock cancel_live
cancel_locked io id = do
  lift (ensure io.fence_free fence_unavailable)
  jobs ← lock
  job ← lift (ok_or (find (has_id id) jobs) unknown_job)
  if is_stopped job then pure job else cancel_live io id jobs job

unfoldable pub cancel : Io → Text → M JobRecord
unfolding get_job cancel_locked
cancel io id = do
  existing ← get_job id
  if is_stopped existing then pure existing else cancel_locked io id

-- `update`: the change is made to a copy, which replaces the jobs once it is on disk.
unfoldable pub update : WriteOutcome → Text → (JobRecord → JobRecord) → M JobRecord
unfolding lock
update journal_write id change = do
  jobs ← lock
  job ← lift (ok_or (find (has_id id) jobs) unknown_job)
  let updated = change_first change id jobs
  persist journal_write updated
  set_jobs updated
  pure (change job)

abbrev pub found_cancelling : Option JobRecord → Bool
found_cancelling none = true
found_cancelling (some job) = job.status == cancelling

-- `cancelled`, which the running job polls.
unfoldable pub is_cancelled : Inner → Text → Bool
is_cancelled s id = s.stop || s.poisoned || found_cancelling (find (has_id id) s.jobs)

-- The length of the file: an identity in JSON quotes, of bytes that need no escape.
abbrev fence_bytes : Text → ℕ
fence_bytes current = length current + 2

-- `publication_guard`: the caller may commit to the catalog while it holds the lock.
unfoldable pub publication_guard : Io → Text → Text → Inner → Result Error (Unit {0})
publication_guard io profile id s =
    bind
      (validate_request io.request_bytes (record {
        profile = profile;
        level = JobLevel.syntax;
        priority = JobPriority.workspace;
        context = none;
      }))
      λ _. bind (ensure io.fence_free fence_unavailable) λ _.
        bind (ok_or (s.fences profile) io_failed) λ current.
          bind (ensure (leb (fence_bytes current) 128) invalid_fence)
            λ _. ensure (current == id) superseded
