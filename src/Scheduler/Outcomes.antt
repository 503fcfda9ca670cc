-- ===== src/Scheduler/Outcomes.antt =====
-- What `submit` and `cancel` achieve when the machine does its part.
use ferrum_atlas.Prelude.{
  ℕ, suc, ◌≤◌, ◌<◌, List, [], ◌∷◌, ◌++◌, ◌≡◌, refl, true, false, none, some, ok, arith, find,
  count_if, ltb, lt→ltb, if◌then◌else◌,
}
use ferrum_atlas.Prelude.Text.{Text, text_eq}
use ferrum_atlas.Model.{JobRequest, JobRecord, queued, job_status_eq}
use ferrum_atlas.Scheduler.Config.{SchedulerConfig}
use ferrum_atlas.Scheduler.Request.{validate_request}
use ferrum_atlas.Scheduler.State.{Io, Inner, written, commit}
use ferrum_atlas.Scheduler.Events.{event, max_history}
use ferrum_atlas.Scheduler.Submit.{
  joins, waits_elsewhere, supersede, supersede_job, new_job, enqueue, submit, stopping,
}
use ferrum_atlas.Scheduler.Cancel.{has_id, change_first, is_stopped, stop_job, cancel}
use ferrum_atlas.Scheduler.Eviction.{is_active, evict_makes_room}
use ferrum_atlas.Scheduler.Rules.{admitted_job}

-- Superseding jobs makes none of them active.
count_active-supersede :
    (stamp : ℕ → Text) (n : ℕ) (profile : Text) (jobs : List JobRecord)
    → count_if is_active (supersede stamp n profile jobs) ≤ count_if is_active jobs
unfolding supersede supersede_job event
count_active-supersede stamp n profile [] = omega arith
count_active-supersede stamp n profile (j ∷ js) =
    ground (arith, count_active-supersede stamp (suc n) profile js)

-- What a submission needs: a valid request, a scheduler that runs, the lock, random bytes, a disk.
pub record IsServed (io : Io) (request : JobRequest) (s : Inner) : Type 0 where
  pub valid : validate_request io.request_bytes request ≡ ok tt
  pub on : s.stop ≡ false
  pub sound : s.poisoned ≡ false
  pub locked : io.fence_free ≡ true
  pub fenced : io.fence_write ≡ written
  pub journalled : io.journal_write ≡ written

-- When the request is valid and joins no job, the queue and the history have room, and the machine
-- works, the request is admitted: its job is the last in memory and in the journal, it is queued,
-- and its profile's fence names it.
pub submit_admits :
    (io : Io) (config : SchedulerConfig) (request : JobRequest) (s : Inner) (bytes : List ℕ)
    → IsServed io request s
    → io.entropy ≡ some bytes
    → find (joins request) s.jobs ≡ none
    → count_if (waits_elsewhere request.profile) s.jobs < config.max_queued
    → count_if is_active s.jobs < max_history
    → let job = admitted_job io request s.jobs bytes in
      (kept : List JobRecord) × (t : Inner) × (submit io config request s ≡ (ok job, t))
      × (t.jobs ≡ kept ++ job ∷ [])
      × (t.journal ≡ t.jobs)
      × (t.fences request.profile ≡ some job.id)
      × (job.status ≡ queued)
unfolding submit enqueue commit
submit_admits io config request s bytes served drawn new room active =
    let job = admitted_job io request s.jobs bytes in
    let (kept, evicted, fits, same) =
      evict_makes_room (supersede io.stamp 0 request.profile s.jobs)
        (omega (arith, count_active-supersede io.stamp 0 request.profile s.jobs)) in
    let t = (submit io config request s).1 in
    let open_ : ltb (count_if (waits_elsewhere request.profile) s.jobs) config.max_queued ≡ true =
      lt→ltb _ _ room in
    (
      kept,
      t,
      ground (arith, served, drawn, new, evicted, open_),
      ground (arith, served, drawn, new, evicted, open_),
      ground (arith, served, drawn, new, evicted, open_),
      ground (arith, served, drawn, new, evicted, open_),
      unfold new_job event in refl,
    )

find-change_first :
    (change : JobRecord → JobRecord) (id : Text)
    → ((j : JobRecord) → (change j).id ≡ j.id)
    → (jobs : List JobRecord) (job : JobRecord) → find (has_id id) jobs ≡ some job
    → find (has_id id) (change_first change id jobs) ≡ some (change job)
unfolding change_first
find-change_first change id same [] job h = cc
find-change_first change id same (j ∷ js) job h =
    ground (arith, same j, find-change_first change id same js job)

stop_job-id : (now : Text) (j : JobRecord) → (stop_job now j).id ≡ j.id
unfolding stop_job event
stop_job-id now j = refl

stop_job-status : (now : Text) (j : JobRecord) → (stop_job now j).status ≡ stopping j.status
unfolding stop_job event
stop_job-status now j = refl

-- A cancellation of a known job that succeeds returns the job as it then stands in memory, and it
-- is finished or about to stop: one that had waited is cancelled at once, one that ran is asked to
-- stop, and any other keeps its status.
pub cancel_stops :
    (io : Io) (id : Text) (s : Inner) (before after : JobRecord)
    → find (has_id id) s.jobs ≡ some before
    → (cancel io id s).0 ≡ ok after
    → (find (has_id id) (cancel io id s).1.jobs ≡ some after)
      × (is_stopped after ≡ true)
      × (after.status ≡ (if is_stopped before then before.status else stopping before.status))
unfolding cancel commit
cancel_stops io id s before after found done =
    let changed =
      find-change_first (stop_job (io.stamp 0)) id (stop_job-id (io.stamp 0)) s.jobs before found in
    let status = stop_job-status (io.stamp 0) before in
    (ground (arith, changed, status), ground (arith, status), ground (arith, status))
