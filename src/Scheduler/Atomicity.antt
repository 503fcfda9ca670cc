-- ===== src/Scheduler/Atomicity.antt =====
-- What `submit`, `cancel` and `update` leave behind, in memory and on disk.
use ferrum_atlas.Prelude.{◌≡◌, ◌⊎◌, Result, ok, err, arith}
use ferrum_atlas.Prelude.Text.{Text}
use ferrum_atlas.Model.{JobRequest, JobRecord}
use ferrum_atlas.Scheduler.Config.{SchedulerConfig, Error}
use ferrum_atlas.Scheduler.State.{Io, Inner, WriteOutcome, persist, commit}
use ferrum_atlas.Scheduler.Submit.{enqueue, submit_locked, submit}
use ferrum_atlas.Scheduler.Cancel.{cancel, update}

-- A call either fails and leaves the jobs in memory alone, or succeeds; then it changed nothing, or
-- the journal holds just the jobs that are in memory.
abbrev pub IsAtomic : Inner → Result Error JobRecord × Inner → Type 0
IsAtomic s (err e, t) = (t.jobs ≡ s.jobs) × (t.stop ≡ s.stop)
IsAtomic s (ok j, t) = (t ≡ s) ⊎ ((t.journal ≡ t.jobs) × (t.stop ≡ s.stop))

enqueue-IsAtomic :
    (io : Io) (config : SchedulerConfig) (request : JobRequest) (s : Inner)
    → IsAtomic s (enqueue io config request s.jobs s)
unfolding enqueue commit
enqueue-IsAtomic io config request s = ground arith

submit_locked-IsAtomic :
    (io : Io) (config : SchedulerConfig) (request : JobRequest) (s : Inner)
    → IsAtomic s (submit_locked io config request s)
unfolding submit_locked
submit_locked-IsAtomic io config request s = ground (arith, enqueue-IsAtomic io config request s)

submit-IsAtomic :
    (io : Io) (config : SchedulerConfig) (request : JobRequest) (s : Inner)
    → IsAtomic s (submit io config request s)
unfolding submit
submit-IsAtomic io config request s = ground (arith, submit_locked-IsAtomic io config request s)

cancel-IsAtomic : (io : Io) (id : Text) (s : Inner) → IsAtomic s (cancel io id s)
unfolding cancel commit
cancel-IsAtomic io id s = ground arith

update-IsAtomic :
    (w : WriteOutcome) (id : Text) (change : JobRecord → JobRecord) (s : Inner)
    → IsAtomic s (update w id change s)
unfolding update persist
update-IsAtomic w id change s = ground arith

-- A call of `submit`, `cancel` or `update` that fails leaves the jobs in memory as they were, whatever
-- reached the disk. One that succeeds changed nothing at all, or memory and journal agree after it.
pub calls-IsAtomic :
    (io : Io) (config : SchedulerConfig) (request : JobRequest) (id : Text)
    (change : JobRecord → JobRecord) (s : Inner)
    → IsAtomic s (submit io config request s)
      × IsAtomic s (cancel io id s)
      × IsAtomic s (update io.journal_write id change s)
calls-IsAtomic io config request id change s = (
  submit-IsAtomic io config request s,
  cancel-IsAtomic io id s,
  update-IsAtomic io.journal_write id change s,
)
