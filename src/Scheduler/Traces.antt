-- ===== src/Scheduler/Traces.antt =====
-- Every interleaving of callers and worker keeps the bounds of a scheduler.
use native.Mathlib.Nat.{add-zero, add-suc, suc-add}
use ferrum_atlas.Prelude.{ℕ, suc, ◌+◌, ◌<◌, List, [], ◌∷◌, Bool, true, arith, length}
use ferrum_atlas.Prelude.Text.{Text}
use ferrum_atlas.Prelude.Words.{u32_max}
use ferrum_atlas.Model.{JobRequest, JobRecord, JobStage}
use ferrum_atlas.Scheduler.Config.{SchedulerConfig}
use ferrum_atlas.Scheduler.State.{Io, Inner, WriteOutcome}
use ferrum_atlas.Scheduler.Events.{event}
use ferrum_atlas.Scheduler.Submit.{submit_locked}
use ferrum_atlas.Scheduler.Cancel.{stop_job, cancel_locked, update}
use ferrum_atlas.Scheduler.Worker.{Outcome, Poll, pick, start_job, finish_job}
use ferrum_atlas.Scheduler.System.{
  Phase, idle, exited as gone, starting, executing, recording, finishing, System, Call, submits,
  cancels, works, shuts_down, work, step, run,
}
use ferrum_atlas.Scheduler.Bounds.{
  IsBounded, IsBounded-suc, IsTame, change_first-IsBounded, admitted-IsBounded, stop_job-IsTame,
  start_job-IsTame, finish_job-IsTame, event-IsTame,
}
use ferrum_atlas.Scheduler.Rules.{submit_rule, cancel_rule, update_rule}

-- A property of the state that no shutdown of the worker breaks.
module _ {ℓ} (P : Inner → Type ℓ) where
  pub work_rule {κ} :
      (C : (JobRecord → JobRecord) → Type κ)
      → ((now : Text) (seen : JobStage) → C (event now seen))
      → ((now : Text) → C (start_job now))
      → ((now : Text) (outcome : Outcome) (stop : Bool) → C (finish_job now outcome stop))
      → (io : Io) (config : SchedulerConfig) (p : Poll) (phase : Phase) (s : Inner) → P s
      → ((t : Inner) → P t → P (record t { stop = true }))
      → ((id : Text) (change : JobRecord → JobRecord)
          → C change
          → P (update io.journal_write id change s).1)
      → P (work io config p phase s).inner
  unfolding work pick
  work_rule C on_event on_start on_finish io config p idle s same stops changes =
      ground (arith, stops s)
  work_rule C on_event on_start on_finish io config p gone s same stops changes = same
  work_rule C on_event on_start on_finish io config p (starting id) s same stops changes =
      let h = changes id (start_job (io.stamp 0)) (on_start (io.stamp 0)) in
      ground (arith, h, stops (update io.journal_write id (start_job (io.stamp 0)) s).1)
  work_rule C on_event on_start on_finish io config p (executing id last) s same stops changes =
      same
  work_rule C on_event on_start on_finish io config p (recording id seen) s same stops changes =
      let h = changes id (event (io.stamp 0) seen) (on_event (io.stamp 0) seen) in ground (arith, h)
  work_rule C on_event on_start on_finish io config p (finishing id outcome) s same stops changes =
      let h =
        changes id (finish_job (io.stamp 0) outcome s.stop)
          (on_finish (io.stamp 0) outcome s.stop) in
      ground
        (arith, h, stops (update io.journal_write id (finish_job (io.stamp 0) outcome s.stop) s).1)

module _ (config : SchedulerConfig) (n : ℕ) (below : n < u32_max) where
  abbrev Grown : Inner → Type 0
  Grown s = IsBounded config (suc n) s.jobs

  update-IsBounded :
      (w : WriteOutcome) (id : Text) (change : JobRecord → JobRecord) (s : Inner)
      → IsTame change
      → IsBounded config n s.jobs
      → Grown (update w id change s).1
  update-IsBounded w id change s tame h =
      let same = IsBounded-suc config n s.jobs h in
      update_rule Grown w id change s same same
        (change_first-IsBounded config n change id s.jobs below tame h)

  cancel-IsBounded :
      (io : Io) (id : Text) (s : Inner)
      → IsBounded config n s.jobs
      → Grown (cancel_locked io id s).1
  cancel-IsBounded io id s h =
      let same = IsBounded-suc config n s.jobs h in
      cancel_rule io id Grown s same λ job _. (
        same,
        same,
        change_first-IsBounded config n (stop_job (io.stamp 0)) id s.jobs below
            (stop_job-IsTame (io.stamp 0)) h,
      )

  submit-IsBounded :
      (io : Io) (request : JobRequest) (s : Inner)
      → IsBounded config n s.jobs
      → Grown (submit_locked io config request s).1
  submit-IsBounded io request s h =
      let same = IsBounded-suc config n s.jobs h in
      submit_rule io config request Grown s same λ kept bytes a.
        (same, same, admitted-IsBounded io config request n s.jobs kept bytes below h a)

  pub step-IsBounded :
      (io : Io) (c : Call) (x : System)
      → IsBounded config n x.inner.jobs
      → IsBounded config (suc n) (step config (io, c) x).inner.jobs
  unfolding step
  step-IsBounded io (submits request) x h = submit-IsBounded io request x.inner h
  step-IsBounded io (cancels id) x h = cancel-IsBounded io id x.inner h
  step-IsBounded io (works p) x h =
      work_rule Grown IsTame event-IsTame start_job-IsTame finish_job-IsTame io config p x.phase
        x.inner (IsBounded-suc config n x.inner.jobs h) (λ t k. k)
        (λ id change tame. update-IsBounded io.journal_write id change x.inner tame h)
  step-IsBounded io shuts_down x h = IsBounded-suc config n x.inner.jobs h

-- From a bounded state, whatever callers, worker, clock and disk do over fewer steps than there are
-- sequence numbers: at most 128 jobs are kept, at most `max_queued` of them wait, no profile has
-- two jobs that are queued or running, and every job's events stay at most 32 with strictly rising
-- numbers.
pub run-IsBounded :
    (config : SchedulerConfig) (calls : List (Io × Call)) (n : ℕ) (x : System)
    → n + length calls < u32_max
    → IsBounded config n x.inner.jobs
    → IsBounded config (n + length calls) (run config calls x).inner.jobs
unfolding run
run-IsBounded config [] n x below h = rw add-zero h
run-IsBounded config ((io, c) ∷ cs) n x below h =
    rw (add-suc, ← suc-add)
      (run-IsBounded config cs (suc n) (step config (io, c) x) (omega arith)
        (step-IsBounded config n (omega arith) io c x h))
