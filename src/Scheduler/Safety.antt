-- ===== src/Scheduler/Safety.antt =====
-- Publication: a job that was told to stop never passes `publication_guard`.
use ferrum_atlas.Prelude.{
  ℕ, suc, List, [], ◌∷◌, ◌≡◌, ◌≢◌, inl, inr, Bool, true, none, some, ok, arith, length, find, All,
  All-append, ◌==◌, Bool-cases, get_elem?, All-get_elem?,
}
use ferrum_atlas.Prelude.Text.{Text, text_eq, codes, starts_with}
use ferrum_atlas.Model.{JobRequest, JobRecord, cancelling, job_status_eq, JobStage}
use ferrum_atlas.Scheduler.Config.{SchedulerConfig}
use ferrum_atlas.Scheduler.State.{Io, Inner, Fences, WriteOutcome, update_fence, commit}
use ferrum_atlas.Scheduler.Events.{event}
use ferrum_atlas.Scheduler.Submit.{joins, supersede, supersede_job, new_job, submit_locked, enqueue}
use ferrum_atlas.Scheduler.Cancel.{
  has_id, change_first, stop_job, cancel_locked, cancelled_fence, update, publication_guard,
}
use ferrum_atlas.Scheduler.Worker.{start_job, finish_job, Outcome}
use ferrum_atlas.Scheduler.System.{System, Call, submits, cancels, works, shuts_down, step, run}
use ferrum_atlas.Scheduler.Traces.{work_rule}
use ferrum_atlas.Scheduler.Eviction.{evict-All}
use ferrum_atlas.Scheduler.Changes.{All-supersede, All-change_first, All-mono}
use ferrum_atlas.Scheduler.Rules.{fresh_id, admitted_job, submit_rule, cancel_rule, update_rule}

-- The fence of a stopping job's profile names another job, or none.
abbrev pub Guarded : Fences → JobRecord → Type 0
Guarded fences j =
    (starts_with j.id (codes "job:") ≡ true)
    × (j.status ≡ cancelling → fences j.request.profile ≢ some j.id)

abbrev pub IsGuarded : Inner → Type 0
IsGuarded s = All (Guarded s.fences) s.jobs

-- The random identity is none of those in use.
abbrev pub IsFresh : Io → List JobRecord → Type 0
IsFresh io jobs = (bytes : List ℕ) → io.entropy ≡ some bytes → All (λ j. j.id ≢ fresh_id bytes) jobs

All-both {ℓ κ} :
    (P : JobRecord → Type ℓ) (Q : JobRecord → Type κ) (jobs : List JobRecord)
    → All P jobs
    → All Q jobs
    → All (λ j. P j × Q j) jobs
All-both P Q [] p q = tt
All-both P Q (j ∷ js) p q = ((p.0, q.0), All-both P Q js p.1 q.1)

-- A new fence for a profile, which is not this job's.
Guarded-update_fence :
    (fences : Fences) (profile id : Text) (j : JobRecord)
    → j.id ≢ id
    → Guarded fences j
    → Guarded (update_fence profile id fences) j
Guarded-update_fence fences profile id j other g = (g.0, λ e f. ground (arith, g.1 e))

-- Superseded or not, a job is guarded by the new fence of the profile.
Guarded-supersede_job :
    (fences : Fences) (profile id now : Text) (j : JobRecord)
    → j.id ≢ id
    → Guarded fences j
    → Guarded (update_fence profile id fences) (supersede_job now profile j)
unfolding supersede_job event
Guarded-supersede_job fences profile id now j other g =
    elim (Bool-cases (j.request.profile == profile)) [
      | inl same ↦ (ground arith, λ e f. ground arith)
      | inr differs ↦ (ground arith, λ e f. ground (arith, g.1))
    ]

Guarded-new_job :
    (fences : Fences) (bytes : List ℕ) (created now : Text) (request : JobRequest)
    → Guarded fences (new_job (fresh_id bytes) created now request)
unfolding new_job event
Guarded-new_job fences bytes created now request = (ground arith, λ e. cc)

submit-IsGuarded :
    (io : Io) (config : SchedulerConfig) (request : JobRequest) (s : Inner)
    → IsFresh io s.jobs
    → IsGuarded s
    → IsGuarded (submit_locked io config request s).1
unfolding new_job event
submit-IsGuarded io config request s fresh h =
    submit_rule io config request IsGuarded s h λ kept bytes a.
      let id = fresh_id bytes in
      let fences = update_fence request.profile id s.fences in
      let both = All-both (λ j. j.id ≢ id) (Guarded s.fences) s.jobs (fresh bytes a.drawn) h in
      let before : All (Guarded fences) s.jobs =
        All-mono (λ j p. Guarded-update_fence s.fences request.profile id j p.0 p.1) s.jobs both in
      let superseded =
        All-supersede (λ j. (j.id ≢ id) × Guarded s.fences j) (Guarded fences) io.stamp
          request.profile
          (λ now j p. Guarded-supersede_job s.fences request.profile id now j p.0 p.1) 0 s.jobs
          both in
      (
        before,
        before,
        All-append (Guarded fences) kept (admitted_job io request s.jobs bytes ∷ [])
            (evict-All (supersede io.stamp 0 request.profile s.jobs) kept a.evicted (Guarded fences)
              superseded)
            (
              Guarded-new_job fences bytes (io.stamp (length s.jobs))
                  (io.stamp (suc (length s.jobs))) request,
              tt,
            ),
      )

-- Only the job that `find` returns is changed.
pub All-change_found {ℓ κ} :
    (P : JobRecord → Type ℓ) (Q : JobRecord → Type κ) (change : JobRecord → JobRecord) (id : Text)
    (job : JobRecord)
    → ((j : JobRecord) → P j → Q j)
    → (P job → Q (change job))
    → (jobs : List JobRecord) → find (has_id id) jobs ≡ some job
    → All P jobs
    → All Q (change_first change id jobs)
unfolding change_first
All-change_found P Q change id job same keep [] e h = tt
All-change_found P Q change id job same keep (j ∷ js) e h = elim (Bool-cases (has_id id j)) [
  | inl hit ↦
      let it : j ≡ job = ground arith in
      rw (hit, change_first) (rw it (keep (rw it at h.0)), All-mono same js h.1)
  | inr miss ↦
      rw (miss, change_first)
        (same j h.0, All-change_found P Q change id job same keep js (ground arith) h.1)
]

Guarded-stop_job :
    (fences : Fences) (now : Text) (j : JobRecord)
    → Guarded fences j
    → Guarded (update_fence j.request.profile cancelled_fence fences) (stop_job now j)
unfolding stop_job event
Guarded-stop_job fences now j g = (g.0, λ e f. ground arith)

not-cancelled_fence : (id : Text) → starts_with id (codes "job:") ≡ true → id ≢ cancelled_fence
not-cancelled_fence id h e = ground arith

cancel-IsGuarded :
    (io : Io) (id : Text) (s : Inner) → IsGuarded s → IsGuarded (cancel_locked io id s).1
cancel-IsGuarded io id s h = cancel_rule io id IsGuarded s h λ job stops.
    let profile = job.request.profile in
    let fences = update_fence profile cancelled_fence s.fences in
    let same : (j : JobRecord) → Guarded s.fences j → Guarded fences j = λ j g.
      Guarded-update_fence s.fences profile cancelled_fence j (not-cancelled_fence j.id g.0) g in
    let before = All-mono same s.jobs h in
    (
      before,
      before,
      All-change_found (Guarded s.fences) (Guarded fences) (stop_job (io.stamp 0)) id job same
          (Guarded-stop_job s.fences (io.stamp 0) job) s.jobs stops.found h,
    )

-- A change that makes no job start to stop.
abbrev IsQuiet : (JobRecord → JobRecord) → Type 0
IsQuiet change = (fences : Fences) (j : JobRecord) → Guarded fences j → Guarded fences (change j)

update-IsGuarded :
    (w : WriteOutcome) (id : Text) (change : JobRecord → JobRecord) (s : Inner)
    → IsQuiet change
    → IsGuarded s
    → IsGuarded (update w id change s).1
update-IsGuarded w id change s quiet h = update_rule IsGuarded w id change s h h (
    All-change_first (Guarded s.fences) (Guarded s.fences) change id (λ j g. g)
      (λ j g _. quiet s.fences j g) s.jobs h)

event-IsQuiet : (now : Text) (stage : JobStage) → IsQuiet (event now stage)
unfolding event
event-IsQuiet now stage fences j g = g

start_job-IsQuiet : (now : Text) → IsQuiet (start_job now)
unfolding start_job event
start_job-IsQuiet now fences j g = ground arith

finish_job-IsQuiet :
    (now : Text) (outcome : Outcome) (stop : Bool) → IsQuiet (finish_job now outcome stop)
unfolding finish_job event
finish_job-IsQuiet now (some snapshot) stop fences j g = (g.0, λ e. cc)
finish_job-IsQuiet now none stop fences j g = ground arith

step-IsGuarded :
    (config : SchedulerConfig) (io : Io) (c : Call) (x : System)
    → IsFresh io x.inner.jobs
    → IsGuarded x.inner
    → IsGuarded (step config (io, c) x).inner
unfolding step
step-IsGuarded config io (submits request) x fresh h =
    submit-IsGuarded io config request x.inner fresh h
step-IsGuarded config io (cancels id) x fresh h = cancel-IsGuarded io id x.inner h
step-IsGuarded config io (works p) x fresh h =
    work_rule IsGuarded IsQuiet event-IsQuiet start_job-IsQuiet finish_job-IsQuiet io config p
      x.phase x.inner h (λ t k. k)
      (λ id change quiet. update-IsGuarded io.journal_write id change x.inner quiet h)
step-IsGuarded config io shuts_down x fresh h = h

-- Each identity that a run draws is new at its step.
abbrev pub AllFresh : SchedulerConfig → List (Io × Call) → System → Type 0
AllFresh config [] x = Unit
AllFresh config ((io, c) ∷ cs) x =
    IsFresh io x.inner.jobs × AllFresh config cs (step config (io, c) x)

run-IsGuarded :
    (config : SchedulerConfig) (calls : List (Io × Call)) (x : System)
    → AllFresh config calls x
    → IsGuarded x.inner
    → IsGuarded (run config calls x).inner
unfolding run
run-IsGuarded config [] x fresh h = h
run-IsGuarded config ((io, c) ∷ cs) x fresh h =
    run-IsGuarded config cs (step config (io, c) x) fresh.1 (step-IsGuarded config io c x fresh.0 h)

publication_guard-fence :
    (io : Io) (profile id : Text) (s : Inner)
    → publication_guard io profile id s ≡ ok tt
    → s.fences profile ≡ some id
unfolding publication_guard
publication_guard-fence io profile id s h = ground arith

-- From a guarded state, in which every job that stops has lost its fence, and after any
-- interleaving of callers and worker with any failures of the disk, a job that was told to stop
-- cannot pass the guard of the catalog commit, if no random identity was drawn that is in use.
pub run_guards :
    (config : SchedulerConfig) (calls : List (Io × Call)) (x : System) (io : Io) (m : ℕ)
    (j : JobRecord)
    → AllFresh config calls x
    → IsGuarded x.inner
    → get_elem? (run config calls x).inner.jobs m ≡ some j
    → j.status ≡ cancelling
    → publication_guard io j.request.profile j.id (run config calls x).inner ≢ ok tt
run_guards config calls x io m j fresh h at stopping passes =
    let s = (run config calls x).inner in
    let g = All-get_elem? (Guarded s.fences) s.jobs m j (run-IsGuarded config calls x fresh h) at in
    g.1 stopping (publication_guard-fence io j.request.profile j.id s passes)

submit-fence :
    (io : Io) (config : SchedulerConfig) (request : JobRequest) (s : Inner) (job : JobRecord)
    → find (joins request) s.jobs ≡ none
    → (submit_locked io config request s).0 ≡ ok job
    → (submit_locked io config request s).1.fences request.profile ≡ some job.id
unfolding submit_locked enqueue commit
submit-fence io config request s job new done = ground arith

-- If a request joins no job and is admitted, then only the job that is returned can pass the guard
-- of its profile right after.
pub submit_takes_over :
    (io late : Io) (config : SchedulerConfig) (request : JobRequest) (s : Inner) (job : JobRecord)
    (id : Text)
    → find (joins request) s.jobs ≡ none
    → (submit_locked io config request s).0 ≡ ok job
    → publication_guard late request.profile id (submit_locked io config request s).1 ≡ ok tt
    → id ≡ job.id
submit_takes_over io late config request s job id new done passes =
    let held = publication_guard-fence late request.profile id _ passes in
    let given = submit-fence io config request s job new done in ground (arith, held, given)
