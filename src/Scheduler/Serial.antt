-- ===== src/Scheduler/Serial.antt =====
-- One job at a time: the worker's phase against the statuses of the jobs.
pub mod Steps
use ferrum_atlas.Prelude.{
  ℕ, zero, suc, ◌+◌, ◌≤◌, ◌<◌, List, [], ◌∷◌, ◌++◌, ◌≡◌, ◌≢◌, refl, sym, ap, ◌∙◌, subst, inl, inr,
  Bool, true, false, not, ◌&&◌, ◌||◌, Option, none, some, Result, ok, err, arith, length, find,
  count_if, remove, map, All, All-append, ◌==◌, ==_iff, if◌then◌else◌, Bool-cases, Option-cases,
}
use ferrum_atlas.Prelude.Text.{Text, text_eq, codes}
use ferrum_atlas.Model.{
  JobRequest, JobRecord, JobStatus, queued, running, cancelling, job_status_eq, terminal, JobStage,
}
use ferrum_atlas.Scheduler.Config.{SchedulerConfig}
use ferrum_atlas.Scheduler.State.{Io, Inner, WriteOutcome, persist}
use ferrum_atlas.Scheduler.Events.{event}
use ferrum_atlas.Scheduler.Submit.{
  supersede, supersede_job, stop_superseded, new_job, submit_locked, evict,
}
use ferrum_atlas.Scheduler.Cancel.{
  has_id, change_first, is_stopped, stop_job, cancel_locked, update, lock,
}
use ferrum_atlas.Scheduler.Worker.{start_job, finish_job, settle, Outcome, Poll}
use ferrum_atlas.Scheduler.Eviction.{evict-All, evict_rule, All-remove}
use ferrum_atlas.Scheduler.Changes.{
  ids, All-supersede, ids-supersede, All-change_first, All-mono, ids-change_first,
}
use ferrum_atlas.Scheduler.Rules.{
  Admits, fresh_id, admitted_job, submit_rule, cancel_rule, update_rule,
}
use ferrum_atlas.Scheduler.Safety.{IsFresh, AllFresh, All-change_found}
use ferrum_atlas.Scheduler.System.{
  Phase, idle, exited, starting, executing, recording, finishing, System, Call, submits, cancels,
  works, shuts_down, step, run,
}

abbrev pub is_busy : JobRecord → Bool
is_busy j = j.status == running || j.status == cancelling

abbrev pub Distinct : List Text → Type 0
Distinct [] = Unit
Distinct (a ∷ rest) = All (λ b. b ≢ a) rest × Distinct rest

abbrev pub OnlyBusy : Text → JobRecord → Type 0
OnlyBusy id j = is_busy j ≡ true → j.id ≡ id

abbrev pub NotBusy : JobRecord → Type 0
NotBusy j = is_busy j ≡ false

-- The job that the worker runs is the only one that can be running or about to stop. Once the worker
-- has gone, what it left can be one job.
abbrev pub Serves : Phase → List JobRecord → Type 0
Serves idle jobs = All NotBusy jobs
Serves (starting id) jobs = All NotBusy jobs
Serves (executing id last) jobs = All (OnlyBusy id) jobs
Serves (recording id seen) jobs = All (OnlyBusy id) jobs
Serves (finishing id outcome) jobs = All (OnlyBusy id) jobs
Serves exited jobs = (id : Text) × All (OnlyBusy id) jobs

pub record IsSerial (phase : Phase) (jobs : List JobRecord) : Type 0 where
  pub distinct : Distinct (ids jobs)
  pub serves : Serves phase jobs

Distinct-remove :
    (jobs : List JobRecord) (i : ℕ) → Distinct (ids jobs) → Distinct (ids (remove i jobs))
Distinct-remove [] i h = h
Distinct-remove (j ∷ js) zero h = h.1
Distinct-remove (j ∷ js) (suc i) h =
    (All-ids-remove (λ b. b ≢ j.id) js i h.0, Distinct-remove js i h.1)
  where
    All-ids-remove :
        (P : Text → Type 0) (jobs : List JobRecord) (i : ℕ)
        → All P (ids jobs)
        → All P (ids (remove i jobs))
    All-ids-remove P [] i h = h
    All-ids-remove P (j ∷ js) zero h = h.1
    All-ids-remove P (j ∷ js) (suc i) h = (h.0, All-ids-remove P js i h.1)

Distinct-concat :
    (seen : List Text) (a : Text)
    → Distinct seen
    → All (λ b. b ≢ a) seen
    → Distinct (seen ++ a ∷ [])
Distinct-concat [] a d f = (tt, tt)
Distinct-concat (b ∷ seen) a d f = (
  All-append (λ c. c ≢ b) seen (a ∷ []) d.0 (λ e. f.0 (sym e), tt),
  Distinct-concat seen a d.1 f.1,
)

-- `k` is `j` after a step that starts no job.
record IsCalm (j k : JobRecord) : Type 0 where
  id_same : k.id ≡ j.id
  busy_down : is_busy k ≡ true → is_busy j ≡ true

NotBusy-calm : {j k : JobRecord} → IsCalm j k → NotBusy j → NotBusy k
NotBusy-calm {k} calm h = elim (Bool-cases (is_busy k)) [
  | inl busy ↦ absurd (ground (arith, calm.busy_down busy))
  | inr quiet ↦ quiet
]

OnlyBusy-calm : {j k : JobRecord} → IsCalm j k → (id : Text) → OnlyBusy id j → OnlyBusy id k
OnlyBusy-calm calm id h busy = calm.id_same ∙ h (calm.busy_down busy)

supersede_job-IsCalm : (now profile : Text) (j : JobRecord) → IsCalm j (supersede_job now profile j)
unfolding supersede_job event
supersede_job-IsCalm now profile j = record {
  id_same = ground arith;
  busy_down = λ e. ground arith;
}

stop_job-IsCalm : (now : Text) (j : JobRecord) → is_stopped j ≡ false → IsCalm j (stop_job now j)
unfolding stop_job event
stop_job-IsCalm now j going = record { id_same = refl; busy_down = λ e. ground arith }

event-IsCalm : (now : Text) (stage : JobStage) (j : JobRecord) → IsCalm j (event now stage j)
unfolding event
event-IsCalm now stage j = record { id_same = refl; busy_down = λ e. e }

-- A property of every phase's jobs that a calm change keeps.
Serves-All :
    (phase : Phase) (jobs others : List JobRecord)
    → ((P : JobRecord → Type 0)
        → ((j k : JobRecord) → IsCalm j k → P j → P k)
        → All P jobs
        → All P others)
    → Serves phase jobs
    → Serves phase others
Serves-All idle jobs others keep h = keep NotBusy (λ j k. NotBusy-calm) h
Serves-All (starting id) jobs others keep h = keep NotBusy (λ j k. NotBusy-calm) h
Serves-All (executing id last) jobs others keep h =
    keep (OnlyBusy id) (λ j k calm. OnlyBusy-calm calm id) h
Serves-All (recording id seen) jobs others keep h =
    keep (OnlyBusy id) (λ j k calm. OnlyBusy-calm calm id) h
Serves-All (finishing id outcome) jobs others keep h =
    keep (OnlyBusy id) (λ j k calm. OnlyBusy-calm calm id) h
Serves-All exited jobs others keep (id, h) =
    (id, keep (OnlyBusy id) (λ j k calm. OnlyBusy-calm calm id) h)

Serves-append :
    (phase : Phase) (jobs : List JobRecord) (j : JobRecord)
    → NotBusy j
    → Serves phase jobs
    → Serves phase (jobs ++ j ∷ [])
Serves-append idle jobs j n h = All-append NotBusy jobs (j ∷ []) h (n, tt)
Serves-append (starting id) jobs j n h = All-append NotBusy jobs (j ∷ []) h (n, tt)
Serves-append (executing id last) jobs j n h =
    All-append (OnlyBusy id) jobs (j ∷ []) h (λ e. ground arith, tt)
Serves-append (recording id seen) jobs j n h =
    All-append (OnlyBusy id) jobs (j ∷ []) h (λ e. ground arith, tt)
Serves-append (finishing id outcome) jobs j n h =
    All-append (OnlyBusy id) jobs (j ∷ []) h (λ e. ground arith, tt)
Serves-append exited jobs j n (id, h) =
    (id, All-append (OnlyBusy id) jobs (j ∷ []) h (λ e. ground arith, tt))

ids-append : (jobs : List JobRecord) (j : JobRecord) → ids (jobs ++ j ∷ []) ≡ ids jobs ++ j.id ∷ []
ids-append [] j = refl
ids-append (k ∷ ks) j = ap (◌∷◌ k.id) (ids-append ks j)

All-ids : (P : Text → Type 0) (jobs : List JobRecord) → All (λ j. P j.id) jobs → All P (ids jobs)
All-ids P [] h = tt
All-ids P (j ∷ js) h = (h.0, All-ids P js h.1)

module _ (io : Io) (config : SchedulerConfig) (request : JobRequest) (phase : Phase) where
  admitted-IsSerial :
      (jobs kept : List JobRecord) (bytes : List ℕ)
      → IsFresh io jobs
      → Admits io config request jobs kept bytes
      → IsSerial phase jobs
      → IsSerial phase (kept ++ admitted_job io request jobs bytes ∷ [])
  unfolding new_job event
  admitted-IsSerial jobs kept bytes fresh a h = record {
    distinct = rw (ids-append kept job) (
        Distinct-concat (ids kept) job.id
          (evict_rule (λ xs. Distinct (ids xs)) Distinct-remove above kept
            (rw (ids-supersede io.stamp 0 request.profile jobs) h.distinct) a.evicted)
          (All-ids (λ b. b ≢ job.id) kept
            (evict-All above kept a.evicted (λ j. j.id ≢ job.id)
              (All-supersede (λ j. j.id ≢ job.id) (λ j. j.id ≢ job.id) io.stamp request.profile
                (λ now j other. rw ((supersede_job-IsCalm now request.profile j).id_same) other) 0
                jobs (fresh bytes a.drawn)))));
    serves = Serves-append phase kept job (ground arith) (
        Serves-All phase jobs kept
          (λ P keep p. evict-All above kept a.evicted P (
            All-supersede P P io.stamp request.profile
              (λ now j. keep j _ (supersede_job-IsCalm now request.profile j)) 0 jobs p))
          h.serves);
  }
    where
      job : JobRecord
      job = admitted_job io request jobs bytes

      above : List JobRecord
      above = supersede io.stamp 0 request.profile jobs

  submit-IsSerial :
      (s : Inner)
      → IsFresh io s.jobs
      → IsSerial phase s.jobs
      → IsSerial phase (submit_locked io config request s).1.jobs
  submit-IsSerial s fresh h =
      submit_rule io config request (λ t. IsSerial phase t.jobs) s h
        λ kept bytes a. (h, h, admitted-IsSerial s.jobs kept bytes fresh a h)

cancel-IsSerial :
    (io : Io) (id : Text) (phase : Phase) (s : Inner)
    → IsSerial phase s.jobs
    → IsSerial phase (cancel_locked io id s).1.jobs
unfolding stop_job event
cancel-IsSerial io id phase s h =
    cancel_rule io id (λ t. IsSerial phase t.jobs) s h
      λ job stops. (
        h,
        h,
        record {
          distinct = rw (ids-change_first (stop_job (io.stamp 0)) id (λ j. refl) s.jobs) h.distinct;
          serves =
              Serves-All phase s.jobs (change_first (stop_job (io.stamp 0)) id s.jobs)
                (λ P keep p.
                  All-change_found P P (stop_job (io.stamp 0)) id job (λ j q. q)
                    (keep job _ (stop_job-IsCalm (io.stamp 0) job stops.going)) s.jobs stops.found
                    p)
                h.serves;
        },
      )

event-IsSerial :
    (w : WriteOutcome) (now : Text) (stage : JobStage) (id : Text) (phase : Phase) (s : Inner)
    → IsSerial phase s.jobs
    → IsSerial phase (update w id (event now stage) s).1.jobs
unfolding event
event-IsSerial w now stage id phase s h =
    update_rule (λ t. IsSerial phase t.jobs) w id (event now stage) s h h
      (record {
        distinct = rw (ids-change_first (event now stage) id (λ j. refl) s.jobs) h.distinct;
        serves =
            Serves-All phase s.jobs (change_first (event now stage) id s.jobs)
              (λ P keep p.
                All-change_first P P (event now stage) id (λ j q. q)
                  (λ j q _. keep j _ (event-IsCalm now stage j) q) s.jobs p)
              h.serves;
      })

-- With distinct identities a change that ends the only busy job leaves none.
All-ends :
    (change : JobRecord → JobRecord) (id : Text)
    → ((j : JobRecord) → NotBusy (change j))
    → (jobs : List JobRecord) → Distinct (ids jobs)
    → (job : JobRecord) → find (has_id id) jobs ≡ some job
    → All (OnlyBusy id) jobs
    → All NotBusy (change_first change id jobs)
unfolding change_first
All-ends change id ends [] d job e h = tt
All-ends change id ends (j ∷ js) d job e h = elim (Bool-cases (has_id id j)) [
  | inl hit ↦ rw (hit, change_first) (ends j, others js d.0 h.1 (ground arith))
  | inr miss ↦
      rw (miss, change_first)
        (quiet j h.0 miss, All-ends change id ends js d.1 job (ground arith) h.1)
]
  where
    quiet : (k : JobRecord) → OnlyBusy id k → has_id id k ≡ false → NotBusy k
    quiet k only miss = elim (Bool-cases (is_busy k)) [
      | inl busy ↦ absurd (ground (arith, only busy))
      | inr calm ↦ calm
    ]

    others :
        (ks : List JobRecord)
        → All (λ a. a ≢ j.id) (ids ks)
        → All (OnlyBusy id) ks
        → j.id ≡ id
        → All NotBusy ks
    others [] differ only it = tt
    others (k ∷ ks) differ only it =
        (quiet k only.0 (ground (arith, differ.0)), others ks differ.1 only.1 it)
