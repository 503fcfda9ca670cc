-- ===== src/Scheduler/Bounds.antt =====
-- How much a scheduler holds: the history, the queue, the live jobs of a profile, the logs.
use ferrum_atlas.Prelude.{
  ℕ, suc, ◌≤◌, ◌<◌, List, [], ◌∷◌, ◌++◌, ◌≡◌, refl, none, some, Bool, true, not, ◌&&◌, inl, inr,
  Bool-cases, arith, length, count_if, All, All-append, count_if-append, length-append, ltb→lt,
  ◌==◌,
}
use ferrum_atlas.Prelude.Text.{Text, text_eq}
use ferrum_atlas.Prelude.Words.{u32_max}
use ferrum_atlas.Model.{JobRequest, JobRecord, JobStage, terminal, queued, job_status_eq}
use ferrum_atlas.Scheduler.Config.{SchedulerConfig}
use ferrum_atlas.Scheduler.State.{Io}
use ferrum_atlas.Scheduler.Events.{event, max_history}
use ferrum_atlas.Scheduler.Submit.{supersede_job, new_job}
use ferrum_atlas.Scheduler.Cancel.{change_first, stop_job}
use ferrum_atlas.Scheduler.Worker.{start_job, finish_job, settle, Outcome}
use ferrum_atlas.Scheduler.Log.{IsLogged, event-IsLogged}
use ferrum_atlas.Scheduler.Eviction.{evict-fits, evict-All, evict-count}
use ferrum_atlas.Scheduler.Changes.{
  is_queued, is_live_in, All-supersede, count_live-supersede, count_queued-supersede,
  All-change_first, All-mono, length-change_first, count-change_first,
}
use ferrum_atlas.Scheduler.Rules.{Admits, admitted_job}

-- `n` bounds the sequence numbers of the events.
pub record IsBounded (config : SchedulerConfig) (n : ℕ) (jobs : List JobRecord) : Type 0 where
  pub history : length jobs ≤ max_history
  pub queue : count_if is_queued jobs ≤ config.max_queued
  pub single : (profile : Text) → count_if (is_live_in profile) jobs ≤ 1
  pub logged : All (IsLogged n) jobs

pub IsLogged-suc : (n : ℕ) (j : JobRecord) → IsLogged n j → IsLogged (suc n) j
IsLogged-suc n j h = record { few = h.few; rising = h.rising; reached = omega (arith, h.reached) }

pub IsBounded-suc :
    (config : SchedulerConfig) (n : ℕ) (jobs : List JobRecord)
    → IsBounded config n jobs
    → IsBounded config (suc n) jobs
IsBounded-suc config n jobs h = record {
  history = h.history;
  queue = h.queue;
  single = h.single;
  logged = All-mono (IsLogged-suc n) jobs h.logged;
}

-- A change of one job that queues nothing, revives nothing, and adds one event at most.
pub record IsTame (change : JobRecord → JobRecord) : Type 0 where
  pub queued_down : (j : JobRecord) → is_queued (change j) ≡ true → is_queued j ≡ true
  pub live_down :
      (profile : Text) (j : JobRecord)
      → is_live_in profile (change j) ≡ true
      → is_live_in profile j ≡ true
  pub logs : (n : ℕ) (j : JobRecord) → n < u32_max → IsLogged n j → IsLogged (suc n) (change j)

pub change_first-IsBounded :
    (config : SchedulerConfig) (n : ℕ) (change : JobRecord → JobRecord) (id : Text)
    (jobs : List JobRecord)
    → n < u32_max
    → IsTame change
    → IsBounded config n jobs
    → IsBounded config (suc n) (change_first change id jobs)
change_first-IsBounded config n change id jobs below tame h = record {
  history = omega (arith, length-change_first change id jobs, h.history);
  queue = omega (arith, count-change_first is_queued change id tame.queued_down jobs, h.queue);
  single = λ p.
      omega
        (arith, count-change_first (is_live_in p) change id (tame.live_down p) jobs, h.single p);
  logged =
      All-change_first (IsLogged n) (IsLogged (suc n)) change id (IsLogged-suc n)
        (λ j l _. tame.logs n j below l) jobs h.logged;
}

-- Only the events matter.
pub IsLogged-same : (n : ℕ) (j k : JobRecord) → k.events ≡ j.events → IsLogged n j → IsLogged n k
IsLogged-same n j k e h = record {
  few = rw e h.few;
  rising = rw e h.rising;
  reached = rw e h.reached;
}

supersede_job-IsLogged :
    (profile : Text) (n : ℕ)
    → n < u32_max
    → (now : Text) (j : JobRecord) → IsLogged n j
    → IsLogged (suc n) (supersede_job now profile j)
unfolding supersede_job
supersede_job-IsLogged profile n below now j h =
    elim (Bool-cases (j.request.profile == profile && not (terminal j.status))) [
      | inl hit ↦
          rw (hit, supersede_job) (event-IsLogged now _ n _ below (IsLogged-same n j _ refl h))
      | inr miss ↦ rw (miss, supersede_job) (IsLogged-suc n j h)
    ]

new_job-IsLogged :
    (id created now : Text) (request : JobRequest) (n : ℕ)
    → n < u32_max
    → IsLogged (suc n) (new_job id created now request)
unfolding new_job
new_job-IsLogged id created now request n below =
    event-IsLogged now _ n _ below
      (record { few = omega arith; rising = tt; reached = omega arith })

pub admitted-IsBounded :
    (io : Io) (config : SchedulerConfig) (request : JobRequest) (n : ℕ) (jobs kept : List JobRecord)
    (bytes : List ℕ)
    → n < u32_max
    → IsBounded config n jobs
    → Admits io config request jobs kept bytes
    → IsBounded config (suc n) (kept ++ admitted_job io request jobs bytes ∷ [])
unfolding new_job event
admitted-IsBounded io config request n jobs kept bytes below h a = record {
  history = omega (arith, length-append kept (job ∷ []), evict-fits _ kept a.evicted);
  queue = ground (
    arith,
    count_if-append is_queued kept (job ∷ []),
    evict-count _ kept a.evicted is_queued,
    count_queued-supersede io.stamp 0 request.profile jobs,
    ltb→lt _ _ a.room,
  );
  single = λ p. ground (
    arith,
    count_if-append (is_live_in p) kept (job ∷ []),
    evict-count _ kept a.evicted (is_live_in p),
    count_live-supersede io.stamp 0 request.profile p jobs,
    h.single p,
  );
  logged =
      All-append (IsLogged (suc n)) kept (job ∷ [])
        (evict-All _ kept a.evicted (IsLogged (suc n)) (
          All-supersede (IsLogged n) (IsLogged (suc n)) io.stamp request.profile
            (supersede_job-IsLogged request.profile n below) 0 jobs h.logged))
        (new_job-IsLogged _ _ _ request n below, tt);
}
  where
    job : JobRecord
    job = admitted_job io request jobs bytes

start_job-IsLogged :
    (now : Text) (n : ℕ) (j : JobRecord)
    → n < u32_max
    → IsLogged n j
    → IsLogged (suc n) (start_job now j)
unfolding start_job
start_job-IsLogged now n j below h = elim (Bool-cases (j.status == queued)) [
  | inl hit ↦ rw (hit, start_job) (event-IsLogged now _ n _ below (IsLogged-same n j _ refl h))
  | inr miss ↦ rw (miss, start_job) (IsLogged-suc n j h)
]

settle-events :
    (outcome : Outcome) (stop : Bool) (j : JobRecord) → (settle outcome stop j).events ≡ j.events
settle-events (some snapshot) stop j = refl
settle-events none stop j = ground arith

pub stop_job-IsTame : (now : Text) → IsTame (stop_job now)
unfolding stop_job event
stop_job-IsTame now = record {
  queued_down = λ j e. ground arith;
  live_down = λ p j e. ground arith;
  logs = λ n j below h. event-IsLogged now _ n _ below (IsLogged-same n j _ refl h);
}

pub start_job-IsTame : (now : Text) → IsTame (start_job now)
unfolding start_job event
start_job-IsTame now = record {
  queued_down = λ j e. ground arith;
  live_down = λ p j e. ground arith;
  logs = λ n j below h. start_job-IsLogged now n j below h;
}

pub event-IsTame : (now : Text) (stage : JobStage) → IsTame (event now stage)
unfolding event
event-IsTame now stage = record {
  queued_down = λ j e. e;
  live_down = λ p j e. e;
  logs = λ n j below h. event-IsLogged now stage n j below h;
}

pub finish_job-IsTame :
    (now : Text) (outcome : Outcome) (stop : Bool) → IsTame (finish_job now outcome stop)
unfolding finish_job event
finish_job-IsTame now outcome stop = record {
  queued_down = λ j e. ground arith;
  live_down = λ p j e. ground arith;
  logs = λ n j below h.
      event-IsLogged now _ n _ below (IsLogged-same n j _ (settle-events outcome stop j) h);
}
