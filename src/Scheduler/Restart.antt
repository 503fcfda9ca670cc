-- ===== src/Scheduler/Restart.antt =====
-- The state that `Scheduler::start` begins with.
use ferrum_atlas.Prelude.{
  ℕ, suc, ◌≤◌, ◌<◌, List, [], ◌∷◌, ◌≡◌, ◌≢◌, ap, refl, inl, inr, Bool, true, false, Option, none,
  some, ok, arith, length, count_if, all, All, length-map, leb, leb→le, Bool-cases,
}
use ferrum_atlas.Prelude.Text.{Text, text_eq, codes, starts_with}
use ferrum_atlas.Model.{JobRequest, JobRecord, JobEvent, terminal}
use ferrum_atlas.Scheduler.Config.{SchedulerConfig}
use ferrum_atlas.Scheduler.State.{Io, Inner, Fences, persist}
use ferrum_atlas.Scheduler.Events.{event, max_history}
use ferrum_atlas.Scheduler.Recover.{
  is_event, ascending, contains, check_job, fail_interrupted, recover_jobs, JournalFile,
  read_journal, start,
}
use ferrum_atlas.Scheduler.System.{idle}
use ferrum_atlas.Scheduler.Log.{IsLogged, Rising, top, event-IsLogged}
use ferrum_atlas.Scheduler.Changes.{ids, is_queued, is_live_in, All-mono}
use ferrum_atlas.Scheduler.Bounds.{IsBounded, IsLogged-same, IsLogged-suc}
use ferrum_atlas.Scheduler.Safety.{Guarded, IsGuarded}
use ferrum_atlas.Scheduler.Serial.{Distinct, IsSerial, NotBusy}

-- What a journal entry has passed, and what the restart makes of it.
record Passed (seen : List Text) (job : JobRecord) : Type 0 where
  prefixed : starts_with job.id (codes "job:") ≡ true
  unseen : contains job.id seen ≡ false
  few : leb (length job.events) 32 ≡ true
  events : all is_event job.events ≡ true
  rising : ascending job.events ≡ true

check_job-Passed :
    (request_bytes : JobRequest → Option ℕ) (seen : List Text) (job : JobRecord)
    → check_job request_bytes seen job ≡ ok tt
    → Passed seen job
check_job-Passed request_bytes seen job h = ground arith

Rising-ascending :
    (low : ℕ) (e : JobEvent) (es : List JobEvent)
    → low < e.sequence
    → ascending (e ∷ es) ≡ true
    → Rising low (e ∷ es)
Rising-ascending low e [] h a = (h, tt)
Rising-ascending low e (f ∷ es) h a =
    (h, Rising-ascending e.sequence f es (ground arith) (ground arith))

Rising-zero : (es : List JobEvent) → all is_event es ≡ true → ascending es ≡ true → Rising 0 es
Rising-zero [] h a = tt
Rising-zero (e ∷ es) h a = Rising-ascending 0 e es (ground arith) a

top-le : (es : List JobEvent) → all is_event es ≡ true → top es ≤ 999999
top-le [] h = omega arith
top-le (e ∷ []) h = ground arith
top-le (e ∷ f ∷ es) h = top-le (f ∷ es) (ground arith)

Passed-IsLogged : (seen : List Text) (job : JobRecord) → Passed seen job → IsLogged 999999 job
Passed-IsLogged seen job p = record {
  few = leb→le _ _ p.few;
  rising = Rising-zero job.events p.events p.rising;
  reached = top-le job.events p.events;
}

-- A job after the restart.
pub record IsSettled (j : JobRecord) : Type 0 where
  pub done : terminal j.status ≡ true
  pub prefixed : starts_with j.id (codes "job:") ≡ true
  pub logged : IsLogged 1000000 j

fail_interrupted-IsSettled :
    (now : Text) (seen : List Text) (job : JobRecord)
    → Passed seen job
    → IsSettled (fail_interrupted now job)
unfolding fail_interrupted
fail_interrupted-IsSettled now seen job p = elim (Bool-cases (terminal job.status)) [
  | inl over ↦
      rw (over, fail_interrupted)
        (record {
          done = over;
          prefixed = p.prefixed;
          logged = IsLogged-suc 999999 job (Passed-IsLogged seen job p);
        })
  | inr going ↦
      rw (going, fail_interrupted)
        (record {
          done = unfold event in refl;
          prefixed = unfold event in p.prefixed;
          logged =
              event-IsLogged now _ 999999 _ (omega arith)
                (IsLogged-same 999999 job _ refl (Passed-IsLogged seen job p));
        })
]

fail_interrupted-id : (now : Text) (job : JobRecord) → (fail_interrupted now job).id ≡ job.id
unfolding fail_interrupted event
fail_interrupted-id now job = ground arith

recover_cons :
    (io : Io) (n : ℕ) (seen : List Text) (job : JobRecord) (jobs recovered : List JobRecord)
    → recover_jobs io n seen (job ∷ jobs) ≡ ok recovered
    → (rest : List JobRecord) × (check_job io.request_bytes seen job ≡ ok tt)
      × (recover_jobs io (suc n) (job.id ∷ seen) jobs ≡ ok rest)
      × (recovered ≡ fail_interrupted (io.stamp n) job ∷ rest)
unfolding recover_jobs
recover_cons io n seen job jobs recovered h = ground arith

record Recovers (seen : List Text) (jobs recovered : List JobRecord) : Type 0 where
  settled : All IsSettled recovered
  same_ids : ids recovered ≡ ids jobs
  unseen : All (λ a. contains a seen ≡ false) (ids jobs)
  distinct : Distinct (ids jobs)

later_unseen :
    (seen : List Text) (id : Text) (news : List Text)
    → All (λ a. contains a (id ∷ seen) ≡ false) news
    → All (λ a. contains a seen ≡ false) news × All (λ a. a ≢ id) news
later_unseen seen id [] h = (tt, tt)
later_unseen seen id (a ∷ news) h =
    let (old, other) = later_unseen seen id news h.1 in
    ((ground arith, old), (λ e. ground arith, other))

recover_jobs-Recovers :
    (io : Io) (n : ℕ) (seen : List Text) (jobs recovered : List JobRecord)
    → recover_jobs io n seen jobs ≡ ok recovered
    → Recovers seen jobs recovered
unfolding recover_jobs
recover_jobs-Recovers io n seen [] recovered h =
    let none_left : recovered ≡ [] = ground arith in
    rw none_left (record { settled = tt; same_ids = refl; unseen = tt; distinct = tt })
recover_jobs-Recovers io n seen (job ∷ jobs) recovered h =
    let (rest, checked, recovers, e) = recover_cons io n seen job jobs recovered h in
    let ih = recover_jobs-Recovers io (suc n) (job.id ∷ seen) jobs rest recovers in
    let p = check_job-Passed io.request_bytes seen job checked in
    let (old, other) = later_unseen seen job.id (ids jobs) ih.unseen in
    rw e (record {
      settled = (fail_interrupted-IsSettled (io.stamp n) seen job p, ih.settled);
      same_ids = ground (arith, fail_interrupted-id (io.stamp n) job, ih.same_ids);
      unseen = (p.unseen, old);
      distinct = (other, ih.distinct);
    })

count-settled :
    (q : JobRecord → Bool)
    → ((j : JobRecord) → terminal j.status ≡ true → q j ≡ false)
    → (jobs : List JobRecord) → All IsSettled jobs
    → count_if q jobs ≡ 0
count-settled q never [] h = refl
count-settled q never (j ∷ js) h = ground (arith, never j h.0.done, count-settled q never js h.1)

read_journal-fits :
    (file : Option JournalFile) (jobs : List JobRecord)
    → read_journal file ≡ ok jobs
    → length jobs ≤ max_history
read_journal-fits none jobs h = ground arith
read_journal-fits (some file) jobs h = ground arith

start_cases :
    (io : Io) (lease_free : Bool) (config : SchedulerConfig) (file : Option JournalFile)
    (fences : Fences) (s : Inner)
    → start io lease_free config file fences ≡ ok s
    → (journal : List JobRecord) × (read_journal file ≡ ok journal)
      × (recover_jobs io 0 [] journal ≡ ok s.jobs)
      × (s.journal ≡ s.jobs)
      × (s.stop ≡ false)
unfolding start persist
start_cases io lease_free config file fences s h = ground arith

Guarded-settled : (fences : Fences) (j : JobRecord) → IsSettled j → Guarded fences j
Guarded-settled fences j h = (h.prefixed, λ e f. ground (arith, h.done))

NotBusy-settled : (j : JobRecord) → IsSettled j → NotBusy j
NotBusy-settled j h = ground (arith, h.done)

-- Everything that the later steps rely on.
pub record IsReady (config : SchedulerConfig) (s : Inner) : Type 0 where
  pub settled : All IsSettled s.jobs
  pub bounded : IsBounded config 1000000 s.jobs
  pub guarded : IsGuarded s
  pub serial : IsSerial idle s.jobs
  pub saved : s.journal ≡ s.jobs

-- A scheduler that starts, from whatever journal it accepts, has every job finished, its journal equal
-- to its memory, and all the bounds and invariants that the steps keep.
pub start-IsReady :
    (io : Io) (lease_free : Bool) (config : SchedulerConfig) (file : Option JournalFile)
    (fences : Fences) (s : Inner)
    → start io lease_free config file fences ≡ ok s
    → IsReady config s
start-IsReady io lease_free config file fences s h =
    let (journal, read, recovers, saved, running) =
      start_cases io lease_free config file fences s h in
    let r = recover_jobs-Recovers io 0 [] journal s.jobs recovers in
    record {
      settled = r.settled;
      bounded = record {
        history = omega (
          arith,
          read_journal-fits file journal read,
          length-map s.jobs (λ (j : JobRecord). j.id),
          length-map journal (λ (j : JobRecord). j.id),
          ap length r.same_ids,
        );
        queue = omega (arith, count-settled is_queued (λ j e. ground arith) s.jobs r.settled);
        single =
            λ p. omega (arith, count-settled (is_live_in p) (λ j e. ground arith) s.jobs r.settled);
        logged = All-mono (λ j q. q.logged) s.jobs r.settled;
      };
      guarded = All-mono (Guarded-settled s.fences) s.jobs r.settled;
      serial = record {
        distinct = rw r.same_ids r.distinct;
        serves = All-mono NotBusy-settled s.jobs r.settled;
      };
      saved = saved;
    }
