-- ===== src/Scheduler/Tests.antt =====
-- Runs of the scheduler (crates/scheduler/src/lib.rs) on small inputs.
use ferrum_atlas.Prelude.{
  ℕ, zero, suc, ◌<◌, List, [], ◌∷◌, ◌++◌, keep_if, ◌≡◌, ◌≢◌, refl, true, false, none, some, ok,
  arith, length, count_if, get_elem?, ℕ_discrete, find,
}
use ferrum_atlas.Prelude.Text.{Text, codes, Text-discrete}
use ferrum_atlas.Prelude.Decimal.{parse_unsigned}
use ferrum_atlas.Prelude.Hex.{hex}
use ferrum_atlas.Prelude.Words.{saturating_add}
use ferrum_atlas.Model.{
  JobRequest, JobRequest-discrete, JobRecord, JobEvent, JobLevel, JobPriority, JobStage, JobStatus,
  JobStatus-discrete, queued, running, cancelling, cancelled, succeeded,
}
use ferrum_atlas.Scheduler.Config.{default_config, validate}
use ferrum_atlas.Scheduler.Request.{validate_request, is_profile}
use ferrum_atlas.Scheduler.State.{Io, Inner, written, unchanged, commit, persist, write_fence}
use ferrum_atlas.Scheduler.Events.{event}
use ferrum_atlas.Scheduler.Submit.{
  submit, submit_locked, evict, enqueue, supersede, evict_loop, new_job,
}
use ferrum_atlas.Scheduler.Cancel.{
  cancel_locked, cancel, update, is_cancelled, change_first, lock, publication_guard, get_job,
  cancel_live, stop_job, has_id, is_stopped,
}
use ferrum_atlas.Scheduler.Worker.{
  Poll, still_running, pick, pick_from, start_job, poll, Progress, JobStage-discrete,
}
use ferrum_atlas.Scheduler.System.{System, idle, Call, submits, cancels, works, run}
use ferrum_atlas.Scheduler.Safety.{AllFresh, run_guards, submit_takes_over}
use ferrum_atlas.Scheduler.Recover.{JournalFile, start, recover_jobs, fail_interrupted}
use ferrum_atlas.Scheduler.Restart.{IsReady, start-IsReady}
use ferrum_atlas.Scheduler.Serial.{IsSerial}
use ferrum_atlas.Scheduler.Serial.Steps.{run-IsSerial}
use ferrum_atlas.Scheduler.Bounds.{IsBounded}
use ferrum_atlas.Scheduler.Traces.{run-IsBounded}
use ferrum_atlas.Scheduler.Choice.{Precedes, next_job_first}
use ferrum_atlas.Scheduler.Eviction.{is_active, evict_makes_room}
use ferrum_atlas.Scheduler.Rules.{admitted_job}
use ferrum_atlas.Scheduler.Outcomes.{IsServed, submit_admits, cancel_stops}
use ferrum_atlas.Scheduler.Atomicity.{IsAtomic, calls-IsAtomic}

abbrev request : JobRequest
request = record {
  profile = codes "dev";
  level = JobLevel.semantic;
  priority = JobPriority.workspace;
  context = none;
}

-- A machine that does what it is asked.
abbrev io : Io
io = record {
  stamp = λ n. codes "7";
  fence_free = true;
  fence_write = written;
  journal_write = written;
  entropy = some (1 ∷ 2 ∷ []);
  request_bytes = λ r. some 64;
}

abbrev no_entropy : Io
no_entropy = record io { entropy = none }

abbrev event_of : ℕ → JobStage → JobStatus → JobEvent
event_of n stage status = record {
  sequence = n;
  timestamp_ms = codes "7";
  stage = stage;
  status = status;
}

abbrev empty : System
empty = record {
  inner = record { jobs = []; stop = false; poisoned = false; journal = []; fences = λ p. none };
  phase = idle;
}

abbrev waiting : Poll
waiting = record {
  wait = still_running;
  output_bytes = some 0;
  snapshot = none;
  elapsed_ms = 5;
  progress = Progress.stage JobStage.syntax;
}

abbrev calls : List (Io × Call)
calls =
    (io, submits request)
    ∷ (no_entropy, works waiting)
    ∷ (no_entropy, works waiting)
    ∷ (no_entropy, works waiting)
    ∷ (no_entropy, cancels (codes "job:0102"))
    ∷ (no_entropy, works waiting)
    ∷ []

after_calls : System
unfolding run submit_locked supersede evict_loop event hex saturating_add pick pick_from start_job
    poll update change_first is_cancelled cancel_locked commit persist ℕ_discrete Text-discrete
    JobRequest-discrete JobStatus-discrete JobStage-discrete default_config evict enqueue
after_calls = run default_config calls empty

-- The job after it was submitted, started and polled, and then cancelled before the stage that the
-- poll saw was recorded.
abbrev stopping_job : JobRecord
stopping_job = record {
  id = codes "job:0102";
  request = request;
  status = cancelling;
  created_ms = codes "7";
  snapshot_id = none;
  message = none;
  events =
      event_of 1 JobStage.queued queued
      ∷ event_of 2 JobStage.capture running
      ∷ event_of 3 JobStage.queued cancelling
      ∷ event_of 4 JobStage.syntax cancelling
      ∷ [];
}

after_calls-jobs : after_calls.inner.jobs ≡ stopping_job ∷ []
unfolding after_calls
after_calls-jobs = refl

calls_fresh : AllFresh default_config calls empty
calls_fresh = (
  λ bytes e. tt,
  (λ bytes e. cc, (λ bytes e. cc, (λ bytes e. cc, (λ bytes e. cc, (λ bytes e. cc, tt))))),
)

run_guards_example :
    publication_guard io (codes "dev") (codes "job:0102") (run default_config calls empty).inner
    ≢ ok tt
unfolding after_calls
run_guards_example =
    run_guards default_config calls empty io 0 stopping_job calls_fresh tt refl refl

run-IsSerial_example :
    IsSerial (run default_config calls empty).phase (run default_config calls empty).inner.jobs
run-IsSerial_example =
    run-IsSerial default_config calls empty calls_fresh (record { distinct = tt; serves = tt })

run-IsBounded_example : IsBounded default_config 6 (run default_config calls empty).inner.jobs
unfolding default_config
run-IsBounded_example =
    run-IsBounded default_config calls 0 empty (omega arith) (record {
      history = omega arith;
      queue = omega arith;
      single = λ p. omega arith;
      logged = tt;
    })

-- A journal with a job that a crash interrupted, and how it is read.
abbrev journal_file : JournalFile
journal_file = record { bytes = 400; parsed = some (1, stopping_job ∷ []) }

abbrev failed_job : JobRecord
unfolding fail_interrupted event
failed_job = fail_interrupted (codes "7") stopping_job

abbrev restarted : Inner
restarted = record {
  jobs = failed_job ∷ [];
  stop = false;
  poisoned = false;
  journal = failed_job ∷ [];
  fences = λ p. none;
}

start-restarted : start io true default_config (some journal_file) (λ p. none) ≡ ok restarted
unfolding start recover_jobs fail_interrupted event validate validate_request is_profile
    parse_unsigned persist saturating_add default_config Text-discrete ℕ_discrete
start-restarted = refl

start-IsReady_example : IsReady default_config restarted
start-IsReady_example =
    start-IsReady io true default_config (some journal_file) (λ p. none) restarted start-restarted

abbrev waiting_job : JobPriority → Text → JobRecord
waiting_job priority id = record {
  id = id;
  request = record request { priority = priority };
  status = queued;
  created_ms = codes "7";
  snapshot_id = none;
  message = none;
  events = event_of 1 JobStage.queued queued ∷ [];
}

abbrev waiting_jobs : List JobRecord
waiting_jobs =
    waiting_job JobPriority.background (codes "job:0a")
    ∷ waiting_job JobPriority.foreground (codes "job:0b")
    ∷ []

next_job_first_example :
    (job : JobRecord) × (k : ℕ) × (pick_from 0 waiting_jobs ≡ some (job, k))
    × (get_elem? waiting_jobs k ≡ some job)
    × (job.status ≡ queued)
    × Precedes job k (waiting_job JobPriority.background (codes "job:0a")) 0
next_job_first_example =
    next_job_first waiting_jobs 0 (waiting_job JobPriority.background (codes "job:0a")) refl refl

-- One job that runs, and 127 that are finished.
abbrev finished_jobs : ℕ → List JobRecord
finished_jobs zero = record stopping_job { status = running } ∷ []
finished_jobs (suc n) = record stopping_job { status = succeeded } ∷ finished_jobs n

few_active : count_if is_active (finished_jobs 127) < 128
unfolding JobStatus-discrete
few_active = omega arith

evict_makes_room_example :
    (kept : List JobRecord) × (evict (finished_jobs 127) ≡ ok kept)
    × (length kept < 128)
    × (keep_if is_active kept ≡ keep_if is_active (finished_jobs 127))
evict_makes_room_example = evict_makes_room (finished_jobs 127) few_active

abbrev io_served : IsServed io request empty.inner
unfolding validate_request is_profile ℕ_discrete Text-discrete
io_served = record {
  valid = refl;
  on = refl;
  sound = refl;
  locked = refl;
  fenced = refl;
  journalled = refl;
}

submit_admits_example :
    let job = admitted_job io request [] (1 ∷ 2 ∷ []) in
    (kept : List JobRecord) × (t : Inner) × (submit io default_config request empty.inner
      ≡ (ok job, t))
    × (t.jobs ≡ kept ++ job ∷ [])
    × (t.journal ≡ t.jobs)
    × (t.fences (codes "dev") ≡ some job.id)
    × (job.status ≡ queued)
unfolding default_config
submit_admits_example =
    submit_admits io default_config request empty.inner (1 ∷ 2 ∷ []) io_served refl refl
      (omega arith) (omega arith)

abbrev one_waiting : Inner
one_waiting = record empty.inner { jobs = waiting_job JobPriority.workspace (codes "job:0a") ∷ [] }

abbrev cancelled_job : JobRecord
unfolding stop_job event
cancelled_job = stop_job (codes "7") (waiting_job JobPriority.workspace (codes "job:0a"))

cancel-waiting : (cancel io (codes "job:0a") one_waiting).0 ≡ ok cancelled_job
unfolding cancel get_job lock cancel_locked cancel_live commit write_fence persist stop_job event
    Text-discrete ℕ_discrete JobStatus-discrete saturating_add
cancel-waiting = refl

cancel_stops_example :
    (find (has_id (codes "job:0a")) (cancel io (codes "job:0a") one_waiting).1.jobs
      ≡ some cancelled_job)
    × (is_stopped cancelled_job ≡ true)
    × (cancelled_job.status ≡ cancelled)
unfolding Text-discrete ℕ_discrete JobStatus-discrete
cancel_stops_example =
    cancel_stops io (codes "job:0a") one_waiting
      (waiting_job JobPriority.workspace (codes "job:0a")) cancelled_job refl cancel-waiting

abbrev submitted : Inner
unfolding submit_locked
submitted = (submit_locked io default_config request empty.inner).1

submit-ok :
    (submit_locked io default_config request empty.inner).0
    ≡ ok (admitted_job io request [] (1 ∷ 2 ∷ []))
unfolding submit_locked enqueue supersede evict evict_loop commit write_fence persist default_config
submit-ok = refl

guard-submitted :
    publication_guard io
      (codes "dev")
      (codes "job:0102")
      (submit_locked io default_config request empty.inner).1
    ≡ ok tt
unfolding publication_guard validate_request is_profile submit_locked enqueue supersede evict
    evict_loop commit write_fence persist default_config Text-discrete ℕ_discrete new_job hex event
guard-submitted = refl

submit_takes_over_example : codes "job:0102" ≡ (admitted_job io request [] (1 ∷ 2 ∷ [])).id
submit_takes_over_example =
    submit_takes_over io io default_config request empty.inner
      (admitted_job io request [] (1 ∷ 2 ∷ [])) (codes "job:0102") refl submit-ok guard-submitted

-- The disk is full when the journal is written.
abbrev full_disk : Io
full_disk = record io { journal_write = unchanged }

calls-IsAtomic_example :
    IsAtomic one_waiting (submit full_disk default_config request one_waiting)
    × IsAtomic one_waiting (cancel full_disk (codes "job:0a") one_waiting)
    × IsAtomic one_waiting (update unchanged (codes "job:0a") (start_job (codes "7")) one_waiting)
calls-IsAtomic_example =
    calls-IsAtomic full_disk default_config request (codes "job:0a") (start_job (codes "7"))
      one_waiting
