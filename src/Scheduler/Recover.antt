-- ===== src/Scheduler/Recover.antt =====
-- crates/scheduler/src/lib.rs: `Scheduler::start`, which validates the journal and fails the jobs
-- that a restart interrupted.
use ferrum_atlas.Prelude.{
  ℕ, suc, List, [], ◌∷◌, Bool, true, false, not, ◌&&◌, Option, none, some, Result, ok, bind, ensure,
  ok_or, length, all, any, ltb, leb, ◌==◌, nat_eq, if◌then◌else◌,
}
use ferrum_atlas.Prelude.Text.{Text, text_eq, codes, starts_with}
use ferrum_atlas.Prelude.Words.{u64_max}
use ferrum_atlas.Prelude.Decimal.{parse_unsigned}
use ferrum_atlas.Model.{JobRequest, JobRecord, JobEvent, JobStage, failed, terminal}
use ferrum_atlas.Scheduler.Config.{
  SchedulerConfig, Error, validate, unavailable, journal_too_large, incompatible_journal,
  invalid_identity, invalid_metadata, invalid_events, serialization,
}
use ferrum_atlas.Scheduler.Request.{validate_request}
use ferrum_atlas.Scheduler.State.{Io, Inner, Fences, persist}
use ferrum_atlas.Scheduler.Events.{event, max_history, max_events}

abbrev pub is_some : Option ℕ → Bool
is_some none = false
is_some (some n) = true

abbrev pub is_u64 : Text → Bool
is_u64 text = is_some (parse_unsigned u64_max text)

abbrev pub contains : Text → List Text → Bool
contains id = any (λ seen. seen == id)

abbrev pub message_fits : Option Text → Bool
message_fits none = true
message_fits (some message) = leb (length message) 4096

abbrev pub is_event : JobEvent → Bool
is_event e = ltb 0 e.sequence && ltb e.sequence 1000000 && is_u64 e.timestamp_ms

-- `windows(2)`.
abbrev pub ascending : List JobEvent → Bool
ascending [] = true
ascending (a ∷ []) = true
ascending (a ∷ b ∷ es) = ltb a.sequence b.sequence && ascending (b ∷ es)

abbrev restart_message : Text
restart_message =
    codes "Service restarted before job completion; inspect the published head before retrying."

unfoldable pub fail_interrupted : Text → JobRecord → JobRecord
fail_interrupted now job =
    if terminal job.status
    then job
    else event now JobStage.finished
        (record job { status = failed; message = some restart_message })

abbrev pub check_job : (JobRequest → Option ℕ) → List Text → JobRecord → Result Error (Unit {0})
check_job request_bytes ids job = bind (validate_request request_bytes job.request) λ _.
    bind
      (ensure
        (starts_with job.id (codes "job:") && leb (length job.id) 160 && not (contains job.id ids))
        invalid_identity)
      λ _. bind (ensure (is_u64 job.created_ms && message_fits job.message) invalid_metadata) λ _.
        ensure
          (leb (length job.events) max_events && all is_event job.events && ascending job.events)
          invalid_events

-- The loop over the journal; `ids` holds the identities seen, `n` numbers the readings of the clock.
unfoldable pub recover_jobs : Io → ℕ → List Text → List JobRecord → Result Error (List JobRecord)
unfolding fail_interrupted
recover_jobs io n ids [] = ok []
recover_jobs io n ids (job ∷ jobs) =
    let rest = recover_jobs io (suc n) (job.id ∷ ids) jobs in
    bind (check_job io.request_bytes ids job)
      λ _. bind rest λ recovered. ok (fail_interrupted (io.stamp n) job ∷ recovered)

-- `journal.json`: its length, and its version and jobs if it can be read as a `Journal`.
pub record JournalFile : Type 0 where
  pub bytes : ℕ
  pub parsed : Option (ℕ × List JobRecord)

abbrev pub compatible : ℕ × List JobRecord → Result Error (List JobRecord)
compatible (version, jobs) =
    bind (ensure (version == 1 && leb (length jobs) max_history) incompatible_journal) λ _. ok jobs

abbrev pub read_journal : Option JournalFile → Result Error (List JobRecord)
read_journal none = ok []
read_journal (some file) =
    bind (ensure (leb file.bytes 8388608) journal_too_large)
      λ _. bind (ok_or file.parsed serialization) compatible

-- `lease_free`: nobody else holds `scheduler.lock`. `fences` are the files that are there.
unfoldable pub start :
    Io → Bool → SchedulerConfig → Option JournalFile → Fences → Result Error Inner
unfolding recover_jobs
start io lease_free config file fences = bind (validate config) λ _.
    bind (ensure lease_free unavailable) λ _. bind (read_journal file) λ journal.
      bind (recover_jobs io 0 [] journal) λ jobs.
        let fresh : Inner = record {
          jobs = jobs;
          stop = false;
          poisoned = false;
          journal = journal;
          fences = fences;
        } in
        let (written, s) = persist io.journal_write jobs fresh in bind written λ _. ok s
