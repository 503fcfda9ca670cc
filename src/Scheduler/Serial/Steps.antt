-- ===== src/Scheduler/Serial/Steps.antt =====
-- The steps of the worker keep the jobs serial, and so does every run.
use ferrum_atlas.Prelude.{
  List, [], ◌∷◌, ◌≡◌, ◌≢◌, ◌∙◌, refl, inl, inr, Bool, true, false, ◌==◌, Option, none, some, Result,
  ok, err, arith, find, Bool-cases, if◌then◌else◌,
}
use ferrum_atlas.Prelude.Text.{Text, text_eq}
use ferrum_atlas.Model.{JobRecord, JobStage, running, job_status_eq}
use ferrum_atlas.Scheduler.Config.{SchedulerConfig, Error, unavailable}
use ferrum_atlas.Scheduler.State.{Io, Inner, WriteOutcome}
use ferrum_atlas.Scheduler.Events.{event}
use ferrum_atlas.Scheduler.Cancel.{has_id, change_first, update, lock}
use ferrum_atlas.Scheduler.Worker.{
  start_job, finish_job, Outcome, Poll, Verdict, goes_on, ends, records, pick, pick_from,
  picked_job, poll,
}
use ferrum_atlas.Scheduler.Changes.{ids, All-change_first, All-mono, ids-change_first}
use ferrum_atlas.Scheduler.Rules.{update_cases}
use ferrum_atlas.Scheduler.Safety.{AllFresh, IsFresh, All-change_found}
use ferrum_atlas.Scheduler.System.{
  Phase, idle, exited, starting, executing, recording, finishing, System, Call, submits, cancels,
  works, shuts_down, step, run, work, after_pick, after_start, after_poll, after_record,
  after_finish,
}
use ferrum_atlas.Scheduler.Serial.{
  Distinct, NotBusy, OnlyBusy, IsSerial, All-ends, submit-IsSerial, cancel-IsSerial, event-IsSerial,
}

OnlyBusy-quiet : (id : Text) (j : JobRecord) → NotBusy j → OnlyBusy id j
OnlyBusy-quiet id j h busy = ground arith

abbrev SerialAt : System → Type 0
SerialAt x = IsSerial x.phase x.inner.jobs

start_job-busy :
    (now : Text) (j : JobRecord)
    → NotBusy j
    → (start_job now j).status ≢ running
    → NotBusy (start_job now j)
unfolding start_job event
start_job-busy now j h e = ground arith

start_job-id : (now : Text) (j : JobRecord) → (start_job now j).id ≡ j.id
unfolding start_job event
start_job-id now j = ground arith

start_first-IsSerial :
    (now id : Text) (jobs : List JobRecord) (job : JobRecord)
    → find (has_id id) jobs ≡ some job
    → IsSerial (starting id) jobs
    → IsSerial
        (if (start_job now job).status == running then executing id JobStage.capture else idle)
        (change_first (start_job now) id jobs)
start_first-IsSerial now id jobs job found h =
    elim (Bool-cases ((start_job now job).status == running)) [
      | inl runs ↦ rw runs (record {
        distinct = distinct;
        serves =
            All-change_first NotBusy (OnlyBusy id) (start_job now) id (OnlyBusy-quiet id)
              (λ j quiet it busy. start_job-id now j ∙ it) jobs h.serves;
      })
      | inr stays ↦ rw stays (record {
        distinct = distinct;
        serves =
            All-change_found NotBusy NotBusy (start_job now) id job (λ j q. q)
              (λ q. start_job-busy now job q (ground arith)) jobs found h.serves;
      })
    ]
  where
    distinct : Distinct (ids (change_first (start_job now) id jobs))
    distinct = rw (ids-change_first (start_job now) id (start_job-id now) jobs) h.distinct

start-IsSerial :
    (w : WriteOutcome) (now id : Text) (s : Inner)
    → IsSerial (starting id) s.jobs
    → SerialAt (after_start id (update w id (start_job now) s))
start-IsSerial w now id s h = elim (update_cases w id (start_job now) s) [
  | inl (e, t, fails, same) ↦
      rw (fails, same)
        (record {
          distinct = h.distinct;
          serves = (id, All-mono (OnlyBusy-quiet id) s.jobs h.serves);
        })
  | inr (job, t, found, done, changed) ↦
      rw (done, changed) (start_first-IsSerial now id s.jobs job found h)
]

finish_job-NotBusy :
    (now : Text) (outcome : Outcome) (stop : Bool) (j : JobRecord)
    → NotBusy (finish_job now outcome stop j)
unfolding finish_job event
finish_job-NotBusy now (some snapshot) stop j = ground arith
finish_job-NotBusy now none stop j = ground arith

finish_job-id :
    (now : Text) (outcome : Outcome) (stop : Bool) (j : JobRecord)
    → (finish_job now outcome stop j).id ≡ j.id
unfolding finish_job event
finish_job-id now (some snapshot) stop j = refl
finish_job-id now none stop j = ground arith

finish-IsSerial :
    (w : WriteOutcome) (now id : Text) (outcome : Outcome) (stop : Bool) (s : Inner)
    → IsSerial (finishing id outcome) s.jobs
    → SerialAt (after_finish (update w id (finish_job now outcome stop) s))
finish-IsSerial w now id outcome stop s h =
    elim (update_cases w id (finish_job now outcome stop) s) [
      | inl (e, t, fails, same) ↦
          rw (fails, same) (record { distinct = h.distinct; serves = (id, h.serves) })
      | inr (job, t, found, done, changed) ↦
          rw (done, changed)
            (record {
              distinct =
                  rw
                    (ids-change_first (finish_job now outcome stop) id
                      (finish_job-id now outcome stop) s.jobs)
                    h.distinct;
              serves =
                  All-ends (finish_job now outcome stop) id (finish_job-NotBusy now outcome stop)
                    s.jobs h.distinct job found h.serves;
            })
    ]

-- While the worker has a job in hand, how far it got does not matter.
after_poll-IsSerial :
    (id : Text) (last : JobStage) (v : Verdict) (jobs : List JobRecord)
    → IsSerial (executing id last) jobs
    → IsSerial (after_poll id last v) jobs
after_poll-IsSerial id last goes_on jobs h = h
after_poll-IsSerial id last (ends outcome) jobs h = record {
  distinct = h.distinct;
  serves = h.serves;
}
after_poll-IsSerial id last (records seen) jobs h = record {
  distinct = h.distinct;
  serves = h.serves;
}

after_record-IsSerial :
    (id : Text) (seen : JobStage) (r : Result Error JobRecord × Inner)
    → IsSerial (recording id seen) r.1.jobs
    → SerialAt (after_record id seen r)
after_record-IsSerial id seen (ok job, s) h = record { distinct = h.distinct; serves = h.serves }
after_record-IsSerial id seen (err e, s) h = record { distinct = h.distinct; serves = h.serves }

after_pick-IsSerial :
    (r : Result Error (Option JobRecord)) (s : Inner)
    → IsSerial idle s.jobs
    → SerialAt (after_pick (r, s))
after_pick-IsSerial (ok none) s h = h
after_pick-IsSerial (ok (some job)) s h = record { distinct = h.distinct; serves = h.serves }
after_pick-IsSerial (err e) s h = record {
  distinct = h.distinct;
  serves = ([], All-mono (OnlyBusy-quiet []) s.jobs h.serves);
}

gone-IsSerial : (jobs : List JobRecord) → IsSerial idle jobs → IsSerial exited jobs
gone-IsSerial jobs h = record {
  distinct = h.distinct;
  serves = ([], All-mono (OnlyBusy-quiet []) jobs h.serves);
}

work-IsSerial :
    (io : Io) (config : SchedulerConfig) (p : Poll) (phase : Phase) (s : Inner)
    → IsSerial phase s.jobs
    → SerialAt (work io config p phase s)
unfolding work pick
work-IsSerial io config p idle s h = elim (Bool-cases s.stop) [
  | inl stops ↦ rw (stops, work) (gone-IsSerial s.jobs h)
  | inr goes ↦
      rw (goes, work)
        (elim (Bool-cases s.poisoned) [
          | inl broken ↦
              rw (broken, pick, lock)
                (after_pick-IsSerial (err unavailable) (record s { stop = false; poisoned = true })
                  h)
          | inr sound ↦
              rw (sound, pick, lock)
                (after_pick-IsSerial (ok (picked_job (pick_from 0 s.jobs)))
                  (record s { stop = false; poisoned = false }) h)
        ])
]
work-IsSerial io config p exited s h = h
work-IsSerial io config p (starting id) s h = start-IsSerial io.journal_write (io.stamp 0) id s h
work-IsSerial io config p (executing id last) s h =
    after_poll-IsSerial id last (poll config id p last s) s.jobs h
work-IsSerial io config p (recording id seen) s h =
    after_record-IsSerial id seen (update io.journal_write id (event (io.stamp 0) seen) s)
      (event-IsSerial io.journal_write (io.stamp 0) seen id (recording id seen) s h)
work-IsSerial io config p (finishing id outcome) s h =
    finish-IsSerial io.journal_write (io.stamp 0) id outcome s.stop s h

step-IsSerial :
    (config : SchedulerConfig) (io : Io) (c : Call) (x : System)
    → IsFresh io x.inner.jobs
    → SerialAt x
    → SerialAt (step config (io, c) x)
unfolding step
step-IsSerial config io (submits request) x fresh h =
    submit-IsSerial io config request x.phase x.inner fresh h
step-IsSerial config io (cancels id) x fresh h = cancel-IsSerial io id x.phase x.inner h
step-IsSerial config io (works p) x fresh h = work-IsSerial io config p x.phase x.inner h
step-IsSerial config io shuts_down x fresh h = h

-- From a state with distinct identities in which only the worker's job is running or about to stop,
-- every interleaving leads to such a state, if no random identity is drawn that is in use.
pub run-IsSerial :
    (config : SchedulerConfig) (calls : List (Io × Call)) (x : System)
    → AllFresh config calls x
    → IsSerial x.phase x.inner.jobs
    → IsSerial (run config calls x).phase (run config calls x).inner.jobs
unfolding run
run-IsSerial config [] x fresh h = h
run-IsSerial config ((io, c) ∷ cs) x fresh h =
    run-IsSerial config cs (step config (io, c) x) fresh.1 (step-IsSerial config io c x fresh.0 h)
