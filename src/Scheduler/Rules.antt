-- ===== src/Scheduler/Rules.antt =====
-- One rule for each operation: what the list of jobs, and the fences, can be after it.
use ferrum_atlas.Prelude.{
  ℕ, suc, List, [], ◌∷◌, ◌++◌, ◌≡◌, refl, true, false, none, some, ok, err, arith, length, find,
  count_if, ltb, Bool-cases, Option-cases, Result-cases, inl, inr, ◌⊎◌,
}
use ferrum_atlas.Prelude.Text.{Text, codes}
use ferrum_atlas.Prelude.Hex.{hex}
use ferrum_atlas.Model.{JobRequest, JobRecord}
use ferrum_atlas.Scheduler.Config.{SchedulerConfig, Error, unavailable, unknown_job, io_failed}
use ferrum_atlas.Scheduler.State.{
  Io, Inner, WriteOutcome, written, unchanged, renamed_not_synced, commit, persist, update_fence,
}
use ferrum_atlas.Scheduler.Submit.{
  joins, waits_elsewhere, supersede, evict, new_job, enqueue, submit_locked,
}
use ferrum_atlas.Scheduler.Cancel.{
  has_id, change_first, is_stopped, stop_job, cancel_locked, update, cancelled_fence,
}

abbrev pub fresh_id : List ℕ → Text
fresh_id bytes = codes "job:" ++ hex bytes

abbrev pub admitted_job : Io → JobRequest → List JobRecord → List ℕ → JobRecord
admitted_job io request jobs bytes =
    new_job (fresh_id bytes) (io.stamp (length jobs)) (io.stamp (suc (length jobs))) request

-- What is known where `submit` admits a new job.
pub record Admits (io : Io) (config : SchedulerConfig) (request : JobRequest)
    (jobs kept : List JobRecord) (bytes : List ℕ) : Type 0 where
  pub unjoined : find (joins request) jobs ≡ none
  pub room : ltb (count_if (waits_elsewhere request.profile) jobs) config.max_queued ≡ true
  pub evicted : evict (supersede io.stamp 0 request.profile jobs) ≡ ok kept
  pub drawn : io.entropy ≡ some bytes

-- A commit stops before, between or after its three writes.
commit_rule {ℓ} :
    (P : Inner → Type ℓ) (io : Io) (profile fence : Text) (updated : List JobRecord)
    (job : JobRecord) (s : Inner)
    → P s
    → P (record s { fences = update_fence profile fence s.fences })
    → P (record s { fences = update_fence profile fence s.fences; journal = updated })
    → P (record s {
      fences = update_fence profile fence s.fences;
      journal = updated;
      jobs = updated;
    })
    → P (commit io profile fence updated job s).1
unfolding commit
commit_rule P io profile fence updated job s none_done fenced saved all_done =
    go io.fence_write io.journal_write
  where
    go :
        (f j : WriteOutcome)
        → P
            (commit
              (record io { fence_write = f; journal_write = j })
              profile
              fence
              updated
              job
              s).1
    go unchanged j = none_done
    go renamed_not_synced j = fenced
    go written unchanged = fenced
    go written renamed_not_synced = saved
    go written written = all_done

module _ (io : Io) (config : SchedulerConfig) (request : JobRequest) where
  -- The three states that an admission can leave, the last one when nothing fails.
  abbrev AfterAdmission {ℓ} : (Inner → Type ℓ) → Inner → List JobRecord → List ℕ → Type ℓ
  AfterAdmission P s kept bytes =
      let job = admitted_job io request s.jobs bytes in
      let fences = update_fence request.profile job.id s.fences in
      P (record s { fences = fences })
      × P (record s { fences = fences; journal = kept ++ job ∷ [] })
      × P (record s { fences = fences; journal = kept ++ job ∷ []; jobs = kept ++ job ∷ [] })

  enqueue_rule {ℓ} :
      (P : Inner → Type ℓ) (s : Inner)
      → find (joins request) s.jobs ≡ none
      → P s
      → ((kept : List JobRecord) (bytes : List ℕ)
          → Admits io config request s.jobs kept bytes
          → AfterAdmission P s kept bytes)
      → P (enqueue io config request s.jobs s).1
  unfolding enqueue
  enqueue_rule P s unjoined same new =
      elim (Bool-cases
        (ltb (count_if (waits_elsewhere request.profile) s.jobs) config.max_queued)) [
          | inr full ↦ rw (full, enqueue) same
          | inl room ↦ elim (Result-cases (evict (supersede io.stamp 0 request.profile s.jobs))) [
            | inr (e, bad) ↦ rw (room, bad, enqueue) same
            | inl (kept, evicted) ↦ elim (Option-cases io.entropy) [
              | inl dry ↦ rw (room, evicted, dry, enqueue) same
              | inr (bytes, drawn) ↦
                  let p = new kept bytes (record {
                    unjoined = unjoined;
                    room = room;
                    evicted = evicted;
                    drawn = drawn;
                  }) in
                  rw (room, evicted, drawn, enqueue)
                    (commit_rule P io request.profile (admitted_job io request s.jobs bytes).id
                      (kept ++ admitted_job io request s.jobs bytes ∷ [])
                      (admitted_job io request s.jobs bytes) s same p.0 p.1 p.2)
            ]
          ]
        ]

  pub submit_rule {ℓ} :
      (P : Inner → Type ℓ) (s : Inner)
      → P s
      → ((kept : List JobRecord) (bytes : List ℕ)
          → Admits io config request s.jobs kept bytes
          → AfterAdmission P s kept bytes)
      → P (submit_locked io config request s).1
  unfolding submit_locked
  submit_rule P s same new = elim (Option-cases (find (joins request) s.jobs)) [
    | inr (job, joined) ↦ ground arith
    | inl unjoined ↦ ground (arith, enqueue_rule P s unjoined same new)
  ]

-- What is known where `cancel` stops a job.
pub record Stops (id : Text) (jobs : List JobRecord) (job : JobRecord) : Type 0 where
  pub found : find (has_id id) jobs ≡ some job
  pub going : is_stopped job ≡ false

module _ (io : Io) (id : Text) where
  abbrev AfterStop {ℓ} : (Inner → Type ℓ) → Inner → JobRecord → Type ℓ
  AfterStop P s job =
      let fences = update_fence job.request.profile cancelled_fence s.fences in
      let jobs = change_first (stop_job (io.stamp 0)) id s.jobs in
      P (record s { fences = fences })
      × P (record s { fences = fences; journal = jobs })
      × P (record s { fences = fences; journal = jobs; jobs = jobs })

  pub cancel_rule {ℓ} :
      (P : Inner → Type ℓ) (s : Inner)
      → P s
      → ((job : JobRecord) → Stops id s.jobs job → AfterStop P s job)
      → P (cancel_locked io id s).1
  unfolding cancel_locked
  cancel_rule P s same stops = elim (Option-cases (find (has_id id) s.jobs)) [
    | inl missing ↦ ground arith
    | inr (job, found) ↦ elim (Bool-cases (is_stopped job)) [
      | inl stopped ↦ ground arith
      | inr going ↦
          let p = stops job (record { found = found; going = going }) in
          ground (
            arith,
            commit_rule P io job.request.profile cancelled_fence
                (change_first (stop_job (io.stamp 0)) id s.jobs) (stop_job (io.stamp 0) job) s same
                p.0 p.1 p.2,
          )
    ]
  ]

pub update_rule {ℓ} :
    (P : Inner → Type ℓ) (w : WriteOutcome) (id : Text) (change : JobRecord → JobRecord) (s : Inner)
    → P s
    → P (record s { journal = change_first change id s.jobs })
    → P (record s { journal = change_first change id s.jobs; jobs = change_first change id s.jobs })
    → P (update w id change s).1
unfolding update persist
update_rule P w id change s same saved done = ground arith

-- An update fails and leaves the jobs alone, or changes the job that it finds.
pub update_cases :
    (w : WriteOutcome) (id : Text) (change : JobRecord → JobRecord) (s : Inner)
    → ((e : Error) × (t : Inner) × (update w id change s ≡ (err e, t)) × (t.jobs ≡ s.jobs))
      ⊎ ((job : JobRecord) × (t : Inner) × (find (has_id id) s.jobs ≡ some job)
          × (update w id change s ≡ (ok (change job), t))
          × (t.jobs ≡ change_first change id s.jobs))
unfolding update persist
update_cases w id change s = elim (Bool-cases s.poisoned) [
  | inl broken ↦ inl (unavailable, s, ground arith, refl)
  | inr sound ↦ elim (Option-cases (find (has_id id) s.jobs)) [
    | inl missing ↦ inl (unknown_job, s, ground arith, refl)
    | inr (job, found) ↦ written_cases w job found sound
  ]
]
  where
    written_cases :
        (v : WriteOutcome) (job : JobRecord)
        → find (has_id id) s.jobs ≡ some job
        → s.poisoned ≡ false
        → ((e : Error) × (t : Inner) × (update v id change s ≡ (err e, t)) × (t.jobs ≡ s.jobs))
          ⊎ ((job : JobRecord) × (t : Inner) × (find (has_id id) s.jobs ≡ some job)
              × (update v id change s ≡ (ok (change job), t))
              × (t.jobs ≡ change_first change id s.jobs))
    written_cases unchanged job found sound = inl (io_failed, s, ground arith, refl)
    written_cases renamed_not_synced job found sound =
        inl (io_failed, record s { journal = change_first change id s.jobs }, ground arith, refl)
    written_cases written job found sound = inr (
      job,
      record s { journal = change_first change id s.jobs; jobs = change_first change id s.jobs },
      found,
      ground arith,
      refl,
    )
