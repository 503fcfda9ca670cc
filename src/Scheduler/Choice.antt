-- ===== src/Scheduler/Choice.antt =====
-- Which job `next_job` starts: the first of the most urgent ones.
use ferrum_atlas.Prelude.{
  ℕ, zero, suc, ◌+◌, ◌-◌, ◌≤◌, ◌<◌, List, [], ◌∷◌, ◌≡◌, refl, ◌⊎◌, inl, inr, false, Option, none,
  some, arith, nat_eq, if◌then◌else◌, Bool-cases, get_elem?,
}
use ferrum_atlas.Model.{JobRecord, queued, job_status_eq, rank}
use ferrum_atlas.Scheduler.Worker.{key_lt, min_key, pick_from}
use ferrum_atlas.Scheduler.Changes.{is_queued}

-- `a` at index `i` goes before `b` at index `j`, or is it.
abbrev pub Precedes : JobRecord → ℕ → JobRecord → ℕ → Type 0
Precedes a i b j =
    (rank a.request.priority < rank b.request.priority)
    ⊎ ((rank a.request.priority ≡ rank b.request.priority) × (i ≤ j))

abbrev Chosen : ℕ → List JobRecord → Option (JobRecord × ℕ) → Type 0
Chosen i jobs none = (m : ℕ) (q : JobRecord) → get_elem? jobs m ≡ some q → is_queued q ≡ false
Chosen i jobs (some (job, k)) =
    (i ≤ k)
    × (get_elem? jobs (k - i) ≡ some job)
    × (job.status ≡ queued)
    × ((m : ℕ) (q : JobRecord)
        → get_elem? jobs m ≡ some q
        → q.status ≡ queued
        → Precedes job k q (i + m))

-- The element before the others is not chosen.
Chosen-skip :
    (i : ℕ) (j : JobRecord) (js : List JobRecord) (r : Option (JobRecord × ℕ))
    → ((job : JobRecord) (k : ℕ) → r ≡ some (job, k) → j.status ≡ queued → Precedes job k j i)
    → (r ≡ none → is_queued j ≡ false)
    → Chosen (suc i) js r
    → Chosen i (j ∷ js) r
Chosen-skip i j js none before waits c = go
  where
    go : (m : ℕ) (q : JobRecord) → get_elem? (j ∷ js) m ≡ some q → is_queued q ≡ false
    go zero q e = ground (arith, waits refl)
    go (suc m) q e = c m q e
Chosen-skip i j js (some (job, k)) before waits (low, at, status, first) =
    (omega arith, there, status, go)
  where
    there : get_elem? (j ∷ js) (k - i) ≡ some job
    there = let e : k - i ≡ suc (k - suc i) = omega arith in rw e at

    go :
        (m : ℕ) (q : JobRecord)
        → get_elem? (j ∷ js) m ≡ some q
        → q.status ≡ queued
        → Precedes job k q (i + m)
    go zero q e w = ground (arith, before job k refl)
    go (suc m) q e w = ground (arith, first m q e w)

-- The element before the others is chosen.
Chosen-take :
    (i : ℕ) (j : JobRecord) (js : List JobRecord)
    → j.status ≡ queued
    → ((m : ℕ) (q : JobRecord)
        → get_elem? js m ≡ some q
        → q.status ≡ queued
        → Precedes j i q (suc i + m))
    → Chosen i (j ∷ js) (some (j, i))
Chosen-take i j js status first = (omega arith, there, status, go)
  where
    there : get_elem? (j ∷ js) (i - i) ≡ some j
    there = let e : i - i ≡ 0 = omega arith in rw e

    go :
        (m : ℕ) (q : JobRecord)
        → get_elem? (j ∷ js) m ≡ some q
        → q.status ≡ queued
        → Precedes j i q (i + m)
    go zero q e w = ground arith
    go (suc m) q e w = ground (arith, first m q e w)

Chosen-cons :
    (i : ℕ) (j : JobRecord) (js : List JobRecord) (r : Option (JobRecord × ℕ))
    → Chosen (suc i) js r
    → Chosen i (j ∷ js) (if is_queued j then some (min_key (j, i) r) else r)
Chosen-cons i j js none c = elim (Bool-cases (is_queued j)) [
  | inr idle ↦ rw idle (Chosen-skip i j js none (λ job k e. cc) (λ _. idle) c)
  | inl waits ↦ rw waits (Chosen-take i j js (ground arith) (λ m q e w. ground (arith, c m q e)))
]
Chosen-cons i j js (some (job, k)) c = elim (Bool-cases (is_queued j)) [
  | inr idle ↦
      rw idle (Chosen-skip i j js (some (job, k)) (λ job' k' e w. ground arith) (λ e. cc) c)
  | inl waits ↦ elim (Bool-cases (key_lt (job, k) (j, i))) [
    | inl less ↦
        rw (waits, less)
          (Chosen-skip i j js (some (job, k)) (λ job' k' e w. ground arith) (λ e. cc) c)
    | inr first ↦
        rw (waits, first)
          (Chosen-take i j js (ground arith) (λ m q e w. ground (arith, c.3 m q e w)))
  ]
]

pick_from-Chosen : (i : ℕ) (jobs : List JobRecord) → Chosen i jobs (pick_from i jobs)
unfolding pick_from
pick_from-Chosen i [] = λ m q e. cc
pick_from-Chosen i (j ∷ js) =
    Chosen-cons i j js (pick_from (suc i) js) (pick_from-Chosen (suc i) js)

-- While any job is queued `next_job` finds one: a queued job of the list that precedes every queued
-- job, by its priority and then by its place.
pub next_job_first :
    (jobs : List JobRecord) (m : ℕ) (q : JobRecord)
    → get_elem? jobs m ≡ some q
    → q.status ≡ queued
    → (job : JobRecord) × (k : ℕ) × (pick_from 0 jobs ≡ some (job, k))
      × (get_elem? jobs k ≡ some job)
      × (job.status ≡ queued)
      × Precedes job k q m
next_job_first jobs m q at waits = go (pick_from 0 jobs) refl (pick_from-Chosen 0 jobs)
  where
    go :
        (r : Option (JobRecord × ℕ))
        → pick_from 0 jobs ≡ r
        → Chosen 0 jobs r
        → (job : JobRecord) × (k : ℕ) × (pick_from 0 jobs ≡ some (job, k))
          × (get_elem? jobs k ≡ some job)
          × (job.status ≡ queued)
          × Precedes job k q m
    go none e c = absurd (ground (arith, c m q at))
    go (some (job, k)) e c =
        let whole : k - 0 ≡ k = omega arith in
        (job, k, e, rw whole at c.1, c.2, ground (arith, c.3 m q at waits))
