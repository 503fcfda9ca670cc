-- ===== src/Scheduler/Changes.antt =====
-- How `submit`, `cancel` and `update` change the list of jobs, one job at a time.
use ferrum_atlas.Prelude.{
  ℕ, suc, ◌≤◌, List, [], ◌∷◌, ◌≡◌, refl, inl, inr, Bool, true, ◌&&◌, ◌||◌, arith, length, count_if,
  All, map, ==_iff, ◌==◌, if◌then◌else◌, Bool-cases,
}
use ferrum_atlas.Prelude.Text.{Text, text_eq}
use ferrum_atlas.Model.{JobRecord, queued, running, job_status_eq}
use ferrum_atlas.Scheduler.Events.{event}
use ferrum_atlas.Scheduler.Submit.{waits_elsewhere, supersede_job, supersede}
use ferrum_atlas.Scheduler.Cancel.{has_id, change_first}

abbrev pub is_queued : JobRecord → Bool
is_queued j = j.status == queued

-- Admitted, and not told to stop.
abbrev pub is_live_in : Text → JobRecord → Bool
is_live_in profile j = j.request.profile == profile && (j.status == queued || j.status == running)

abbrev pub ids : List JobRecord → List Text
ids = map λ j. j.id

pub All-mono {ℓ κ} :
    {P : JobRecord → Type ℓ} {Q : JobRecord → Type κ}
    → ((j : JobRecord) → P j → Q j)
    → (jobs : List JobRecord) → All P jobs
    → All Q jobs
All-mono f [] h = tt
All-mono f (j ∷ js) h = (f j h.0, All-mono f js h.1)

pub All-supersede {ℓ κ} :
    (P : JobRecord → Type ℓ) (Q : JobRecord → Type κ) (stamp : ℕ → Text) (profile : Text)
    → ((now : Text) (j : JobRecord) → P j → Q (supersede_job now profile j))
    → (n : ℕ) (jobs : List JobRecord) → All P jobs
    → All Q (supersede stamp n profile jobs)
unfolding supersede
All-supersede P Q stamp profile keep n [] h = tt
All-supersede P Q stamp profile keep n (j ∷ js) h =
    (keep (stamp n) j h.0, All-supersede P Q stamp profile keep (suc n) js h.1)

pub ids-supersede :
    (stamp : ℕ → Text) (n : ℕ) (profile : Text) (jobs : List JobRecord)
    → ids (supersede stamp n profile jobs) ≡ ids jobs
unfolding supersede supersede_job event
ids-supersede stamp n profile [] = refl
ids-supersede stamp n profile (j ∷ js) = ground (arith, ids-supersede stamp (suc n) profile js)

pub count_live-supersede :
    (stamp : ℕ → Text) (n : ℕ) (profile other : Text) (jobs : List JobRecord)
    → count_if (is_live_in other) (supersede stamp n profile jobs)
      ≡ (if other == profile then 0 else count_if (is_live_in other) jobs)
unfolding supersede supersede_job event
count_live-supersede stamp n profile other [] = ground arith
count_live-supersede stamp n profile other (j ∷ js) =
    ground (arith, count_live-supersede stamp (suc n) profile other js)

pub count_queued-supersede :
    (stamp : ℕ → Text) (n : ℕ) (profile : Text) (jobs : List JobRecord)
    → count_if is_queued (supersede stamp n profile jobs) ≡ count_if (waits_elsewhere profile) jobs
unfolding supersede supersede_job event
count_queued-supersede stamp n profile [] = refl
count_queued-supersede stamp n profile (j ∷ js) =
    ground (arith, count_queued-supersede stamp (suc n) profile js)

pub All-change_first {ℓ κ} :
    (P : JobRecord → Type ℓ) (Q : JobRecord → Type κ) (change : JobRecord → JobRecord) (id : Text)
    → ((j : JobRecord) → P j → Q j)
    → ((j : JobRecord) → P j → j.id ≡ id → Q (change j))
    → (jobs : List JobRecord) → All P jobs
    → All Q (change_first change id jobs)
unfolding change_first
All-change_first P Q change id same keep [] h = tt
All-change_first P Q change id same keep (j ∷ js) h = elim (Bool-cases (has_id id j)) [
  | inl hit ↦ rw (hit, change_first) (keep j h.0 ((==_iff j.id id).0 hit), All-mono same js h.1)
  | inr miss ↦ rw (miss, change_first) (same j h.0, All-change_first P Q change id same keep js h.1)
]

pub ids-change_first :
    (change : JobRecord → JobRecord) (id : Text)
    → ((j : JobRecord) → (change j).id ≡ j.id)
    → (jobs : List JobRecord) → ids (change_first change id jobs) ≡ ids jobs
unfolding change_first
ids-change_first change id same [] = refl
ids-change_first change id same (j ∷ js) =
    ground (arith, same j, ids-change_first change id same js)

pub length-change_first :
    (change : JobRecord → JobRecord) (id : Text) (jobs : List JobRecord)
    → length (change_first change id jobs) ≡ length jobs
unfolding change_first
length-change_first change id [] = refl
length-change_first change id (j ∷ js) = ground (arith, length-change_first change id js)

pub count-change_first :
    (q : JobRecord → Bool) (change : JobRecord → JobRecord) (id : Text)
    → ((j : JobRecord) → q (change j) ≡ true → q j ≡ true)
    → (jobs : List JobRecord) → count_if q (change_first change id jobs) ≤ count_if q jobs
unfolding change_first
count-change_first q change id down [] = omega arith
count-change_first q change id down (j ∷ js) =
    ground (arith, down j, count-change_first q change id down js)
