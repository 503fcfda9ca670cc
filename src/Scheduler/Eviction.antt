-- ===== src/Scheduler/Eviction.antt =====
-- The `while` loop of `submit` that makes room in the history.
use ferrum_atlas.Prelude.{
  ℕ, zero, suc, ◌+◌, ◌≤◌, ◌<◌, List, [], ◌∷◌, ◌≡◌, refl, inl, inr, Bool, not, none, some, ok, arith,
  length, count_if, position, remove, All, leb, keep_if, ◌∙◌, Bool-cases, Option-cases,
}
use ferrum_atlas.Model.{JobRecord, terminal}
use ferrum_atlas.Scheduler.Events.{max_history}
use ferrum_atlas.Scheduler.Submit.{evict_loop, evict}

abbrev is_done : JobRecord → Bool
is_done j = terminal j.status

abbrev pub is_active : JobRecord → Bool
is_active j = not (terminal j.status)

module _ {ℓ} {A : Type ℓ} (p : A → Bool) where
  pub length-remove :
      (xs : List A) (i : ℕ) → position p xs ≡ some i → suc (length (remove i xs)) ≡ length xs
  length-remove [] i h = cc
  length-remove (x ∷ xs) zero h = refl
  length-remove (x ∷ xs) (suc i) h = ground (arith, length-remove xs i)

  pub count_if-remove :
      (q : A → Bool) (xs : List A) (i : ℕ) → count_if q (remove i xs) ≤ count_if q xs
  count_if-remove q [] i = omega arith
  count_if-remove q (x ∷ xs) zero = ground arith
  count_if-remove q (x ∷ xs) (suc i) = ground (arith, count_if-remove q xs i)

  pub position-none : (xs : List A) → position p xs ≡ none → count_if p xs ≡ 0
  position-none [] h = refl
  position-none (x ∷ xs) h = ground (arith, position-none xs)

pub All-remove {ℓ κ} :
    {A : Type ℓ} (P : A → Type κ) (xs : List A) (i : ℕ) → All P xs → All P (remove i xs)
All-remove P [] i h = h
All-remove P (x ∷ xs) zero h = h.1
All-remove P (x ∷ xs) (suc i) h = (h.0, All-remove P xs i h.1)

-- The removed job is not active.
count-active-remove :
    (xs : List JobRecord) (i : ℕ)
    → position is_done xs ≡ some i
    → count_if is_active (remove i xs) ≡ count_if is_active xs
count-active-remove [] i h = cc
count-active-remove (x ∷ xs) zero h = ground arith
count-active-remove (x ∷ xs) (suc i) h = ground (arith, count-active-remove xs i)

keep_active-remove :
    (xs : List JobRecord) (i : ℕ)
    → position is_done xs ≡ some i
    → keep_if is_active (remove i xs) ≡ keep_if is_active xs
keep_active-remove [] i h = cc
keep_active-remove (x ∷ xs) zero h = ground arith
keep_active-remove (x ∷ xs) (suc i) h = ground (arith, keep_active-remove xs i)

count-partition : (xs : List JobRecord) → count_if is_done xs + count_if is_active xs ≡ length xs
count-partition [] = refl
count-partition (x ∷ xs) = ground (arith, count-partition xs)

evict_loop_rule {ℓ} :
    (P : List JobRecord → Type ℓ)
    → ((xs : List JobRecord) (i : ℕ) → P xs → position is_done xs ≡ some i → P (remove i xs))
    → (fuel : ℕ) (xs ys : List JobRecord) → P xs
    → evict_loop fuel xs ≡ ok ys
    → P ys
unfolding evict_loop
evict_loop_rule P keep zero xs ys h e = ground arith
evict_loop_rule P keep (suc fuel) xs ys h e = elim (Bool-cases (leb max_history (length xs))) [
  | inr fits ↦ ground arith
  | inl full ↦ elim (Option-cases (position is_done xs)) [
    | inl missing ↦ ground arith
    | inr (i, at) ↦
        evict_loop_rule P keep fuel (remove i xs) ys (keep xs i h at)
          (rw (full, at, evict_loop) at e)
  ]
]

evict_loop-fits :
    (fuel : ℕ) (xs ys : List JobRecord)
    → length xs ≤ fuel
    → evict_loop fuel xs ≡ ok ys
    → length ys < max_history
unfolding evict_loop
evict_loop-fits zero xs ys h e = ground arith
evict_loop-fits (suc fuel) xs ys h e = elim (Bool-cases (leb max_history (length xs))) [
  | inr fits ↦ ground arith
  | inl full ↦ elim (Option-cases (position is_done xs)) [
    | inl missing ↦ ground arith
    | inr (i, at) ↦
        evict_loop-fits fuel (remove i xs) ys (omega (arith, length-remove is_done xs i at))
          (rw (full, at, evict_loop) at e)
  ]
]

-- With fewer active jobs than the history holds the loop finds enough to remove.
evict_loop-ok :
    (fuel : ℕ) (xs : List JobRecord)
    → count_if is_active xs < max_history
    → (ys : List JobRecord) × (evict_loop fuel xs ≡ ok ys)
unfolding evict_loop
evict_loop-ok zero xs h = (xs, refl)
evict_loop-ok (suc fuel) xs h = elim (Bool-cases (leb max_history (length xs))) [
  | inr fits ↦ (xs, rw (fits, evict_loop))
  | inl full ↦ elim (Option-cases (position is_done xs)) [
    | inl missing ↦ absurd (ground (arith, position-none is_done xs missing, count-partition xs))
    | inr (i, at) ↦
        let (ys, e) =
          evict_loop-ok fuel (remove i xs) (omega (arith, count-active-remove xs i at)) in
        (ys, rw (full, at, evict_loop) e)
  ]
]

abbrev KeepsActive : List JobRecord → List JobRecord → Type 0
KeepsActive xs ys = keep_if is_active ys ≡ keep_if is_active xs

-- `submit` makes room whenever fewer than 128 jobs are still active: then at most 127 jobs are left,
-- and the active ones are all there, in their order.
pub evict_makes_room :
    (jobs : List JobRecord)
    → count_if is_active jobs < max_history
    → (kept : List JobRecord) × (evict jobs ≡ ok kept)
      × (length kept < max_history)
      × (keep_if is_active kept ≡ keep_if is_active jobs)
unfolding evict
evict_makes_room jobs h =
    let (kept, e) = evict_loop-ok (length jobs) jobs h in
    (
      kept,
      e,
      evict_loop-fits (length jobs) jobs kept (omega arith) e,
      evict_loop_rule (KeepsActive jobs) (λ xs i p at. keep_active-remove xs i at ∙ p) (length jobs)
          jobs kept refl e,
    )

-- What holds of the jobs, and outlives the removal of one, holds of the jobs kept.
pub evict_rule {ℓ} :
    (P : List JobRecord → Type ℓ)
    → ((xs : List JobRecord) (i : ℕ) → P xs → P (remove i xs))
    → (jobs kept : List JobRecord) → P jobs
    → evict jobs ≡ ok kept
    → P kept
unfolding evict
evict_rule P keep jobs kept h e =
    evict_loop_rule P (λ xs i p at. keep xs i p) (length jobs) jobs kept h e

module _ (jobs kept : List JobRecord) (e : evict jobs ≡ ok kept) where
  pub evict-fits : length kept < max_history
  unfolding evict
  evict-fits = evict_loop-fits (length jobs) jobs kept (omega arith) e

  pub evict-All {ℓ} : (P : JobRecord → Type ℓ) → All P jobs → All P kept
  evict-All P h = evict_rule (All P) (All-remove P) jobs kept h e

  pub evict-count : (q : JobRecord → Bool) → count_if q kept ≤ count_if q jobs
  evict-count q =
      evict_rule (λ xs. count_if q xs ≤ count_if q jobs)
        (λ xs i p. omega (arith, count_if-remove is_done q xs i)) jobs kept (omega arith) e
