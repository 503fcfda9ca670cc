-- ===== src/Scheduler/Log.antt =====
-- The events of a job (`event` in crates/scheduler/src/lib.rs).
use ferrum_atlas.Prelude.{
  ℕ, suc, ◌+◌, ◌≤◌, ◌<◌, List, [], ◌∷◌, ◌++◌, ◌≡◌, refl, Option, none, some, arith, length,
  length-append, last?, nat_eq,
}
use ferrum_atlas.Prelude.Text.{Text}
use ferrum_atlas.Prelude.Words.{u32_max, saturating_add}
use ferrum_atlas.Model.{JobRecord, JobEvent, JobStage}
use ferrum_atlas.Scheduler.Events.{event, next_event, trimmed, rest_of, next_sequence, max_events}

-- Sequence numbers above `low` that rise strictly.
abbrev pub Rising : ℕ → List JobEvent → Type 0
Rising low [] = Unit {0}
Rising low (e ∷ es) = (low < e.sequence) × Rising e.sequence es

abbrev pub last_sequence : Option JobEvent → ℕ
last_sequence none = 0
last_sequence (some e) = e.sequence

abbrev pub top : List JobEvent → ℕ
top es = last_sequence (last? es)

-- `n` bounds the sequence numbers.
pub record IsLogged (n : ℕ) (j : JobRecord) : Type 0 where
  pub few : length j.events ≤ max_events
  pub rising : Rising 0 j.events
  pub reached : top j.events ≤ n

Rising-weaken : (low : ℕ) (e : JobEvent) (es : List JobEvent) → Rising low (e ∷ es) → Rising low es
Rising-weaken low e [] h = tt
Rising-weaken low e (f ∷ es) h = (omega arith, h.1.1)

Rising-append :
    (low : ℕ) (es : List JobEvent) (e : JobEvent)
    → Rising low es
    → low < e.sequence
    → top es < e.sequence
    → Rising low (es ++ e ∷ [])
Rising-append low [] e h l t = (l, tt)
Rising-append low (f ∷ []) e h l t = (h.0, (t, tt))
Rising-append low (f ∷ g ∷ es) e h l t =
    (h.0, Rising-append f.sequence (g ∷ es) e h.1 (omega (arith, le-top f.sequence g es h.1)) t)
  where
    le-top : (k : ℕ) (x : JobEvent) (xs : List JobEvent) → Rising k (x ∷ xs) → k < top (x ∷ xs)
    le-top k x [] r = r.0
    le-top k x (y ∷ ys) r = omega (arith, le-top x.sequence y ys r.1)

top-append : (es : List JobEvent) (e : JobEvent) → top (es ++ e ∷ []) ≡ e.sequence
top-append [] e = refl
top-append (f ∷ []) e = refl
top-append (f ∷ g ∷ es) e = top-append (g ∷ es) e

length-rest_of :
    (es : List JobEvent) → length es ≡ max_events → length (rest_of es) + 1 ≡ max_events
length-rest_of [] h = absurd (omega arith)
length-rest_of (e ∷ es) h = omega arith

Rising-rest_of : (es : List JobEvent) → Rising 0 es → Rising 0 (rest_of es)
Rising-rest_of [] h = tt
Rising-rest_of (e ∷ es) h = Rising-weaken 0 e es h

top-rest_of : (es : List JobEvent) → length es ≡ max_events → top (rest_of es) ≡ top es
top-rest_of [] h = refl
top-rest_of (e ∷ []) h = absurd (omega arith)
top-rest_of (e ∷ f ∷ es) h = refl

trimmed-IsLogged :
    (n : ℕ) (es : List JobEvent)
    → length es ≤ max_events
    → Rising 0 es
    → top es ≤ n
    → (length (trimmed es) < max_events) × Rising 0 (trimmed es) × (top (trimmed es) ≤ n)
trimmed-IsLogged n es few rising reached =
    ground (arith, length-rest_of es, Rising-rest_of es rising, top-rest_of es)

next_sequence_lem :
    (es : List JobEvent) → top es < u32_max → next_sequence (last? es) ≡ suc (top es)
unfolding saturating_add
next_sequence_lem es h = ground arith

-- An event keeps the log of a job within 32 entries and its numbers strictly rising, as long as the
-- numbers stay below the largest `u32`; the largest number grows by at most one.
pub event-IsLogged :
    (now : Text) (stage : JobStage) (n : ℕ) (j : JobRecord)
    → n < u32_max
    → IsLogged n j
    → IsLogged (suc n) (event now stage j)
unfolding event
event-IsLogged now stage n j below h =
    let es = trimmed j.events in
    let (few, rising, reached) = trimmed-IsLogged n j.events h.few h.rising h.reached in
    let next = next_event now stage j in
    let number : next_sequence (last? es) ≡ suc (top es) = next_sequence_lem es (omega arith) in
    record {
      few = omega (arith, length-append es (next ∷ []));
      rising = Rising-append 0 es next rising (omega arith) (omega arith);
      reached = omega (arith, top-append es next);
    }
