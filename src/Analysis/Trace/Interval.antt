-- ===== src/Analysis/Trace/Interval.antt =====
-- The elapsed time that crates/analysis/src/trace.rs reports for a window.
use ferrum_atlas.Prelude.{
  ℕ, zero, suc, ◌+◌, ◌-◌, ◌≤◌, List, [], ◌∷◌, ◌≡◌, refl, sym, ap, Bool, true, false, Option, none,
  some, ok, err, arith, bind-ok, last?, get_elem?, if◌then◌else◌,
}
use ferrum_atlas.Prelude.Text.{Text}
use ferrum_atlas.Model.Observations.{TraceEvent}
use ferrum_atlas.Analysis.Trace.Compare.{to_string, timestamps, is_monotonic, elapsed_of, interval}

-- No timestamp is below the one before it.
abbrev pub IsOrdered : List ℕ → Type 0
IsOrdered values =
    (i a b : ℕ) → get_elem? values i ≡ some a → get_elem? values (suc i) ≡ some b → a ≤ b

is_monotonic-IsOrdered : (values : List ℕ) → is_monotonic values ≡ true → IsOrdered values
is_monotonic-IsOrdered [] h i a b at next = cc
is_monotonic-IsOrdered (x ∷ []) h i a b at next = cc
is_monotonic-IsOrdered (x ∷ y ∷ values) h zero a b at next = ground arith
is_monotonic-IsOrdered (x ∷ y ∷ values) h (suc i) a b at next =
    is_monotonic-IsOrdered (y ∷ values) (ground arith) i a b at next

first-last :
    (first last : ℕ) (values : List ℕ)
    → is_monotonic (first ∷ values) ≡ true
    → last? (first ∷ values) ≡ some last
    → first ≤ last
first-last first last [] h at = ground arith
first-last first last (y ∷ values) h at =
    let rest : y ≤ last = first-last y last values (ground arith) at in
    let step : first ≤ y = ground arith in omega (arith, rest, step)

-- Where the values come from, and what the interval is.
interval-parts :
    (events : List TraceEvent) (r : Option Text)
    → interval events ≡ ok r
    → (values : List ℕ) × (timestamps events ≡ ok values)
      × ((if is_monotonic values then elapsed_of (last? values) values else none) ≡ r)
unfolding interval
interval-parts events r h =
    let (values, read, whole) = bind-ok (timestamps events) _ r h in
    (values, read, ap (λ x. elim x [ ok o ↦ o | err e ↦ r ]) whole)

split :
    (first : ℕ) (values : List ℕ) {text : Text}
    → (if is_monotonic (first ∷ values)
        then elapsed_of (last? (first ∷ values)) (first ∷ values)
        else none)
      ≡ some text
    → (is_monotonic (first ∷ values) ≡ true)
      × ((last : ℕ) × (last? (first ∷ values) ≡ some last) × (text ≡ to_string (last - first)))
split first values {text} whole =
    go (is_monotonic (first ∷ values)) (last? (first ∷ values)) refl refl whole
  where
    go :
        (test : Bool) (o : Option ℕ)
        → is_monotonic (first ∷ values) ≡ test
        → last? (first ∷ values) ≡ o
        → (if test then elapsed_of o (first ∷ values) else none) ≡ some text
        → (is_monotonic (first ∷ values) ≡ true)
          × ((last : ℕ) × (last? (first ∷ values) ≡ some last) × (text ≡ to_string (last - first)))
    go false o e k h = cc
    go true none e k h = cc
    go true (some last) e k h =
        (e, (last, k, sym (ap (λ x. elim x [ some t ↦ t | none ↦ text ]) h)))

-- A window has an elapsed time only if its timestamps never go back; it is the number that leads from
-- the first of them to the last.
pub interval-elapsed :
    (events : List TraceEvent) (text : Text)
    → interval events ≡ ok (some text)
    → (values : List ℕ) × (first : ℕ) × (last : ℕ) × (elapsed : ℕ) × (timestamps events ≡ ok values)
      × (get_elem? values 0 ≡ some first)
      × (last? values ≡ some last)
      × IsOrdered values
      × (first + elapsed ≡ last)
      × (text ≡ to_string elapsed)
interval-elapsed events text h =
    let (values, read, whole) = interval-parts events (some text) h in go values read whole
  where
    go :
        (values : List ℕ)
        → timestamps events ≡ ok values
        → (if is_monotonic values then elapsed_of (last? values) values else none) ≡ some text
        → (values : List ℕ) × (first : ℕ) × (last : ℕ) × (elapsed : ℕ) × (timestamps events
            ≡ ok values)
          × (get_elem? values 0 ≡ some first)
          × (last? values ≡ some last)
          × IsOrdered values
          × (first + elapsed ≡ last)
          × (text ≡ to_string elapsed)
    go [] read whole = cc
    go (first ∷ values) read whole =
        let (mono, (last, at, shown)) = split first values whole in
        let up = first-last first last values mono at in
        (
          first ∷ values,
          first,
          last,
          last - first,
          read,
          refl,
          at,
          is_monotonic-IsOrdered (first ∷ values) mono,
          omega (arith, up),
          shown,
        )
