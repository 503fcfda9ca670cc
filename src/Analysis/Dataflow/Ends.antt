-- ===== src/Analysis/Dataflow/Ends.antt =====
-- crates/analysis/src/dataflow.rs: how the parts of the analysis end.
use ferrum_atlas.Prelude.{
  ◌≡◌, refl, [], Bool, true, false, Result, ok, err, nat_eq, Bool-cases, inl, inr,
}
use ferrum_atlas.Prelude.Text.{Text}
use ferrum_atlas.Analysis.Envelope.{AnalysisControl, stopped_at, stop_envelope, note_partial}
use ferrum_atlas.Analysis.Dataflow.Facts.{ReachingDefinitions}
use ferrum_atlas.Analysis.Dataflow.Run.{
  Run, Exit, returned, broken, panicked, exhausted, invalid, M, ◌>>=◌, ◌>>◌, pure, exit, when,
  labelled, check, limit_when, limited,
}

-- The part goes on in a state of which `I` holds, or returns a report early in one of which `R` holds, or
-- ends in another way.
abbrev pub Ended {ℓ} : (I R : Run → Type 0) {A : Type ℓ} → Result Exit A × Run → Type 0
Ended I R (ok a, t) = I t
Ended I R (err returned, t) = R t
Ended I R (err broken, t) = I t
Ended I R (err panicked, t) = Unit
Ended I R (err exhausted, t) = Unit
Ended I R (err (invalid message), t) = Unit

pub record Ends {ℓ} (I R : Run → Type 0) {A : Type ℓ} (m : M A) : Type ℓ where
  pub ended : (s : Run) → I s → Ended I R (m s)

module _ {I R : Run → Type 0} where
  pub Ends-bind {ℓ κ} :
      {A : Type ℓ} {B : Type κ} {m : M A} {f : A → M B}
      → Ends I R m
      → ((a : A) → Ends I R (f a))
      → Ends I R (m >>= f)
  Ends-bind {A = A} {B = B} {m = m} {f = f} h k = record { ended = λ s i. go (m s) (h.ended s i) }
    where
      go :
          (p : Result Exit A × Run)
          → Ended I R p
          → Ended I R
              (elim p.0 as (λ _. Result Exit B × Run) [ ok a ↦ f a p.1 | err e ↦ (err e, p.1) ])
      go (ok a, t) i = (k a).ended t i
      go (err returned, t) i = i
      go (err broken, t) i = i
      go (err panicked, t) i = i
      go (err exhausted, t) i = i
      go (err (invalid message), t) i = i

  pub Ends-then {ℓ} :
      {B : Type ℓ} {m : M (Unit {0})} {k : M B} → Ends I R m → Ends I R k → Ends I R (m >> k)
  Ends-then h k = Ends-bind h (λ _. k)

  pub Ends-pure {ℓ} : {A : Type ℓ} (a : A) → Ends I R (pure a)
  Ends-pure a = record { ended = λ s i. i }

  pub Ends-when : (test : Bool) {m : M (Unit {0})} → Ends I R m → Ends I R (when test m)
  Ends-when true h = h
  Ends-when false h = Ends-pure tt

  pub Ends-invalid : (test : Bool) (message : Text) → Ends I R (when test (exit (invalid message)))
  Ends-invalid test message = Ends-when test (record { ended = λ s i. tt })

-- `break` leaves a labelled block, after which the function goes on.
pub Ends-labelled : {I R : Run → Type 0} {m : M (Unit {0})} → Ends I R m → Ends I R (labelled m)
Ends-labelled {I = I} {R = R} {m = m} h = record { ended = λ s i. go (m s) (h.ended s i) }
  where
    go :
        (p : Result Exit (Unit {0}) × Run)
        → Ended I R p
        → Ended I R (elim p.0 as (λ _. Result Exit (Unit {0}) × Run) [
          | err broken ↦ (ok tt, p.1)
          | other ↦ (other, p.1)
        ])
    go (ok a, t) i = i
    go (err returned, t) i = i
    go (err broken, t) i = i
    go (err panicked, t) i = i
    go (err exhausted, t) i = i
    go (err (invalid message), t) i = i

-- A report without claims, and one that is marked as truncated as well.
abbrev pub MakesNoClaim : ReachingDefinitions → Type 0
MakesNoClaim r =
    (r.definitions ≡ [])
    × (r.uses ≡ [])
    × (r.unknown_memory_effects ≡ [])
    × (r.reachable_blocks ≡ [])
    × (r.fixed_point ≡ false)

abbrev pub IsCut : ReachingDefinitions → Type 0
IsCut r = MakesNoClaim r × (r.envelope.truncated ≡ true)

abbrev pub Early {ℓ} : {A : Type ℓ} → M A → Type ℓ
Early m = Ends (λ s. MakesNoClaim s.report) (λ s. IsCut s.report) m

pub check-Early : (control : AnalysisControl) → Early (check control returned)
unfolding check stop_envelope note_partial
check-Early control = record {
  ended = λ s i. elim (Bool-cases (stopped_at control s.clock)) [
    | inl stops ↦ rw stops (i, refl)
    | inr goes ↦ rw goes i
  ];
}

pub limit_when-Early : (test : Bool) (reason : Text) → Early (limit_when test reason returned)
unfolding limit_when limited note_partial
limit_when-Early true reason = record { ended = λ s i. (i, refl) }
limit_when-Early false reason = Ends-pure tt
