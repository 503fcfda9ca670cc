-- ===== src/Analysis/Dataflow/Run.antt =====
-- crates/analysis/src/dataflow.rs: the analysis as a state monad with early returns, and `join`.
use ferrum_atlas.Prelude.{
  ◌≡◌, refl, ap, ℕ, suc, List, [], ◌∷◌, Bool, true, false, ◌||◌, Option, none, some, Result, ok,
  err, lookup, insert, set_extend, if◌then◌else◌,
}
use ferrum_atlas.Prelude.Text.{Text}
use ferrum_atlas.Model.{UnknownReason, unsupported_construct}
use ferrum_atlas.Model.Compiler.{unknown_effect_eq, unknown_effect_ord}
use ferrum_atlas.Analysis.Envelope.{AnalysisControl, stopped_at, note_partial, stop_envelope}
use ferrum_atlas.Analysis.Dataflow.Facts.{
  LocalDefinition, local_definition_eq, local_definition_ord, ReachingDefinitions, Value,
  value_or_default, State,
}

-- The report that is filled, the sets that are local variables of the emission, and the number of
-- the next reading of the control.
pub record Run : Type 0 where
  pub report : ReachingDefinitions
  pub definitions : List LocalDefinition
  pub output_facts : ℕ
  pub clock : ℕ

-- `return Ok(result)`, `break 'emit`, `Err(invalid(..))`, the panic of an index that is missing, and
-- `byte_budget(..)?`.
pub data Exit : Type 0 where
  returned broken panicked exhausted : Exit
  invalid : Text → Exit

abbrev pub M {ℓ} : Type ℓ → Type ℓ
M A = Run → Result Exit A × Run

infixl 5 ◌>>=◌ ◌>>◌
abbrev pub ◌>>=◌ {ℓ κ} : {A : Type ℓ} {B : Type κ} → M A → (A → M B) → M B
◌>>=◌ m f s = let (r, s') = m s in elim r [ ok a ↦ f a s' | err e ↦ (err e, s') ]

abbrev pub ◌>>◌ {ℓ} : {B : Type ℓ} → M (Unit {0}) → M B → M B
m >> k = m >>= λ _. k

abbrev pub pure {ℓ} : {A : Type ℓ} → A → M A
pure a s = (ok a, s)

abbrev pub exit {ℓ} : {A : Type ℓ} → Exit → M A
exit e s = (err e, s)

-- `if test { action }`.
abbrev pub when : Bool → M (Unit {0}) → M (Unit {0})
when true action = action
when false action = pure tt

abbrev pub get : M Run
get s = (ok s, s)

abbrev pub put : Run → M (Unit {0})
put t s = (ok tt, t)

-- A labelled block, which `break` leaves.
abbrev pub labelled : M (Unit {0}) → M (Unit {0})
labelled m s = let (r, t) = m s in elim r [ err broken ↦ (ok tt, t) | other ↦ (other, t) ]

abbrev pub edit : (ReachingDefinitions → ReachingDefinitions) → M (Unit {0})
edit f s = (ok tt, record s { report = f s.report })

unfoldable pub limited : Text → ReachingDefinitions → ReachingDefinitions
limited reason r = record r {
  envelope =
      note_partial UnknownReason.budget_exhausted reason (record r.envelope { truncated = true });
}

abbrev pub unsupported : Text → M (Unit {0})
unsupported message =
    edit λ r. record r { envelope = note_partial unsupported_construct message r.envelope }

-- `if control.stopped() { result.envelope.stop(control); .. }`.
unfoldable pub check : AnalysisControl → Exit → M (Unit {0})
check control e s =
    if stopped_at control s.clock
    then (
      err e,
      record s {
        clock = suc s.clock;
        report = record s.report {
          envelope = stop_envelope control (suc s.clock) s.report.envelope;
        };
      },
    )
    else (ok tt, record s { clock = suc s.clock })

-- `if test { result.limited(reason); .. }`.
unfoldable pub limit_when : Bool → Text → Exit → M (Unit {0})
limit_when test reason e = when test (do edit (limited reason); exit e)

abbrev pub forget : Option Value → Value → Value
forget none value = record value { uninitialized = true }
forget (some v) value = value

-- The loops of `join`, which give up when the control stops.
unfoldable pub forget_missing : AnalysisControl → State → List (ℕ × Value) → M (List (ℕ × Value))
forget_missing control other [] = pure []
forget_missing control other ((local, value) ∷ vs) = do
  check control returned
  rest ← forget_missing control other vs
  pure ((local, forget (lookup local other.values) value) ∷ rest)

abbrev pub merge_value : Value → Value → Value
merge_value destination value = record {
  definitions = set_extend destination.definitions value.definitions;
  uninitialized = destination.uninitialized || value.uninitialized;
}

unfoldable pub merge_values :
    AnalysisControl → List (ℕ × Value) → List (ℕ × Value) → M (List (ℕ × Value))
merge_values control values [] = pure values
merge_values control values ((local, value) ∷ vs) = do
  check control returned
  let merged = merge_value (value_or_default (lookup local values)) value
  merge_values control (insert local merged values) vs

unfoldable pub join : AnalysisControl → State → State → M State
join control s other = do
  kept ← forget_missing control other s.values
  values ← merge_values control kept other.values
  pure (record { values = values; unknown = set_extend s.unknown other.unknown })

-- What a sequence that succeeds has done.
pub >>=-ok {ℓ κ} :
    {A : Type ℓ} {B : Type κ} (m : M A) (f : A → M B) (s u : Run) (b : B)
    → (m >>= f) s ≡ (ok b, u)
    → (a : A) × (t : Run) × (m s ≡ (ok a, t)) × (f a t ≡ (ok b, u))
>>=-ok {A = A} {B = B} m f s u b = go (m s) refl
  where
    go :
        (p : Result Exit A × Run)
        → m s ≡ p
        → (elim p.0 [ ok a ↦ f a p.1 | err e ↦ (err e, p.1) ]) ≡ (ok b, u)
        → (a : A) × (t : Run) × (m s ≡ (ok a, t)) × (f a t ≡ (ok b, u))
    go (ok a, t) e h = (a, t, e, h)
    go (err x, t) e h = cc

pub >>-ok {ℓ} :
    {B : Type ℓ} (m : M (Unit {0})) (k : M B) (s u : Run) (b : B)
    → (m >> k) s ≡ (ok b, u)
    → (t : Run) × (m s ≡ (ok tt, t)) × (k t ≡ (ok b, u))
>>-ok m k s u b h = let (a, t, e, rest) = >>=-ok m (λ _. k) s u b h in (t, e, rest)

pub pure-ok {ℓ} : {A : Type ℓ} (a b : A) (s u : Run) → pure a s ≡ (ok b, u) → a ≡ b
pure-ok a b s u h = ap (λ p. elim p.0 [ ok x ↦ x | err e ↦ a ]) h
