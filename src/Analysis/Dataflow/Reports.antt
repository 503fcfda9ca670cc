-- ===== src/Analysis/Dataflow/Reports.antt =====
-- crates/analysis/src/dataflow.rs: every report that `reaching_definitions` gives.
use ferrum_atlas.Prelude.{
  ℕ, List, [], ◌∷◌, ◌≡◌, refl, sym, ap, subst, ◌∙◌, ◌⊎◌, inl, inr, Bool, true, false, Result, ok,
  err, if◌then◌else◌,
}
use ferrum_atlas.Prelude.Text.{codes}
use ferrum_atlas.Model.{Coverage}
use ferrum_atlas.Model.Compiler.{CompilerBlock, CompilerBody}
use ferrum_atlas.Analysis.Envelope.{AnalysisError, invalid_input, AnalysisControl}
use ferrum_atlas.Analysis.Dataflow.Facts.{
  DataflowLimits, validate_limits, ReachingDefinitions, new_report, State, facts,
}
use ferrum_atlas.Analysis.Dataflow.Run.{
  Run, Exit, returned, broken, panicked, exhausted, invalid, M, ◌>>=◌,
}
use ferrum_atlas.Analysis.Dataflow.Solve.{argument_state, solve}
use ferrum_atlas.Analysis.Dataflow.Report.{
  Sizes, check_input, emit, analyse, Outcome, reports, fails, panics, outcome, begin, is_body_id,
  reaching_definitions,
}
use ferrum_atlas.Analysis.Dataflow.Ends.{MakesNoClaim, IsCut, Ended}
use ferrum_atlas.Analysis.Dataflow.Early.{check_input-Early, solve-Early}
use ferrum_atlas.Analysis.Dataflow.Emits.{emit-Stays}
use ferrum_atlas.Analysis.Dataflow.Budget.{IsFitted, unlimited, analyse-fits, >>=-step}

-- A sequence that returns early does so in its first part or in its second.
>>=-returned {ℓ κ} :
    {A : Type ℓ} {B : Type κ} (m : M A) (f : A → M B) (s u : Run)
    → (m >>= f) s ≡ (err returned, u)
    → (m s ≡ (err returned, u))
      ⊎ ((a : A) × (t : Run) × (m s ≡ (ok a, t)) × (f a t ≡ (err returned, u)))
>>=-returned {A = A} {B = B} m f s u = go (m s) refl
  where
    go :
        (p : Result Exit A × Run)
        → m s ≡ p
        → (elim p.0 [ ok a ↦ f a p.1 | err e ↦ (err e, p.1) ]) ≡ (err returned, u)
        → (m s ≡ (err returned, u))
          ⊎ ((a : A) × (t : Run) × (m s ≡ (ok a, t)) × (f a t ≡ (err returned, u)))
    go (ok a, t) e h = inr (a, t, e, h)
    go (err x, t) e h =
        inl
          (e ∙ ap (λ (q : Result Exit B × Run). (elim q.0 [ ok b ↦ err x | err y ↦ err y ], q.1)) h)

>>=-stop {ℓ κ} :
    {A : Type ℓ} {B : Type κ} (m : M A) (f : A → M B) (s u : Run)
    → m s ≡ (err returned, u)
    → (m >>= f) s ≡ (err returned, u)
>>=-stop {B = B} m f s u e =
    subst
      (λ p.
        (elim p.0 as (λ _. Result Exit B × Run) [ ok x ↦ f x p.1 | err z ↦ (err z, p.1) ])
        ≡ (err returned, u))
      (sym e) refl

-- A report that the analysis returns before it emits makes no claim and is marked, and the response
-- budget plays no part in it.
analyse-IsCut :
    (control : AnalysisControl) (sizes : Sizes) (body : CompilerBody) (limits : DataflowLimits)
    (s u : Run)
    → MakesNoClaim s.report
    → analyse control sizes body limits s ≡ (err returned, u)
    → IsCut u.report × (analyse control (unlimited sizes) body limits s ≡ (err returned, u))
unfolding analyse check_input
analyse-IsCut control sizes body limits s u bare h =
    let start = argument_state body.argument_count in
    let fix : List (ℕ × CompilerBlock) → M (List (ℕ × State)) = λ blocks.
      solve control limits blocks limits.max_iterations ((0, start) ∷ []) (0 ∷ []) (facts start) in
    let end : List (ℕ × CompilerBlock) → List (ℕ × State) → M (Unit {0}) =
      λ blocks entries. emit control sizes body limits blocks entries in
    let free : List (ℕ × CompilerBlock) → List (ℕ × State) → M (Unit {0}) =
      λ blocks entries. emit control (unlimited sizes) body limits blocks entries in
    let start_free = check_input control (unlimited sizes) body limits in
    let first = (check_input-Early control sizes body limits).ended s bare in
    elim (>>=-returned (check_input control sizes body limits) (λ blocks. fix blocks >>= end blocks)
      s u h) [
        | inl e ↦ (
          subst (Ended _ _) e first,
          >>=-stop start_free (λ blocks. fix blocks >>= free blocks) s u e,
        )
        | inr (blocks, t, e, h1) ↦
            let second =
              (solve-Early control limits blocks limits.max_iterations ((0, start) ∷ []) (0 ∷ [])
                  (facts start)).ended
                t (subst (Ended _ _) e first) in
            elim (>>=-returned (fix blocks) (end blocks) t u h1) [
              | inl e1 ↦ (
                subst (Ended _ _) e1 second,
                >>=-step start_free (λ blocks. fix blocks >>= free blocks) s blocks t
                    (err returned, u) e (>>=-stop (fix blocks) (free blocks) t u e1),
              )
              | inr (entries, v, e1, h2) ↦ absurd (
                  subst (Ended (λ r. Unit {0}) (λ r. ⊥)) h2
                    ((emit-Stays control limits sizes body blocks entries).ended v tt))
            ]
      ]

-- What the checks of the limits and of the identity leave of an outcome.
abbrev guarded : Result AnalysisError (Unit {0}) → Bool → Outcome → Outcome
guarded valid named o = elim valid [
  | err e ↦ fails e
  | ok done ↦
      if named
      then o
      else fails (invalid_input (codes "compiler body identity must contain 1..256 bytes"))
]

guarded-reports :
    (valid : Result AnalysisError (Unit {0})) (named : Bool) (o : Outcome) (r : ReachingDefinitions)
    → guarded valid named o ≡ reports r
    → (o ≡ reports r) × ((other : Outcome) → guarded valid named other ≡ other)
guarded-reports (ok done) true o r h = (h, λ other. refl)
guarded-reports (ok done) false o r h = cc
guarded-reports (err e) named o r h = cc

reports-injective : (a b : ReachingDefinitions) → reports a ≡ reports b → a ≡ b
reports-injective a b h =
    ap (λ (o : Outcome). elim o [ reports x ↦ x | fails e ↦ a | panics ↦ a ]) h

-- The report fits the response budget, and is what the function reports without that budget if this
-- fits, and otherwise makes no claim and is marked as truncated.
pub record IsBudgeted (control : AnalysisControl) (sizes : Sizes) (body : CompilerBody)
    (coverage : Coverage) (limits : DataflowLimits) (r : ReachingDefinitions) : Type 0 where
  pub full : ReachingDefinitions
  pub unbounded : reaching_definitions control (unlimited sizes) body coverage limits ≡ reports full
  pub fits : sizes.report_fits r ≡ true
  pub fitted : IsFitted sizes full r

-- The budget plays no part in the report, which makes no claim and is marked as truncated.
pub record IsEarly (control : AnalysisControl) (sizes : Sizes) (body : CompilerBody)
    (coverage : Coverage) (limits : DataflowLimits) (r : ReachingDefinitions) : Type 0 where
  pub unbounded : reaching_definitions control (unlimited sizes) body coverage limits ≡ reports r
  pub cut : IsCut r

-- Every report that the function gives is of one of two kinds. Either it fits the response budget; it
-- is then what is reported without that budget if this fits, and otherwise it makes no claim and is
-- marked as truncated. Or it is the same without that budget, makes no claim, has no fixed point and
-- is marked as truncated; it may then be over the budget.
pub reaching_definitions-IsBudgeted :
    (control : AnalysisControl) (sizes : Sizes) (body : CompilerBody) (coverage : Coverage)
    (limits : DataflowLimits) (r : ReachingDefinitions)
    → reaching_definitions control sizes body coverage limits ≡ reports r
    → IsBudgeted control sizes body coverage limits r ⊎ IsEarly control sizes body coverage limits r
unfolding reaching_definitions new_report
reaching_definitions-IsBudgeted control sizes body coverage limits r h =
    let (gives, free) =
      guarded-reports (validate_limits limits) (is_body_id body.body_id)
        (outcome (analyse control sizes body limits (begin body coverage))) r h in
    go (analyse control sizes body limits (begin body coverage)) refl gives
      (free (outcome (analyse control (unlimited sizes) body limits (begin body coverage))))
  where
    go :
        (p : Result Exit (Unit {0}) × Run)
        → analyse control sizes body limits (begin body coverage) ≡ p
        → outcome p ≡ reports r
        → reaching_definitions control (unlimited sizes) body coverage limits
          ≡ outcome (analyse control (unlimited sizes) body limits (begin body coverage))
        → IsBudgeted control sizes body coverage limits r
          ⊎ IsEarly control sizes body coverage limits r
    go (ok tt, u) e gives free =
        let (v, ends, fits, fitted) =
          analyse-fits control sizes body limits (begin body coverage) u e in
        let same = reports-injective u.report r gives in
        inl (record {
          full = v.report;
          unbounded = free ∙ ap outcome ends;
          fits = subst (λ x. sizes.report_fits x ≡ true) same fits;
          fitted = subst (IsFitted sizes v.report) same fitted;
        })
    go (err returned, u) e gives free =
        let (cut, same) =
          analyse-IsCut control sizes body limits (begin body coverage) u
            (refl, refl, refl, refl, refl) e in
        inr (record {
          unbounded = free ∙ ap outcome same ∙ gives;
          cut = subst IsCut (reports-injective u.report r gives) cut;
        })
    go (err broken, u) e gives free = cc
    go (err panicked, u) e gives free = cc
    go (err exhausted, u) e gives free = cc
    go (err (invalid message), u) e gives free = cc
