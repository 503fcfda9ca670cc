-- ===== src/Analysis/Complexity/Ends.antt =====
-- crates/analysis/src/compiler_complexity.rs: what holds of a part of the analysis, however it ends.
use ferrum_atlas.Prelude.{
  ◌⊎◌, inl, inr, ◌≡◌, refl, ◌∙◌, ℕ, Bool, true, false, none, Result, ok, err, ensure, leb, ◌==◌,
  Bool-cases,
}
use ferrum_atlas.Prelude.Text.{Text, text_eq}
use ferrum_atlas.Analysis.Envelope.{invalid_input, budget_exhausted, AnalysisControl, stopped_at}
use ferrum_atlas.Analysis.Complexity.Report.{
  CompilerComplexity, CompilerComplexityLimits, Library, Failure, refused, panicked, Leave,
  finished, Flow, ◌>>=◌, limited, finish, withheld, check,
}
use ferrum_atlas.Analysis.Complexity.Measure.{counts_message, within, conclude}

-- A failure that only an inconsistency inside the function can cause.
unfoldable pub is_internal : Failure → Bool
is_internal panicked = true
is_internal (refused budget_exhausted) = false
is_internal (refused (invalid_input message)) = message == counts_message

-- The part goes on with a value of which `P` holds, or ends early without metrics, or refuses its
-- input.
abbrev pub Ends : {A : Type 0} → (A → Type 0) → Flow A → Type 0
Ends P (ok a) = P a
Ends P (err (finished report)) = report.metrics ≡ none
Ends P (err (Leave.failed failure)) = is_internal failure ≡ false

pub Ends-bind :
    {A B : Type 0} (P : A → Type 0) (Q : B → Type 0) (m : Flow A) (f : A → Flow B)
    → Ends P m
    → ((a : A) → P a → Ends Q (f a))
    → Ends Q (m >>= f)
Ends-bind P Q (ok a) f h k = k a h
Ends-bind P Q (err (finished report)) f h k = h
Ends-bind P Q (err (Leave.failed failure)) f h k = h

pub Ends-map :
    {A : Type 0} (P Q : A → Type 0) (m : Flow A) → Ends P m → ((a : A) → P a → Q a) → Ends Q m
Ends-map P Q (ok a) h k = k a h
Ends-map P Q (err (finished report)) h k = h
Ends-map P Q (err (Leave.failed failure)) h k = h

-- A test that ends the function with a refusal.
pub Ends-require :
    (test : Bool) (failure : Failure)
    → is_internal failure ≡ false
    → Ends (λ _. test ≡ true) (ensure test (Leave.failed failure))
Ends-require true failure h = refl
Ends-require false failure h = h

-- A test that the caller knows to succeed.
pub Ends-sure :
    (test : Bool) (leave : Leave) → test ≡ true → Ends (λ _. test ≡ true) (ensure test leave)
Ends-sure true leave h = refl
Ends-sure false leave h = cc

pub Ends-within :
    (test : Bool) (report : CompilerComplexity) (message : Text)
    → report.metrics ≡ none
    → Ends (λ _. test ≡ true) (within test report message)
unfolding limited
Ends-within true report message h = refl
Ends-within false report message h = h

pub Ends-check :
    (control : AnalysisControl) (clock : ℕ) (report : CompilerComplexity)
    → report.metrics ≡ none
    → Ends (λ (u : Unit {0}). Unit {0}) (check control clock report)
unfolding check
Ends-check control clock report h = elim (Bool-cases (stopped_at control clock)) [
  | inl e ↦ rw e h
  | inr e ↦ rw e tt
]

-- `finish` keeps the metrics, and its only error is that of the byte budget.
abbrev Kept : CompilerComplexity → Result Failure CompilerComplexity → Type 0
Kept report (ok out) = out.metrics ≡ report.metrics
Kept report (err failure) = is_internal failure ≡ false

finish-Kept :
    (lib : Library) (limits : CompilerComplexityLimits) (report : CompilerComplexity)
    → Kept report (finish lib limits report)
unfolding finish withheld is_internal
finish-Kept lib limits report =
    elim (Bool-cases (leb (lib.report_bytes report) limits.max_response_bytes)) [
      | inl e ↦ rw e refl
      | inr e ↦
          rw e
            (elim (Bool-cases
              (leb (lib.report_bytes (withheld report)) limits.max_response_bytes)) [
                | inl e' ↦ rw e' refl
                | inr e' ↦ rw e' refl
              ])
    ]

-- What the whole function returns.
abbrev pub Returns : (CompilerComplexity → Type 0) → Result Failure CompilerComplexity → Type 0
Returns P (ok out) =
    (out.metrics ≡ none) ⊎ ((r : CompilerComplexity) × (out.metrics ≡ r.metrics) × P r)
Returns P (err failure) = is_internal failure ≡ false

conclude_early :
    (P : CompilerComplexity → Type 0) (report : CompilerComplexity)
    (out : Result Failure CompilerComplexity)
    → report.metrics ≡ none
    → Kept report out
    → Returns P out
conclude_early P report (ok out) h k = inl (k ∙ h)
conclude_early P report (err failure) h k = k

conclude_ok :
    (P : CompilerComplexity → Type 0) (report : CompilerComplexity)
    (out : Result Failure CompilerComplexity)
    → P report
    → Kept report out
    → Returns P out
conclude_ok P report (ok out) h k = inr (report, k, h)
conclude_ok P report (err failure) h k = k

pub Returns-conclude :
    (P : CompilerComplexity → Type 0) (lib : Library) (limits : CompilerComplexityLimits)
    (flow : Flow CompilerComplexity)
    → Ends P flow
    → Returns P (conclude lib limits flow)
Returns-conclude P lib limits (ok report) h =
    conclude_ok P report (finish lib limits report) h (finish-Kept lib limits report)
Returns-conclude P lib limits (err (finished report)) h =
    conclude_early P report (finish lib limits report) h (finish-Kept lib limits report)
Returns-conclude P lib limits (err (Leave.failed failure)) h = h
