-- ===== src/Analysis/Dataflow/Budget.antt =====
-- The response budget of crates/analysis/src/dataflow.rs.
use ferrum_atlas.Prelude.{
  ℕ, List, [], ◌∷◌, ◌≡◌, refl, sym, subst, ◌⊎◌, true, false, Result, ok, err, arith,
}
use ferrum_atlas.Model.Compiler.{CompilerBlock, CompilerBody}
use ferrum_atlas.Analysis.Envelope.{AnalysisControl, note_partial}
use ferrum_atlas.Analysis.Dataflow.Facts.{DataflowLimits, ReachingDefinitions, State, facts}
use ferrum_atlas.Analysis.Dataflow.Run.{Run, Exit, M, ◌>>=◌, ◌>>◌, labelled, limited, >>=-ok, >>-ok}
use ferrum_atlas.Analysis.Dataflow.Solve.{argument_state, solve}
use ferrum_atlas.Analysis.Dataflow.Emit.{change, emit_blocks}
use ferrum_atlas.Analysis.Dataflow.Report.{
  Sizes, check_input, begin_output, fit_response, emit, analyse,
}

-- A report that fits as it is, or one whose claims were withheld since they did not.
abbrev pub IsFitted : Sizes → ReachingDefinitions → ReachingDefinitions → Type 0
IsFitted sizes full r =
    (r ≡ full)
    ⊎ ((sizes.report_fits full ≡ false)
        × (r.definitions ≡ [])
        × (r.uses ≡ [])
        × (r.unknown_memory_effects ≡ [])
        × (r.reachable_blocks ≡ [])
        × (r.envelope.truncated ≡ true))

abbrev pub unlimited : Sizes → Sizes
unlimited sizes = record sizes { report_fits = λ r. true }

fit_response-fits :
    (sizes : Sizes) (s u : Run)
    → fit_response sizes s ≡ (ok tt, u)
    → (sizes.report_fits u.report ≡ true) × IsFitted sizes s.report u.report
unfolding fit_response limited note_partial
fit_response-fits sizes s u h = ground arith

free_response : (sizes : Sizes) (s : Run) → fit_response (unlimited sizes) s ≡ (ok tt, s)
unfolding fit_response
free_response sizes s = refl

-- A sequence whose first part succeeds goes on with the second.
pub >>=-step {ℓ κ} :
    {A : Type ℓ} {B : Type κ} (m : M A) (f : A → M B) (s : Run) (a : A) (t : Run)
    (r : Result Exit B × Run)
    → m s ≡ (ok a, t)
    → f a t ≡ r
    → (m >>= f) s ≡ r
>>=-step {B = B} m f s a t r e h =
    subst
      (λ p. (elim p.0 as (λ _. Result Exit B × Run) [ ok x ↦ f x p.1 | err z ↦ (err z, p.1) ]) ≡ r)
      (sym e) h

-- When the analysis comes to its end, its report fits the response budget. It is what the analysis
-- reports without that budget if this fits; otherwise it makes no claim and is marked as truncated.
pub analyse-fits :
    (control : AnalysisControl) (sizes : Sizes) (body : CompilerBody) (limits : DataflowLimits)
    (s u : Run)
    → analyse control sizes body limits s ≡ (ok tt, u)
    → (v : Run) × (analyse control (unlimited sizes) body limits s ≡ (ok tt, v))
      × (sizes.report_fits u.report ≡ true)
      × IsFitted sizes v.report u.report
unfolding analyse emit check_input
analyse-fits control sizes body limits s u h =
    let start = argument_state body.argument_count in
    let fix : List (ℕ × CompilerBlock) → M (List (ℕ × State)) = λ blocks.
      solve control limits blocks limits.max_iterations ((0, start) ∷ []) (0 ∷ []) (facts start) in
    let begin : List (ℕ × State) → M (Unit {0}) =
      λ entries. change (begin_output body.argument_count entries) in
    let main : List (ℕ × CompilerBlock) → List (ℕ × State) → M (Unit {0}) =
      λ blocks entries. labelled (emit_blocks control limits blocks entries) in
    let close : M (Unit {0}) =
      change (λ r. record r { report = record r.report { definitions = r.definitions } }) in
    let third : Sizes → List (ℕ × CompilerBlock) → List (ℕ × State) → M (Unit {0}) =
      λ z blocks e. main blocks e >> (close >> fit_response z) in
    let second : Sizes → List (ℕ × CompilerBlock) → List (ℕ × State) → M (Unit {0}) =
      λ z blocks e. begin e >> third z blocks e in
    let first : Sizes → List (ℕ × CompilerBlock) → M (Unit {0}) =
      λ z blocks. fix blocks >>= λ e. second z blocks e in
    let free = unlimited sizes in
    let (blocks, s1, checked, h1) =
      >>=-ok (check_input control sizes body limits) (first sizes) s u tt h in
    let (entries, s2, solved, h2) = >>=-ok (fix blocks) (second sizes blocks) s1 u tt h1 in
    let (s3, begun, h3) = >>-ok (begin entries) (third sizes blocks entries) s2 u tt h2 in
    let (s4, emitted, h4) = >>-ok (main blocks entries) (close >> fit_response sizes) s3 u tt h3 in
    let (s5, closed, h5) = >>-ok close (fit_response sizes) s4 u tt h4 in
    let (fits, fitted) = fit_response-fits sizes s5 u h5 in
    (
      s5,
      >>=-step (check_input control free body limits) (first free) s blocks s1 (ok tt, s5) checked
          (>>=-step (fix blocks) (second free blocks) s1 entries s2 (ok tt, s5) solved
            (>>=-step (begin entries) (λ _. third free blocks entries) s2 tt s3 (ok tt, s5) begun
              (>>=-step (main blocks entries) (λ _. close >> fit_response free) s3 tt s4 (ok tt, s5)
                emitted
                (>>=-step close (λ _. fit_response free) s4 tt s5 (ok tt, s5) closed
                  (free_response sizes s5))))),
      fits,
      fitted,
    )
