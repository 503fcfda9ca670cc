-- ===== src/Analysis/Complexity/Cyclomatic.antt =====
-- crates/analysis/src/compiler_complexity.rs: the published metrics are those of the reachable
-- multigraph, and the analysis meets no inconsistency of its own.
use ferrum_atlas.Prelude.{
  inl, inr, ◌≡◌, refl, ap, ◌∙◌, ℕ, suc, ◌≤◌, ◌+◌, ◌-◌, ◌*◌, List, [], ◌∷◌, Bool, true, false, not,
  Option, none, some, ok, err, length, ensure, leb, ◌==◌, if◌then◌else◌, arith, lookup, Mem, nat_eq,
  length-append, le→leb,
}
use ferrum_atlas.Prelude.Text.{Text, codes}
use ferrum_atlas.Prelude.Words.{as_u32, u32_max}
use ferrum_atlas.Model.Compiler.{CompilerBlock, CompilerTerminator}
use ferrum_atlas.Analysis.Envelope.{AnalysisControl}
use ferrum_atlas.Analysis.Complexity.Shape.{is_some}
use ferrum_atlas.Analysis.Complexity.Report.{
  CompilerComplexityLimits, CfgComplexityMetrics, CompilerComplexity, panicked, Leave, check,
  unsupported,
}
use ferrum_atlas.Analysis.Complexity.Measure.{
  Blocks, contains_key, is_real, exit_kind, Tally, push_site, tally_block, tally_blocks, block_at,
  measure, panic_unless, checked_sub, counts_message,
}
use ferrum_atlas.Analysis.Complexity.Blocks.{edges_of, contains_key-true}
use ferrum_atlas.Analysis.Complexity.Reach.{IsReachedSet}
use ferrum_atlas.Analysis.Complexity.Sums.{
  real_edges, imaginary_edges, exit_edges, at_block, sum_of, count_if-length, IsReachedSet-length,
  exits_bound,
}
use ferrum_atlas.Analysis.Complexity.Ends.{
  Ends, Ends-bind, Ends-map, Ends-sure, Ends-within, Ends-check,
}

as_u32-small : (n : ℕ) → n ≤ 40000 → as_u32 n ≡ n
as_u32-small n h = omega (arith, h)

-- The tally after some blocks, from the one before.
abbrev pub Counts : (ℕ → Option CompilerBlock) → List ℕ → Tally → Tally → Type 0
Counts block_of xs t u =
    (u.runtime_edges ≡ t.runtime_edges + sum_of real_edges block_of xs)
    × (u.excluded ≡ t.excluded + sum_of imaginary_edges block_of xs)
    × (length u.report.exit_sites ≡ length t.report.exit_sites + sum_of exit_edges block_of xs)
    × (u.report.metrics ≡ none)

pushed :
    (index : ℕ) (term : CompilerTerminator) (kind : Option Text) (report : CompilerComplexity)
    → length (push_site index term kind report).exit_sites
      ≡ length report.exit_sites + (if is_some kind then 1 else 0)
pushed index term none report = omega arith
pushed index term (some kind) report = omega (
  arith,
  length-append report.exit_sites (record { block = index; kind = kind; span = term.span } ∷ []),
)

pushed_metrics :
    (index : ℕ) (term : CompilerTerminator) (kind : Option Text) (report : CompilerComplexity)
    → (push_site index term kind report).metrics ≡ report.metrics
pushed_metrics index term none report = refl
pushed_metrics index term (some kind) report = refl

abbrev Counted : CompilerBlock → Tally → Tally → Type 0
Counted b t u =
    (u.runtime_edges ≡ t.runtime_edges + real_edges b)
    × (u.excluded ≡ t.excluded + imaginary_edges b)
    × (length u.report.exit_sites ≡ length t.report.exit_sites + exit_edges b)
    × (u.report.metrics ≡ none)

tally_block_lem :
    (index : ℕ) (b : CompilerBlock) (t : Tally)
    → t.report.metrics ≡ none
    → t.runtime_edges + t.excluded + edges_of b ≤ 20000
    → Ends (Counted b t) (tally_block index b.terminator t)
unfolding tally_block
tally_block_lem index b t none_yet small =
    let most = count_if-length (is_real b.terminator) b.terminator.successors in
    rw
      (
        as_u32-small (real_edges b) (omega (arith, most, small)),
        as_u32-small (edges_of b) (omega (arith, small)),
      )
      (Ends-bind (λ u. Unit {0}) (Counted b t) _ _
        (sure (leb (t.runtime_edges + real_edges b) u32_max)
          (le→leb _ _ (omega (arith, most, small))))
        λ u x.
          Ends-bind (λ u. Unit {0}) (Counted b t) _ _
            (sure (leb (real_edges b) (edges_of b)) (le→leb _ _ most))
            λ v y.
              Ends-bind (λ u. Unit {0}) (Counted b t) _ _
                (sure (leb (t.excluded + (edges_of b - real_edges b)) u32_max)
                  (le→leb _ _ (omega (arith, most, small))))
                λ w z. (
                  refl,
                  refl,
                  pushed index b.terminator (exit_kind b.terminator (real_edges b)) t.report,
                  pushed_metrics index b.terminator (exit_kind b.terminator (real_edges b)) t.report
                      ∙ none_yet,
                ))
  where
    sure : (test : Bool) → test ≡ true → Ends (λ (u : Unit {0}). Unit {0}) (panic_unless test)
    sure true h = tt
    sure false h = cc

block_at_lem :
    (blocks : Blocks) (index : ℕ)
    → contains_key blocks index ≡ true
    → Ends (λ b. lookup index blocks ≡ some b) (block_at blocks index)
block_at_lem blocks index has =
    let (b, e) = contains_key-true index blocks has in there (lookup index blocks) b e
  where
    there :
        (o : Option CompilerBlock) (b : CompilerBlock)
        → o ≡ some b
        → Ends
            (λ c. o ≡ some c)
            (elim o [ none ↦ err (Leave.failed panicked) | some block ↦ ok block ])
    there none b e = cc
    there (some c) b e = refl

pub tally_blocks_lem :
    (control : AnalysisControl) (clock : ℕ) (blocks : Blocks) (xs : List ℕ) (t : Tally)
    → t.report.metrics ≡ none
    → ((x : ℕ) → Mem x xs → contains_key blocks x ≡ true)
    → t.runtime_edges + t.excluded + sum_of edges_of (λ k. lookup k blocks) xs ≤ 20000
    → Ends (Counts (λ k. lookup k blocks) xs t) (tally_blocks control clock blocks xs t)
unfolding tally_blocks
tally_blocks_lem control clock blocks [] t none_yet has small =
    (omega arith, omega arith, omega arith, none_yet)
tally_blocks_lem control clock blocks (x ∷ xs) t none_yet has small =
    let Next = Counts (λ k. lookup k blocks) (x ∷ xs) t in
    Ends-bind (λ u. Unit {0}) Next (check control clock t.report) _
      (Ends-check control clock t.report none_yet)
      λ u y.
        Ends-bind (λ b. lookup x blocks ≡ some b) Next (block_at blocks x) _
          (block_at_lem blocks x (has x (inl refl)))
          λ b at.
            let here : at_block edges_of (lookup x blocks) ≡ edges_of b =
              ap (at_block edges_of) at in
            let most = count_if-length (is_real b.terminator) b.terminator.successors in
            Ends-bind (Counted b t) Next (tally_block x b.terminator t) _
              (tally_block_lem x b t none_yet (omega (arith, here, small)))
              λ more counted.
                Ends-map (Counts (λ k. lookup k blocks) xs more) Next
                  (tally_blocks control (suc clock) blocks xs more)
                  (tally_blocks_lem control (suc clock) blocks xs more counted.3
                    (λ z m. has z (inr m)) (omega (arith, here, small, most, counted.0, counted.1)))
                  λ u counts. (
                    omega (arith, ap (at_block real_edges) at, counts.0, counted.0),
                    omega (arith, ap (at_block imaginary_edges) at, counts.1, counted.1),
                    omega (arith, ap (at_block exit_edges) at, counts.2, counted.2),
                    counts.3,
                  )

-- The metrics of the blocks that the entry reaches along successors that are not imaginary: the
-- exit is one more node, and each block with an exit endpoint has one more edge.
pub record IsMeasure (block_of : ℕ → Option CompilerBlock) (m : CfgComplexityMetrics) : Type 0 where
  pub reached : List ℕ
  pub reached_set : IsReachedSet block_of reached
  pub runtime_blocks : m.runtime_blocks ≡ length reached
  pub runtime_edges : m.runtime_edges ≡ sum_of real_edges block_of reached
  pub excluded : m.excluded_imaginary_edges ≡ sum_of imaginary_edges block_of reached
  pub exit_count : m.synthetic_exit_edges ≡ sum_of exit_edges block_of reached
  pub nodes : m.nodes ≡ suc (length reached)
  pub edges : m.edges ≡ m.runtime_edges + m.synthetic_exit_edges
  pub formula : m.cyclomatic + m.nodes ≡ m.edges + 2 * m.components
  pub positive : 1 ≤ m.cyclomatic
  pub connected : m.components ≡ 1

abbrev pub Measured : (ℕ → Option CompilerBlock) → CompilerComplexity → Type 0
Measured block_of report =
    (m : CfgComplexityMetrics) × (report.metrics ≡ some m) × IsMeasure block_of m

not_zero : (n : ℕ) → not (n == 0) ≡ true → 1 ≤ n
not_zero n h = ground arith

pub measure_lem :
    (control : AnalysisControl) (limits : CompilerComplexityLimits) (clock : ℕ)
    (block_of : ℕ → Option CompilerBlock) (reached : List ℕ) (start t : Tally)
    → start.runtime_edges ≡ 0
    → start.excluded ≡ 0
    → start.report.exit_sites ≡ []
    → Counts block_of reached start t
    → IsReachedSet block_of reached
    → sum_of real_edges block_of reached ≤ 20000
    → length reached ≤ 4096
    → Ends (Measured block_of) (measure control limits clock (length reached) t)
unfolding measure
measure_lem control limits clock block_of reached start t e0 x0 s0 counts set small few =
    let runtime : t.runtime_edges ≡ sum_of real_edges block_of reached =
      omega (arith, counts.0, e0) in
    let sites : length t.report.exit_sites ≡ sum_of exit_edges block_of reached =
      omega (arith, counts.2, ap length s0) in
    let exits = exits_bound block_of reached in
    let walk = IsReachedSet-length block_of reached set in
    let P = Measured block_of in
    let n : ℕ = length reached in
    let exit : ℕ = length t.report.exit_sites in
    let e : ℕ = t.runtime_edges + exit in
    rw
      (
        as_u32-small (length reached) (omega (arith, few)),
        as_u32-small (length t.report.exit_sites) (omega (arith, few, sites, exits)),
      )
      (Ends-bind {A = Unit {0}} (λ u. not (exit == 0) ≡ true) P _ _
        (Ends-exit (not (exit == 0)) t.report counts.3)
        λ u some_exit.
          let one = not_zero exit some_exit in
          Ends-bind {A = Unit {0}} (λ u. leb (n + 1) u32_max ≡ true) P _ _
            (Ends-sure (leb (n + 1) u32_max) (Leave.failed panicked)
              (le→leb (n + 1) u32_max (omega (arith, few))))
            λ v y.
              Ends-bind {A = Unit {0}} (λ u. leb e u32_max ≡ true) P _ _
                (Ends-sure (leb e u32_max) (Leave.failed panicked)
                  (le→leb e u32_max (omega (arith, small, runtime, few, sites, exits))))
                λ w z.
                  Ends-bind {A = Unit {0}} (λ u. leb e limits.max_edges ≡ true) P _ _
                    (Ends-within (leb e limits.max_edges) t.report _ counts.3)
                    λ a b.
                      Ends-bind {A = Unit {0}} (λ u. Unit {0}) P (check control clock t.report) _
                        (Ends-check control clock t.report counts.3)
                        λ c d.
                          Ends-bind {A = Unit {0}} (λ u. leb (e + 2) u32_max ≡ true) P _ _
                            (Ends-sure (leb (e + 2) u32_max) _ (
                              le→leb (e + 2) u32_max
                                (omega (arith, small, runtime, few, sites, exits))))
                            λ f g.
                              Ends-bind {A = ℕ} (λ m. m ≡ e + 2 - (n + 1)) P
                                (checked_sub (e + 2) (n + 1) counts_message) _
                                (Ends-sub (e + 2) (n + 1) counts_message
                                  (omega (arith, runtime, walk, one)))
                                λ m eq. (
                                  _,
                                  refl,
                                  record {
                                    reached = reached;
                                    reached_set = set;
                                    runtime_blocks = refl;
                                    runtime_edges = runtime;
                                    excluded = omega (arith, counts.1, x0);
                                    exit_count = sites;
                                    nodes = omega arith;
                                    edges = refl;
                                    formula = omega (arith, eq, runtime, walk, one);
                                    positive = omega (arith, eq, runtime, walk, one);
                                    connected = refl;
                                  },
                                ))
  where
    Ends-exit :
        (test : Bool) (report : CompilerComplexity)
        → report.metrics ≡ none
        → Ends
            (λ (u : Unit {0}). test ≡ true)
            (ensure test (
              Leave.finished (
                unsupported report (
                  codes
                    "No terminal or external-unwind exit endpoint exists; exit-normalized cyclomatic value is unavailable"))))
    Ends-exit true report h = refl
    Ends-exit false report h = unfold unsupported in h

    Ends-sub : (a b : ℕ) (message : Text) → b ≤ a → Ends (λ n. n ≡ a - b) (checked_sub a b message)
    Ends-sub a b message h = rw (le→leb b a h) refl
