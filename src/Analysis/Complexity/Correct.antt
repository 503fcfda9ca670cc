-- ===== src/Analysis/Complexity/Correct.antt =====
-- crates/analysis/src/compiler_complexity.rs: `analyze_compiler_complexity` publishes the right
-- measure, and fails only for its input.
use ferrum_atlas.Prelude.{
  inl, inr, ◌≡◌, refl, sym, ◌∙◌, subst, ℕ, suc, ◌≤◌, ◌+◌, List, [], true, false, Option, none, some,
  ok, err, length, leb, arith, lookup, Mem, nat_eq, length-map, leb→le,
}
use ferrum_atlas.Prelude.Text.{Text-discrete, codes}
use ferrum_atlas.Prelude.Ascending.{Ascending-length}
use ferrum_atlas.Model.Compiler.{CompilerBlock}
use ferrum_atlas.Model.Flow.{CompilerFlowPage}
use ferrum_atlas.Analysis.Envelope.{AnalysisControl, invalid_input, budget_exhausted}
use ferrum_atlas.Analysis.Complexity.Report.{
  CompilerComplexityLimits, CfgComplexityMetrics, CompilerComplexity, Library, Failure, refused,
  check, new_complexity,
}
use ferrum_atlas.Analysis.Complexity.Measure.{
  Blocks, contains_key, keys, Tally, tally_blocks, with_locations, link_blocks, visit, read_blocks,
  counts_message, measure_graph, are_valid_limits, is_whole, is_available, analyze_flow,
  analyze_compiler_complexity,
}
use ferrum_atlas.Analysis.Complexity.Blocks.{total, IsIndexed, IsRead, find_block}
use ferrum_atlas.Analysis.Complexity.Read.{read_blocks_lem}
use ferrum_atlas.Analysis.Complexity.Links.{IsLinked, link_blocks_lem}
use ferrum_atlas.Analysis.Complexity.Reach.{
  IsDfs, IsReachedSet, visit-IsReachedSet, Reachable-key, keys-Mem,
}
use ferrum_atlas.Analysis.Complexity.Sums.{sum_of-total, sum_of-real_edges}
use ferrum_atlas.Analysis.Complexity.Cyclomatic.{
  Counts, tally_blocks_lem, IsMeasure, Measured, measure_lem,
}
use ferrum_atlas.Analysis.Complexity.Ends.{
  is_internal, Ends, Ends-bind, Ends-map, Ends-require, Ends-within, Ends-check, Returns,
  Returns-conclude,
}

entry_fine :
    is_internal (refused (invalid_input (codes "compiler CFG has no entry block bb0"))) ≡ false
unfolding is_internal counts_message Text-discrete
entry_fine = refl

limits_fine :
    is_internal (
      refused (
        invalid_input (
          codes
            "CFG limits require 1..4096 blocks, 1..20000 edges and 1024..2097152 response bytes")))
    ≡ false
unfolding is_internal counts_message Text-discrete
limits_fine = refl

whole_fine :
    is_internal (
      refused (
        invalid_input
          (codes "compiler complexity requires the complete body, not a paginated block window")))
    ≡ false
unfolding is_internal counts_message Text-discrete
whole_fine = refl

available_fine :
    is_internal (
      refused (
        invalid_input
          (codes "compiler complexity requires an available validated runtime_optimized import")))
    ≡ false
unfolding is_internal counts_message Text-discrete
available_fine = refl

bytes_fine : is_internal (refused budget_exhausted) ≡ false
unfolding is_internal
bytes_fine = refl

module _ (lib : Library) (search : IsDfs lib.dfs) (control : AnalysisControl)
    (limits : CompilerComplexityLimits) where
  measure_graph_lem :
      (report : CompilerComplexity) (clock : ℕ) (blocks : Blocks)
      → report.metrics ≡ none
      → report.exit_sites ≡ []
      → IsIndexed blocks
      → total blocks ≤ 20000
      → length blocks ≤ 4096
      → Ends
          (Measured (λ k. lookup k blocks))
          (measure_graph lib control limits report clock blocks)
  unfolding measure_graph with_locations
  measure_graph_lem report clock blocks none_yet no_sites indexed small few =
      let at : ℕ → Option CompilerBlock = λ k. lookup k blocks in
      let P = Measured at in
      Ends-bind {A = Unit {0}} (λ u. contains_key blocks 0 ≡ true) P _ _
        (Ends-require (contains_key blocks 0) _ entry_fine)
        λ u has.
          Ends-bind (IsLinked blocks blocks) P (link_blocks control report clock blocks blocks) _
            (link_blocks_lem control report clock blocks blocks none_yet indexed)
            λ edges linked.
              let order : List ℕ = lib.dfs (record { nodes = keys blocks; edges = edges }) 0 in
              let visited : ℕ = clock + length blocks + length order in
              Ends-bind (IsReachedSet at) P (visit control report (clock + length blocks) [] order)
                _
                (visit-IsReachedSet control report (clock + length blocks) blocks edges lib.dfs
                  search none_yet has linked)
                λ reached set.
                  let inside = λ (x : ℕ) (m : Mem x reached).
                    Reachable-key blocks edges has linked (set.sound x m) in
                  let most = sum_of-total reached blocks set.rising in
                  let start : Tally = record {
                    report = with_locations report blocks reached;
                    runtime_edges = 0;
                    excluded = 0;
                  } in
                  Ends-bind (Counts at reached start) P
                    (tally_blocks control visited blocks reached start) _
                    (tally_blocks_lem control visited blocks reached start none_yet inside
                      (omega (arith, most, small)))
                    λ tally counts.
                      measure_lem control limits (visited + length reached) at reached start tally
                        refl refl no_sites counts set
                        (omega (arith, sum_of-real_edges at reached, most, small))
                        (omega (
                          arith,
                          few,
                          length-map blocks (λ (e : ℕ × CompilerBlock). e.0),
                          Ascending-length reached (keys blocks) set.rising
                              (λ x m. keys-Mem x blocks (inside x m)),
                        ))

  analyze_flow_lem :
      (page : CompilerFlowPage)
      → Ends (Measured (λ k. find_block k page.body.blocks)) (analyze_flow lib page limits control)
  unfolding analyze_flow new_complexity are_valid_limits
  analyze_flow_lem page =
      let at : ℕ → Option CompilerBlock = λ k. find_block k page.body.blocks in
      let P = Measured at in
      let report : CompilerComplexity = new_complexity lib page limits in
      Ends-bind {A = Unit {0}} (λ u. are_valid_limits limits ≡ true) P _ _
        (Ends-require (are_valid_limits limits) _ limits_fine)
        λ a valid.
          Ends-bind {A = Unit {0}} (λ u. leb (lib.page_bytes page) 4194304 ≡ true) P _ _
            (Ends-require (leb (lib.page_bytes page) 4194304) _ bytes_fine)
            λ b page_fits.
              Ends-bind {A = Unit {0}} (λ u. is_whole page ≡ true) P _ _
                (Ends-require (is_whole page) _ whole_fine)
                λ c whole.
                  Ends-bind {A = Unit {0}} (λ u. is_available page ≡ true) P _ _
                    (Ends-require (is_available page) _ available_fine)
                    λ d available.
                      Ends-bind {A = Unit {0}} (λ u. Unit {0}) P (check control 0 report) _
                        (Ends-check control 0 report refl)
                        λ e z.
                          Ends-bind {A = Unit {0}}
                            (λ u. leb (length page.body.blocks) limits.max_blocks ≡ true) P _ _
                            (Ends-within (leb (length page.body.blocks) limits.max_blocks) report _
                              refl)
                            λ f fits.
                              let bounds : (limits.max_edges ≤ 20000) × (limits.max_blocks ≤ 4096) =
                                ground (arith, valid) in
                              Ends-bind (IsRead limits [] page.body.blocks) P
                                (read_blocks control limits report 1 [] 0 page.body.blocks) _
                                (read_blocks_lem control limits report 1 [] 0 page.body.blocks refl
                                  tt refl (omega arith))
                                λ blocks read.
                                  Ends-map (Measured (λ k. lookup k blocks)) P
                                    (measure_graph lib control limits report
                                      (suc (length page.body.blocks)) blocks)
                                    (measure_graph_lem report (suc (length page.body.blocks)) blocks
                                      refl refl read.indexed (omega (arith, read.bounded, bounds.0))
                                      (omega (
                                        arith,
                                        read.counted,
                                        leb→le (length page.body.blocks) limits.max_blocks fits,
                                        bounds.1,
                                      )))
                                    (λ out. subst (λ g. Measured g out) (λ i k. read.found k i))

  analyze_lem :
      (page : CompilerFlowPage)
      → Returns
          (Measured (λ k. find_block k page.body.blocks))
          (analyze_compiler_complexity lib page limits control)
  unfolding analyze_compiler_complexity
  analyze_lem page =
      Returns-conclude (Measured (λ k. find_block k page.body.blocks)) lib limits
        (analyze_flow lib page limits control) (analyze_flow_lem page)

Returns-metrics :
    (block_of : ℕ → Option CompilerBlock) (out : CompilerComplexity) (m : CfgComplexityMetrics)
    → Returns (Measured block_of) (ok out)
    → out.metrics ≡ some m
    → IsMeasure block_of m
Returns-metrics block_of out m (inl none_left) h = cc
Returns-metrics block_of out m (inr (r, same, measured)) h =
    let (n, has, is) = measured in
    subst (IsMeasure block_of) (λ i. unwrap ((sym has ∙ sym same ∙ h) i)) is
  where
    unwrap : Option CfgComplexityMetrics → CfgComplexityMetrics
    unwrap none = m
    unwrap (some x) = x

-- When the search visits exactly the nodes that the edges of a graph reach, metrics that the
-- function publishes are those of the blocks of the page: the set of the blocks that block 0 reaches
-- along successors that are not imaginary has `runtime_blocks` elements, their successors that are
-- not imaginary are `runtime_edges`, the others are `excluded_imaginary_edges`, those with an exit
-- endpoint are `synthetic_exit_edges`, `nodes` counts one more block and `edges` both kinds of edges,
-- `cyclomatic` is E - N + 2P with P = 1, and it is at least 1.
pub analyze_compiler_complexity-IsMeasure :
    (lib : Library) (page : CompilerFlowPage) (limits : CompilerComplexityLimits)
    (control : AnalysisControl) (report : CompilerComplexity) (m : CfgComplexityMetrics)
    → IsDfs lib.dfs
    → analyze_compiler_complexity lib page limits control ≡ ok report
    → report.metrics ≡ some m
    → IsMeasure (λ k. find_block k page.body.blocks) m
analyze_compiler_complexity-IsMeasure lib page limits control report m search runs has =
    let at : ℕ → Option CompilerBlock = λ k. find_block k page.body.blocks in
    Returns-metrics at report m
      (subst (Returns (Measured at)) runs (analyze_lem lib search control limits page)) has

-- When the search visits exactly the nodes that the edges of a graph reach, the function does not
-- panic, neither for a missing index nor for an overflow, and does not return the error `invalid
-- connected normalized CFG counts`, whatever the page, the limits and the control.
pub analyze_compiler_complexity-is_internal :
    (lib : Library) (page : CompilerFlowPage) (limits : CompilerComplexityLimits)
    (control : AnalysisControl) (failure : Failure)
    → IsDfs lib.dfs
    → analyze_compiler_complexity lib page limits control ≡ err failure
    → is_internal failure ≡ false
analyze_compiler_complexity-is_internal lib page limits control failure search fails =
    subst (Returns (Measured (λ k. find_block k page.body.blocks))) fails
      (analyze_lem lib search control limits page)
