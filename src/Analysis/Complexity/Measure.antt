-- ===== src/Analysis/Complexity/Measure.antt =====
-- crates/analysis/src/compiler_complexity.rs: `analyze_compiler_complexity`.
use ferrum_atlas.Prelude.{
  ℕ, suc, ◌+◌, ◌-◌, List, [], ◌∷◌, ◌++◌, Bool, not, ◌&&◌, ◌||◌, Option, none, some, Result, ok, err,
  bind, ensure, any, count_if, keep_if, length, map, leb, ◌==◌, nat_eq, nat_ord, insert, lookup,
  set_insert, if◌then◌else◌,
}
use ferrum_atlas.Prelude.Text.{Text, text_eq, codes}
use ferrum_atlas.Prelude.Words.{as_u32, u32_max}
use ferrum_atlas.Model.{status_eq, unavailable, Status}
use ferrum_atlas.Model.Compiler.{
  CompilerSuccessor, CompilerTerminator, continue_unwind, terminate, CompilerBlock,
}
use ferrum_atlas.Model.Flow.{CompilerFlowPage}
use ferrum_atlas.Analysis.Envelope.{AnalysisError, budget_exhausted, AnalysisControl}
use ferrum_atlas.Analysis.Complexity.Shape.{imaginary, contains, is_some, validate_graph_term}
use ferrum_atlas.Analysis.Complexity.Report.{
  CompilerComplexityLimits, CompilerComplexity, Library, Failure, refused, panicked, Leave,
  finished, Flow, ◌>>=◌, ◌>>◌, require, limited, unsupported, finish, check, new_complexity,
}

abbrev pub Blocks : Type 0
Blocks = List (ℕ × CompilerBlock)

abbrev pub contains_key : Blocks → ℕ → Bool
contains_key m n = any (λ e. e.0 == n) m

abbrev pub refuse : Result AnalysisError (Unit {0}) → Flow (Unit {0})
refuse (ok u) = ok u
refuse (err e) = err (Leave.failed (refused e))

-- `result?` after a test of a budget.
abbrev pub within : Bool → CompilerComplexity → Text → Flow (Unit {0})
within test report message = ensure test (finished (limited report message))

-- The loop over the blocks of the body, with the edges counted so far.
unfoldable pub read_blocks :
    AnalysisControl
    → CompilerComplexityLimits
    → CompilerComplexity
    → ℕ
    → Blocks
    → ℕ
    → List CompilerBlock
    → Flow Blocks
read_blocks control limits report clock blocks edges [] = ok blocks
read_blocks control limits report clock blocks edges (block ∷ rest) = do
  check control clock report
  require (not (contains_key blocks block.index)) (codes "duplicate compiler block index")
  let more = edges + length block.terminator.successors
  within (leb more limits.max_edges) report (codes "Compiler successor budget exhausted")
  refuse (validate_graph_term block.terminator)
  read_blocks control limits report (suc clock) (insert block.index block blocks) more rest

-- The edges that a block adds to the graph.
unfoldable pub link_edges : Blocks → CompilerBlock → List CompilerSuccessor → Flow (List (ℕ × ℕ))
link_edges blocks block [] = ok []
link_edges blocks block (edge ∷ rest) = do
  require (contains_key blocks edge.target) (codes "compiler successor references a missing block")
  more ← link_edges blocks block rest
  ok (if imaginary block.terminator edge.kind then more else (block.index, edge.target) ∷ more)

unfoldable pub link_blocks :
    AnalysisControl → CompilerComplexity → ℕ → Blocks → Blocks → Flow (List (ℕ × ℕ))
link_blocks control report clock blocks [] = ok []
link_blocks control report clock blocks ((k, block) ∷ rest) = do
  check control clock report
  own ← link_edges blocks block block.terminator.successors
  more ← link_blocks control report (suc clock) blocks rest
  ok (own ++ more)

-- The nodes that `Dfs` visits, as a set.
unfoldable pub visit : AnalysisControl → CompilerComplexity → ℕ → List ℕ → List ℕ → Flow (List ℕ)
visit control report clock reached [] = ok reached
visit control report clock reached (node ∷ order) = do
  check control clock report
  visit control report (suc clock) (set_insert node reached) order

abbrev pub is_real : CompilerTerminator → CompilerSuccessor → Bool
is_real term edge = not (imaginary term edge.kind)

unfoldable pub external : CompilerTerminator → Option Text
external term = if term.kind == codes "false_unwind" then none else elim term.unwind [
  | some continue_unwind ↦ some (codes "unwind_continue")
  | some (terminate reason) ↦ some (codes "unwind_terminate")
  | other ↦ none
]

unfoldable pub exit_kind : CompilerTerminator → ℕ → Option Text
exit_kind term successors = elim (external term) [
  | some kind ↦ some kind
  | none ↦ if successors == 0 then some (codes "terminal:" ++ term.kind) else none
]

-- The report with its exit sites, and the two counts.
pub record Tally : Type 0 where
  pub report : CompilerComplexity
  pub runtime_edges : ℕ
  pub excluded : ℕ

abbrev pub push_site :
    ℕ → CompilerTerminator → Option Text → CompilerComplexity → CompilerComplexity
push_site index term none report = report
push_site index term (some kind) report = record report {
  exit_sites = report.exit_sites ++ record { block = index; kind = kind; span = term.span } ∷ [];
}

abbrev pub panic_unless : Bool → Flow (Unit {0})
panic_unless test = ensure test (Leave.failed panicked)

-- One reached block: the additions and the subtraction of `u32` values panic out of range.
unfoldable pub tally_block : ℕ → CompilerTerminator → Tally → Flow Tally
tally_block index term t = do
  let successors = as_u32 (count_if (is_real term) term.successors)
  let all_edges = as_u32 (length term.successors)
  panic_unless (leb (t.runtime_edges + successors) u32_max)
  panic_unless (leb successors all_edges)
  panic_unless (leb (t.excluded + (all_edges - successors)) u32_max)
  ok (record {
    report = push_site index term (exit_kind term successors) t.report;
    runtime_edges = t.runtime_edges + successors;
    excluded = t.excluded + (all_edges - successors);
  })

-- `blocks[index]`.
abbrev pub block_at : Blocks → ℕ → Flow CompilerBlock
block_at blocks index = elim (lookup index blocks) [
  | none ↦ err (Leave.failed panicked)
  | some block ↦ ok block
]

unfoldable pub tally_blocks : AnalysisControl → ℕ → Blocks → List ℕ → Tally → Flow Tally
tally_blocks control clock blocks [] t = ok t
tally_blocks control clock blocks (index ∷ reached) t = do
  check control clock t.report
  block ← block_at blocks index
  more ← tally_block index block.terminator t
  tally_blocks control (suc clock) blocks reached more

abbrev pub checked_sub : ℕ → ℕ → Text → Flow ℕ
checked_sub a b message = bind (require (leb b a) message) λ _. ok (a - b)

unfoldable pub counts_message : Text
counts_message = codes "invalid connected normalized CFG counts"

-- From the tally to the metrics.
unfoldable pub measure :
    AnalysisControl → CompilerComplexityLimits → ℕ → ℕ → Tally → Flow CompilerComplexity
unfolding counts_message
measure control limits clock reached t = do
  ensure (not (length t.report.exit_sites == 0)) (
      finished (
        unsupported t.report (
          codes
            "No terminal or external-unwind exit endpoint exists; exit-normalized cyclomatic value is unavailable")))
  let synthetic = as_u32 (length t.report.exit_sites)
  panic_unless (leb (as_u32 reached + 1) u32_max)
  let nodes = as_u32 reached + 1
  panic_unless (leb (t.runtime_edges + synthetic) u32_max)
  let edges = t.runtime_edges + synthetic
  within (leb edges limits.max_edges) t.report (codes "Exit-normalized CFG edge budget exhausted")
  check control clock t.report
  require (leb (edges + 2) u32_max) counts_message
  cyclomatic ← checked_sub (edges + 2) nodes counts_message
  ok (record t.report {
    metrics = some (record {
      nodes = nodes;
      edges = edges;
      components = 1;
      cyclomatic = cyclomatic;
      runtime_blocks = as_u32 reached;
      runtime_edges = t.runtime_edges;
      synthetic_exit_edges = synthetic;
      excluded_imaginary_edges = t.excluded;
    });
  })

abbrev pub keys : Blocks → List ℕ
keys m = map (λ (e : ℕ × CompilerBlock). e.0) m

unfoldable pub with_locations : CompilerComplexity → Blocks → List ℕ → CompilerComplexity
with_locations report blocks reached = record report {
  reachable_blocks = reached;
  unreachable_blocks = keep_if (λ index. not (contains reached index)) (keys blocks);
}

-- Everything after the blocks are read.
unfoldable pub measure_graph :
    Library
    → AnalysisControl
    → CompilerComplexityLimits
    → CompilerComplexity
    → ℕ
    → Blocks
    → Flow CompilerComplexity
measure_graph lib control limits report clock blocks = do
  require (contains_key blocks 0) (codes "compiler CFG has no entry block bb0")
  edges ← link_blocks control report clock blocks blocks
  let order = lib.dfs (record { nodes = keys blocks; edges = edges }) 0
  let linked = clock + length blocks
  reached ← visit control report linked [] order
  let visited = linked + length order
  tally ←
      tally_blocks control visited blocks reached
        (record { report = with_locations report blocks reached; runtime_edges = 0; excluded = 0 })
  measure control limits (visited + length reached) (length reached) tally

unfoldable pub are_valid_limits : CompilerComplexityLimits → Bool
are_valid_limits limits =
    leb 1 limits.max_blocks
    && leb limits.max_blocks 4096
    && leb 1 limits.max_edges
    && leb limits.max_edges 20000
    && leb 1024 limits.max_response_bytes
    && leb limits.max_response_bytes 2097152

unfoldable pub is_whole : CompilerFlowPage → Bool
is_whole page =
    page.offset == 0
    && not (is_some page.next_offset)
    && page.total_blocks == length page.body.blocks

unfoldable pub is_available : CompilerFlowPage → Bool
is_available page =
    page.phase == codes "runtime_optimized"
    && (page.panic_strategy == codes "abort" || page.panic_strategy == codes "unwind")
    && not (page.coverage.status == Status.failed || page.coverage.status == unavailable)
    && not (page.import_id == codes "")
    && not (page.body.body_id == codes "")
    && not (page.input_manifest_hash == codes "")

unfoldable pub analyze_flow :
    Library
    → CompilerFlowPage
    → CompilerComplexityLimits
    → AnalysisControl
    → Flow CompilerComplexity
analyze_flow lib page limits control = do
  require (are_valid_limits limits)
      (codes "CFG limits require 1..4096 blocks, 1..20000 edges and 1024..2097152 response bytes")
  ensure (leb (lib.page_bytes page) 4194304) (Leave.failed (refused budget_exhausted))
  require (is_whole page)
      (codes "compiler complexity requires the complete body, not a paginated block window")
  require (is_available page)
      (codes "compiler complexity requires an available validated runtime_optimized import")
  let report = new_complexity lib page limits
  check control 0 report
  within (leb (length page.body.blocks) limits.max_blocks) report
      (codes "Compiler block budget exhausted")
  blocks ← read_blocks control limits report 1 [] 0 page.body.blocks
  measure_graph lib control limits report (suc (length page.body.blocks)) blocks

-- Both ways to a report end in `finish`.
abbrev pub conclude :
    Library → CompilerComplexityLimits → Flow CompilerComplexity → Result Failure CompilerComplexity
conclude lib limits (ok report) = finish lib limits report
conclude lib limits (err (finished report)) = finish lib limits report
conclude lib limits (err (Leave.failed failure)) = err failure

unfoldable pub analyze_compiler_complexity :
    Library
    → CompilerFlowPage
    → CompilerComplexityLimits
    → AnalysisControl
    → Result Failure CompilerComplexity
analyze_compiler_complexity lib page limits control =
    conclude lib limits (analyze_flow lib page limits control)
