-- ===== src/Analysis/Dataflow/Input.antt =====
-- crates/analysis/src/dataflow.rs: the validation of the body and its budgets.
use ferrum_atlas.Prelude.{
  ℕ, zero, suc, ◌+◌, List, [], ◌∷◌, ◌++◌, Bool, true, not, ◌&&◌, length, all, any, map, ltb, ◌==◌,
  nat_eq, nat_ord, insert, set_insert,
}
use ferrum_atlas.Prelude.Text.{Text, text_eq, codes}
use ferrum_atlas.Model.Compiler.{
  CompilerLocalEffects, CompilerLocal, CompilerStatement, CompilerBlock, CompilerBody,
  CompilerSuccessor, CompilerEdgeKind, edge_kind_eq,
}
use ferrum_atlas.Analysis.Envelope.{AnalysisControl}
use ferrum_atlas.Analysis.Dataflow.Facts.{DataflowLimits}
use ferrum_atlas.Analysis.Dataflow.Run.{
  M, ◌>>=◌, ◌>>◌, pure, exit, when, returned, invalid, unsupported, check, limit_when,
}

abbrev pub add_blocks : List (ℕ × CompilerBlock) → List CompilerBlock → List (ℕ × CompilerBlock)
add_blocks m [] = m
add_blocks m (b ∷ bs) = add_blocks (insert b.index b m) bs

abbrev pub add_locals : List ℕ → List CompilerLocal → List ℕ
add_locals s [] = s
add_locals s (l ∷ ls) = add_locals (set_insert l.index s) ls

abbrev pub contains : List ℕ → ℕ → Bool
contains s n = any (λ m. m == n) s

abbrev pub contains_key : List (ℕ × CompilerBlock) → ℕ → Bool
contains_key m n = any (λ e. e.0 == n) m

-- `first..first + count`.
abbrev pub range : ℕ → ℕ → List ℕ
range first zero = []
range first (suc count) = first ∷ range (suc first) count

abbrev pub local_references : CompilerLocalEffects → List ℕ
local_references e = e.defs ++ e.uses ++ e.moves ++ e.storage_live ++ e.storage_dead

abbrev pub is_well_formed : CompilerBody → List (ℕ × CompilerBlock) → List ℕ → Bool
is_well_formed body blocks locals =
    length blocks == length body.blocks
    && length locals == length body.locals
    && contains_key blocks 0
    && contains locals 0
    && ltb body.argument_count (length body.locals)
    && all (contains locals) (range 1 body.argument_count)

abbrev pub input_budget : Text
input_budget = codes "Selected body exceeds the input fact budget"

-- One local that the loops count: the budget comes first, then the reference.
unfoldable pub check_references : DataflowLimits → List ℕ → Text → ℕ → List ℕ → M ℕ
check_references limits locals message n [] = pure n
check_references limits locals message n (local ∷ rest) = do
  limit_when (ltb limits.max_facts (suc n)) input_budget returned
  when (not (contains locals local)) (exit (invalid message))
  check_references limits locals message (suc n) rest

unfoldable pub check_effects :
    AnalysisControl → DataflowLimits → List ℕ → ℕ → List CompilerLocalEffects → M ℕ
check_effects control limits locals n [] = pure n
check_effects control limits locals n (e ∷ es) = do
  m ←
      check_references limits locals (codes "local effects reference a missing local") (suc n)
        (local_references e)
  let facts = m + length e.unknown_effects
  limit_when (ltb limits.max_facts facts) input_budget returned
  check control returned
  check_effects control limits locals facts es

unfoldable pub check_successors :
    DataflowLimits → List (ℕ × CompilerBlock) → ℕ → List CompilerSuccessor → M ℕ
check_successors limits blocks n [] = pure n
check_successors limits blocks n (edge ∷ edges) = do
  limit_when (ltb limits.max_facts (suc n)) input_budget returned
  when (not (contains_key blocks edge.target))
      (exit (invalid (codes "successor references a missing block")))
  when (edge.kind == CompilerEdgeKind.imaginary) (
      unsupported (codes "Imaginary compiler edges are excluded from runtime reaching definitions"))
  check_successors limits blocks (suc n) edges

abbrev pub in_order : ℕ → List CompilerStatement → Bool
in_order n [] = true
in_order n (s ∷ ss) = s.index == n && in_order (suc n) ss

abbrev pub block_effects : CompilerBlock → List CompilerLocalEffects
block_effects block = map (λ s. s.locals) block.statements ++ block.terminator.locals ∷ []

unfoldable pub check_block :
    AnalysisControl → DataflowLimits → List (ℕ × CompilerBlock) → List ℕ → ℕ → CompilerBlock → M ℕ
check_block control limits blocks locals n block = do
  check control returned
  limit_when (ltb limits.max_facts (n + length block.statements)) input_budget returned
  when (not (in_order 0 block.statements))
      (exit (invalid (codes "statement indices must match their execution order")))
  after_effects ← check_effects control limits locals n (block_effects block)
  after_returns ←
      check_references limits locals (codes "normal-return assignment references a missing local")
        after_effects block.terminator.normal_return_defs
  after_edges ← check_successors limits blocks after_returns block.terminator.successors
  limit_when (ltb limits.max_facts after_edges) input_budget returned
  pure after_edges

unfoldable pub check_blocks :
    AnalysisControl
    → DataflowLimits
    → List (ℕ × CompilerBlock)
    → List ℕ
    → ℕ
    → List (ℕ × CompilerBlock)
    → M ℕ
check_blocks control limits blocks locals n [] = pure n
check_blocks control limits blocks locals n ((index, block) ∷ rest) = do
  m ← check_block control limits blocks locals n block
  check_blocks control limits blocks locals m rest
