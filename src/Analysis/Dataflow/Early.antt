-- ===== src/Analysis/Dataflow/Early.antt =====
-- crates/analysis/src/dataflow.rs: a report that is returned before the emission makes no claim and is
-- marked as truncated.
use ferrum_atlas.Prelude.{
  refl, ℕ, zero, suc, ◌+◌, List, [], ◌∷◌, Bool, true, false, not, ◌||◌, Option, none, some, length,
  ltb, ◌==◌, nat_eq, if◌then◌else◌, lookup,
}
use ferrum_atlas.Prelude.Text.{Text, codes}
use ferrum_atlas.Model.Compiler.{
  CompilerLocalEffects, CompilerStatement, CompilerBlock, CompilerBody, CompilerSuccessor,
  CompilerEdgeKind, edge_kind_eq,
}
use ferrum_atlas.Analysis.Envelope.{AnalysisControl, note_partial}
use ferrum_atlas.Analysis.Dataflow.Facts.{DataflowLimits, State, state_eq, facts, Value}
use ferrum_atlas.Analysis.Dataflow.Run.{
  M, forget_missing, merge_values, join, returned, unsupported, limit_when, limited, exit, ◌>>◌,
  edit,
}
use ferrum_atlas.Analysis.Dataflow.Input.{
  check_references, check_effects, check_successors, check_block, check_blocks, add_locals,
  is_well_formed,
}
use ferrum_atlas.Analysis.Dataflow.Solve.{
  Flow, argument_state, index_map, leave, not_converged, flow_statements, retain, merge_into,
  flow_edge, flow_edges, flow_block, solve,
}
use ferrum_atlas.Analysis.Dataflow.Report.{Sizes, check_input, blocks_of, is_zero}
use ferrum_atlas.Analysis.Dataflow.Ends.{
  Ends-bind, Ends-then, Ends-pure, Ends-when, Ends-invalid, Early, check-Early, limit_when-Early,
}

check_references-Early :
    (limits : DataflowLimits) (locals : List ℕ) (message : Text) (n : ℕ) (rest : List ℕ)
    → Early (check_references limits locals message n rest)
unfolding check_references
check_references-Early limits locals message n [] = Ends-pure n
check_references-Early limits locals message n (local ∷ rest) =
    Ends-then (limit_when-Early _ _)
      (Ends-then (Ends-invalid _ _) (check_references-Early limits locals message (suc n) rest))

check_effects-Early :
    (control : AnalysisControl) (limits : DataflowLimits) (locals : List ℕ) (n : ℕ)
    (es : List CompilerLocalEffects)
    → Early (check_effects control limits locals n es)
unfolding check_effects
check_effects-Early control limits locals n [] = Ends-pure n
check_effects-Early control limits locals n (e ∷ es) =
    Ends-bind (check_references-Early limits locals _ (suc n) _) λ m.
      Ends-then (limit_when-Early _ _) (
        Ends-then (check-Early control)
          (check_effects-Early control limits locals (m + length e.unknown_effects) es))

unsupported-Early : (message : Text) → Early (unsupported message)
unfolding note_partial
unsupported-Early message = record { ended = λ s i. i }

check_successors-Early :
    (limits : DataflowLimits) (blocks : List (ℕ × CompilerBlock)) (n : ℕ)
    (edges : List CompilerSuccessor)
    → Early (check_successors limits blocks n edges)
unfolding check_successors
check_successors-Early limits blocks n [] = Ends-pure n
check_successors-Early limits blocks n (edge ∷ edges) = Ends-then (limit_when-Early _ _) (
    Ends-then (Ends-invalid _ _) (
      Ends-then (Ends-when _ (unsupported-Early _))
        (check_successors-Early limits blocks (suc n) edges)))

check_block-Early :
    (control : AnalysisControl) (limits : DataflowLimits) (blocks : List (ℕ × CompilerBlock))
    (locals : List ℕ) (n : ℕ) (block : CompilerBlock)
    → Early (check_block control limits blocks locals n block)
unfolding check_block
check_block-Early control limits blocks locals n block = Ends-then (check-Early control) (
    Ends-then (limit_when-Early _ _) (
      Ends-then (Ends-invalid _ _) (
        Ends-bind (check_effects-Early control limits locals n _) λ m.
          Ends-bind (check_references-Early limits locals _ m _) λ k.
            Ends-bind (check_successors-Early limits blocks k _)
              λ e. Ends-then (limit_when-Early _ _) (Ends-pure e))))

check_blocks-Early :
    (control : AnalysisControl) (limits : DataflowLimits) (blocks : List (ℕ × CompilerBlock))
    (locals : List ℕ) (n : ℕ) (rest : List (ℕ × CompilerBlock))
    → Early (check_blocks control limits blocks locals n rest)
unfolding check_blocks
check_blocks-Early control limits blocks locals n [] = Ends-pure n
check_blocks-Early control limits blocks locals n ((index, block) ∷ rest) =
    Ends-bind (check_block-Early control limits blocks locals n block)
      λ m. check_blocks-Early control limits blocks locals m rest

pub check_input-Early :
    (control : AnalysisControl) (sizes : Sizes) (body : CompilerBody) (limits : DataflowLimits)
    → Early (check_input control sizes body limits)
unfolding check_input
check_input-Early control sizes body limits =
    let blocks = blocks_of body in
    let locals = add_locals [] body.locals in
    Ends-then (check-Early control) (
      Ends-then (limit_when-Early _ _) (
        Ends-then (limit_when-Early (not sizes.body_fits) _) (
          Ends-then
            (Ends-invalid (is_zero (length body.blocks) || is_zero (length body.locals))
              (codes "a MIR body requires an entry block and a return local"))
            (Ends-then
              (Ends-invalid (not (is_well_formed body blocks locals))
                (codes "duplicate or missing entry block, return local, or argument local"))
              (Ends-bind
                (check_blocks-Early control limits blocks locals (length blocks + length locals)
                  blocks)
                λ n.
                  Ends-then
                    (limit_when-Early
                      (ltb limits.max_facts (facts (argument_state body.argument_count)))
                      (codes "Argument state exceeds the retained fact budget"))
                    (Ends-pure blocks))))))

Ends-if : {A : Type 0} (test : Bool) {m k : M A} → Early m → Early k → Early (if test then m else k)
Ends-if true h k = h
Ends-if false h k = k

index_map-Early : {V : Type 0} (o : Option V) → Early (index_map o)
index_map-Early none = record { ended = λ s i. tt }
index_map-Early (some v) = Ends-pure v

module _ (control : AnalysisControl) where
  forget_missing-Early :
      (other : State) (vs : List (ℕ × Value)) → Early (forget_missing control other vs)
  unfolding forget_missing
  forget_missing-Early other [] = Ends-pure []
  forget_missing-Early other ((local, value) ∷ vs) =
      Ends-then (check-Early control)
        (Ends-bind (forget_missing-Early other vs) λ rest. Ends-pure _)

  merge_values-Early : (vs values : List (ℕ × Value)) → Early (merge_values control values vs)
  unfolding merge_values
  merge_values-Early [] values = Ends-pure values
  merge_values-Early ((local, value) ∷ vs) values =
      Ends-then (check-Early control) (merge_values-Early vs _)

  join-Early : (s other : State) → Early (join control s other)
  unfolding join
  join-Early s other =
      Ends-bind (forget_missing-Early other s.values)
        λ kept. Ends-bind (merge_values-Early other.values kept) λ values. Ends-pure _

  module _ (limits : DataflowLimits) where
    flow_statements-Early :
        (block : ℕ) (sts : List CompilerStatement) (s : State)
        → Early (flow_statements control limits block sts s)
    unfolding flow_statements
    flow_statements-Early block [] s = Ends-pure s
    flow_statements-Early block (st ∷ sts) s =
        Ends-then (check-Early control)
          (Ends-then (limit_when-Early _ _) (flow_statements-Early block sts _))

    retain-Early :
        (target previous : ℕ) (outgoing : State) (f : Flow)
        → Early (retain limits target previous outgoing f)
    unfolding retain
    retain-Early target previous outgoing f = Ends-then (limit_when-Early _ _) (Ends-pure _)

    merge_into-Early :
        (target : ℕ) (outgoing : State) (previous : Option State) (f : Flow)
        → Early (merge_into control limits target outgoing previous f)
    unfolding merge_into
    merge_into-Early target outgoing none f = retain-Early target 0 outgoing f
    merge_into-Early target outgoing (some previous) f =
        Ends-bind (join-Early previous outgoing) λ merged.
          Ends-if (merged == previous) (Ends-pure f) (retain-Early target (facts previous) merged f)

    flow_edge-Early :
        (block : CompilerBlock) (index : ℕ) (s : State) (edge : CompilerSuccessor) (f : Flow)
        → Early (flow_edge control limits block index s edge f)
    unfolding flow_edge
    flow_edge-Early block index s edge f =
        Ends-if (edge.kind == CompilerEdgeKind.imaginary) (Ends-pure f) (
          Ends-then (check-Early control) (
            merge_into-Early edge.target (leave block index edge s) (lookup edge.target f.entries)
              f))

    flow_edges-Early :
        (block : CompilerBlock) (index : ℕ) (s : State) (edges : List CompilerSuccessor) (f : Flow)
        → Early (flow_edges control limits block index s edges f)
    unfolding flow_edges
    flow_edges-Early block index s [] f = Ends-pure f
    flow_edges-Early block index s (edge ∷ edges) f =
        Ends-bind (flow_edge-Early block index s edge f) λ g. flow_edges-Early block index s edges g

    flow_block-Early :
        (blocks : List (ℕ × CompilerBlock)) (index : ℕ) (f : Flow)
        → Early (flow_block control limits blocks index f)
    unfolding flow_block
    flow_block-Early blocks index f = Ends-bind (index_map-Early (lookup index blocks)) λ block.
        Ends-bind (index_map-Early (lookup index f.entries)) λ s.
          Ends-bind (flow_statements-Early index block.statements s)
            λ t. Ends-then (limit_when-Early _ _) (flow_edges-Early block index _ _ f)

    stops-Early :
        {A : Type 0} → Early (limit_when true not_converged returned >> exit {A = A} returned)
    unfolding limit_when limited note_partial
    stops-Early = record { ended = λ s i. (i, refl) }

    count-Early : Early (edit (λ r. record r { iterations = suc r.iterations }))
    count-Early = record { ended = λ s i. i }

    pub solve-Early :
        (blocks : List (ℕ × CompilerBlock)) (left : ℕ) (entries : List (ℕ × State))
        (worklist : List ℕ) (retained : ℕ)
        → Early (solve control limits blocks left entries worklist retained)
    unfolding solve
    solve-Early blocks left entries [] retained = Ends-pure entries
    solve-Early blocks zero entries (index ∷ rest) retained =
        Ends-then (check-Early control) stops-Early
    solve-Early blocks (suc left) entries (index ∷ rest) retained =
        Ends-then (check-Early control) (
          Ends-then count-Early (
            Ends-bind
              (flow_block-Early blocks index
                (record { entries = entries; worklist = rest; retained = retained }))
              λ f. solve-Early blocks left f.entries f.worklist f.retained))
