-- ===== src/Analysis/Dataflow/Emits.antt =====
-- crates/analysis/src/dataflow.rs: the emission ends its block early with `break`, never the function.
use ferrum_atlas.Prelude.{
  ℕ, suc, ◌+◌, List, [], ◌∷◌, Bool, true, false, not, Option, none, some, length, ltb, lookup,
  Bool-cases, inl, inr, map,
}
use ferrum_atlas.Prelude.Text.{Text, codes}
use ferrum_atlas.Model.Compiler.{
  CompilerLocalEffects, CompilerBlock, CompilerBody, CompilerSuccessor, edge_kind_eq,
}
use ferrum_atlas.Analysis.Envelope.{AnalysisControl, stopped_at}
use ferrum_atlas.Analysis.Dataflow.Facts.{
  DataflowLimits, MirPoint, State, ReachingDefinitions, transfer,
}
use ferrum_atlas.Analysis.Dataflow.Run.{
  Run, M, exit, exhausted, edit, get, check, limited, limit_when, broken, unsupported,
}
use ferrum_atlas.Analysis.Dataflow.Solve.{index_map}
use ferrum_atlas.Analysis.Dataflow.Emit.{
  points, is_empty, change, output_budget, emit_point, emit_points, emit_returns, emit_edges,
  emit_blocks, definitions_at, local_use, push_definitions, push_unknown, push_uses, unresolved,
  use_facts, used_locals,
}
use ferrum_atlas.Analysis.Dataflow.Report.{Sizes, withhold, fit_response, emit, begin_output}
use ferrum_atlas.Analysis.Dataflow.Ends.{
  Ends, Ends-bind, Ends-then, Ends-pure, Ends-when, Ends-labelled,
}

abbrev pub Stays {ℓ} : {A : Type ℓ} → M A → Type ℓ
Stays m = Ends (λ s. Unit {0}) (λ s. ⊥) m

check-Stays : (control : AnalysisControl) → Stays (check control broken)
unfolding check
check-Stays control = record {
  ended = λ s i. elim (Bool-cases (stopped_at control s.clock)) [
    | inl stops ↦ rw stops tt
    | inr goes ↦ rw goes tt
  ];
}

limit_when-Stays : (test : Bool) (reason : Text) → Stays (limit_when test reason broken)
unfolding limit_when
limit_when-Stays true reason = record { ended = λ s i. tt }
limit_when-Stays false reason = Ends-pure tt

get-Stays : Stays get
get-Stays = record { ended = λ s i. tt }

change-Stays : (f : Run → Run) → Stays (change f)
change-Stays f = record { ended = λ s i. tt }

unsupported-Stays : (message : Text) → Stays (unsupported message)
unsupported-Stays message = record { ended = λ s i. tt }

index_map-Stays : {V : Type 0} (o : Option V) → Stays (index_map o)
index_map-Stays none = record { ended = λ s i. tt }
index_map-Stays (some v) = Ends-pure v

edit-Stays : (f : ReachingDefinitions → ReachingDefinitions) → Stays (edit f)
edit-Stays f = record { ended = λ s i. tt }

exhausted-Stays : Stays (exit {A = Unit {0}} exhausted)
exhausted-Stays = record { ended = λ s i. tt }

fit_response-Stays : (sizes : Sizes) → Stays (fit_response sizes)
unfolding fit_response
fit_response-Stays sizes = Ends-bind get-Stays λ run.
    Ends-when (not (sizes.report_fits run.report)) (
      Ends-then (edit-Stays withhold) (
        Ends-then
          (edit-Stays (
            limited
              (codes "Reaching-definition response exceeds the byte budget; claims withheld")))
          (Ends-bind get-Stays
            λ last. Ends-when (not (sizes.report_fits last.report)) exhausted-Stays)))

module _ (control : AnalysisControl) (limits : DataflowLimits) where
  emit_point-Stays :
      (point : MirPoint) (effects : CompilerLocalEffects) (s : State)
      → Stays (emit_point control limits point effects s)
  unfolding emit_point
  emit_point-Stays point effects s =
      let used = used_locals effects in
      let extra = use_facts s used + length effects.defs + length effects.unknown_effects in
      Ends-then (check-Stays control) (
        Ends-bind get-Stays λ run.
          let total = run.output_facts + extra in
          Ends-then (limit_when-Stays (ltb limits.max_facts total) output_budget) (
            Ends-then (change-Stays (push_uses total (map (local_use point effects s) used))) (
              Ends-then
                (Ends-when (not (is_empty effects.unknown_effects)) (
                  Ends-then (change-Stays (push_unknown point effects.unknown_effects))
                    (unsupported-Stays unresolved)))
                (Ends-then (change-Stays (push_definitions (definitions_at point effects.defs)))
                  (Ends-pure (transfer effects point s))))))

  emit_points-Stays :
      (ps : List (MirPoint × CompilerLocalEffects)) (s : State)
      → Stays (emit_points control limits ps s)
  unfolding emit_points
  emit_points-Stays [] s = Ends-pure tt
  emit_points-Stays ((point, effects) ∷ rest) s =
      Ends-bind (emit_point-Stays point effects s) λ t. emit_points-Stays rest t

  emit_returns-Stays :
      (point : MirPoint) (locals : List ℕ) → Stays (emit_returns limits point locals)
  unfolding emit_returns
  emit_returns-Stays point [] = Ends-pure tt
  emit_returns-Stays point (local ∷ locals) =
      Ends-then (change-Stays (λ r. record r { output_facts = suc r.output_facts })) (
        Ends-bind get-Stays λ run.
          Ends-then (limit_when-Stays (ltb limits.max_facts run.output_facts) output_budget) (
            Ends-then
              (change-Stays (push_definitions (record { local = local; point = point } ∷ [])))
              (emit_returns-Stays point locals)))

  emit_edges-Stays :
      (index : ℕ) (block : CompilerBlock) (edges : List CompilerSuccessor)
      → Stays (emit_edges limits index block edges)
  unfolding emit_edges
  emit_edges-Stays index block [] = Ends-pure tt
  emit_edges-Stays index block (edge ∷ edges) =
      Ends-then (Ends-when _ (emit_returns-Stays _ _)) (emit_edges-Stays index block edges)

  emit_blocks-Stays :
      (blocks : List (ℕ × CompilerBlock)) (entries : List (ℕ × State))
      → Stays (emit_blocks control limits blocks entries)
  unfolding emit_blocks
  emit_blocks-Stays blocks [] = Ends-pure tt
  emit_blocks-Stays blocks ((index, s) ∷ entries) =
      Ends-bind (index_map-Stays (lookup index blocks)) λ block.
        Ends-then (emit_points-Stays (points index block) s) (
          Ends-then (emit_edges-Stays index block block.terminator.successors)
            (emit_blocks-Stays blocks entries))

  pub emit-Stays :
      (sizes : Sizes) (body : CompilerBody) (blocks : List (ℕ × CompilerBlock))
      (entries : List (ℕ × State))
      → Stays (emit control sizes body limits blocks entries)
  unfolding emit
  emit-Stays sizes body blocks entries =
      Ends-then (change-Stays (begin_output body.argument_count entries)) (
        Ends-then (Ends-labelled (emit_blocks-Stays blocks entries)) (
          Ends-then
            (change-Stays
              (λ r. record r { report = record r.report { definitions = r.definitions } }))
            (fit_response-Stays sizes)))
