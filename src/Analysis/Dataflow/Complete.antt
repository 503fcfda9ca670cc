-- ===== src/Analysis/Dataflow/Complete.antt =====
-- What a run of crates/analysis/src/dataflow.rs to its end reports: every use of every execution.
use ferrum_atlas.Prelude.{
  ℕ, List, [], ◌∷◌, ◌++◌, ◌≡◌, sym, subst, ◌∙◌, Option, some, ok, arith, nat_eq, lookup, Mem,
  ℕ_discrete,
}
use ferrum_atlas.Model.Compiler.{CompilerLocalEffects, CompilerBlock}
use ferrum_atlas.Analysis.Envelope.{AnalysisControl}
use ferrum_atlas.Analysis.Dataflow.Facts.{DataflowLimits, MirPoint, LocalUse, State}
use ferrum_atlas.Analysis.Dataflow.Run.{Run, M, ◌>>◌, >>=-ok, >>-ok}
use ferrum_atlas.Analysis.Dataflow.Solve.{argument_state, index_map, solve}
use ferrum_atlas.Analysis.Dataflow.Emit.{points, emit_points, emit_edges, emit_blocks}
use ferrum_atlas.Analysis.Dataflow.Executions.{Memory, Arrives}
use ferrum_atlas.Analysis.Dataflow.Cover.{Covers}
use ferrum_atlas.Analysis.Dataflow.Advances.{Entries}
use ferrum_atlas.Analysis.Dataflow.Soundness.{index_map-ok}
use ferrum_atlas.Analysis.Dataflow.Fixpoint.{solve-Covers}
use ferrum_atlas.Analysis.Dataflow.Uses.{
  Stands, Reported, Reported-mono, emit_points-keeps, emit_points-reports, emit_edges-uses,
}

-- One round of the loop over the blocks, in its parts.
emit_blocks-cons :
    (control : AnalysisControl) (limits : DataflowLimits) (blocks : List (ℕ × CompilerBlock))
    (index : ℕ) (a : State) (entries : Entries) (s u : Run)
    → emit_blocks control limits blocks ((index, a) ∷ entries) s ≡ (ok tt, u)
    → (block : CompilerBlock) × (s1 : Run) × (s2 : Run) × (s3 : Run) × (lookup index blocks
        ≡ some block)
      × (emit_points control limits (points index block) a s1 ≡ (ok tt, s2))
      × (s1.report.uses ≡ s.report.uses)
      × (s3.report.uses ≡ s2.report.uses)
      × (emit_blocks control limits blocks entries s3 ≡ (ok tt, u))
unfolding emit_blocks
emit_blocks-cons control limits blocks index a entries s u h =
    let last : M (Unit {0}) = emit_blocks control limits blocks entries in
    let edges : CompilerBlock → M (Unit {0}) =
      λ block. emit_edges limits index block block.terminator.successors in
    let all_points : CompilerBlock → M (Unit {0}) =
      λ block. emit_points control limits (points index block) a in
    let (block, s1, found, h1) =
      >>=-ok (index_map (lookup index blocks)) (λ block. all_points block >> (edges block >> last))
        s u tt h in
    let (s2, emitted, h2) = >>-ok (all_points block) (edges block >> last) s1 u tt h1 in
    let (s3, edged, h3) = >>-ok (edges block) last s2 u tt h2 in
    (
      block,
      s1,
      s2,
      s3,
      index_map-ok (lookup index blocks) block s s1 found,
      emitted,
      unchanged (lookup index blocks) block s s1 found,
      emit_edges-uses limits index block block.terminator.successors s2 s3 edged,
      h3,
    )
  where
    unchanged :
        (o : Option CompilerBlock) (block : CompilerBlock) (s t : Run)
        → index_map o s ≡ (ok block, t)
        → t.report.uses ≡ s.report.uses
    unchanged o block s t e = ground arith

emit_blocks-keeps :
    (control : AnalysisControl) (limits : DataflowLimits) (blocks : List (ℕ × CompilerBlock))
    (entries : Entries) (s u : Run)
    → emit_blocks control limits blocks entries s ≡ (ok tt, u)
    → (z : LocalUse) → Mem z s.report.uses
    → Mem z u.report.uses
unfolding emit_blocks
emit_blocks-keeps control limits blocks [] s u h z k =
    let same : s.report.uses ≡ u.report.uses = ground arith in subst (Mem z) same k
emit_blocks-keeps control limits blocks ((index, a) ∷ entries) s u h z k =
    let (block, s1, s2, s3, found, emitted, first, edged, h3) =
      emit_blocks-cons control limits blocks index a entries s u h in
    emit_blocks-keeps control limits blocks entries s3 u h3 z (
      subst (Mem z) (sym edged) (
        emit_points-keeps control limits (points index block) a s1 s2 emitted z
          (subst (Mem z) (sym first) k)))

emit_blocks-reports :
    (control : AnalysisControl) (limits : DataflowLimits) (blocks : List (ℕ × CompilerBlock))
    (entries : Entries) (b : ℕ) (block : CompilerBlock) (a : State) (m : Memory) (point : MirPoint)
    (effects : CompilerLocalEffects) (at : Memory) (local : ℕ) (s u : Run)
    → emit_blocks control limits blocks entries s ≡ (ok tt, u)
    → lookup b blocks ≡ some block
    → lookup b entries ≡ some a
    → Covers a m
    → Stands (points b block) m point effects at
    → Mem local (effects.uses ++ effects.moves)
    → Reported u.report.uses point local at
emit_blocks-reports control limits blocks [] b block a m point effects at local s u h is_block there
      covers stands used =
    cc
emit_blocks-reports control limits blocks ((index, a1) ∷ entries) b block a m point effects at local
      s u h is_block there covers stands used =
    let (block1, s1, s2, s3, found, emitted, first, edged, h3) =
      emit_blocks-cons control limits blocks index a1 entries s u h in
    elim (ℕ_discrete b index) as (λ _. Reported u.report.uses point local at) [
      | yes same ↦
          let states : a1 ≡ a = ground arith in
          let it : block ≡ block1 =
            the_same block block1
              (sym is_block ∙ subst (λ z. lookup z blocks ≡ some block1) (sym same) found) in
          Reported-mono s3.report.uses u.report.uses point local at
            (emit_blocks-keeps control limits blocks entries s3 u h3)
            (subst (λ uses. Reported uses point local at) (sym edged)
              (emit_points-reports control limits (points index block1) a1 m point effects at local
                s1 s2
                (subst (λ z. Stands (points z block1) m point effects at) same
                  (subst (λ z. Stands (points b z) m point effects at) it stands))
                emitted (subst (λ z. Covers z m) (sym states) covers) used))
      | no other ↦
          emit_blocks-reports control limits blocks entries b block a m point effects at local s3 u
            h3 is_block (ground (arith, other)) covers stands used
    ]
  where
    the_same : (p q : CompilerBlock) → some p ≡ some q → p ≡ q
    the_same p q e = cc

-- When the worklist runs empty and the emission comes to its end, then for every execution, every
-- point that it stands at and every local that the point reads, the report has a use. It lists the
-- local's last assignment, or says that the local may be uninitialized if it has none, and it is
-- marked when an unknown effect was passed.
pub solve-emit_reports :
    (control : AnalysisControl) (limits : DataflowLimits) (count : ℕ)
    (blocks : List (ℕ × CompilerBlock)) (left retained : ℕ) (entries : Entries) (s t v u : Run)
    (b : ℕ) (block : CompilerBlock) (m : Memory) (point : MirPoint) (effects : CompilerLocalEffects)
    (at : Memory) (local : ℕ)
    → solve control limits blocks left ((0, argument_state count) ∷ []) (0 ∷ []) retained s
      ≡ (ok entries, t)
    → emit_blocks control limits blocks entries v ≡ (ok tt, u)
    → Arrives count blocks b m
    → lookup b blocks ≡ some block
    → Stands (points b block) m point effects at
    → Mem local (effects.uses ++ effects.moves)
    → Reported u.report.uses point local at
solve-emit_reports control limits count blocks left retained entries s t v u b block m point effects
      at local solved emitted arrives is_block stands used =
    let (a, there, covers) =
      solve-Covers control limits count blocks left entries retained s t b m solved arrives in
    emit_blocks-reports control limits blocks entries b block a m point effects at local v u emitted
      is_block there covers stands used
