-- ===== src/Analysis/Dataflow/Uses.antt =====
-- The uses that crates/analysis/src/dataflow.rs reports, against the executions of the body.
use ferrum_atlas.Prelude.{
  ℕ, suc, List, [], ◌∷◌, ◌++◌, ◌≡◌, refl, sym, subst, ◌∙◌, inl, Bool, true, false, not, ◌||◌, ◌==◌,
  nat_eq, nat_ord, ok, arith, map, ltb, Mem, Mem-set_extend_right, Mem-append_left,
  Mem-append_right, Mem-map,
}
use ferrum_atlas.Model.Compiler.{
  CompilerUnknownEffect, CompilerLocalEffects, CompilerBlock, CompilerSuccessor, CompilerEdgeKind,
  edge_kind_eq,
}
use ferrum_atlas.Analysis.Envelope.{AnalysisControl}
use ferrum_atlas.Analysis.Dataflow.Facts.{
  DataflowLimits, MirPoint, normal_return, LocalUse, State, transfer,
}
use ferrum_atlas.Analysis.Dataflow.Run.{
  Run, M, ◌>>=◌, ◌>>◌, get, when, broken, check, limit_when, >>=-ok, >>-ok,
}
use ferrum_atlas.Analysis.Dataflow.Emit.{
  is_empty, used_locals, local_use, push_definitions, change, output_budget, emit_point,
  emit_points, emit_returns, emit_edges,
}
use ferrum_atlas.Analysis.Dataflow.Executions.{Memory, run_effects}
use ferrum_atlas.Analysis.Dataflow.Cover.{CoversValue, Covers, Covers-transfer}

emit_point-uses :
    (control : AnalysisControl) (limits : DataflowLimits) (point : MirPoint)
    (effects : CompilerLocalEffects) (a b : State) (s u : Run)
    → emit_point control limits point effects a s ≡ (ok b, u)
    → (u.report.uses ≡ s.report.uses ++ map (local_use point effects a) (used_locals effects))
      × (transfer effects point a ≡ b)
unfolding emit_point check limit_when
emit_point-uses control limits point effects a b s u h = ground arith

emit_returns-uses :
    (limits : DataflowLimits) (point : MirPoint) (locals : List ℕ) (s u : Run)
    → emit_returns limits point locals s ≡ (ok tt, u)
    → u.report.uses ≡ s.report.uses
unfolding emit_returns limit_when
emit_returns-uses limits point [] s u h = ground arith
emit_returns-uses limits point (local ∷ locals) s u h =
    let last : M (Unit {0}) = emit_returns limits point locals in
    let bump : M (Unit {0}) = change (λ r. record r { output_facts = suc r.output_facts }) in
    let push : M (Unit {0}) =
      change (push_definitions (record { local = local; point = point } ∷ [])) in
    let limit : Run → M (Unit {0}) =
      λ run. limit_when (ltb limits.max_facts run.output_facts) output_budget broken in
    let (s1, bumped, h1) = >>-ok bump (get >>= λ run. limit run >> (push >> last)) s u tt h in
    let (run, s2, got, h2) = >>=-ok get (λ run. limit run >> (push >> last)) s1 u tt h1 in
    let (s3, fits, h3) = >>-ok (limit run) (push >> last) s2 u tt h2 in
    let (s4, pushed, h4) = >>-ok push last s3 u tt h3 in
    let same : s4.report.uses ≡ s.report.uses = ground arith in
    emit_returns-uses limits point locals s4 u h4 ∙ same

pub emit_edges-uses :
    (limits : DataflowLimits) (index : ℕ) (block : CompilerBlock) (edges : List CompilerSuccessor)
    (s u : Run)
    → emit_edges limits index block edges s ≡ (ok tt, u)
    → u.report.uses ≡ s.report.uses
unfolding emit_edges
emit_edges-uses limits index block [] s u h = ground arith
emit_edges-uses limits index block (edge ∷ edges) s u h =
    let point = normal_return index edge.target in
    let first : M (Unit {0}) = emit_returns limits point block.terminator.normal_return_defs in
    let test = edge.kind == CompilerEdgeKind.normal in
    let (s1, returned, h1) =
      >>-ok (when test first) (emit_edges limits index block edges) s u tt h in
    emit_edges-uses limits index block edges s1 u h1
    ∙ when-uses test first
        (λ a b k. emit_returns-uses limits point block.terminator.normal_return_defs a b k) s s1
        returned
  where
    when-uses :
        (test : Bool) (m : M (Unit {0}))
        → ((a b : Run) → m a ≡ (ok tt, b) → b.report.uses ≡ a.report.uses)
        → (a b : Run) → when test m a ≡ (ok tt, b)
        → b.report.uses ≡ a.report.uses
    when-uses true m k a b e = k a b e
    when-uses false m k a b e = ground arith

-- An execution of a block's points, at one of them.
pub data Stands
    : List (MirPoint × CompilerLocalEffects)
      → Memory
      → MirPoint
      → CompilerLocalEffects
      → Memory
      → Type 0 where
  here :
      (point : MirPoint) (effects : CompilerLocalEffects)
      (rest : List (MirPoint × CompilerLocalEffects)) (m : Memory)
      → Stands ((point, effects) ∷ rest) m point effects m
  later :
      (first : MirPoint) (before : CompilerLocalEffects)
      (rest : List (MirPoint × CompilerLocalEffects)) (m : Memory) (point : MirPoint)
      (effects : CompilerLocalEffects) (at : Memory)
      → Stands rest (run_effects before first m) point effects at
      → Stands ((first, before) ∷ rest) m point effects at

-- A reported use covers a memory: its definitions hold the last assignment of the local, it admits a
-- local without one, and it tells of unknown effects.
pub record Reported (uses : List LocalUse) (point : MirPoint) (local : ℕ) (m : Memory)
    : Type 0 where
  pub found : LocalUse
  pub listed : Mem found uses
  pub at : found.point ≡ point
  pub about : found.local ≡ local
  pub reaches :
      CoversValue
        (m.defined local)
        (record { definitions = found.reaching; uninitialized = found.may_be_uninitialized })
  pub tainted : not (is_empty m.seen) ≡ true → found.possibly_changed_by_unknown_memory ≡ true

pub Reported-mono :
    (uses more : List LocalUse) (point : MirPoint) (local : ℕ) (m : Memory)
    → ((z : LocalUse) → Mem z uses → Mem z more)
    → Reported uses point local m
    → Reported more point local m
Reported-mono uses more point local m keeps r = record {
  found = r.found;
  listed = keeps r.found r.listed;
  at = r.at;
  about = r.about;
  reaches = r.reaches;
  tainted = r.tainted;
}

local_use-tainted :
    (point : MirPoint) (effects : CompilerLocalEffects) (a : State) (local : ℕ) (m : Memory)
    → Covers a m
    → not (is_empty m.seen) ≡ true
    → (local_use point effects a local).possibly_changed_by_unknown_memory ≡ true
local_use-tainted point effects a local m covers some_seen =
    go m.seen a.unknown some_seen covers.unknown
  where
    go :
        (seen unknown : List CompilerUnknownEffect)
        → not (is_empty seen) ≡ true
        → ((e : CompilerUnknownEffect) → Mem e seen → Mem e unknown)
        → (not (is_empty unknown) || not (is_empty effects.unknown_effects)) ≡ true
    go [] unknown h sub = cc
    go (e ∷ es) [] h sub = absurd (sub e (inl refl))
    go (e ∷ es) (x ∷ xs) h sub = refl

emit_point-reports :
    (control : AnalysisControl) (limits : DataflowLimits) (point : MirPoint)
    (effects : CompilerLocalEffects) (a b : State) (m : Memory) (local : ℕ) (s u : Run)
    → emit_point control limits point effects a s ≡ (ok b, u)
    → Covers a m
    → Mem local (effects.uses ++ effects.moves)
    → Reported u.report.uses point local m
emit_point-reports control limits point effects a b m local s u h covers used =
    let (uses, next) = emit_point-uses control limits point effects a b s u h in
    let pushed = map (local_use point effects a) (used_locals effects) in
    record {
      found = local_use point effects a local;
      listed = subst (Mem (local_use point effects a local)) (sym uses) (
          Mem-append_right (local_use point effects a local) s.report.uses pushed (
            Mem-map (local_use point effects a) local (used_locals effects)
              (Mem-set_extend_right local [] (effects.uses ++ effects.moves) used)));
      at = refl;
      about = refl;
      reaches = covers.values local;
      tainted = local_use-tainted point effects a local m covers;
    }

pub emit_points-keeps :
    (control : AnalysisControl) (limits : DataflowLimits)
    (ps : List (MirPoint × CompilerLocalEffects)) (a : State) (s u : Run)
    → emit_points control limits ps a s ≡ (ok tt, u)
    → (z : LocalUse) → Mem z s.report.uses
    → Mem z u.report.uses
unfolding emit_points
emit_points-keeps control limits [] a s u h z k =
    let same : s.report.uses ≡ u.report.uses = ground arith in subst (Mem z) same k
emit_points-keeps control limits ((point, effects) ∷ rest) a s u h z k =
    let (b, s1, first, h1) =
      >>=-ok (emit_point control limits point effects a) (λ t. emit_points control limits rest t) s
        u tt h in
    let (uses, next) = emit_point-uses control limits point effects a b s s1 first in
    emit_points-keeps control limits rest b s1 u h1 z
      (subst (Mem z) (sym uses) (Mem-append_left z s.report.uses _ k))

pub emit_points-reports :
    (control : AnalysisControl) (limits : DataflowLimits)
    (ps : List (MirPoint × CompilerLocalEffects)) (a : State) (m : Memory) (point : MirPoint)
    (effects : CompilerLocalEffects) (at : Memory) (local : ℕ) (s u : Run)
    → Stands ps m point effects at
    → emit_points control limits ps a s ≡ (ok tt, u)
    → Covers a m
    → Mem local (effects.uses ++ effects.moves)
    → Reported u.report.uses point local at
unfolding emit_points
emit_points-reports control limits _ a _ _ _ _ local s u (here point effects rest m) h covers used =
    let (b, s1, first, h1) =
      >>=-ok (emit_point control limits point effects a) (λ t. emit_points control limits rest t) s
        u tt h in
    Reported-mono s1.report.uses u.report.uses point local m
      (emit_points-keeps control limits rest b s1 u h1)
      (emit_point-reports control limits point effects a b m local s s1 first covers used)
emit_points-reports control limits _ a _ _ _ _ local s u
      (later first before rest m point effects at stands) h covers used =
    let (b, s1, done, h1) =
      >>=-ok (emit_point control limits first before a) (λ t. emit_points control limits rest t) s u
        tt h in
    let (uses, next) = emit_point-uses control limits first before a b s s1 done in
    emit_points-reports control limits rest b (run_effects before first m) point effects at local s1
      u stands h1
      (subst (λ z. Covers z (run_effects before first m)) next
        (Covers-transfer before first a m covers))
      used
