-- ===== src/Analysis/Dataflow/Advances.antt =====
-- One edge of the worklist of crates/analysis/src/dataflow.rs only adds to the states.
use ferrum_atlas.Prelude.{
  ℕ, List, [], ◌∷◌, ◌≡◌, ◌≢◌, refl, sym, subst, ◌∙◌, ◌⊎◌, inl, inr, Bool, Option, none, some, ok,
  ◌==◌, nat_eq, nat_ord, lookup, insert, Mem, set_insert, Mem-set_insert, Mem-set_insert_other,
  lookup-insert, lookup-insert_other, ==_iff, ℕ_discrete, Bool-cases, if◌then◌else◌, ltb, ◌+◌, ◌-◌,
}
use ferrum_atlas.Prelude.Text.{codes}
use ferrum_atlas.Model.Compiler.{CompilerBlock, CompilerSuccessor, CompilerEdgeKind, edge_kind_eq}
use ferrum_atlas.Analysis.Envelope.{AnalysisControl}
use ferrum_atlas.Analysis.Dataflow.Facts.{DataflowLimits, State, state_eq, facts}
use ferrum_atlas.Analysis.Dataflow.Run.{
  Run, M, ◌>>◌, pure, returned, check, limit_when, join, >>=-ok, >>-ok, pure-ok,
}
use ferrum_atlas.Analysis.Dataflow.Solve.{Flow, leave, retain, merge_into, flow_edge, flow_edges}
use ferrum_atlas.Analysis.Dataflow.Executions.{Memory, run_edge}
use ferrum_atlas.Analysis.Dataflow.Cover.{
  Covers, Sub, Sub-refl, Sub-trans, Covers-Sub, Covers-leave,
}
use ferrum_atlas.Analysis.Dataflow.Join.{join-Sub}

abbrev pub Entries : Type 0
Entries = List (ℕ × State)

-- The block's state covers the memory.
abbrev pub Holds : Entries → ℕ → Memory → Type 0
Holds entries b m = (t : State) × (lookup b entries ≡ some t) × Covers t m

abbrev pub Grows : Entries → Entries → Type 0
Grows before after =
    (b : ℕ) (s : State)
    → lookup b before ≡ some s
    → (t : State) × (lookup b after ≡ some t) × Sub s t

-- States only grow, a state that changes is put on the worklist, and nothing is taken from it.
pub record Advances (f g : Flow) : Type 0 where
  pub grows : Grows f.entries g.entries
  pub kept :
      (b : ℕ) (s : State)
      → lookup b g.entries ≡ some s
      → (lookup b f.entries ≡ some s) ⊎ Mem b g.worklist
  pub queued : (b : ℕ) → Mem b f.worklist → Mem b g.worklist

pub Holds-Grows :
    (before after : Entries) (b : ℕ) (m : Memory)
    → Grows before after
    → Holds before b m
    → Holds after b m
Holds-Grows before after b m grows (s, found, covers) =
    let (t, there, sub) = grows b s found in (t, there, Covers-Sub s t m sub covers)

Advances-refl : (f : Flow) → Advances f f
Advances-refl f = record {
  grows = λ b s found. (s, found, Sub-refl s);
  kept = λ b s found. inl found;
  queued = λ b h. h;
}

Advances-trans : (f g h : Flow) → Advances f g → Advances g h → Advances f h
Advances-trans f g h x y = record {
  grows = λ b s found.
      let (t, there, sub) = x.grows b s found in
      let (u, last, more) = y.grows b t there in (u, last, Sub-trans s t u sub more);
  kept = λ b s found. elim (y.kept b s found) [
    | inl still ↦ elim (x.kept b s still) [ inl first ↦ inl first | inr q ↦ inr (y.queued b q) ]
    | inr q ↦ inr q
  ];
  queued = λ b q. y.queued b (x.queued b q);
}

-- A larger state, or a first one, is stored for the block.
retain-Advances :
    (limits : DataflowLimits) (target previous : ℕ) (out : State) (f g : Flow) (s u : Run)
    → ((p : State) → lookup target f.entries ≡ some p → Sub p out)
    → retain limits target previous out f s ≡ (ok g, u)
    → Advances f g × (lookup target g.entries ≡ some out)
unfolding retain
retain-Advances limits target previous out f g s u above h =
    let retained = f.retained - previous + facts out in
    let stored : Flow = record {
      entries = insert target out f.entries;
      worklist = set_insert target f.worklist;
      retained = retained;
    } in
    let (s1, checked, h1) =
      >>-ok
        (limit_when (ltb limits.max_facts retained)
          (codes "Reaching-definition states exceed the retained fact budget") returned)
        (pure stored) s u g h in
    rw (← pure-ok stored g s1 u h1) (
      record {
        grows = λ b p found.
            elim (ℕ_discrete b target)
              as (λ _. (t : State) × (lookup b stored.entries ≡ some t) × Sub p t) [
                | yes same ↦ (
                  out,
                  subst (λ z. lookup z stored.entries ≡ some out) (sym same)
                      (lookup-insert target out f.entries),
                  above p (subst (λ z. lookup z f.entries ≡ some p) same found),
                )
                | no other ↦
                    (p, lookup-insert_other b target out f.entries other ∙ found, Sub-refl p)
              ];
        kept = λ b p found.
            elim (ℕ_discrete b target)
              as (λ _. (lookup b f.entries ≡ some p) ⊎ Mem b stored.worklist) [
                | yes same ↦ inr (
                    subst (λ z. Mem z stored.worklist) (sym same)
                      (Mem-set_insert target f.worklist))
                | no other ↦ inl (sym (lookup-insert_other b target out f.entries other) ∙ found)
              ];
        queued = λ b q. Mem-set_insert_other b target f.worklist q;
      },
      lookup-insert target out f.entries,
    )

merge_into-Advances :
    (control : AnalysisControl) (limits : DataflowLimits) (target : ℕ) (out : State)
    (previous : Option State) (f g : Flow) (s u : Run)
    → lookup target f.entries ≡ previous
    → merge_into control limits target out previous f s ≡ (ok g, u)
    → Advances f g × ((t : State) × (lookup target g.entries ≡ some t) × Sub out t)
unfolding merge_into
merge_into-Advances control limits target out none f g s u at h =
    let (advances, there) = retain-Advances limits target 0 out f g s u (λ p found. cc) h in
    (advances, (out, there, Sub-refl out))
merge_into-Advances control limits target out (some p) f g s u at h =
    let (merged, s1, joined, h1) =
      >>=-ok (join control p out)
        (λ merged. if merged == p then pure f else retain limits target (facts p) merged f) s u g
        h in
    let (left, right) = join-Sub control p out merged s s1 joined in
    let next : Bool → M Flow = λ b. if b then pure f else retain limits target (facts p) merged f in
    elim (Bool-cases (merged == p)) [
      | inl same ↦
          let it : merged ≡ p = (==_iff merged p).0 same in
          let whole : f ≡ g = pure-ok f g s1 u (subst (λ b. next b s1 ≡ (ok g, u)) same h1) in
          subst (λ e. Advances f e × ((t : State) × (lookup target e.entries ≡ some t) × Sub out t))
            whole (Advances-refl f, (p, at, subst (Sub out) it right))
      | inr different ↦
          let (advances, there) =
            retain-Advances limits target (facts p) merged f g s1 u
              (λ q found. subst (λ z. Sub z merged) (the_same p q (sym at ∙ found)) left)
              (subst (λ b. next b s1 ≡ (ok g, u)) different h1) in
          (advances, (merged, there, right))
    ]
  where
    the_same : (p q : State) → some p ≡ some q → p ≡ q
    the_same p q e = cc

abbrev pub IsLive : CompilerSuccessor → Type 0
IsLive edge = edge.kind ≢ CompilerEdgeKind.imaginary

flow_edge-Advances :
    (control : AnalysisControl) (limits : DataflowLimits) (block : CompilerBlock) (index : ℕ)
    (out : State) (edge : CompilerSuccessor) (f g : Flow) (s u : Run)
    → flow_edge control limits block index out edge f s ≡ (ok g, u)
    → Advances f g
      × (IsLive edge
          → (m : Memory) → Covers out m
          → Holds g.entries edge.target (run_edge index block edge m))
unfolding flow_edge
flow_edge-Advances control limits block index out edge f g s u h =
    let go : M Flow =
      check control returned
      >> merge_into control limits edge.target (leave block index edge out)
          (lookup edge.target f.entries) f in
    let next : Bool → M Flow = λ b. if b then pure f else go in
    elim (Bool-cases (edge.kind == CompilerEdgeKind.imaginary)) [
      | inl dead ↦
          let whole : f ≡ g = pure-ok f g s u (subst (λ b. next b s ≡ (ok g, u)) dead h) in
          (
            subst (Advances f) whole (Advances-refl f),
            λ live. absurd (live ((==_iff edge.kind CompilerEdgeKind.imaginary).0 dead)),
          )
      | inr live ↦
          let (s1, checked, h1) =
            >>-ok (check control returned)
              (merge_into control limits edge.target (leave block index edge out)
                (lookup edge.target f.entries) f)
              s u g (subst (λ b. next b s ≡ (ok g, u)) live h) in
          let (advances, (t, there, sub)) =
            merge_into-Advances control limits edge.target (leave block index edge out)
              (lookup edge.target f.entries) f g s1 u refl h1 in
          (
            advances,
            λ _ m covers. (
              t,
              there,
              Covers-Sub (leave block index edge out) t (run_edge index block edge m) sub
                  (Covers-leave block index edge out m covers),
            ),
          )
    ]

pub flow_edges-Advances :
    (control : AnalysisControl) (limits : DataflowLimits) (block : CompilerBlock) (index : ℕ)
    (out : State) (edges : List CompilerSuccessor) (f g : Flow) (s u : Run)
    → flow_edges control limits block index out edges f s ≡ (ok g, u)
    → Advances f g
      × ((edge : CompilerSuccessor)
          → Mem edge edges
          → IsLive edge
          → (m : Memory) → Covers out m
          → Holds g.entries edge.target (run_edge index block edge m))
unfolding flow_edges
flow_edges-Advances control limits block index out [] f g s u h =
    (subst (Advances f) (pure-ok f g s u h) (Advances-refl f), λ edge mem. absurd mem)
flow_edges-Advances control limits block index out (e ∷ es) f g s u h =
    let (mid, s1, first, h1) =
      >>=-ok (flow_edge control limits block index out e f)
        (λ k. flow_edges control limits block index out es k) s u g h in
    let (to_mid, one) = flow_edge-Advances control limits block index out e f mid s s1 first in
    let (to_end, others) = flow_edges-Advances control limits block index out es mid g s1 u h1 in
    (
      Advances-trans f mid g to_mid to_end,
      λ edge mem live m covers. elim mem [
        | inl it ↦
            subst (λ z. Holds g.entries z.target (run_edge index block z m)) (sym it)
              (Holds-Grows mid.entries g.entries e.target (run_edge index block e m) to_end.grows
                (one (subst IsLive it live) m covers))
        | inr later ↦ others edge later live m covers
      ],
    )
