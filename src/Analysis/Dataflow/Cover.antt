-- ===== src/Analysis/Dataflow/Cover.antt =====
-- The abstract states of crates/analysis/src/dataflow.rs cover the memories of executions.
use ferrum_atlas.Prelude.{
  ℕ, List, [], ◌∷◌, ◌++◌, ◌≡◌, ◌≢◌, refl, sym, subst, ap, ◌∙◌, Bool-cases, ◌⊎◌, inl, inr, true,
  false, Option, none, some, arith, ◌==◌, nat_eq, lookup, insert, remove_key, Mem, lookup-insert,
  lookup-insert_other, lookup-remove_key, lookup-remove_key_other, Mem-set_extend_left,
  Mem-set_extend_right, ℕ_discrete,
}
use ferrum_atlas.Model.Compiler.{
  CompilerUnknownEffect, CompilerLocalEffects, CompilerBlock, CompilerSuccessor, CompilerEdgeKind,
  unknown_effect_eq, unknown_effect_ord, edge_kind_eq,
}
use ferrum_atlas.Analysis.Dataflow.Facts.{
  MirPoint, normal_return, LocalDefinition, State, Value, default_value, value_or_default, value_of,
  empty_state, define, clear_all, define_all, cleared, transfer, entry,
}
use ferrum_atlas.Analysis.Dataflow.Input.{range}
use ferrum_atlas.Analysis.Dataflow.Solve.{argument_state, leave}
use ferrum_atlas.Analysis.Dataflow.Executions.{
  Memory, Defined, assign, run_clear, run_define, run_effects, run_edge, initial,
}

abbrev pub CoversValue : Option LocalDefinition → Value → Type 0
CoversValue none v = v.uninitialized ≡ true
CoversValue (some d) v = Mem d v.definitions

abbrev pub CoversValues : List (ℕ × Value) → Defined → Type 0
CoversValues values defined = (q : ℕ) → CoversValue (defined q) (value_or_default (lookup q values))

pub record Covers (s : State) (m : Memory) : Type 0 where
  pub values : CoversValues s.values m.defined
  pub unknown : (e : CompilerUnknownEffect) → Mem e m.seen → Mem e s.unknown

-- `t` holds all that `s` does.
pub record Sub (s t : State) : Type 0 where
  pub definitions :
      (q : ℕ) (d : LocalDefinition)
      → Mem d (value_of q s).definitions
      → Mem d (value_of q t).definitions
  pub uninitialized :
      (q : ℕ) → (value_of q s).uninitialized ≡ true → (value_of q t).uninitialized ≡ true
  pub unknown : (e : CompilerUnknownEffect) → Mem e s.unknown → Mem e t.unknown

pub Sub-refl : (s : State) → Sub s s
Sub-refl s = record { definitions = λ q d h. h; uninitialized = λ q h. h; unknown = λ e h. h }

pub Sub-trans : (s t u : State) → Sub s t → Sub t u → Sub s u
Sub-trans s t u a b = record {
  definitions = λ q d h. b.definitions q d (a.definitions q d h);
  uninitialized = λ q h. b.uninitialized q (a.uninitialized q h);
  unknown = λ e h. b.unknown e (a.unknown e h);
}

CoversValue-mono :
    (o : Option LocalDefinition) (v w : Value)
    → ((d : LocalDefinition) → Mem d v.definitions → Mem d w.definitions)
    → (v.uninitialized ≡ true → w.uninitialized ≡ true)
    → CoversValue o v
    → CoversValue o w
CoversValue-mono none v w defs un h = un h
CoversValue-mono (some d) v w defs un h = defs d h

pub Covers-Sub : (s t : State) (m : Memory) → Sub s t → Covers s m → Covers t m
Covers-Sub s t m sub c = record {
  values = λ q.
      CoversValue-mono (m.defined q) (value_of q s) (value_of q t) (sub.definitions q)
        (sub.uninitialized q) (c.values q);
  unknown = λ e h. sub.unknown e (c.unknown e h);
}

assign-same : (k : ℕ) (o : Option LocalDefinition) (d : Defined) → assign k o d k ≡ o
assign-same k o d = ground arith

assign-other : (q k : ℕ) (o : Option LocalDefinition) (d : Defined) → q ≢ k → assign k o d q ≡ d q
assign-other q k o d other = ground arith

-- One local is assigned, in the memory and in the state.
CoversValues-assign :
    (local : ℕ) (o : Option LocalDefinition) (v : Value) (values after : List (ℕ × Value))
    (d : Defined)
    → value_or_default (lookup local after) ≡ v
    → ((q : ℕ) → q ≢ local → lookup q after ≡ lookup q values)
    → CoversValue o v
    → CoversValues values d
    → CoversValues after (assign local o d)
CoversValues-assign local o v values after d at others now h q =
    elim (ℕ_discrete q local)
      as (λ _. CoversValue (assign local o d q) (value_or_default (lookup q after))) [
        | yes same ↦
            subst (λ z. CoversValue (assign local o d z) (value_or_default (lookup z after)))
              (sym same) (rw (assign-same local o d, at) now)
        | no other ↦ rw (assign-other q local o d other, others q other) (h q)
      ]

CoversValues-clear :
    (locals : List ℕ) (s : State) (d : Defined)
    → CoversValues s.values d
    → CoversValues (clear_all locals s).values (run_clear locals d)
unfolding clear_all run_clear
CoversValues-clear [] s d h = h
CoversValues-clear (local ∷ locals) s d h =
    CoversValues-clear locals (record s { values = remove_key local s.values })
      (assign local none d)
      (CoversValues-assign local none default_value s.values (remove_key local s.values) d
        (ap value_or_default (lookup-remove_key local s.values))
        (λ q other. lookup-remove_key_other q local s.values other) refl h)

clear_all-unknown : (locals : List ℕ) (s : State) → (clear_all locals s).unknown ≡ s.unknown
unfolding clear_all
clear_all-unknown [] s = refl
clear_all-unknown (local ∷ locals) s =
    clear_all-unknown locals (record s { values = remove_key local s.values })

CoversValues-define :
    (point : MirPoint) (local : ℕ) (s : State) (d : Defined)
    → CoversValues s.values d
    → CoversValues
        (define local point s).values
        (assign local (some (record { local = local; point = point })) d)
unfolding define
CoversValues-define point local s d h =
    let made : Value = record {
      definitions = record { local = local; point = point } ∷ [];
      uninitialized = false;
    } in
    CoversValues-assign local (some (record { local = local; point = point })) made s.values
      (insert local made s.values) d (ap value_or_default (lookup-insert local made s.values))
      (λ q other. lookup-insert_other q local made s.values other) (inl refl) h

CoversValues-define_all :
    (point : MirPoint) (locals : List ℕ) (s : State) (d : Defined)
    → CoversValues s.values d
    → CoversValues (define_all point locals s).values (run_define point locals d)
unfolding define_all run_define
CoversValues-define_all point [] s d h = h
CoversValues-define_all point (local ∷ locals) s d h =
    CoversValues-define_all point locals (define local point s)
      (assign local (some (record { local = local; point = point })) d)
      (CoversValues-define point local s d h)

define_all-unknown :
    (point : MirPoint) (locals : List ℕ) (s : State)
    → (define_all point locals s).unknown ≡ s.unknown
unfolding define_all define
define_all-unknown point [] s = refl
define_all-unknown point (local ∷ locals) s = define_all-unknown point locals (define local point s)

Mem-append :
    (z : CompilerUnknownEffect) (xs ys : List CompilerUnknownEffect)
    → Mem z (xs ++ ys)
    → Mem z xs ⊎ Mem z ys
Mem-append z [] ys h = inr h
Mem-append z (x ∷ xs) ys (inl h) = inl (inl h)
Mem-append z (x ∷ xs) ys (inr h) = elim (Mem-append z xs ys h) [
  | inl a ↦ inl (inr a)
  | inr b ↦ inr b
]

pub Covers-define_all :
    (point : MirPoint) (locals : List ℕ) (s : State) (m : Memory)
    → Covers s m
    → Covers (define_all point locals s) (record m { defined = run_define point locals m.defined })
Covers-define_all point locals s m h = record {
  values = CoversValues-define_all point locals s m.defined h.values;
  unknown = λ e k. subst (Mem e) (sym (define_all-unknown point locals s)) (h.unknown e k);
}

pub Covers-transfer :
    (e : CompilerLocalEffects) (point : MirPoint) (s : State) (m : Memory)
    → Covers s m
    → Covers (transfer e point s) (run_effects e point m)
unfolding transfer run_effects
Covers-transfer e point s m h =
    let cleared_state = clear_all (cleared e) s in
    let t = define_all point e.defs cleared_state in
    let same : t.unknown ≡ s.unknown =
      define_all-unknown point e.defs cleared_state ∙ clear_all-unknown (cleared e) s in
    record {
      values =
          CoversValues-define_all point e.defs cleared_state (run_clear (cleared e) m.defined)
            (CoversValues-clear (cleared e) s m.defined h.values);
      unknown = λ z k. elim (Mem-append z m.seen e.unknown_effects k) [
        | inl before ↦
            Mem-set_extend_left z t.unknown e.unknown_effects
              (subst (Mem z) (sym same) (h.unknown z before))
        | inr now ↦ Mem-set_extend_right z t.unknown e.unknown_effects now
      ];
    }

pub Covers-leave :
    (block : CompilerBlock) (index : ℕ) (edge : CompilerSuccessor) (s : State) (m : Memory)
    → Covers s m
    → Covers (leave block index edge s) (run_edge index block edge m)
unfolding leave run_edge
Covers-leave block index edge s m h = elim (Bool-cases (edge.kind == CompilerEdgeKind.normal)) [
  | inl yes_normal ↦ rw yes_normal (
      Covers-define_all (normal_return index edge.target) block.terminator.normal_return_defs s m h)
  | inr other ↦ rw other h
]

-- The arguments are defined at the entry.
pub Covers-initial : (count : ℕ) → Covers (argument_state count) (initial count)
unfolding argument_state initial
Covers-initial count =
    let start : Memory = record { defined = λ q. none; seen = [] } in
    let nothing : Covers empty_state start = record { values = λ q. refl; unknown = λ e k. k } in
    Covers-define_all entry (range 1 count) empty_state start nothing
