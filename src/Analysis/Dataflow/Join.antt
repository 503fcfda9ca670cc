-- ===== src/Analysis/Dataflow/Join.antt =====
-- `join` of crates/analysis/src/dataflow.rs is an upper bound of its two states.
use ferrum_atlas.Prelude.{
  ℕ, List, [], ◌∷◌, ◌≡◌, refl, sym, subst, inl, inr, true, Option, none, some, ok, arith, nat_eq,
  lookup, insert, Mem, set_extend, lookup-insert, lookup-insert_other, Option-cases,
  Mem-set_extend_left, Mem-set_extend_right, ℕ_discrete,
}
use ferrum_atlas.Model.Compiler.{unknown_effect_eq, unknown_effect_ord}
use ferrum_atlas.Analysis.Envelope.{AnalysisControl}
use ferrum_atlas.Analysis.Dataflow.Facts.{
  LocalDefinition, local_definition_eq, local_definition_ord, Value, default_value,
  value_or_default, State, value_of,
}
use ferrum_atlas.Analysis.Dataflow.Run.{
  Run, ◌>>=◌, pure, returned, check, forget, forget_missing, merge_value, merge_values, join,
  >>=-ok, >>-ok, pure-ok,
}
use ferrum_atlas.Analysis.Dataflow.Cover.{Sub}

-- `w` holds all that `v` does.
record Within (v w : Value) : Type 0 where
  definitions : (d : LocalDefinition) → Mem d v.definitions → Mem d w.definitions
  uninitialized : v.uninitialized ≡ true → w.uninitialized ≡ true

Within-refl : (v : Value) → Within v v
Within-refl v = record { definitions = λ d h. h; uninitialized = λ h. h }

Within-trans : (u v w : Value) → Within u v → Within v w → Within u w
Within-trans u v w a b = record {
  definitions = λ d h. b.definitions d (a.definitions d h);
  uninitialized = λ h. b.uninitialized (a.uninitialized h);
}

Within-merge_left : (v w : Value) → Within v (merge_value v w)
Within-merge_left v w = record {
  definitions = λ d h. Mem-set_extend_left d v.definitions w.definitions h;
  uninitialized = λ h. ground arith;
}

Within-merge_right : (v w : Value) → Within w (merge_value v w)
Within-merge_right v w = record {
  definitions = λ d h. Mem-set_extend_right d v.definitions w.definitions h;
  uninitialized = λ h. ground arith;
}

abbrev Values : Type 0
Values = List (ℕ × Value)

abbrev at : ℕ → Values → Value
at q values = value_or_default (lookup q values)

abbrev forgotten : Option Value → Option Value → Option Value
forgotten other none = none
forgotten other (some v) = some (forget other v)

forget_missing-lookup :
    (control : AnalysisControl) (other : State) (values kept : Values) (q : ℕ) (s u : Run)
    → forget_missing control other values s ≡ (ok kept, u)
    → lookup q kept ≡ forgotten (lookup q other.values) (lookup q values)
unfolding forget_missing
forget_missing-lookup control other [] kept q s u h = rw (← pure-ok [] kept s u h) refl
forget_missing-lookup control other ((local, v) ∷ vs) kept q s u h =
    let entry : ℕ × Value = (local, forget (lookup local other.values) v) in
    let (s1, checked, h1) =
      >>-ok (check control returned)
        (forget_missing control other vs >>= λ rest. pure (entry ∷ rest)) s u kept h in
    let (rest, s2, looped, h2) =
      >>=-ok (forget_missing control other vs) (λ rest. pure (entry ∷ rest)) s1 u kept h1 in
    let step = forget_missing-lookup control other vs rest q s1 s2 looped in
    rw (← pure-ok (entry ∷ rest) kept s2 u h2)
      (elim (ℕ_discrete q local)
        as (λ _.
          lookup q (entry ∷ rest)
          ≡ forgotten (lookup q other.values) (lookup q ((local, v) ∷ vs))) [
            | yes same ↦
                subst
                  (λ z.
                    lookup z (entry ∷ rest)
                    ≡ forgotten (lookup z other.values) (lookup z ((local, v) ∷ vs)))
                  (sym same) (ground arith)
            | no different ↦ (ground (arith, step))
          ])

Within-insert :
    (local q : ℕ) (v : Value) (values : Values)
    → Within (at local values) v
    → Within (at q values) (at q (insert local v values))
Within-insert local q v values h =
    elim (ℕ_discrete q local) as (λ _. Within (at q values) (at q (insert local v values))) [
      | yes same ↦
          subst (λ z. Within (at z values) (at z (insert local v values))) (sym same)
            (rw (lookup-insert local v values) h)
      | no other ↦ rw (lookup-insert_other q local v values other) (Within-refl (at q values))
    ]

merge_values-left :
    (control : AnalysisControl) (values vs result : Values) (q : ℕ) (s u : Run)
    → merge_values control values vs s ≡ (ok result, u)
    → Within (at q values) (at q result)
unfolding merge_values
merge_values-left control values [] result q s u h =
    rw (← pure-ok values result s u h) (Within-refl (at q values))
merge_values-left control values ((local, v) ∷ vs) result q s u h =
    let merged = merge_value (at local values) v in
    let (s1, checked, h1) =
      >>-ok (check control returned) (merge_values control (insert local merged values) vs) s u
        result h in
    Within-trans (at q values) (at q (insert local merged values)) (at q result)
      (Within-insert local q merged values (Within-merge_left (at local values) v))
      (merge_values-left control (insert local merged values) vs result q s1 u h1)

merge_values-right :
    (control : AnalysisControl) (values vs result : Values) (q : ℕ) (v : Value) (s u : Run)
    → merge_values control values vs s ≡ (ok result, u)
    → lookup q vs ≡ some v
    → Within v (at q result)
unfolding merge_values
merge_values-right control values [] result q v s u h found = cc
merge_values-right control values ((local, w) ∷ vs) result q v s u h found =
    let merged = merge_value (at local values) w in
    let (s1, checked, h1) =
      >>-ok (check control returned) (merge_values control (insert local merged values) vs) s u
        result h in
    let rest = merge_values-right control (insert local merged values) vs result q v s1 u h1 in
    let later = merge_values-left control (insert local merged values) vs result local s1 u h1 in
    elim (ℕ_discrete q local) as (λ _. Within v (at q result)) [
      | yes same ↦
          let it : w ≡ v = ground arith in
          subst (λ z. Within z (at q result)) it
            (subst (λ z. Within w (at z result)) (sym same)
              (Within-trans w (at local (insert local merged values)) (at local result)
                (rw (lookup-insert local merged values) (Within-merge_right (at local values) w))
                later))
      | no other ↦ rest (ground arith)
    ]

-- The first loop marks what the other state lacks, so every value of it is within the result.
merged-right :
    (control : AnalysisControl) (other : State) (values kept result : Values) (q : ℕ) (s t u : Run)
    → forget_missing control other values s ≡ (ok kept, t)
    → merge_values control kept other.values t ≡ (ok result, u)
    → Within (value_of q other) (at q result)
merged-right control other values kept result q s t u first second =
    elim (Option-cases (lookup q other.values)) [
      | inl missing ↦
          let marked : (at q kept).uninitialized ≡ true =
            rw (forget_missing-lookup control other values kept q s t first, missing)
              (go (lookup q values)) in
          let grown = merge_values-left control kept other.values result q t u second in
          rw missing (record {
            definitions = λ d h. absurd h;
            uninitialized = λ h. grown.uninitialized marked;
          })
      | inr (v, found) ↦
          rw found (merge_values-right control kept other.values result q v t u second found)
    ]
  where
    go : (o : Option Value) → (value_or_default (forgotten none o)).uninitialized ≡ true
    go none = refl
    go (some v) = refl

merged-left :
    (control : AnalysisControl) (other : State) (values kept result : Values) (q : ℕ) (s t u : Run)
    → forget_missing control other values s ≡ (ok kept, t)
    → merge_values control kept other.values t ≡ (ok result, u)
    → Within (at q values) (at q result)
merged-left control other values kept result q s t u first second =
    Within-trans (at q values) (at q kept) (at q result)
      (rw (forget_missing-lookup control other values kept q s t first)
        (go (lookup q other.values) (lookup q values)))
      (merge_values-left control kept other.values result q t u second)
  where
    go : (o p : Option Value) → Within (value_or_default p) (value_or_default (forgotten o p))
    go o none = Within-refl default_value
    go none (some v) = record { definitions = λ d h. h; uninitialized = λ h. refl }
    go (some w) (some v) = Within-refl v

-- Both states are within their join.
pub join-Sub :
    (control : AnalysisControl) (a b c : State) (s u : Run)
    → join control a b s ≡ (ok c, u)
    → Sub a c × Sub b c
unfolding join
join-Sub control a b c s u h =
    let finish : Values → State =
      λ values. record { values = values; unknown = set_extend a.unknown b.unknown } in
    let (kept, s1, first, h1) =
      >>=-ok (forget_missing control b a.values)
        (λ kept. merge_values control kept b.values >>= λ values. pure (finish values)) s u c h in
    let (values, s2, second, h2) =
      >>=-ok (merge_values control kept b.values) (λ values. pure (finish values)) s1 u c h1 in
    let left : (q : ℕ) → Within (at q a.values) (at q values) =
      λ q. merged-left control b a.values kept values q s s1 s2 first second in
    let right : (q : ℕ) → Within (at q b.values) (at q values) =
      λ q. merged-right control b a.values kept values q s s1 s2 first second in
    rw (← pure-ok (finish values) c s2 u h2) (
      record {
        definitions = λ q. (left q).definitions;
        uninitialized = λ q. (left q).uninitialized;
        unknown = λ e k. Mem-set_extend_left e a.unknown b.unknown k;
      },
      record {
        definitions = λ q. (right q).definitions;
        uninitialized = λ q. (right q).uninitialized;
        unknown = λ e k. Mem-set_extend_right e a.unknown b.unknown k;
      },
    )
