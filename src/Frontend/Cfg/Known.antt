-- ===== src/Frontend/Cfg/Known.antt =====
-- crates/frontend-ra/src/configuration.rs: predicates over what the settings select have a status that
-- is not `Unknown`.
use ferrum_atlas.Prelude.{
  ◌≡◌, ◌≢◌, refl, sym, subst, ◌⊎◌, inl, inr, List, [], ◌∷◌, Bool, true, false, not, Option, none,
  some, ◌==◌, if◌then◌else◌, Bool-cases,
}
use ferrum_atlas.Prelude.Text.{Text, Text-discrete, text_eq, codes}
use ferrum_atlas.Model.Definitions.{CfgStatus, active, inactive, unknown}
use ferrum_atlas.Frontend.Cfg.Syntax.{
  CfgAtom, CfgPredicate, cfg_atom, cfg_composite, CfgPredicates, no_predicates, next_predicate,
}
use ferrum_atlas.Frontend.Cfg.Predicate.{
  Settings, from_bool, combine, combine_from, selected, has_feature, is_value, is_none, key_status,
  ident_status, key_value_status, atom_status, negate, composite_status, predicate, predicates,
}
use ferrum_atlas.Frontend.Cfg.Sound.{Build, evaluate, Allows, Claims, predicate-Claims}

-- A key that the settings select, with or without a value.
abbrev pub IsSelected : Settings → Text → Type 0
IsSelected settings key = (chosen : Option Text) × (selected settings.cfg key ≡ some chosen)

-- Atoms over features, selected keys and the flag `test`.
pub data IsKnownAtom (settings : Settings) (atom : CfgAtom) : Type 0 where
  literal_true : atom.true_token ≡ true → IsKnownAtom settings atom
  literal_false : atom.false_token ≡ true → IsKnownAtom settings atom
  feature :
      (key value : Text)
      → atom.ident_token ≡ some key
      → atom.eq_token ≡ true
      → atom.value ≡ some value
      → (key == codes "feature") ≡ true
      → IsKnownAtom settings atom
  pair :
      (key value : Text)
      → atom.ident_token ≡ some key
      → atom.eq_token ≡ true
      → atom.value ≡ some value
      → IsSelected settings key
      → IsKnownAtom settings atom
  flag :
      (key : Text)
      → atom.ident_token ≡ some key
      → atom.eq_token ≡ false
      → IsSelected settings key
      → IsKnownAtom settings atom
  test :
      (key : Text)
      → atom.ident_token ≡ some key
      → atom.eq_token ≡ false
      → (key == codes "test") ≡ true
      → IsKnownAtom settings atom

mutual
  -- `all` and `any` of known predicates, and `not` of one.
  pub data IsKnown (settings : Settings) : CfgPredicate → Type 0 where
    known_atom : (atom : CfgAtom) → IsKnownAtom settings atom → IsKnown settings (cfg_atom atom)
    known_all :
        (ps : CfgPredicates)
        → AreKnown settings ps
        → IsKnown settings (cfg_composite (some (codes "all")) ps)
    known_any :
        (ps : CfgPredicates)
        → AreKnown settings ps
        → IsKnown settings (cfg_composite (some (codes "any")) ps)
    known_not :
        (p : CfgPredicate)
        → IsKnown settings p
        → IsKnown settings (cfg_composite (some (codes "not")) (next_predicate p no_predicates))

  pub data AreKnown (settings : Settings) : CfgPredicates → Type 0 where
    none_left : AreKnown settings no_predicates
    one_more :
        (p : CfgPredicate) (ps : CfgPredicates)
        → IsKnown settings p
        → AreKnown settings ps
        → AreKnown settings (next_predicate p ps)

from_bool-known : (b : Bool) → from_bool b ≢ unknown
from_bool-known true = λ e. cc
from_bool-known false = λ e. cc

key_known :
    (settings : Settings) (key : Text)
    → IsSelected settings key ⊎ ((key == codes "test") ≡ true)
    → key_status (selected settings.cfg key) key ≢ unknown
key_known settings key (inl (chosen, e)) = rw e (from_bool-known (is_none chosen))
key_known settings key (inr t) = is_test (selected settings.cfg key)
  where
    is_test : (o : Option (Option Text)) → key_status o key ≢ unknown
    is_test none = rw t (λ e. cc)
    is_test (some chosen) = from_bool-known (is_none chosen)

pair_known :
    (settings : Settings) (key value : Text)
    → settings.unknown_features ≡ false
    → ((key == codes "feature") ≡ true) ⊎ IsSelected settings key
    → key_value_status settings key (some value) ≢ unknown
unfolding key_value_status
pair_known settings key value closed h = elim (Bool-cases (key == codes "feature")) [
  | inl k ↦ rw (k, closed) (from_bool-known (has_feature settings value))
  | inr k ↦ rw k (elim h [
    | inl k' ↦ absurd (cc (k, k'))
    | inr s ↦ rw s.1 (from_bool-known (is_value s.0 value))
  ])
]

tokens_known :
    (on off : Bool) (s : CfgStatus)
    → (on ≡ true) ⊎ ((off ≡ true) ⊎ (s ≢ unknown))
    → (if on then active else if off then inactive else s) ≢ unknown
tokens_known true off s h = λ e. cc
tokens_known false true s h = λ e. cc
tokens_known false false s (inl h) = λ e. cc
tokens_known false false s (inr (inl h)) = λ e. cc
tokens_known false false s (inr (inr h)) = h

ident_pair :
    (settings : Settings) (atom : CfgAtom) (key value : Text)
    → settings.unknown_features ≡ false
    → atom.ident_token ≡ some key
    → atom.eq_token ≡ true
    → atom.value ≡ some value
    → ((key == codes "feature") ≡ true) ⊎ IsSelected settings key
    → ident_status settings atom atom.ident_token ≢ unknown
ident_pair settings atom key value closed i q v h =
    subst (λ o. ident_status settings atom o ≢ unknown) (sym i)
      (subst
        (λ t.
          (if t
            then key_value_status settings key atom.value
            else key_status (selected settings.cfg key) key)
          ≢ unknown)
        (sym q)
        (subst (λ o. key_value_status settings key o ≢ unknown) (sym v)
          (pair_known settings key value closed h)))

ident_flag :
    (settings : Settings) (atom : CfgAtom) (key : Text)
    → atom.ident_token ≡ some key
    → atom.eq_token ≡ false
    → IsSelected settings key ⊎ ((key == codes "test") ≡ true)
    → ident_status settings atom atom.ident_token ≢ unknown
ident_flag settings atom key i q h =
    subst (λ o. ident_status settings atom o ≢ unknown) (sym i)
      (subst
        (λ t.
          (if t
            then key_value_status settings key atom.value
            else key_status (selected settings.cfg key) key)
          ≢ unknown)
        (sym q) (key_known settings key h))

atom_known :
    (settings : Settings) (atom : CfgAtom)
    → settings.unknown_features ≡ false
    → IsKnownAtom settings atom
    → atom_status settings atom ≢ unknown
unfolding atom_status
atom_known settings atom closed h =
    tokens_known atom.true_token atom.false_token (ident_status settings atom atom.ident_token)
      (sort h)
  where
    sort :
        IsKnownAtom settings atom
        → (atom.true_token ≡ true)
          ⊎ ((atom.false_token ≡ true) ⊎ (ident_status settings atom atom.ident_token ≢ unknown))
    sort (literal_true e) = inl e
    sort (literal_false e) = inr (inl e)
    sort (feature key value i q v f) =
        inr (inr (ident_pair settings atom key value closed i q v (inl f)))
    sort (pair key value i q v s) =
        inr (inr (ident_pair settings atom key value closed i q v (inr s)))
    sort (flag key i q s) = inr (inr (ident_flag settings atom key i q (inl s)))
    sort (test key i q t) = inr (inr (ident_flag settings atom key i q (inr t)))

abbrev AllKnown : List CfgStatus → Type 0
AllKnown [] = Unit
AllKnown (s ∷ ss) = (s ≢ unknown) × AllKnown ss

combine_known :
    (any : Bool) (ss : List CfgStatus) → AllKnown ss → combine_from false ss any ≢ unknown
unfolding combine_from
combine_known any [] h = from_bool-known (not any)
combine_known true (active ∷ ss) h = λ e. cc
combine_known false (active ∷ ss) h = combine_known false ss h.1
combine_known true (inactive ∷ ss) h = combine_known true ss h.1
combine_known false (inactive ∷ ss) h = λ e. cc
combine_known any (unknown ∷ ss) h = absurd (h.0 refl)

negate_known : (s : CfgStatus) → s ≢ unknown → negate (s ∷ []) ≢ unknown
negate_known active h = λ e. cc
negate_known inactive h = λ e. cc
negate_known unknown h = h

module _ (settings : Settings) (closed : settings.unknown_features ≡ false) where
  mutual
    unfolding predicate composite_status combine Text-discrete

    known_status : (p : CfgPredicate) → IsKnown settings p → predicate settings p ≢ unknown
    known_status (cfg_atom atom) (known_atom a k) = atom_known settings atom closed k
    known_status (cfg_composite keyword ps) (known_all qs k) =
        combine_known false (predicates settings ps) (known_statuses ps k)
    known_status (cfg_composite keyword ps) (known_any qs k) =
        combine_known true (predicates settings ps) (known_statuses ps k)
    known_status (cfg_composite keyword (next_predicate p no_predicates)) (known_not q k) =
        negate_known (predicate settings p) (known_status p k)

    known_statuses : (ps : CfgPredicates) → AreKnown settings ps → AllKnown (predicates settings ps)
    known_statuses no_predicates none_left = tt
    known_statuses (next_predicate p ps) (one_more q qs k ks) =
        (known_status p k, known_statuses ps ks)

decided : (s : CfgStatus) (b : Bool) → s ≢ unknown → Claims s b → s ≡ from_bool b
decided active b n h = rw h refl
decided inactive b n h = rw h refl
decided unknown b n h = absurd (n refl)

-- When the features are all known, a predicate built by `all`, `any` and one-place `not` from
-- literals, features, selected keys and the flag `test` has exactly the status of its truth value, in
-- every build that the settings allow.
pub predicate-from_bool :
    (settings : Settings) (build : Build) (p : CfgPredicate)
    → Allows settings build
    → settings.unknown_features ≡ false
    → IsKnown settings p
    → predicate settings p ≡ from_bool (evaluate build p)
predicate-from_bool settings build p allows closed known =
    decided (predicate settings p) (evaluate build p) (known_status settings closed p known)
      (predicate-Claims settings build p allows)
