-- ===== src/Frontend/Cfg/Sound.antt =====
-- crates/frontend-ra/src/configuration.rs: a status that is not `Unknown` is the truth in every build
-- that the settings allow.
use ferrum_atlas.Prelude.{
  ◌≡◌, refl, inl, inr, List, [], ◌∷◌, Bool, true, false, not, Option, none, some, any, all, ◌==◌,
  if◌then◌else◌, Bool-cases,
}
use ferrum_atlas.Prelude.Text.{Text, text_eq, codes}
use ferrum_atlas.Model.Definitions.{CfgStatus, active, inactive, unknown}
use ferrum_atlas.Frontend.Cfg.Syntax.{
  CfgAtom, CfgPredicate, cfg_atom, cfg_composite, CfgPredicates, no_predicates, next_predicate,
}
use ferrum_atlas.Frontend.Cfg.Predicate.{
  Settings, from_bool, combine, combine_from, selected, has_feature, is_value, is_none,
  value_status, key_status, ident_status, key_value_status, atom_status, negate, composite_status,
  predicate, predicates,
}

-- A build of the compiler: which flags and which pairs are set, and, for what is not a predicate of
-- the language, an arbitrary answer.
pub record Build : Type 0 where
  pub flag : Text → Bool
  pub pair : Text → Text → Bool
  pub odd_atom : CfgAtom → Bool
  pub odd_composite : Option Text → List Bool → Bool
  pub odd_attribute : Bool

abbrev pub pair_value : Build → CfgAtom → Text → Option Text → Bool
pair_value build atom key none = build.odd_atom atom
pair_value build atom key (some value) = build.pair key value

abbrev pub ident_value : Build → CfgAtom → Option Text → Bool
ident_value build atom none = build.odd_atom atom
ident_value build atom (some key) =
    if atom.eq_token then pair_value build atom key atom.value else build.flag key

-- The Boolean meaning of conditional compilation in a build.
unfoldable pub atom_value : Build → CfgAtom → Bool
atom_value build atom =
    if atom.true_token
    then true
    else if atom.false_token
    then false
    else ident_value build atom atom.ident_token

abbrev pub not_value : Build → List Bool → Bool
not_value build (b ∷ []) = not b
not_value build other = build.odd_composite (some (codes "not")) other

unfoldable pub composite_value : Build → Option Text → List Bool → Bool
composite_value build none bs = build.odd_composite none bs
composite_value build (some keyword) bs =
    if keyword == codes "all"
    then all (λ b. b) bs
    else if keyword == codes "any"
    then any (λ b. b) bs
    else if keyword == codes "not"
    then not_value build bs
    else build.odd_composite (some keyword) bs

unfoldable mutual
  pub evaluate : Build → CfgPredicate → Bool
  evaluate build (cfg_atom atom) = atom_value build atom
  evaluate build (cfg_composite keyword children) =
      composite_value build keyword (evaluate_all build children)

  pub evaluate_all : Build → CfgPredicates → List Bool
  evaluate_all build no_predicates = []
  evaluate_all build (next_predicate p ps) = evaluate build p ∷ evaluate_all build ps

-- What the settings say of a build: a selected key has its one value, or is a flag; the features are
-- those listed unless more may be enabled; a flag `test` that is not selected is off.
pub record Allows (settings : Settings) (build : Build) : Type 0 where
  pub flags :
      (key : Text) (chosen : Option Text)
      → selected settings.cfg key ≡ some chosen
      → build.flag key ≡ is_none chosen
  pub values :
      (key value : Text) (chosen : Option Text)
      → (key == codes "feature") ≡ false
      → selected settings.cfg key ≡ some chosen
      → build.pair key value ≡ is_value chosen value
  pub features :
      (key value : Text)
      → (key == codes "feature") ≡ true
      → settings.unknown_features ≡ false
      → build.pair key value ≡ has_feature settings value
  pub tests :
      (key : Text)
      → (key == codes "test") ≡ true
      → selected settings.cfg key ≡ none
      → build.flag key ≡ false

-- A status claims nothing, or a truth value.
abbrev pub Claims : CfgStatus → Bool → Type 0
Claims active b = b ≡ true
Claims inactive b = b ≡ false
Claims unknown b = Unit

abbrev pub AllClaim : List CfgStatus → List Bool → Type 0
AllClaim [] [] = Unit
AllClaim (s ∷ ss) (b ∷ bs) = Claims s b × AllClaim ss bs
AllClaim _ _ = ⊥

Claims-from_bool : (b c : Bool) → c ≡ b → Claims (from_bool b) c
Claims-from_bool true c h = h
Claims-from_bool false c h = h

pub Claims-all :
    (seen : Bool) (ss : List CfgStatus) (bs : List Bool)
    → AllClaim ss bs
    → Claims (combine_from seen ss false) (all (λ b. b) bs)
unfolding combine_from
Claims-all true [] [] h = tt
Claims-all false [] [] h = refl
Claims-all seen [] (b ∷ bs) h = absurd h
Claims-all seen (s ∷ ss) [] h = absurd h
Claims-all seen (active ∷ ss) (b ∷ bs) h = rw h.0 (Claims-all seen ss bs h.1)
Claims-all seen (inactive ∷ ss) (b ∷ bs) h = rw h.0 refl
Claims-all seen (unknown ∷ ss) (true ∷ bs) h = Claims-all true ss bs h.1
Claims-all seen (unknown ∷ ss) (false ∷ bs) h =
    blurred (combine_from true ss false) (never_active ss)
  where
    blurred : (s : CfgStatus) → (s ≡ active → ⊥) → Claims s false
    blurred active n = absurd (n refl)
    blurred inactive n = refl
    blurred unknown n = tt

    never_active : (ss : List CfgStatus) → combine_from true ss false ≡ active → ⊥
    never_active [] e = cc
    never_active (active ∷ ss) e = never_active ss e
    never_active (inactive ∷ ss) e = cc
    never_active (unknown ∷ ss) e = never_active ss e

Claims-any :
    (seen : Bool) (ss : List CfgStatus) (bs : List Bool)
    → AllClaim ss bs
    → Claims (combine_from seen ss true) (any (λ b. b) bs)
unfolding combine_from
Claims-any true [] [] h = tt
Claims-any false [] [] h = refl
Claims-any seen [] (b ∷ bs) h = absurd h
Claims-any seen (s ∷ ss) [] h = absurd h
Claims-any seen (active ∷ ss) (b ∷ bs) h = rw h.0 refl
Claims-any seen (inactive ∷ ss) (b ∷ bs) h = rw h.0 (Claims-any seen ss bs h.1)
Claims-any seen (unknown ∷ ss) (false ∷ bs) h = Claims-any true ss bs h.1
Claims-any seen (unknown ∷ ss) (true ∷ bs) h =
    blurred (combine_from true ss true) (never_inactive ss)
  where
    blurred : (s : CfgStatus) → (s ≡ inactive → ⊥) → Claims s true
    blurred active n = refl
    blurred inactive n = absurd (n refl)
    blurred unknown n = tt

    never_inactive : (ss : List CfgStatus) → combine_from true ss true ≡ inactive → ⊥
    never_inactive [] e = cc
    never_inactive (active ∷ ss) e = cc
    never_inactive (inactive ∷ ss) e = never_inactive ss e
    never_inactive (unknown ∷ ss) e = never_inactive ss e

Claims-not :
    (build : Build) (ss : List CfgStatus) (bs : List Bool)
    → AllClaim ss bs
    → Claims (negate ss) (not_value build bs)
Claims-not build [] bs h = tt
Claims-not build (active ∷ []) [] h = absurd h
Claims-not build (active ∷ []) (b ∷ []) h = rw h.0 refl
Claims-not build (active ∷ []) (b ∷ c ∷ bs) h = absurd h.1
Claims-not build (inactive ∷ []) [] h = absurd h
Claims-not build (inactive ∷ []) (b ∷ []) h = rw h.0 refl
Claims-not build (inactive ∷ []) (b ∷ c ∷ bs) h = absurd h.1
Claims-not build (unknown ∷ []) bs h = tt
Claims-not build (active ∷ t ∷ ss) bs h = tt
Claims-not build (inactive ∷ t ∷ ss) bs h = tt
Claims-not build (unknown ∷ t ∷ ss) bs h = tt

Claims-composite :
    (build : Build) (keyword : Option Text) (ss : List CfgStatus) (bs : List Bool)
    → AllClaim ss bs
    → Claims (composite_status keyword ss) (composite_value build keyword bs)
unfolding composite_status composite_value combine
Claims-composite build none ss bs h = tt
Claims-composite build (some keyword) ss bs h = elim (Bool-cases (keyword == codes "all")) [
  | inl e ↦ rw e (Claims-all false ss bs h)
  | inr e ↦ rw e (elim (Bool-cases (keyword == codes "any")) [
    | inl e' ↦ rw e' (Claims-any false ss bs h)
    | inr e' ↦ rw e' (elim (Bool-cases (keyword == codes "not")) [
      | inl n ↦ rw n (Claims-not build ss bs h)
      | inr n ↦ rw n tt
    ])
  ])
]

Claims-if :
    (test : Bool) (s t : CfgStatus) (b c : Bool)
    → Claims s b
    → Claims t c
    → Claims (if test then s else t) (if test then b else c)
Claims-if true s t b c h k = h
Claims-if false s t b c h k = k

Claims-tokens :
    (on off : Bool) (s : CfgStatus) (b : Bool)
    → Claims s b
    → Claims
        (if on then active else if off then inactive else s)
        (if on then true else if off then false else b)
Claims-tokens true off s b h = refl
Claims-tokens false true s b h = refl
Claims-tokens false false s b h = h

module _ (settings : Settings) (build : Build) (allows : Allows settings build) where
  Claims-selected :
      (key value : Text) (chosen : Option (Option Text))
      → (key == codes "feature") ≡ false
      → selected settings.cfg key ≡ chosen
      → Claims (value_status chosen value) (build.pair key value)
  Claims-selected key value none n e = tt
  Claims-selected key value (some text) n e =
      Claims-from_bool (is_value text value) (build.pair key value)
        (allows.values key value text n e)

  Claims-feature :
      (key value : Text) (more : Bool)
      → (key == codes "feature") ≡ true
      → settings.unknown_features ≡ more
      → Claims
          (if more then unknown else from_bool (has_feature settings value))
          (build.pair key value)
  Claims-feature key value true k e = tt
  Claims-feature key value false k e =
      Claims-from_bool (has_feature settings value) (build.pair key value)
        (allows.features key value k e)

  Claims-key_value :
      (atom : CfgAtom) (key : Text) (value : Option Text)
      → Claims (key_value_status settings key value) (pair_value build atom key value)
  unfolding key_value_status
  Claims-key_value atom key none = tt
  Claims-key_value atom key (some value) = elim (Bool-cases (key == codes "feature")) [
    | inl k ↦ rw k (Claims-feature key value settings.unknown_features k refl)
    | inr k ↦ rw k (Claims-selected key value (selected settings.cfg key) k refl)
  ]

  Claims-flag :
      (key : Text) (chosen : Option (Option Text))
      → selected settings.cfg key ≡ chosen
      → Claims (key_status chosen key) (build.flag key)
  Claims-flag key (some text) e =
      Claims-from_bool (is_none text) (build.flag key) (allows.flags key text e)
  Claims-flag key none e = elim (Bool-cases (key == codes "test")) [
    | inl k ↦ rw k (allows.tests key k e)
    | inr k ↦ rw k tt
  ]

  Claims-ident :
      (atom : CfgAtom) (key : Option Text)
      → Claims (ident_status settings atom key) (ident_value build atom key)
  Claims-ident atom none = tt
  Claims-ident atom (some key) =
      Claims-if atom.eq_token _ _ _ _ (Claims-key_value atom key atom.value)
        (Claims-flag key (selected settings.cfg key) refl)

  Claims-atom : (atom : CfgAtom) → Claims (atom_status settings atom) (atom_value build atom)
  unfolding atom_status atom_value
  Claims-atom atom =
      Claims-tokens atom.true_token atom.false_token _ _ (Claims-ident atom atom.ident_token)

  mutual
    unfolding predicate evaluate

    Claims-predicate : (p : CfgPredicate) → Claims (predicate settings p) (evaluate build p)
    Claims-predicate (cfg_atom atom) = Claims-atom atom
    Claims-predicate (cfg_composite keyword children) =
        Claims-composite build keyword (predicates settings children) (evaluate_all build children)
          (Claims-predicates children)

    Claims-predicates :
        (ps : CfgPredicates) → AllClaim (predicates settings ps) (evaluate_all build ps)
    Claims-predicates no_predicates = tt
    Claims-predicates (next_predicate p ps) = (Claims-predicate p, Claims-predicates ps)

-- The status of a predicate refines its Boolean meaning: in every build that the settings allow, and
-- whatever is answered for atoms and composites that the language does not have, an `Active`
-- predicate is true, an `Inactive` one is false, and `Unknown` claims nothing.
pub predicate-Claims :
    (settings : Settings) (build : Build) (p : CfgPredicate)
    → Allows settings build
    → Claims (predicate settings p) (evaluate build p)
predicate-Claims settings build p allows = Claims-predicate settings build allows p
