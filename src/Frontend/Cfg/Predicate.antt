-- ===== src/Frontend/Cfg/Predicate.antt =====
-- crates/frontend-ra/src/configuration.rs: `combine`, `predicate`, `meta_status`, `attr_status` and
-- `attribute_unavailable`.
use ferrum_atlas.Prelude.{
  List, [], ◌∷◌, Bool, true, false, not, ◌||◌, Option, none, some, any, ◌==◌, if◌then◌else◌,
}
use ferrum_atlas.Prelude.Text.{Text, text_eq, codes}
use ferrum_atlas.Model.Definitions.{CfgStatus, active, inactive, unknown}
use ferrum_atlas.Frontend.Cfg.Syntax.{
  CfgAtom, CfgPredicate, cfg_atom, cfg_composite, CfgPredicates, no_predicates, next_predicate,
  Meta, cfg_meta, cfg_attr_meta, unsafe_meta, unsafe_empty, other_meta, Metas, no_metas, next_meta,
  Attribute,
}

-- The selected cfg flags with their values, the enabled features, and whether more may be enabled.
pub record Settings : Type 0 where
  pub cfg : List (Text × Option Text)
  pub features : List Text
  pub unknown_features : Bool

abbrev pub from_bool : Bool → CfgStatus
from_bool true = active
from_bool false = inactive

-- The loop of `combine`, with what it knows so far.
unfoldable pub combine_from : Bool → List CfgStatus → Bool → CfgStatus
combine_from seen [] any = if seen then unknown else from_bool (not any)
combine_from seen (active ∷ values) any =
    let rest = combine_from seen values any in if any then active else rest
combine_from seen (inactive ∷ values) any =
    let rest = combine_from seen values any in if any then rest else inactive
combine_from seen (unknown ∷ values) any = combine_from true values any

unfoldable pub combine : List CfgStatus → Bool → CfgStatus
combine values any = combine_from false values any

-- `BTreeMap::get`.
abbrev pub selected : List (Text × Option Text) → Text → Option (Option Text)
selected [] key = none
selected ((k, value) ∷ cfg) key = if k == key then some value else selected cfg key

abbrev pub has_feature : Settings → Text → Bool
has_feature settings value = any (λ f. f == value) settings.features

abbrev pub is_value : Option Text → Text → Bool
is_value none value = false
is_value (some text) value = text == value

abbrev pub is_none : Option Text → Bool
is_none none = true
is_none (some text) = false

abbrev pub value_status : Option (Option Text) → Text → CfgStatus
value_status none value = unknown
value_status (some chosen) value = from_bool (is_value chosen value)

abbrev pub key_status : Option (Option Text) → Text → CfgStatus
key_status (some chosen) key = from_bool (is_none chosen)
key_status none key = if key == codes "test" then inactive else unknown

-- `key = "value"`.
unfoldable pub key_value_status : Settings → Text → Option Text → CfgStatus
key_value_status settings key none = unknown
key_value_status settings key (some value) =
    if key == codes "feature"
    then (if settings.unknown_features then unknown else from_bool (has_feature settings value))
    else value_status (selected settings.cfg key) value

abbrev pub ident_status : Settings → CfgAtom → Option Text → CfgStatus
ident_status settings atom none = unknown
ident_status settings atom (some key) =
    if atom.eq_token
    then key_value_status settings key atom.value
    else key_status (selected settings.cfg key) key

unfoldable pub atom_status : Settings → CfgAtom → CfgStatus
atom_status settings atom =
    if atom.true_token
    then active
    else if atom.false_token
    then inactive
    else ident_status settings atom atom.ident_token

abbrev pub negate : List CfgStatus → CfgStatus
negate (active ∷ []) = inactive
negate (inactive ∷ []) = active
negate _ = unknown

unfoldable pub composite_status : Option Text → List CfgStatus → CfgStatus
composite_status none children = unknown
composite_status (some keyword) children =
    if keyword == codes "all"
    then combine children false
    else if keyword == codes "any"
    then combine children true
    else if keyword == codes "not"
    then negate children
    else unknown

unfoldable mutual
  pub predicate : Settings → CfgPredicate → CfgStatus
  predicate settings (cfg_atom atom) = atom_status settings atom
  predicate settings (cfg_composite keyword children) =
      composite_status keyword (predicates settings children)

  pub predicates : Settings → CfgPredicates → List CfgStatus
  predicates settings no_predicates = []
  predicates settings (next_predicate p ps) = predicate settings p ∷ predicates settings ps

abbrev pub predicate_or : Settings → Option CfgPredicate → CfgStatus
predicate_or settings none = unknown
predicate_or settings (some p) = predicate settings p

abbrev pub when_active : CfgStatus → CfgStatus → CfgStatus
when_active inactive inner = active
when_active active inner = inner
when_active unknown inner = unknown

unfoldable mutual
  pub meta_status : Settings → Meta → CfgStatus
  meta_status settings (cfg_meta p) = predicate_or settings p
  meta_status settings (cfg_attr_meta p metas) =
      when_active (predicate_or settings p) (combine (metas_status settings metas) false)
  meta_status settings (unsafe_meta inner) = active
  meta_status settings unsafe_empty = active
  meta_status settings (other_meta name) = active

  pub metas_status : Settings → Metas → List CfgStatus
  metas_status settings no_metas = []
  metas_status settings (next_meta m ms) = meta_status settings m ∷ metas_status settings ms

unfoldable pub attr_status : Settings → Attribute → CfgStatus
attr_status settings attr = elim attr.meta [
  | none ↦ unknown
  | some meta ↦ meta_status settings meta
]

unfoldable pub known_attributes : List Text
known_attributes =
    codes "derive"
    ∷ codes "doc"
    ∷ codes "allow"
    ∷ codes "warn"
    ∷ codes "deny"
    ∷ codes "forbid"
    ∷ codes "expect"
    ∷ codes "inline"
    ∷ codes "repr"
    ∷ codes "test"
    ∷ codes "must_use"
    ∷ codes "no_mangle"
    ∷ codes "export_name"
    ∷ codes "link"
    ∷ codes "link_name"
    ∷ codes "link_section"
    ∷ codes "path"
    ∷ codes "cold"
    ∷ codes "deprecated"
    ∷ codes "no_std"
    ∷ codes "no_main"
    ∷ codes "non_exhaustive"
    ∷ codes "track_caller"
    ∷ codes "automatically_derived"
    ∷ codes "used"
    ∷ codes "global_allocator"
    ∷ codes "panic_handler"
    ∷ []

abbrev pub is_known : Option Text → Bool
is_known none = false
is_known (some name) = any (λ known. known == name) known_attributes

abbrev pub unavailable_when : CfgStatus → Bool → Bool
unavailable_when inactive inner = false
unavailable_when active inner = inner
unavailable_when unknown inner = true

unfoldable mutual
  pub attribute_unavailable : Settings → Meta → Bool
  attribute_unavailable settings (cfg_meta p) = false
  attribute_unavailable settings (cfg_attr_meta p metas) =
      unavailable_when (predicate_or settings p) (any_unavailable settings metas)
  attribute_unavailable settings (unsafe_meta inner) = attribute_unavailable settings inner
  attribute_unavailable settings unsafe_empty = true
  attribute_unavailable settings (other_meta name) = not (is_known name)

  pub any_unavailable : Settings → Metas → Bool
  any_unavailable settings no_metas = false
  any_unavailable settings (next_meta m ms) =
      attribute_unavailable settings m || any_unavailable settings ms
