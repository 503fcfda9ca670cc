-- ===== src/Frontend/Cfg/Files.antt =====
-- crates/frontend-ra/src/configuration.rs: `FileConfigurations`, which computes the inherited
-- attributes of all nodes of a file in one walk.
use ferrum_atlas.Prelude.{
  ℕ, zero, suc, ◌-◌, List, [], ◌∷◌, ◌++◌, Bool, true, false, not, ◌||◌, Option, none, some, lookup,
  length, get_elem?, ◌==◌, nat_eq, if◌then◌else◌,
}
use ferrum_atlas.Prelude.Text.{Text, text_eq, codes}
use ferrum_atlas.Model.Definitions.{CfgStatus, active, cfg_status_eq}
use ferrum_atlas.Frontend.Cfg.Syntax.{Meta, Attribute, Tree, node, Trees, no_trees, next_tree}
use ferrum_atlas.Frontend.Cfg.Predicate.{Settings, combine, meta_status, attribute_unavailable}

pub record InheritedSettings : Type 0 where
  pub status : CfgStatus
  pub macro_unavailable : Bool
  pub cfg : Option ℕ

abbrev pub default_inherited : InheritedSettings
default_inherited = record { status = active; macro_unavailable = false; cfg = none }

pub record CfgAttributes : Type 0 where
  pub attributes : List Text
  pub parent : Option ℕ

-- The map from nodes, by their numbers, and the vector.
pub record FileConfigurations : Type 0 where
  pub nodes : List (ℕ × InheritedSettings)
  pub cfg : List CfgAttributes

pub data WalkEvent : Type 0 where
  enter : Tree → WalkEvent
  leave : WalkEvent

abbrev pub as_attribute : Tree → Option Attribute
as_attribute (node id attr children) = attr

-- The children that are attributes.
unfoldable pub attributes_of : Trees → List Attribute
attributes_of no_trees = []
attributes_of (next_tree t ts) = elim (as_attribute t) [
  | none ↦ attributes_of ts
  | some attr ↦ attr ∷ attributes_of ts
]

abbrev pub apply_meta : Settings → Option Meta → InheritedSettings → InheritedSettings
apply_meta settings none inherited = inherited
apply_meta settings (some meta) inherited = record inherited {
  status = combine (inherited.status ∷ meta_status settings meta ∷ []) false;
  macro_unavailable = inherited.macro_unavailable || attribute_unavailable settings meta;
}

-- The loop over the children, for the status; `cfg` stays.
unfoldable pub inherit : Settings → List Attribute → InheritedSettings → InheritedSettings
inherit settings [] inherited = inherited
inherit settings (attr ∷ attrs) inherited =
    inherit settings attrs (apply_meta settings attr.meta inherited)

abbrev pub is_cfg_name : Option Text → Bool
is_cfg_name none = false
is_cfg_name (some name) = name == codes "cfg" || name == codes "cfg_attr"

-- The loop over the children, for the texts of the `cfg` attributes.
unfoldable pub cfg_texts : List Attribute → List Text
cfg_texts [] = []
cfg_texts (attr ∷ attrs) =
    let rest = cfg_texts attrs in if is_cfg_name attr.simple_name then attr.text ∷ rest else rest

abbrev pub is_empty : {A : Type 0} → List A → Bool
is_empty [] = true
is_empty (x ∷ xs) = false

abbrev pub is_some : {A : Type 0} → Option A → Bool
is_some none = false
is_some (some a) = true

-- `if !attributes.is_empty() { .. }`.
abbrev pub push_cfg :
    List Text → InheritedSettings → List CfgAttributes → InheritedSettings × List CfgAttributes
push_cfg [] inherited cfg = (inherited, cfg)
push_cfg (text ∷ texts) inherited cfg =
    let pushed = cfg ++ record { attributes = text ∷ texts; parent = inherited.cfg } ∷ [] in
    (record inherited { cfg = some (length pushed - 1) }, pushed)

abbrev pub is_effective : InheritedSettings → Bool
is_effective inherited =
    not (inherited.status == active) || inherited.macro_unavailable || is_some inherited.cfg

abbrev pub children_of : Tree → Trees
children_of (node id attr children) = children

abbrev pub number_of : Tree → ℕ
number_of (node id attr children) = id

-- The cache, with the stack, the top first.
pub record Walk : Type 0 where
  pub cache : FileConfigurations
  pub stack : List InheritedSettings

-- What is inherited at a node, below the settings of its parent.
unfoldable pub entered :
    Settings
    → Tree
    → InheritedSettings
    → List CfgAttributes
    → InheritedSettings × List CfgAttributes
entered settings t top cfg =
    let attrs = attributes_of (children_of t) in
    push_cfg (cfg_texts attrs) (inherit settings attrs top) cfg

unfoldable pub enter_node : Settings → Tree → InheritedSettings → Walk → Walk
enter_node settings t top w =
    let (inherited, cfg) = entered settings t top w.cache.cfg in
    record {
      cache = record {
        nodes =
            if is_effective inherited
            then (number_of t, inherited) ∷ w.cache.nodes
            else w.cache.nodes;
        cfg = cfg;
      };
      stack = inherited ∷ w.stack;
    }

abbrev pub enter_below : Settings → Tree → List InheritedSettings → Walk → Option Walk
enter_below settings t [] w = none
enter_below settings t (top ∷ below) w = some (enter_node settings t top w)

abbrev pub pop : List InheritedSettings → List InheritedSettings
pop [] = []
pop (top ∷ below) = below

-- One event; `none` is the panic of `stack.last().unwrap()`.
unfoldable pub step : Settings → WalkEvent → Walk → Option Walk
step settings (enter t) w = enter_below settings t w.stack w
step settings leave w = some (record w { stack = pop w.stack })

abbrev pub then_walk : Option Walk → (Walk → Option Walk) → Option Walk
then_walk none f = none
then_walk (some w) f = f w

unfoldable pub run_events : Settings → List WalkEvent → Walk → Option Walk
run_events settings [] w = some w
run_events settings (e ∷ es) w = then_walk (step settings e w) (λ v. run_events settings es v)

abbrev pub cache_of : Option Walk → Option FileConfigurations
cache_of none = none
cache_of (some w) = some w.cache

-- `FileConfigurations::new`, over the events of `root.preorder()`.
unfoldable pub new_file : Settings → List WalkEvent → Option FileConfigurations
new_file settings events = cache_of (
    run_events settings events
      (record { cache = record { nodes = []; cfg = [] }; stack = default_inherited ∷ [] }))

-- `self.nodes.get(node).copied().unwrap_or_default()`.
abbrev pub or_default : Option InheritedSettings → InheritedSettings
or_default none = default_inherited
or_default (some inherited) = inherited

abbrev pub find_node : List (ℕ × InheritedSettings) → ℕ → InheritedSettings
find_node nodes id = or_default (lookup id nodes)

unfoldable pub node_status : FileConfigurations → Tree → CfgStatus
node_status file t = (find_node file.nodes (number_of t)).status

unfoldable pub has_attribute_macro : FileConfigurations → Tree → Bool
has_attribute_macro file t = (find_node file.nodes (number_of t)).macro_unavailable

abbrev pub attach : List Text → Option (List Text) → Option (List Text)
attach texts none = none
attach texts (some rest) = some (texts ++ rest)

abbrev pub at_entry : Option CfgAttributes → (Option ℕ → Option (List Text)) → Option (List Text)
at_entry none go = none
at_entry (some entry) go = attach entry.attributes (go entry.parent)

-- The `while` loop of `cfg`: each entry's parent stands before it, so the fuel is the length. `none`
-- is an index out of range, or a loop without end.
unfoldable pub cfg_from : List CfgAttributes → ℕ → Option ℕ → Option (List Text)
cfg_from entries fuel none = some []
cfg_from entries zero (some index) = none
cfg_from entries (suc fuel) (some index) =
    at_entry (get_elem? entries index) (λ parent. cfg_from entries fuel parent)

unfoldable pub cfg : FileConfigurations → Tree → Option (List Text)
cfg file t = cfg_from file.cfg (length file.cfg) (find_node file.nodes (number_of t)).cfg
