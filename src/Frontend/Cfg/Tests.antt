-- ===== src/Frontend/Cfg/Tests.antt =====
-- Runs of the cfg predicates and of the walk of a file (crates/frontend-ra/src/configuration.rs).
use ferrum_atlas.Prelude.{
  ◌≡◌, refl, List, [], ◌∷◌, Bool, true, false, Option, none, some, err, ◌==◌, if◌then◌else◌, arith,
  ℕ_discrete,
}
use ferrum_atlas.Prelude.Text.{Text, text_eq, codes, Text-discrete}
use ferrum_atlas.Model.Definitions.{active, inactive}
use ferrum_atlas.Frontend.Cfg.Syntax.{
  CfgAtom, CfgPredicate, cfg_atom, cfg_composite, no_predicates, next_predicate, Meta, cfg_meta,
  cfg_attr_meta, other_meta, no_metas, next_meta, Attribute, Tree, node, no_trees, next_tree,
}
use ferrum_atlas.Frontend.Cfg.Predicate.{
  Settings, selected, has_feature, is_value, is_none, from_bool, combine, combine_from, atom_status,
  key_value_status, composite_status, predicate, meta_status,
}
use ferrum_atlas.Frontend.Cfg.Sound.{Build, evaluate, Allows, Claims, predicate-Claims}
use ferrum_atlas.Frontend.Cfg.Keeps.{keeps, meta_status-Claims}
use ferrum_atlas.Frontend.Cfg.Known.{
  IsKnown, known_all, known_not, known_atom, one_more, none_left, feature, flag,
  predicate-from_bool,
}
use ferrum_atlas.Frontend.Cfg.Files.{
  FileConfigurations, new_file, node_status, has_attribute_macro, cfg,
}
use ferrum_atlas.Frontend.Cfg.Reference.{
  events_of, reference_status, reference_macro, reference_cfg,
}
use ferrum_atlas.Model.{BuildContext, complete}
use ferrum_atlas.Frontend.Cfg.Features.{
  Value, string, array, no_values, next_value, Entries, no_entries, next_entry, push_enabled,
  close_feature, close_features, enabled_features, unparsed, parse_manifests, new_configurations,
}
use ferrum_atlas.Frontend.Cfg.Requested.{IsClosed, enabled_features-IsClosed}
use ferrum_atlas.Frontend.Cfg.Configured.{IsUnparsed, new_configurations-IsUnparsed}
use ferrum_atlas.Frontend.Cfg.Inherit.{Within, new_file-reference}

abbrev flag_of : Option (Option Text) → Bool
flag_of none = false
flag_of (some chosen) = is_none chosen

abbrev pair_of : Option (Option Text) → Text → Bool
pair_of none value = false
pair_of (some chosen) value = is_value chosen value

-- The build with just what the settings select.
abbrev build_of : Settings → Build
build_of settings = record {
  flag = λ key. flag_of (selected settings.cfg key);
  pair = λ key value.
      if key == codes "feature"
      then has_feature settings value
      else pair_of (selected settings.cfg key) value;
  odd_atom = λ atom. false;
  odd_composite = λ keyword bs. true;
  odd_attribute = false;
}

allows : (settings : Settings) → Allows settings (build_of settings)
allows settings = record {
  flags = λ key chosen e. rw e refl;
  values = λ key value chosen n e. rw (n, e) refl;
  features = λ key value y closed. rw y refl;
  tests = λ key y e. rw e refl;
}

abbrev settings : Settings
settings = record {
  cfg = (codes "unix", none) ∷ [];
  features = codes "std" ∷ [];
  unknown_features = false;
}

abbrev atom : Text → CfgAtom
atom key = record {
  true_token = false;
  false_token = false;
  ident_token = some key;
  eq_token = false;
  value = none;
}

abbrev feature_atom : Text → CfgAtom
feature_atom name = record (atom (codes "feature")) { eq_token = true; value = some name }

-- `all(unix, not(feature = "net"))`.
abbrev without_net : CfgPredicate
without_net = cfg_composite (some (codes "all")) (
    next_predicate (cfg_atom (atom (codes "unix"))) (
      next_predicate
        (cfg_composite (some (codes "not"))
          (next_predicate (cfg_atom (feature_atom (codes "net"))) no_predicates))
        no_predicates))

predicate-Claims_example :
    Claims (predicate settings without_net) (evaluate (build_of settings) without_net)
predicate-Claims_example =
    predicate-Claims settings (build_of settings) without_net (allows settings)

is_active : predicate settings without_net ≡ active
unfolding predicate atom_status key_value_status composite_status combine combine_from Text-discrete
is_active = refl

known : IsKnown settings without_net
unfolding Text-discrete
known = known_all _ (
    one_more _ _ (known_atom _ (flag (codes "unix") refl refl (none, refl))) (
      one_more _ _
        (known_not _ (known_atom _ (feature (codes "feature") (codes "net") refl refl refl refl)))
        none_left))

predicate-from_bool_example :
    predicate settings without_net ≡ from_bool (evaluate (build_of settings) without_net)
predicate-from_bool_example =
    predicate-from_bool settings (build_of settings) without_net (allows settings) refl known

-- `cfg_attr(unix, cfg(feature = "net"))`.
abbrev net_only : Meta
net_only =
    cfg_attr_meta (some (cfg_atom (atom (codes "unix"))))
      (next_meta (cfg_meta (some (cfg_atom (feature_atom (codes "net"))))) no_metas)

meta_status-Claims_example :
    Claims (meta_status settings net_only) (keeps (build_of settings) net_only)
meta_status-Claims_example =
    meta_status-Claims settings (build_of settings) net_only (allows settings)

removes : meta_status settings net_only ≡ inactive
unfolding meta_status predicate atom_status key_value_status combine combine_from Text-discrete
removes = refl

-- A module without `net` that holds a function with an attribute macro.
abbrev attribute : Meta → Text → Text → Attribute
attribute meta name text = record { meta = some meta; simple_name = some name; text = text }

abbrev function : Tree
function = node 3 none (
    next_tree
      (node 4 (some (attribute (other_meta (some (codes "route"))) (codes "route") (codes "route")))
        no_trees)
      no_trees)

abbrev file : Tree
file = node 1 none (
    next_tree (node 2 (some (attribute net_only (codes "cfg_attr") (codes "attr"))) no_trees)
      (next_tree function no_trees))

new_file-reference_example :
    (f : FileConfigurations) × (new_file settings (events_of file) ≡ some f)
    × ((u : Tree) (path : List Tree)
        → Within file [] u path
        → (node_status f u ≡ reference_status settings path)
          × (has_attribute_macro f u ≡ reference_macro settings path)
          × (cfg f u ≡ some (reference_cfg path)))
new_file-reference_example =
    new_file-reference settings file (events_of file) (omega arith, omega arith) refl

-- `a = ["b", "dep:c"]` and `b = ["a"]`.
abbrev declared : Entries
declared =
    next_entry (codes "a")
      (array (next_value (string (codes "b")) (next_value (string (codes "dep:c")) no_values)))
      (next_entry (codes "b") (array (next_value (string (codes "a")) no_values)) no_entries)

abbrev context : BuildContext
context = record {
  id = codes "id";
  name = codes "name";
  target = codes "target";
  features = codes "a" ∷ [];
  default_features = true;
  cfg = [];
  crates = [];
  manifest_digest = [];
  trust = [];
  coverage = record { status = complete; reasons = []; limitations = [] };
}

enabled_features-IsClosed_example :
    (out : Settings) × (enabled_features context (some declared) (codes "a" ∷ []) ≡ some out)
    × IsClosed (some declared) (codes "a" ∷ []) out
enabled_features-IsClosed_example =
    enabled_features-IsClosed context (some declared) (codes "a" ∷ [])

closes :
    enabled_features context (some declared) (codes "a" ∷ [])
    ≡ some (record { cfg = []; features = codes "a" ∷ codes "b" ∷ []; unknown_features = true })
unfolding enabled_features close_features close_feature push_enabled Text-discrete ℕ_discrete
closes = refl

abbrev sources : List (Text × Text)
sources = (codes "Cargo.toml", codes "[") ∷ []

abbrev parse : Text → Option Value
parse text = none

refused : new_configurations parse sources context ≡ err (unparsed (codes "Cargo.toml"))
unfolding new_configurations parse_manifests ℕ_discrete
refused = refl

new_configurations-IsUnparsed_example : IsUnparsed parse sources (unparsed (codes "Cargo.toml"))
new_configurations-IsUnparsed_example =
    new_configurations-IsUnparsed parse sources context (unparsed (codes "Cargo.toml")) refused
