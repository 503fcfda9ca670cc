-- ===== src/Frontend/Cfg/Features.antt =====
-- crates/frontend-ra/src/configuration.rs: `Configurations::new`, which closes the features of each
-- crate over its manifest.
use ferrum_atlas.Prelude.{
  ℕ, zero, suc, ◌+◌, List, [], ◌∷◌, ◌++◌, Bool, true, false, not, ◌&&◌, ◌||◌, Option, none, some,
  Result, ok, err, bind, ok_or, length, any, set_insert, set_extend, lex_lt, ◌==◌, nat_eq,
  if◌then◌else◌,
}
use ferrum_atlas.Prelude.Text.{Text, text_eq, text_ord, codes, starts_with, ends_with}
use ferrum_atlas.Model.{BuildContext, CrateInput}
use ferrum_atlas.Frontend.Cfg.Predicate.{Settings, selected}

mutual
  -- A parsed TOML value: what the code tells apart.
  pub data Value : Type 0 where
    string : Text → Value
    boolean : Bool → Value
    array : Values → Value
    table : Entries → Value
    other : Value

  pub data Values : Type 0 where
    no_values : Values
    next_value : Value → Values → Values

  pub data Entries : Type 0 where
    no_entries : Entries
    next_entry : Text → Value → Entries → Entries

abbrev pub entry : Entries → Text → Option Value
entry no_entries key = none
entry (next_entry k value entries) key = if k == key then some value else entry entries key

abbrev pub get : Value → Text → Option Value
get (table entries) key = entry entries key
get value key = none

abbrev pub as_table : Option Value → Option Entries
as_table (some (table entries)) = some entries
as_table value = none

abbrev pub as_array : Option Value → Option Values
as_array (some (array values)) = some values
as_array value = none

abbrev pub is_some : {A : Type 0} → Option A → Bool
is_some none = false
is_some (some a) = true

abbrev pub is_false : Option Value → Bool
is_false (some (boolean b)) = not b
is_false value = false

abbrev pub is_override : Value → Bool
is_override dep =
    is_some (get dep (codes "features")) || is_false (get dep (codes "default-features"))

abbrev pub any_override : Entries → Bool
any_override no_entries = false
any_override (next_entry k dep entries) = is_override dep || any_override entries

abbrev pub any_override_in : Option Entries → Bool
any_override_in none = false
any_override_in (some deps) = any_override deps

unfoldable pub has_dependency_overrides : Value → Bool
has_dependency_overrides manifest = any_override_in (as_table (get manifest (codes "dependencies")))

-- `feature.contains('/') || feature.starts_with("dep:")`, which other packages decide.
abbrev pub is_foreign : Text → Bool
is_foreign feature = any (λ c. c == b'/') feature || starts_with feature (codes "dep:")

-- The pending features, the last first, and the settings.
pub record Closing : Type 0 where
  pub pending : List Text
  pub settings : Settings

-- The features that an enabled one enables.
unfoldable pub push_enabled : Values → Closing → Closing
push_enabled no_values c = c
push_enabled (next_value (string feature) values) c =
    push_enabled values (record c { pending = feature ∷ c.pending })
push_enabled (next_value value values) c =
    push_enabled values (record c { settings = record c.settings { unknown_features = true } })

abbrev pub entry_of : Option Entries → Text → Option Value
entry_of none feature = none
entry_of (some declared) feature = entry declared feature

abbrev pub push_declared : Option Values → Closing → Closing
push_declared none c = c
push_declared (some values) c = push_enabled values c

abbrev pub has : List Text → Text → Bool
has features feature = any (λ f. f == feature) features

-- One round of the `while` loop, with the feature that is popped.
unfoldable pub close_feature : Option Entries → Text → List Text → Settings → Closing
close_feature declared feature pending settings =
    if is_foreign feature
    then record { pending = pending; settings = record settings { unknown_features = true } }
    else if has settings.features feature
    then record { pending = pending; settings = settings }
    else push_declared (as_array (entry_of declared feature)) (record {
      pending = pending;
      settings = record settings { features = set_insert feature settings.features };
    })

-- The `while` loop, on fuel.
unfoldable pub close_features : ℕ → Option Entries → List Text → Settings → Option Settings
close_features fuel declared [] settings = some settings
close_features zero declared (feature ∷ pending) settings = none
close_features (suc fuel) declared (feature ∷ pending) settings =
    let c = close_feature declared feature pending settings in
    close_features fuel declared c.pending c.settings

abbrev pub count_values : Values → ℕ
count_values no_values = 0
count_values (next_value value values) = suc (count_values values)

abbrev pub count_array : Option Values → ℕ
count_array none = 0
count_array (some values) = count_values values

-- The values of the features that are not yet enabled: what the loop may still push.
abbrev pub count_entries : Entries → List Text → ℕ
count_entries no_entries features = 0
count_entries (next_entry k value entries) features =
    (if has features k then 0 else count_array (as_array (some value)))
    + count_entries entries features

abbrev pub count_declared : Option Entries → List Text → ℕ
count_declared none features = 0
count_declared (some declared) features = count_entries declared features

-- `extend`, where the last stands first.
abbrev pub push_all : List Text → List Text → List Text
push_all [] pending = pending
push_all (f ∷ fs) pending = push_all fs (f ∷ pending)

abbrev pub Manifests : Type 0
Manifests = List (Text × Value)

abbrev pub manifest_at : Manifests → Text → Option Value
manifest_at [] path = none
manifest_at ((k, manifest) ∷ manifests) path =
    if k == path then some manifest else manifest_at manifests path

-- The directories above a file, the nearest first and the empty path last: `Path::ancestors` of a
-- relative path without empty or `.` components.
abbrev pub parents_from : Text → Text → List Text → List Text
parents_from before [] found = found
parents_from before (c ∷ rest) found =
    parents_from (before ++ c ∷ []) rest (if c == b'/' then before ∷ found else found)

abbrev pub manifest_path : Text → Text
manifest_path [] = codes "Cargo.toml"
manifest_path directory = directory ++ codes "/Cargo.toml"

-- A manifest with a package.
abbrev pub package_at : Text → Option Value → Option (Text × Value)
package_at path none = none
package_at path (some manifest) =
    if is_some (get manifest (codes "package")) then some (path, manifest) else none

abbrev pub or_next : {A : Type 0} → Option A → Option A → Option A
or_next none rest = rest
or_next (some a) rest = some a

unfoldable pub find_owner : Manifests → List Text → Option (Text × Value)
find_owner manifests [] = none
find_owner manifests (directory ∷ directories) =
    let path = manifest_path directory in
    or_next (package_at path (manifest_at manifests path)) (find_owner manifests directories)

unfoldable pub owner_of : Manifests → CrateInput → Option (Text × Value)
owner_of manifests krate = find_owner manifests (parents_from [] krate.root_file ([] ∷ []))

abbrev pub is_primary : Option (Text × Value) → Bool
is_primary none = true
is_primary (some (path, manifest)) = path == codes "Cargo.toml"

abbrev pub declared_by : Option (Text × Value) → Option Entries
declared_by none = none
declared_by (some (path, manifest)) = as_table (get manifest (codes "features"))

abbrev pub first_pending : BuildContext → Bool → Option Entries → List Text
first_pending context primary declared =
    let chosen = if primary then push_all context.features [] else [] in
    if (context.default_features || not primary) && is_some (entry_of declared (codes "default"))
    then codes "default" ∷ chosen
    else chosen

abbrev pub base_settings : BuildContext → Settings
base_settings context = record { cfg = context.cfg; features = []; unknown_features = false }

-- The fuel is the pending features and all that the manifest can add.
unfoldable pub enabled_features : BuildContext → Option Entries → List Text → Option Settings
enabled_features context declared pending =
    close_features (length pending + count_declared declared []) declared pending
      (base_settings context)

abbrev pub add_selected : Option (Option Text) → Settings → Settings
add_selected (some (some feature)) settings = record settings {
  features = set_insert feature settings.features;
}
add_selected chosen settings = settings

-- One crate of the `for` loop.
unfoldable pub crate_settings : Manifests → BuildContext → CrateInput → Option Settings
crate_settings manifests context krate =
    let owner = owner_of manifests krate in
    let declared = declared_by owner in
    elim (enabled_features context declared (first_pending context (is_primary owner) declared)) [
      | none ↦ none
      | some settings ↦ some (add_selected (selected context.cfg (codes "feature")) settings)
    ]

abbrev pub Roots : Type 0
Roots = List (Text × Settings)

abbrev pub root_insert : Text → Settings → Roots → Roots
root_insert key settings [] = (key, settings) ∷ []
root_insert key settings ((k, s) ∷ roots) =
    let rest = root_insert key settings roots in
    if key == k
    then (key, settings) ∷ roots
    else if lex_lt key k
    then (key, settings) ∷ (k, s) ∷ roots
    else (k, s) ∷ rest

-- The `for` loop over the crates, with what is unresolved so far.
abbrev pub add_root : CrateInput → Option Settings → Roots × Bool → Option (Roots × Bool)
add_root krate none (roots, unresolved) = none
add_root krate (some settings) (roots, unresolved) =
    some (root_insert krate.root_file settings roots, unresolved || settings.unknown_features)

unfoldable pub collect_roots :
    Manifests → BuildContext → List CrateInput → Roots × Bool → Option (Roots × Bool)
collect_roots manifests context [] state = some state
collect_roots manifests context (krate ∷ crates) state =
    elim (add_root krate (crate_settings manifests context krate) state) [
      | none ↦ none
      | some next ↦ collect_roots manifests context crates next
    ]

abbrev pub mark_unknown : Roots → Roots
mark_unknown [] = []
mark_unknown ((k, s) ∷ roots) = (k, record s { unknown_features = true }) ∷ mark_unknown roots

pub record Configurations : Type 0 where
  pub roots : Roots
  pub fallback : Settings

abbrev pub is_overridden : Option Value → Bool
is_overridden none = false
is_overridden (some workspace) = has_dependency_overrides workspace

abbrev pub forwards : Manifests → Bool
forwards manifests =
    any
      (λ (e : Text × Value).
        has_dependency_overrides e.1
        || is_overridden (get e.1 (codes "workspace"))
        || is_some (get e.1 (codes "target")))
      manifests

abbrev pub is_virtual : Option Value → Bool
is_virtual none = false
is_virtual (some manifest) = not (is_some (get manifest (codes "package")))

abbrev pub is_empty : List Text → Bool
is_empty [] = true
is_empty (f ∷ fs) = false

unfoldable pub is_unresolved : Manifests → BuildContext → Bool
is_unresolved manifests context =
    forwards manifests
    || (is_virtual (manifest_at manifests (codes "Cargo.toml"))
        && (not (is_empty context.features) || not context.default_features))

abbrev pub finish_roots : Roots × Bool → Roots
finish_roots (roots, unresolved) = if unresolved then mark_unknown roots else roots

-- `iter().cloned().collect()` into a set.
abbrev pub features_of : List Text → List Text
features_of fs = set_extend [] fs

-- `Configurations::new` after the manifests are parsed; `none` is a loop without end.
unfoldable pub new_parsed : Manifests → BuildContext → Option Configurations
new_parsed manifests context =
    elim (collect_roots manifests context context.crates ([], is_unresolved manifests context)) [
      | none ↦ none
      | some state ↦ some (record {
        roots = finish_roots state;
        fallback = record {
          cfg = context.cfg;
          features = features_of context.features;
          unknown_features = true;
        };
      })
    ]

pub data ConfigurationError : Type 0 where
  unparsed : Text → ConfigurationError
  endless : ConfigurationError

-- `toml::from_str` of each manifest.
unfoldable pub parse_manifests :
    (Text → Option Value) → List (Text × Text) → Result ConfigurationError Manifests
parse_manifests parse [] = ok []
parse_manifests parse ((path, text) ∷ manifests) =
    let rest = parse_manifests parse manifests in
    if ends_with path (codes "Cargo.toml")
    then elim (parse text) [
      | none ↦ err (unparsed path)
      | some manifest ↦ bind rest (λ more. ok ((path, manifest) ∷ more))
    ]
    else rest

-- `Configurations::new` of the manifests of a source; the parser is another library's.
unfoldable pub new_configurations :
    (Text → Option Value)
    → List (Text × Text)
    → BuildContext
    → Result ConfigurationError Configurations
new_configurations parse sources context =
    bind (parse_manifests parse sources) λ manifests. ok_or (new_parsed manifests context) endless
