-- ===== src/Model/Context.antt =====
-- crates/model/src/lib.rs: the build context of a profile.
use ferrum_atlas.Prelude.{Bool, Option, List}
use ferrum_atlas.Prelude.Text.{Text, Text-discrete}
use ferrum_atlas.Model.Reasons.{Coverage, Coverage-discrete}

-- A `BTreeMap<String, String>` is the list of its entries in key order.
pub record CrateInput : Type 0 where
  pub name : Text
  pub root_file : Text
  pub edition : Text
  pub dependencies : List (Text × Text)

pub record BuildContext : Type 0 where
  pub id : Text
  pub name : Text
  pub target : Text
  pub features : List Text
  pub default_features : Bool
  pub cfg : List (Text × Option Text)
  pub crates : List CrateInput
  pub manifest_digest : Text
  pub trust : Text
  pub coverage : Coverage

pub CrateInput-discrete : Discrete CrateInput
CrateInput-discrete = hlevel Text-discrete

pub BuildContext-discrete : Discrete BuildContext
BuildContext-discrete = hlevel (Text-discrete, CrateInput-discrete, Coverage-discrete)
