-- ===== src/Frontend/Cfg/Syntax.antt =====
-- crates/frontend-ra/src/configuration.rs: what the code reads of a syntax tree. The nodes are those of
-- ra_ap_syntax: a token that may be missing is an option or a Boolean.
use ferrum_atlas.Prelude.{ℕ, Bool, Option}
use ferrum_atlas.Prelude.Text.{Text}

-- `value` is the text of the string token, when it is a string that can be unescaped.
pub record CfgAtom : Type 0 where
  pub true_token : Bool
  pub false_token : Bool
  pub ident_token : Option Text
  pub eq_token : Bool
  pub value : Option Text

mutual
  pub data CfgPredicate : Type 0 where
    cfg_atom : CfgAtom → CfgPredicate
    cfg_composite : Option Text → CfgPredicates → CfgPredicate

  -- The children of a composite predicate.
  pub data CfgPredicates : Type 0 where
    no_predicates : CfgPredicates
    next_predicate : CfgPredicate → CfgPredicates → CfgPredicates

mutual
  pub data Meta : Type 0 where
    cfg_meta : Option CfgPredicate → Meta
    cfg_attr_meta : Option CfgPredicate → Metas → Meta
    unsafe_meta : Meta → Meta
    unsafe_empty : Meta
    other_meta : Option Text → Meta

  pub data Metas : Type 0 where
    no_metas : Metas
    next_meta : Meta → Metas → Metas

pub record Attribute : Type 0 where
  pub meta : Option Meta
  pub simple_name : Option Text
  pub text : Text

mutual
  -- A node with its number, which tells it from all others, what it is as an attribute, and its
  -- children.
  pub data Tree : Type 0 where
    node : ℕ → Option Attribute → Trees → Tree

  pub data Trees : Type 0 where
    no_trees : Trees
    next_tree : Tree → Trees → Trees
