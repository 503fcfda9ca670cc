-- ===== src/Model/Definitions.antt =====
-- crates/model/src/lib.rs: definitions of a snapshot.
use ferrum_atlas.Prelude.{PartialEq, ℕ, List, Option}
use ferrum_atlas.Prelude.Text.{Text}
use ferrum_atlas.Model.Reasons.{UnknownReason}

pub data CfgStatus : Type 0 where
  active inactive unknown : CfgStatus

unfoldable pub CfgStatus-discrete : Discrete CfgStatus
CfgStatus-discrete = hlevel

instance abbrev pub cfg_status_eq : PartialEq CfgStatus
cfg_status_eq = record { dec = CfgStatus-discrete }

pub record Span : Type 0 where
  pub file_id : Text
  pub start : ℕ
  pub end : ℕ

pub record Metrics : Type 0 where
  pub lines : ℕ
  pub branches : ℕ
  pub returns : ℕ
  pub awaits : ℕ
  pub unsafe_blocks : ℕ

pub record Definition : Type 0 where
  pub id : Text
  pub context_id : Text
  pub file_id : Text
  pub name : Text
  pub qualified_name : Text
  pub kind : Text
  pub parent_id : Option Text
  pub signature : Text
  pub signature_hash : Text
  pub body_hash : Text
  pub span : Span
  pub body_span : Option Span
  pub cfg : List Text
  pub cfg_status : CfgStatus
  pub visibility : Text
  pub metrics : Metrics

pub data Target : Type 0 where
  resolved : Text → Target
  unknown_target : UnknownReason → Text → Target

pub record Relation : Type 0 where
  pub id : Text
  pub source : Text
  pub target : Target
  pub kind : Text
  pub span : Span
  pub evidence_id : Text
