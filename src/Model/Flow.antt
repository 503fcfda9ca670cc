-- ===== src/Model/Flow.antt =====
-- crates/model/src/compiler.rs and compiler_import.rs: a page of one imported compiler body.
use ferrum_atlas.Prelude.{ℕ, Option}
use ferrum_atlas.Prelude.Text.{Text}
use ferrum_atlas.Model.Reasons.{Coverage}
use ferrum_atlas.Model.Compiler.{CompilerBody}

pub record CompilerIdentity : Type 0 where
  pub adapter : Text
  pub adapter_version : Text
  pub release : Text
  pub commit_hash : Text
  pub commit_date : Text
  pub host : Text
  pub llvm_version : Text

pub record CompilerFlowPage : Type 0 where
  pub snapshot_id : Text
  pub context_id : Text
  pub import_id : Text
  pub definition_id : Text
  pub compiler : CompilerIdentity
  pub phase : Text
  pub input_manifest_hash : Text
  pub panic_strategy : Text
  pub body : CompilerBody
  pub offset : ℕ
  pub total_blocks : ℕ
  pub next_offset : Option ℕ
  pub coverage : Coverage
