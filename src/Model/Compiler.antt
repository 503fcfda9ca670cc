-- ===== src/Model/Compiler.antt =====
-- crates/model/src/compiler.rs: one body of compiler evidence.
use ferrum_atlas.Prelude.{ℕ, Bool, Option, List, PartialEq, Ord, ltb}
use ferrum_atlas.Prelude.Text.{Text}

pub data CompilerSourceMapping : Type 0 where
  exact : Text → ℕ → ℕ → CompilerSourceMapping
  unavailable : Text → CompilerSourceMapping

pub record CompilerLocal : Type 0 where
  pub index : ℕ
  pub role : Text
  pub names : List Text
  pub type_display : Text
  pub source_scope : ℕ
  pub span : CompilerSourceMapping

pub record CompilerSourceScope : Type 0 where
  pub index : ℕ
  pub parent : Option ℕ
  pub span : CompilerSourceMapping
  pub inlined_def_path : Option Text

pub data CompilerUnknownEffect : Type 0 where
  call indirect_call pointer_aliasing borrow_aliasing partial_write : CompilerUnknownEffect
  drop inline_assembly intrinsic retag external_state : CompilerUnknownEffect

unfoldable pub CompilerUnknownEffect-discrete : Discrete CompilerUnknownEffect
CompilerUnknownEffect-discrete = hlevel

instance abbrev pub unknown_effect_eq : PartialEq CompilerUnknownEffect
unknown_effect_eq = record { dec = CompilerUnknownEffect-discrete }

-- The derived `Ord`: the position of the variant.
abbrev pub effect_rank : CompilerUnknownEffect → ℕ
effect_rank call = 0
effect_rank indirect_call = 1
effect_rank pointer_aliasing = 2
effect_rank borrow_aliasing = 3
effect_rank partial_write = 4
effect_rank drop = 5
effect_rank inline_assembly = 6
effect_rank intrinsic = 7
effect_rank retag = 8
effect_rank external_state = 9

instance abbrev pub unknown_effect_ord : Ord CompilerUnknownEffect
unknown_effect_ord = record { less = λ a b. ltb (effect_rank a) (effect_rank b) }

pub record CompilerLocalEffects : Type 0 where
  pub defs : List ℕ
  pub uses : List ℕ
  pub moves : List ℕ
  pub storage_live : List ℕ
  pub storage_dead : List ℕ
  pub unknown_effects : List CompilerUnknownEffect

pub record CompilerStatement : Type 0 where
  pub index : ℕ
  pub kind : Text
  pub source_scope : ℕ
  pub span : CompilerSourceMapping
  pub locals : CompilerLocalEffects

pub data CompilerEdgeKind : Type 0 where
  normal switch_value otherwise unwind resume coroutine_drop imaginary : CompilerEdgeKind

unfoldable pub CompilerEdgeKind-discrete : Discrete CompilerEdgeKind
CompilerEdgeKind-discrete = hlevel

instance abbrev pub edge_kind_eq : PartialEq CompilerEdgeKind
edge_kind_eq = record { dec = CompilerEdgeKind-discrete }

pub record CompilerSuccessor : Type 0 where
  pub target : ℕ
  pub kind : CompilerEdgeKind
  pub switch_value : Option Text

pub data CompilerUnwind : Type 0 where
  continue_unwind unreachable : CompilerUnwind
  terminate : Text → CompilerUnwind
  cleanup : ℕ → CompilerUnwind

pub data CompilerCallTarget : Type 0 where
  function_definition : Text → Bool → CompilerCallTarget
  indirect : Text → CompilerCallTarget

pub record CompilerTerminator : Type 0 where
  pub kind : Text
  pub source_scope : ℕ
  pub span : CompilerSourceMapping
  pub locals : CompilerLocalEffects
  pub normal_return_defs : List ℕ
  pub successors : List CompilerSuccessor
  pub unwind : Option CompilerUnwind
  pub call_target : Option CompilerCallTarget
  pub assert_expected : Option Bool

pub record CompilerBlock : Type 0 where
  pub index : ℕ
  pub is_cleanup : Bool
  pub statements : List CompilerStatement
  pub terminator : CompilerTerminator

pub record CompilerBody : Type 0 where
  pub body_id : Text
  pub def_path : Text
  pub kind : Text
  pub span : CompilerSourceMapping
  pub argument_count : ℕ
  pub locals : List CompilerLocal
  pub source_scopes : List CompilerSourceScope
  pub blocks : List CompilerBlock
