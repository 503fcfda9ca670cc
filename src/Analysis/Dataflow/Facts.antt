-- ===== src/Analysis/Dataflow/Facts.antt =====
-- crates/analysis/src/dataflow.rs: the limits, the definitions and the abstract state.
use ferrum_atlas.Prelude.{
  ℕ, ◌+◌, List, [], ◌∷◌, ◌++◌, Bool, true, false, ◌&&◌, ◌||◌, Option, none, some, Result, ensure,
  length, any, leb, ◌==◌, if◌then◌else◌, PartialEq, Ord, nat_ord, nat_eq, lex_lt, ℕ_discrete,
  set_extend, lookup, insert, remove_key,
}
use ferrum_atlas.Prelude.Text.{Text, text_eq, codes}
use ferrum_atlas.Model.{Coverage}
use ferrum_atlas.Model.Compiler.{
  CompilerUnknownEffect, external_state, unknown_effect_eq, unknown_effect_ord,
  CompilerUnknownEffect-discrete, CompilerLocalEffects, CompilerBlock, CompilerSuccessor,
  CompilerEdgeKind, resume, coroutine_drop, edge_kind_eq, CompilerBody,
}
use ferrum_atlas.Analysis.Envelope.{AnalysisError, invalid_input, AnalysisEnvelope, new_envelope}

pub record DataflowLimits : Type 0 where
  pub max_blocks : ℕ
  pub max_locals : ℕ
  pub max_facts : ℕ
  pub max_iterations : ℕ
  pub max_response_bytes : ℕ

unfoldable pub default_limits : DataflowLimits
default_limits = record {
  max_blocks = 1000;
  max_locals = 1000;
  max_facts = 50000;
  max_iterations = 100000;
  max_response_bytes = 2097152;
}

abbrev pub between : ℕ → ℕ → ℕ → Bool
between low high n = leb low n && leb n high

unfoldable pub validate_limits : DataflowLimits → Result AnalysisError (Unit {0})
validate_limits l =
    ensure
      (between 1 4096 l.max_blocks
        && between 1 4096 l.max_locals
        && between 1 200000 l.max_facts
        && between 1 1000000 l.max_iterations
        && between 1024 2097152 l.max_response_bytes)
      (invalid_input (
        codes
          "limits require 1..4096 blocks/locals, 1..200000 facts, 1..1000000 iterations, and 1024..2097152 response bytes"))

pub data MirPoint : Type 0 where
  entry : MirPoint
  statement : ℕ → ℕ → MirPoint
  terminator : ℕ → MirPoint
  normal_return : ℕ → ℕ → MirPoint

-- What the derived `Ord` compares.
abbrev pub point_key : MirPoint → List ℕ
point_key entry = 0 ∷ []
point_key (statement block index) = 1 ∷ block ∷ index ∷ []
point_key (terminator block) = 2 ∷ block ∷ []
point_key (normal_return block target) = 3 ∷ block ∷ target ∷ []

pub record LocalDefinition : Type 0 where
  pub local : ℕ
  pub point : MirPoint

unfoldable pub MirPoint-discrete : Discrete MirPoint
MirPoint-discrete = hlevel ℕ_discrete

unfoldable pub LocalDefinition-discrete : Discrete LocalDefinition
LocalDefinition-discrete = hlevel (ℕ_discrete, MirPoint-discrete)

instance abbrev pub local_definition_eq : PartialEq LocalDefinition
local_definition_eq = record { dec = LocalDefinition-discrete }

abbrev pub definition_key : LocalDefinition → List ℕ
definition_key d = d.local ∷ point_key d.point

instance abbrev pub local_definition_ord : Ord LocalDefinition
local_definition_ord = record { less = λ a b. lex_lt (definition_key a) (definition_key b) }

pub record LocalUse : Type 0 where
  pub local : ℕ
  pub point : MirPoint
  pub reaching : List LocalDefinition
  pub may_be_uninitialized : Bool
  pub possibly_changed_by_unknown_memory : Bool

pub record UnknownMemoryEffect : Type 0 where
  pub point : MirPoint
  pub effects : List CompilerUnknownEffect

pub record ReachingDefinitions : Type 0 where
  pub envelope : AnalysisEnvelope
  pub body_id : Text
  pub fixed_point : Bool
  pub iterations : ℕ
  pub reachable_blocks : List ℕ
  pub definitions : List LocalDefinition
  pub uses : List LocalUse
  pub unknown_memory_effects : List UnknownMemoryEffect

abbrev assumptions : List Text
assumptions =
    codes
      "One selected compiler body; all listed runtime edges are considered feasible; imaginary edges are excluded"
    ∷ codes
        "Definitions track whole-local assignments, not pointee values, aliases, cross-function values, or Rust validity"
    ∷ codes
        "Argument locals are defined at entry; moves and storage lifetime events clear tracked local values after reads"
    ∷ codes
        "Unknown memory effects are never resolved; they conservatively taint later reachable uses without inventing assignments"
    ∷ []

unfoldable pub new_report : CompilerBody → Coverage → ReachingDefinitions
new_report body coverage = record {
  envelope = record (new_envelope (codes "mir-reaching-definitions-v1") coverage) {
    assumptions = assumptions;
  };
  body_id = body.body_id;
  fixed_point = false;
  iterations = 0;
  reachable_blocks = [];
  definitions = [];
  uses = [];
  unknown_memory_effects = [];
}

pub record Value : Type 0 where
  pub definitions : List LocalDefinition
  pub uninitialized : Bool

abbrev pub default_value : Value
default_value = record { definitions = []; uninitialized = true }

-- The entries of `values` in the order of the locals, `unknown` in the order of the effects.
pub record State : Type 0 where
  pub values : List (ℕ × Value)
  pub unknown : List CompilerUnknownEffect

unfoldable pub State-discrete : Discrete State
State-discrete = hlevel (ℕ_discrete, LocalDefinition-discrete, CompilerUnknownEffect-discrete)

instance abbrev pub state_eq : PartialEq State
state_eq = record { dec = State-discrete }

abbrev pub empty_state : State
empty_state = record { values = []; unknown = [] }

-- `get(local).unwrap_or_default()`.
abbrev pub value_or_default : Option Value → Value
value_or_default none = default_value
value_or_default (some v) = v

abbrev pub value_of : ℕ → State → Value
value_of local s = value_or_default (lookup local s.values)

abbrev pub definitions_in : List (ℕ × Value) → ℕ
definitions_in [] = 0
definitions_in ((local, value) ∷ vs) = length value.definitions + definitions_in vs

unfoldable pub facts : State → ℕ
facts s = length s.values + definitions_in s.values + length s.unknown

unfoldable pub define : ℕ → MirPoint → State → State
define local point s = record s {
  values =
      insert local
        (record {
          definitions = record { local = local; point = point } ∷ [];
          uninitialized = false;
        })
        s.values;
}

-- The two `for` loops of `transfer`.
unfoldable pub clear_all : List ℕ → State → State
clear_all [] s = s
clear_all (local ∷ locals) s = clear_all locals (record s { values = remove_key local s.values })

unfoldable pub define_all : MirPoint → List ℕ → State → State
define_all point [] s = s
define_all point (local ∷ locals) s = define_all point locals (define local point s)

abbrev pub cleared : CompilerLocalEffects → List ℕ
cleared e = e.moves ++ e.storage_live ++ e.storage_dead

unfoldable pub transfer : CompilerLocalEffects → MirPoint → State → State
transfer e point s =
    let t = define_all point e.defs (clear_all (cleared e) s) in
    record t { unknown = set_extend t.unknown e.unknown_effects }

-- What an assignment on one of the edges out of a coroutine's suspension may do is not known.
abbrev pub resumes : CompilerSuccessor → Bool
resumes edge = edge.kind == resume || edge.kind == coroutine_drop

unfoldable pub terminator_effects : CompilerBlock → CompilerLocalEffects
terminator_effects block =
    let effects = block.terminator.locals in
    let suspends =
      block.terminator.kind == codes "yield" || any resumes block.terminator.successors in
    if suspends
    then if any (λ e. e == external_state) effects.unknown_effects
      then effects
      else record effects { unknown_effects = effects.unknown_effects ++ external_state ∷ [] }
    else effects

abbrev pub edge_order : CompilerEdgeKind → ℕ
edge_order CompilerEdgeKind.normal = 0
edge_order CompilerEdgeKind.switch_value = 1
edge_order CompilerEdgeKind.otherwise = 2
edge_order CompilerEdgeKind.unwind = 3
edge_order resume = 4
edge_order coroutine_drop = 5
edge_order CompilerEdgeKind.imaginary = 6

abbrev pub option_key : Option Text → List ℕ
option_key none = 0 ∷ []
option_key (some text) = 1 ∷ text

abbrev pub edge_less : CompilerSuccessor → CompilerSuccessor → Bool
edge_less a b =
    lex_lt (a.target ∷ edge_order a.kind ∷ option_key a.switch_value)
      (b.target ∷ edge_order b.kind ∷ option_key b.switch_value)
