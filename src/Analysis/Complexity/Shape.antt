-- ===== src/Analysis/Complexity/Shape.antt =====
-- crates/analysis/src/compiler_complexity.rs: `imaginary` and `validate_graph_term`.
use ferrum_atlas.Prelude.{
  ℕ, suc, ◌+◌, List, [], ◌∷◌, Bool, true, false, not, ◌&&◌, ◌||◌, Option, none, some, Result, ok,
  err, bind, ensure, any, count_if, length, leb, ◌==◌, nat_eq, nat_ord, set_insert, if◌then◌else◌,
}
use ferrum_atlas.Prelude.Text.{Text, text_eq, codes}
use ferrum_atlas.Prelude.Decimal.{parse_unsigned}
use ferrum_atlas.Model.Compiler.{
  CompilerSuccessor, CompilerTerminator, CompilerUnwind, terminate, cleanup, CompilerEdgeKind,
  edge_kind_eq,
}
use ferrum_atlas.Analysis.Envelope.{AnalysisError, invalid_input}
use ferrum_atlas.Analysis.Trace.Compare.{to_string}

abbrev pub u128_max : ℕ
u128_max = 340282366920938463463374607431768211455

abbrev pub imaginary : CompilerTerminator → CompilerEdgeKind → Bool
imaginary term edge =
    edge == CompilerEdgeKind.imaginary
    || (term.kind == codes "false_unwind" && edge == CompilerEdgeKind.unwind)

abbrev pub count : CompilerTerminator → CompilerEdgeKind → ℕ
count term kind = count_if (λ edge. edge.kind == kind) term.successors

abbrev pub contains : List ℕ → ℕ → Bool
contains s n = any (λ m. m == n) s

-- `value.parse::<u128>().ok()` of a value that is there.
abbrev pub switch_number : Option Text → Option ℕ
switch_number none = none
switch_number (some text) = parse_unsigned u128_max text

abbrev pub is_text : Option Text → Text → Bool
is_text none text = false
is_text (some value) text = value == text

abbrev pub is_some : {A : Type 0} → Option A → Bool
is_some none = false
is_some (some a) = true

abbrev pub is_none : {A : Type 0} → Option A → Bool
is_none none = true
is_none (some a) = false

abbrev pub number_or : Option ℕ → Text → Result AnalysisError ℕ
number_or none message = err (invalid_input message)
number_or (some n) message = ok n

-- A switch edge, with the switch values before it.
unfoldable pub add_switch : CompilerSuccessor → List ℕ → Result AnalysisError (List ℕ)
add_switch edge switches =
    bind
      (number_or (switch_number edge.switch_value)
        (codes "switch edge requires a valid unsigned 128-bit value"))
      λ value.
        bind
          (ensure (is_text edge.switch_value (to_string value) && not (contains switches value))
            (invalid_input (codes "switch values must be distinct canonical decimal strings")))
          λ _. ok (set_insert value switches)

-- One edge of the loop over the successors.
unfoldable pub read_switch : CompilerSuccessor → List ℕ → Result AnalysisError (List ℕ)
read_switch edge switches =
    if edge.kind == CompilerEdgeKind.switch_value
    then add_switch edge switches
    else bind
        (ensure (is_none edge.switch_value)
          (invalid_input (codes "non-switch edge has a switch value")))
        λ _. ok switches

unfoldable pub read_switches : List CompilerSuccessor → List ℕ → Result AnalysisError (List ℕ)
read_switches [] switches = ok switches
read_switches (edge ∷ edges) switches =
    bind (read_switch edge switches) λ more. read_switches edges more

-- The `match` on the unwind action.
unfoldable pub check_unwind : CompilerTerminator → Result AnalysisError (Unit {0})
check_unwind term = elim term.unwind [
  | some (cleanup target) ↦
      ensure
        (count term CompilerEdgeKind.unwind == 1
          && any (λ edge. edge.kind == CompilerEdgeKind.unwind && edge.target == target)
              term.successors)
        (invalid_input (codes "cleanup unwind and successor disagree"))
  | other ↦
      ensure (count term CompilerEdgeKind.unwind == 0)
        (invalid_input (codes "unwind successor lacks matching cleanup metadata"))
]

abbrev pub is_terminate : Option CompilerUnwind → Bool
is_terminate (some (terminate reason)) = true
is_terminate _ = false

-- The `match` on the kind of the terminator; `switches` is the number of switch values.
unfoldable pub is_valid_kind : CompilerTerminator → ℕ → Bool
is_valid_kind term switches =
    let normal = count term CompilerEdgeKind.normal in
    let unwind = count term CompilerEdgeKind.unwind in
    let drops = count term CompilerEdgeKind.coroutine_drop in
    let total = length term.successors in
    let unwinds = is_some term.unwind in
    let kind = term.kind in
    if kind == codes "goto"
    then normal == 1 && total == 1 && not unwinds
    else if kind == codes "switch_int"
    then count term CompilerEdgeKind.otherwise == 1 && total == suc switches && not unwinds
    else if kind == codes "return"
        || kind == codes "unwind_resume"
        || kind == codes "unreachable"
        || kind == codes "coroutine_drop"
        || kind == codes "tail_call"
    then total == 0 && not unwinds
    else if kind == codes "unwind_terminate"
    then total == 0 && is_terminate term.unwind
    else if kind == codes "drop"
    then normal == 1 && leb drops 1 && total == normal + drops + unwind && unwinds
    else if kind == codes "call"
    then leb normal 1 && total == normal + unwind && unwinds
    else if kind == codes "assert" || kind == codes "false_unwind"
    then normal == 1 && total == normal + unwind && unwinds
    else if kind == codes "yield"
    then count term CompilerEdgeKind.resume == 1 && leb drops 1 && total == suc drops && not unwinds
    else if kind == codes "false_edge"
    then normal == 1 && count term CompilerEdgeKind.imaginary == 1 && total == 2 && not unwinds
    else if kind == codes "inline_asm"
    then total == normal + unwind && unwinds
    else false

unfoldable pub validate_graph_term : CompilerTerminator → Result AnalysisError (Unit {0})
validate_graph_term term = bind (read_switches term.successors []) λ switches.
    bind (check_unwind term) λ _.
      ensure (is_valid_kind term (length switches))
        (invalid_input (codes "unsupported terminator or inconsistent CFG successor shape"))
