-- ===== src/Analysis/Complexity/Read.antt =====
-- crates/analysis/src/compiler_complexity.rs: `validate_graph_term` and the loop that reads the
-- blocks, with what holds of the map that they leave.
use ferrum_atlas.Prelude.{
  inl, inr, ◌≡◌, refl, sym, ◌∙◌, ℕ, suc, ◌+◌, ◌≤◌, List, [], ◌∷◌, Bool, true, false, not, ◌&&◌,
  Option, none, some, Result, ok, err, bind, ensure, leb, ◌==◌, any, length, Bool-cases, arith,
  lookup, insert, leb→le, nat_eq,
}
use ferrum_atlas.Prelude.Text.{Text, Text-discrete, codes}
use ferrum_atlas.Model.Compiler.{
  CompilerBlock, CompilerTerminator, CompilerSuccessor, CompilerUnwind, cleanup, continue_unwind,
  terminate, CompilerEdgeKind, edge_kind_eq,
}
use ferrum_atlas.Analysis.Trace.Compare.{to_string}
use ferrum_atlas.Analysis.Envelope.{AnalysisControl, AnalysisError, invalid_input}
use ferrum_atlas.Analysis.Complexity.Shape.{
  switch_number, number_or, is_text, contains, is_none, read_switch, add_switch, read_switches,
  check_unwind, validate_graph_term, is_valid_kind, count,
}
use ferrum_atlas.Analysis.Complexity.Report.{
  CompilerComplexity, CompilerComplexityLimits, refused, check,
}
use ferrum_atlas.Analysis.Complexity.Measure.{
  Blocks, contains_key, read_blocks, refuse, counts_message,
}
use ferrum_atlas.Analysis.Complexity.Blocks.{
  IsIndexed, IsRead, total, edges_of, or_else-none, found_step, insert-IsIndexed, total-insert,
  length-insert,
}
use ferrum_atlas.Analysis.Complexity.Ends.{
  is_internal, Ends, Ends-bind, Ends-map, Ends-require, Ends-within, Ends-check,
}

abbrev Fine : {A : Type 0} → Result AnalysisError A → Type 0
Fine (ok a) = Unit
Fine (err e) = is_internal (refused e) ≡ false

Fine-bind :
    {A B : Type 0} (r : Result AnalysisError A) (f : A → Result AnalysisError B)
    → Fine r
    → ((a : A) → Fine (f a))
    → Fine (bind r f)
Fine-bind (ok a) f h k = k a
Fine-bind (err e) f h k = h

Fine-ensure :
    (test : Bool) (e : AnalysisError) → is_internal (refused e) ≡ false → Fine (ensure test e)
Fine-ensure true e h = tt
Fine-ensure false e h = h

Fine-number_or :
    (o : Option ℕ) (message : Text)
    → is_internal (refused (invalid_input message)) ≡ false
    → Fine (number_or o message)
Fine-number_or none message h = h
Fine-number_or (some n) message h = tt

Fine-add_switch : (edge : CompilerSuccessor) (switches : List ℕ) → Fine (add_switch edge switches)
unfolding add_switch is_internal counts_message Text-discrete
Fine-add_switch edge switches =
    Fine-bind _ _ (Fine-number_or (switch_number edge.switch_value) _ refl) (λ value.
      Fine-bind _ _
        (Fine-ensure (is_text edge.switch_value (to_string value) && not (contains switches value))
          _ refl)
        (λ u. tt))

Fine-read_switch : (edge : CompilerSuccessor) (switches : List ℕ) → Fine (read_switch edge switches)
unfolding read_switch is_internal counts_message Text-discrete
Fine-read_switch edge switches = elim (Bool-cases (edge.kind == CompilerEdgeKind.switch_value)) [
  | inl e ↦ rw e (Fine-add_switch edge switches)
  | inr e ↦ rw e (Fine-bind _ _ (Fine-ensure (is_none edge.switch_value) _ refl) (λ u. tt))
]

Fine-read_switches :
    (edges : List CompilerSuccessor) (switches : List ℕ) → Fine (read_switches edges switches)
unfolding read_switches
Fine-read_switches [] switches = tt
Fine-read_switches (edge ∷ edges) switches =
    Fine-bind (read_switch edge switches) (λ more. read_switches edges more)
      (Fine-read_switch edge switches) (λ more. Fine-read_switches edges more)

Fine-check_unwind : (term : CompilerTerminator) → Fine (check_unwind term)
unfolding check_unwind is_internal counts_message Text-discrete
Fine-check_unwind term =
    elim term.unwind
      as (λ (u : Option CompilerUnwind). Fine (elim u [
        | some (cleanup target) ↦
            ensure
              (count term CompilerEdgeKind.unwind == 1
                && any (λ edge. edge.kind == CompilerEdgeKind.unwind && edge.target == target)
                    term.successors)
              (invalid_input (codes "cleanup unwind and successor disagree"))
        | other ↦
            ensure (count term CompilerEdgeKind.unwind == 0)
              (invalid_input (codes "unwind successor lacks matching cleanup metadata"))
      ])) [
        | none ↦ Fine-ensure _ _ refl
        | some continue_unwind ↦ Fine-ensure _ _ refl
        | some CompilerUnwind.unreachable ↦ Fine-ensure _ _ refl
        | some (terminate reason) ↦ Fine-ensure _ _ refl
        | some (cleanup target) ↦ Fine-ensure _ _ refl
      ]

Fine-validate_graph_term : (term : CompilerTerminator) → Fine (validate_graph_term term)
unfolding validate_graph_term is_internal counts_message Text-discrete
Fine-validate_graph_term term = Fine-bind _ _ (Fine-read_switches term.successors []) λ switches.
    Fine-bind _ _ (Fine-check_unwind term)
      λ u. Fine-ensure (is_valid_kind term (length switches)) _ refl

Ends-refuse :
    (r : Result AnalysisError (Unit {0})) → Fine r → Ends (λ (u : Unit {0}). Unit {0}) (refuse r)
Ends-refuse (ok u) h = tt
Ends-refuse (err e) h = h

duplicate_fine :
    is_internal (refused (invalid_input (codes "duplicate compiler block index"))) ≡ false
unfolding is_internal counts_message Text-discrete
duplicate_fine = refl

is_false : (b : Bool) → not b ≡ true → b ≡ false
is_false b h = ground arith

later :
    (limits : CompilerComplexityLimits) (blocks : Blocks) (b : CompilerBlock)
    (bs : List CompilerBlock) (m : Blocks)
    → contains_key blocks b.index ≡ false
    → IsRead limits (insert b.index b blocks) bs m
    → IsRead limits blocks (b ∷ bs) m
later limits blocks b bs m fresh r = record {
  indexed = r.indexed;
  found = λ k. r.found k ∙ found_step k b blocks bs fresh;
  bounded = r.bounded;
  counted = omega (arith, r.counted, length-insert b blocks fresh);
}

pub read_blocks_lem :
    (control : AnalysisControl) (limits : CompilerComplexityLimits) (report : CompilerComplexity)
    (clock : ℕ) (blocks : Blocks) (edges : ℕ) (bs : List CompilerBlock)
    → report.metrics ≡ none
    → IsIndexed blocks
    → total blocks ≡ edges
    → edges ≤ limits.max_edges
    → Ends (IsRead limits blocks bs) (read_blocks control limits report clock blocks edges bs)
unfolding read_blocks
read_blocks_lem control limits report clock blocks edges [] none_yet indexed sum small = record {
  indexed = indexed;
  found = λ k. sym (or_else-none (lookup k blocks));
  bounded = omega (arith, sum, small);
  counted = omega arith;
}
read_blocks_lem control limits report clock blocks edges (b ∷ bs) none_yet indexed sum small =
    let Next = IsRead limits blocks (b ∷ bs) in
    Ends-bind (λ u. Unit {0}) Next (check control clock report) _
      (Ends-check control clock report none_yet)
      λ u x.
        Ends-bind (λ u. not (contains_key blocks b.index) ≡ true) Next _ _
          (Ends-require (not (contains_key blocks b.index)) _ duplicate_fine)
          λ v is_new.
            Ends-bind (λ u. leb (edges + edges_of b) limits.max_edges ≡ true) Next _ _
              (Ends-within (leb (edges + edges_of b) limits.max_edges) report _ none_yet)
              λ w fits.
                Ends-bind (λ u. Unit {0}) Next _ _
                  (Ends-refuse (validate_graph_term b.terminator)
                    (Fine-validate_graph_term b.terminator))
                  λ y z.
                    let fresh = is_false (contains_key blocks b.index) is_new in
                    Ends-map (IsRead limits (insert b.index b blocks) bs) Next
                      (read_blocks control limits report (suc clock) (insert b.index b blocks)
                        (edges + edges_of b) bs)
                      (read_blocks_lem control limits report (suc clock) (insert b.index b blocks)
                        (edges + edges_of b) bs none_yet (insert-IsIndexed b blocks indexed)
                        (omega (arith, total-insert b blocks fresh, sum))
                        (leb→le (edges + edges_of b) limits.max_edges fits))
                      (λ m r. later limits blocks b bs m fresh r)
