-- ===== src/Frontend/Cfg/Inherit.antt =====
-- crates/frontend-ra/src/configuration.rs: the one walk of `FileConfigurations::new` gives every node
-- what its ancestors' attributes say.
use ferrum_atlas.Prelude.{
  ◌≡◌, ◌≢◌, refl, sym, ap, ◌∙◌, subst, inl, inr, ℕ, List, [], ◌∷◌, ◌++◌, Bool, true, false, not,
  ◌||◌, Option, none, some, ◌==◌, nat_eq, lookup, Mem, Mem-append_left, Mem-append_right,
  Bool-cases, if◌then◌else◌, arith,
}
use mathlib.Core.List.{append_assoc}
use ferrum_atlas.Model.Definitions.{
  CfgStatus, active, inactive, unknown, cfg_status_eq, CfgStatus-discrete,
}
use ferrum_atlas.Frontend.Cfg.Syntax.{Tree, node, Trees, no_trees, next_tree, Attribute}
use ferrum_atlas.Frontend.Cfg.Predicate.{Settings, combine, combine_from}
use ferrum_atlas.Frontend.Cfg.Files.{
  InheritedSettings, default_inherited, CfgAttributes, FileConfigurations, WalkEvent, enter, leave,
  Walk, is_effective, is_some, entered, enter_node, enter_below, pop, step, then_walk, run_events,
  find_node, or_default, number_of, cache_of, new_file, node_status, has_attribute_macro, cfg,
  cfg_from,
}
use ferrum_atlas.Frontend.Cfg.Reference.{
  reference_status, reference_macro, reference_cfg, ancestor_metas, events_of, events_of_all,
}
use ferrum_atlas.Frontend.Cfg.Entries.{append_nil, Denotes, Denotes-append, entered-Denotes}

abbrev mutual
  -- The numbers of the nodes.
  pub numbers : Tree → List ℕ
  numbers (node id attr children) = id ∷ numbers_all children

  pub numbers_all : Trees → List ℕ
  numbers_all no_trees = []
  numbers_all (next_tree t ts) = numbers t ++ numbers_all ts

abbrev mutual
  -- No number stands twice.
  pub AreDistinct : Tree → Type 0
  AreDistinct (node id attr children) =
      (Mem id (numbers_all children) → ⊥) × AreDistinctAll children

  pub AreDistinctAll : Trees → Type 0
  AreDistinctAll no_trees = Unit
  AreDistinctAll (next_tree t ts) =
      AreDistinct t × ((z : ℕ) → Mem z (numbers t) → Mem z (numbers_all ts) → ⊥) × AreDistinctAll ts

mutual
  -- A node in a tree whose ancestors are a chain: the node, with itself and all its ancestors, the
  -- nearest first.
  pub data Within : Tree → List Tree → Tree → List Tree → Type 0 where
    here : (t : Tree) (chain : List Tree) → Within t chain t (t ∷ chain)
    below :
        (id : ℕ) (attr : Option Attribute) (ts : Trees) (chain : List Tree) (u : Tree)
        (path : List Tree)
        → WithinAll ts (node id attr ts ∷ chain) u path
        → Within (node id attr ts) chain u path

  pub data WithinAll : Trees → List Tree → Tree → List Tree → Type 0 where
    first :
        (t : Tree) (ts : Trees) (chain : List Tree) (u : Tree) (path : List Tree)
        → Within t chain u path
        → WithinAll (next_tree t ts) chain u path
    later :
        (t : Tree) (ts : Trees) (chain : List Tree) (u : Tree) (path : List Tree)
        → WithinAll ts chain u path
        → WithinAll (next_tree t ts) chain u path

abbrev Absent : List ℕ → List (ℕ × InheritedSettings) → Type 0
Absent ids nodes = (z : ℕ) → Mem z ids → lookup z nodes ≡ none

-- What the walk of some nodes leaves.
record After (settings : Settings) (ids : List ℕ) (w v : Walk) (In : Tree → List Tree → Type 0)
    : Type 0 where
  stack : v.stack ≡ w.stack
  more : List CfgAttributes
  grown : v.cache.cfg ≡ w.cache.cfg ++ more
  others : (z : ℕ) → (Mem z ids → ⊥) → lookup z v.cache.nodes ≡ lookup z w.cache.nodes
  inside :
      (u : Tree) (path : List Tree)
      → In u path
      → Mem (number_of u) ids
        × Denotes settings v.cache.cfg (find_node v.cache.nodes (number_of u)) path

run_events-append :
    (settings : Settings) (xs ys : List WalkEvent) (w v : Walk)
    → run_events settings xs w ≡ some v
    → run_events settings (xs ++ ys) w ≡ run_events settings ys v
unfolding run_events
run_events-append settings [] ys w v h = ap (λ o. then_walk o (run_events settings ys)) h
run_events-append settings (x ∷ xs) ys w v h =
    go (step settings x w) (λ u k. run_events-append settings xs ys u v k) h
  where
    go :
        (o : Option Walk)
        → ((u : Walk)
            → run_events settings xs u ≡ some v
            → run_events settings (xs ++ ys) u ≡ run_events settings ys v)
        → then_walk o (λ u. run_events settings xs u) ≡ some v
        → then_walk o (λ u. run_events settings (xs ++ ys) u) ≡ run_events settings ys v
    go none ih k = cc
    go (some u) ih k = ih u k

-- A node without an entry has the default settings.
stored :
    (id : ℕ) (s : InheritedSettings) (nodes : List (ℕ × InheritedSettings))
    → lookup id nodes ≡ none
    → find_node (if is_effective s then (id, s) ∷ nodes else nodes) id ≡ s
stored id s nodes absent = elim (Bool-cases (is_effective s)) [
  | inl e ↦
      subst (λ b. find_node (if b then (id, s) ∷ nodes else nodes) id ≡ s) (sym e) (ground arith)
  | inr e ↦
      subst (λ b. find_node (if b then (id, s) ∷ nodes else nodes) id ≡ s) (sym e)
        (ap or_default absent ∙ plain s.status s.macro_unavailable s.cfg e)
]
  where
    plain :
        (status : CfgStatus) (macro : Bool) (cfg : Option ℕ)
        → (not (status == active) || macro || is_some cfg) ≡ false
        → default_inherited ≡ record { status = status; macro_unavailable = macro; cfg = cfg }
    plain active false none e = refl
    plain active false (some c) e = unfold CfgStatus-discrete in cc (e)
    plain active true cfg e = unfold CfgStatus-discrete in cc (e)
    plain inactive macro cfg e = unfold CfgStatus-discrete in cc (e)
    plain unknown macro cfg e = unfold CfgStatus-discrete in cc (e)

kept :
    (z id : ℕ) (s : InheritedSettings) (nodes : List (ℕ × InheritedSettings))
    → z ≢ id
    → lookup z (if is_effective s then (id, s) ∷ nodes else nodes) ≡ lookup z nodes
kept z id s nodes n = go (is_effective s)
  where
    go : (b : Bool) → lookup z (if b then (id, s) ∷ nodes else nodes) ≡ lookup z nodes
    go true = ground (arith, n)
    go false = refl

Absent-left :
    (ids more : List ℕ) (nodes : List (ℕ × InheritedSettings))
    → Absent (ids ++ more) nodes
    → Absent ids nodes
Absent-left ids more nodes a z m = a z (Mem-append_left z ids more m)

nowhere :
    (settings : Settings) (w : Walk) (chain : List Tree) (u : Tree) (path : List Tree)
    → WithinAll no_trees chain u path
    → Mem (number_of u) []
      × Denotes settings w.cache.cfg (find_node w.cache.nodes (number_of u)) path
nowhere settings w chain u path i = absurd (elim i [ ])

both :
    (settings : Settings) (t : Tree) (ts : Trees) (chain : List Tree) (w v1 v2 : Walk)
    → ((z : ℕ) → Mem z (numbers t) → Mem z (numbers_all ts) → ⊥)
    → After settings (numbers t) w v1 (Within t chain)
    → After settings (numbers_all ts) v1 v2 (WithinAll ts chain)
    → After settings (numbers t ++ numbers_all ts) w v2 (WithinAll (next_tree t ts) chain)
both settings t ts chain w v1 v2 apart a b = record {
  stack = b.stack ∙ a.stack;
  more = a.more ++ b.more;
  grown = b.grown ∙ ap (λ e. e ++ b.more) a.grown ∙ append_assoc w.cache.cfg a.more b.more;
  others = λ z out.
      b.others z (λ m. out (Mem-append_right z (numbers t) (numbers_all ts) m))
      ∙ a.others z (λ m. out (Mem-append_left z (numbers t) (numbers_all ts) m));
  inside = λ u path i. within u path i;
}
  where
    within :
        (u : Tree) (path : List Tree)
        → WithinAll (next_tree t ts) chain u path
        → Mem (number_of u) (numbers t ++ numbers_all ts)
          × Denotes settings v2.cache.cfg (find_node v2.cache.nodes (number_of u)) path
    within u path (first t' ts' c u' p i) =
        let (m, d) = a.inside u path i in
        (
          Mem-append_left (number_of u) (numbers t) (numbers_all ts) m,
          subst (λ s. Denotes settings v2.cache.cfg s path)
              (sym (ap or_default (b.others (number_of u) (λ k. apart (number_of u) m k))))
              (subst (λ e. Denotes settings e (find_node v1.cache.nodes (number_of u)) path)
                (sym b.grown)
                (Denotes-append settings v1.cache.cfg b.more
                  (find_node v1.cache.nodes (number_of u)) path d)),
        )
    within u path (later t' ts' c u' p i) =
        let (m, d) = b.inside u path i in
        (Mem-append_right (number_of u) (numbers t) (numbers_all ts) m, d)

run_node :
    (settings : Settings) (t : Tree) (events : List WalkEvent) (w v : Walk)
    (top : InheritedSettings) (rest : List InheritedSettings)
    → w.stack ≡ top ∷ rest
    → run_events settings events (enter_node settings t top w) ≡ some v
    → v.stack ≡ (entered settings t top w.cache.cfg).0 ∷ w.stack
    → run_events settings (enter t ∷ (events ++ leave ∷ [])) w
      ≡ some (record { cache = v.cache; stack = w.stack })
unfolding run_events step
run_node settings t events w v top rest at ran left =
    ap
      (λ s.
        then_walk (enter_below settings t s w) (λ u. run_events settings (events ++ leave ∷ []) u))
      at
    ∙ run_events-append settings events (leave ∷ []) (enter_node settings t top w) v ran
    ∙ ap (λ s. some (record { cache = v.cache; stack = pop s })) left

-- What holds in the subtrees of a node and at the node itself.
node_inside :
    (settings : Settings) (id : ℕ) (attr : Option Attribute) (ts : Trees) (chain : List Tree)
    (v : Walk)
    → Denotes settings v.cache.cfg (find_node v.cache.nodes id) (node id attr ts ∷ chain)
    → ((u : Tree) (path : List Tree)
        → WithinAll ts (node id attr ts ∷ chain) u path
        → Mem (number_of u) (numbers_all ts)
          × Denotes settings v.cache.cfg (find_node v.cache.nodes (number_of u)) path)
    → (u : Tree) (path : List Tree) → Within (node id attr ts) chain u path
    → Mem (number_of u) (id ∷ numbers_all ts)
      × Denotes settings v.cache.cfg (find_node v.cache.nodes (number_of u)) path
node_inside settings id attr ts chain v own all_inside u path (here t c) = (inl refl, own)
node_inside settings id attr ts chain v own all_inside u path (below i a us c u' p w) =
    let (m, d) = all_inside u path w in (inr m, d)

mutual
  unfolding run_events enter_node

  visit_node :
      (settings : Settings) (t : Tree) (chain : List Tree) (w : Walk) (top : InheritedSettings)
      (rest : List InheritedSettings)
      → w.stack ≡ top ∷ rest
      → Denotes settings w.cache.cfg top chain
      → AreDistinct t
      → Absent (numbers t) w.cache.nodes
      → (v : Walk) × (run_events settings (events_of t) w ≡ some v)
        × After settings (numbers t) w v (Within t chain)
  visit_node settings (node id attr ts) chain w top rest at d (alone, distinct) absent =
      let t : Tree = node id attr ts in
      let w1 : Walk = enter_node settings t top w in
      let s1 : InheritedSettings = (entered settings t top w.cache.cfg).0 in
      let (more, grown, den) = entered-Denotes settings t chain top w.cache.cfg d in
      let gone : Absent (numbers_all ts) w1.cache.nodes = λ z m.
        kept z id s1 w.cache.nodes (λ e. alone (subst (λ y. Mem y (numbers_all ts)) e m))
        ∙ absent z (inr m) in
      let (v1, ran, after) =
        visit_nodes settings ts (t ∷ chain) w1 s1 w.stack refl den distinct gone in
      let own : find_node v1.cache.nodes id ≡ s1 =
        ap or_default (after.others id alone) ∙ stored id s1 w.cache.nodes (absent id (inl refl)) in
      let own_den : Denotes settings v1.cache.cfg (find_node v1.cache.nodes id) (t ∷ chain) =
        subst (λ s. Denotes settings v1.cache.cfg s (t ∷ chain)) (sym own)
          (subst (λ c. Denotes settings c s1 (t ∷ chain)) (sym after.grown)
            (Denotes-append settings w1.cache.cfg after.more s1 (t ∷ chain) den)) in
      (
        record { cache = v1.cache; stack = w.stack },
        run_node settings t (events_of_all ts) w v1 top rest at ran after.stack,
        record {
          stack = refl;
          more = more ++ after.more;
          grown =
              after.grown
              ∙ ap (λ e. e ++ after.more) grown
              ∙ append_assoc w.cache.cfg more after.more;
          others = λ z out.
              after.others z (λ m. out (inr m)) ∙ kept z id s1 w.cache.nodes (λ e. out (inl e));
          inside = node_inside settings id attr ts chain v1 own_den after.inside;
        },
      )

  visit_nodes :
      (settings : Settings) (ts : Trees) (chain : List Tree) (w : Walk) (top : InheritedSettings)
      (rest : List InheritedSettings)
      → w.stack ≡ top ∷ rest
      → Denotes settings w.cache.cfg top chain
      → AreDistinctAll ts
      → Absent (numbers_all ts) w.cache.nodes
      → (v : Walk) × (run_events settings (events_of_all ts) w ≡ some v)
        × After settings (numbers_all ts) w v (WithinAll ts chain)
  visit_nodes settings no_trees chain w top rest at d distinct absent = (
    w,
    refl,
    record {
      stack = refl;
      more = [];
      grown = append_nil w.cache.cfg;
      others = λ z out. refl;
      inside = λ u path i. nowhere settings w chain u path i;
    },
  )
  visit_nodes settings (next_tree t ts) chain w top rest at d (distinct, apart, distinct_rest)
        absent =
      let (v1, ran1, a1) =
        visit_node settings t chain w top rest at d distinct
          (Absent-left (numbers t) (numbers_all ts) w.cache.nodes absent) in
      let d1 : Denotes settings v1.cache.cfg top chain =
        subst (λ c. Denotes settings c top chain) (sym a1.grown)
          (Denotes-append settings w.cache.cfg a1.more top chain d) in
      let absent1 : Absent (numbers_all ts) v1.cache.nodes = λ z m.
        a1.others z (λ k. apart z k m)
        ∙ absent z (Mem-append_right z (numbers t) (numbers_all ts) m) in
      let (v2, ran2, a2) =
        visit_nodes settings ts chain v1 top rest (a1.stack ∙ at) d1 distinct_rest absent1 in
      (
        v2,
        run_events-append settings (events_of t) (events_of_all ts) w v1 ran1 ∙ ran2,
        both settings t ts chain w v1 v2 apart a1 a2,
      )

root_Denotes : (settings : Settings) → Denotes settings [] default_inherited []
unfolding reference_status reference_macro reference_cfg ancestor_metas combine combine_from
    cfg_from
root_Denotes settings = record { status = refl; macros = refl; texts = refl }

-- For a tree whose nodes have distinct numbers, and the events of its preorder, the walk never finds
-- its stack empty, and for every node the status is that of the attributes of the node and of all its
-- ancestors, the attribute macros are those of the node and of all its ancestors, and `cfg` returns,
-- with no index out of range, the texts of the `cfg` and `cfg_attr` attributes of the node and then
-- of its ancestors, the nearest first.
pub new_file-reference :
    (settings : Settings) (root : Tree) (events : List WalkEvent)
    → AreDistinct root
    → events ≡ events_of root
    → (file : FileConfigurations) × (new_file settings events ≡ some file)
      × ((u : Tree) (path : List Tree)
          → Within root [] u path
          → (node_status file u ≡ reference_status settings path)
            × (has_attribute_macro file u ≡ reference_macro settings path)
            × (cfg file u ≡ some (reference_cfg path)))
unfolding new_file node_status has_attribute_macro cfg
new_file-reference settings root events distinct order =
    let begin : Walk = record {
      cache = record { nodes = []; cfg = [] };
      stack = default_inherited ∷ [];
    } in
    let (v, ran, after) =
      visit_node settings root [] begin default_inherited [] refl (root_Denotes settings) distinct
        (λ z m. refl) in
    (
      v.cache,
      ap (λ es. cache_of (run_events settings es begin)) order ∙ ap cache_of ran,
      λ u path within. let (m, d) = after.inside u path within in (d.status, d.macros, d.texts),
    )
