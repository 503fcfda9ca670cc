-- ===== src/Frontend/Cfg/Reference.antt =====
-- crates/frontend-ra/src/configuration.rs: the status of a node computed from all its ancestors, and
-- the events of a walk.
use ferrum_atlas.Prelude.{
  ◌≡◌, refl, sym, ap, ◌∙◌, List, [], ◌∷◌, ◌++◌, Bool, true, false, ◌||◌, Option, none, some, any,
  map, arith,
}
use ferrum_atlas.Prelude.Text.{Text}
use ferrum_atlas.Model.Definitions.{CfgStatus, active, inactive, unknown}
use ferrum_atlas.Frontend.Cfg.Syntax.{Meta, Attribute, Tree, node, Trees, no_trees, next_tree}
use ferrum_atlas.Frontend.Cfg.Predicate.{
  Settings, combine, combine_from, meta_status, attribute_unavailable,
}
use ferrum_atlas.Frontend.Cfg.Files.{
  InheritedSettings, WalkEvent, enter, leave, attributes_of, cfg_texts, inherit, apply_meta,
  children_of,
}

abbrev mutual
  -- What `SyntaxNode::preorder` documents: a node is entered, its children are walked in their order,
  -- and it is left.
  pub events_of : Tree → List WalkEvent
  events_of (node id attr children) =
      enter (node id attr children) ∷ (events_of_all children ++ leave ∷ [])

  pub events_of_all : Trees → List WalkEvent
  events_of_all no_trees = []
  events_of_all (next_tree t ts) = events_of t ++ events_of_all ts

unfoldable pub metas_of : List Attribute → List Meta
metas_of [] = []
metas_of (attr ∷ attrs) = elim attr.meta [ none ↦ metas_of attrs | some m ↦ m ∷ metas_of attrs ]

abbrev pub own_metas : Tree → List Meta
own_metas t = metas_of (attributes_of (children_of t))

-- The attributes of `node.ancestors()`, the node first.
unfoldable pub ancestor_metas : List Tree → List Meta
ancestor_metas [] = []
ancestor_metas (t ∷ chain) = own_metas t ++ ancestor_metas chain

-- `Settings::node_status` and `Settings::has_attribute_macro`, which the tests compare with.
unfoldable pub reference_status : Settings → List Tree → CfgStatus
reference_status settings chain = combine (map (meta_status settings) (ancestor_metas chain)) false

unfoldable pub reference_macro : Settings → List Tree → Bool
reference_macro settings chain = any (attribute_unavailable settings) (ancestor_metas chain)

-- The texts of the `cfg` attributes of a node and its ancestors, the node first.
unfoldable pub reference_cfg : List Tree → List Text
reference_cfg [] = []
reference_cfg (t ∷ chain) = cfg_texts (attributes_of (children_of t)) ++ reference_cfg chain

-- `combine` of a conjunction is the meet of an order in which inactive is least.
abbrev pub meet : CfgStatus → CfgStatus → CfgStatus
meet inactive t = inactive
meet active t = t
meet unknown inactive = inactive
meet unknown active = unknown
meet unknown unknown = unknown

abbrev pub meet_all : List CfgStatus → CfgStatus
meet_all [] = active
meet_all (s ∷ ss) = meet s (meet_all ss)

combine_from-seen : (ss : List CfgStatus) → combine_from true ss false ≡ meet unknown (meet_all ss)
unfolding combine_from
combine_from-seen [] = refl
combine_from-seen (active ∷ ss) = combine_from-seen ss
combine_from-seen (inactive ∷ ss) = refl
combine_from-seen (unknown ∷ ss) = combine_from-seen ss ∙ twice (meet_all ss)
  where
    twice : (s : CfgStatus) → meet unknown s ≡ meet unknown (meet unknown s)
    twice active = refl
    twice inactive = refl
    twice unknown = refl

pub combine-meet_all : (ss : List CfgStatus) → combine ss false ≡ meet_all ss
unfolding combine combine_from
combine-meet_all [] = refl
combine-meet_all (active ∷ ss) = unfold combine in combine-meet_all ss
combine-meet_all (inactive ∷ ss) = refl
combine-meet_all (unknown ∷ ss) = combine_from-seen ss

pub meet_assoc : (a b c : CfgStatus) → meet (meet a b) c ≡ meet a (meet b c)
meet_assoc active b c = refl
meet_assoc inactive b c = refl
meet_assoc unknown active c = refl
meet_assoc unknown inactive c = refl
meet_assoc unknown unknown active = refl
meet_assoc unknown unknown inactive = refl
meet_assoc unknown unknown unknown = refl

pub meet_comm : (a b : CfgStatus) → meet a b ≡ meet b a
meet_comm active active = refl
meet_comm active inactive = refl
meet_comm active unknown = refl
meet_comm inactive active = refl
meet_comm inactive inactive = refl
meet_comm inactive unknown = refl
meet_comm unknown active = refl
meet_comm unknown inactive = refl
meet_comm unknown unknown = refl

meet-active : (a : CfgStatus) → meet a active ≡ a
meet-active active = refl
meet-active inactive = refl
meet-active unknown = refl

pub meet_all-append :
    (ss ts : List CfgStatus) → meet_all (ss ++ ts) ≡ meet (meet_all ss) (meet_all ts)
meet_all-append [] ts = refl
meet_all-append (s ∷ ss) ts =
    ap (meet s) (meet_all-append ss ts) ∙ sym (meet_assoc s (meet_all ss) (meet_all ts))

pub map-append :
    {A B : Type 0} (f : A → B) (xs ys : List A) → map f (xs ++ ys) ≡ map f xs ++ map f ys
map-append f [] ys = refl
map-append f (x ∷ xs) ys = ap (λ r. f x ∷ r) (map-append f xs ys)

any-append :
    {A : Type 0} (p : A → Bool) (xs ys : List A) → any p (xs ++ ys) ≡ (any p xs || any p ys)
any-append p [] ys = refl
any-append p (x ∷ xs) ys = ground (arith, any-append p xs ys)

own_status : Settings → List Attribute → CfgStatus
own_status settings attrs = meet_all (map (meta_status settings) (metas_of attrs))

inherit-status :
    (settings : Settings) (attrs : List Attribute) (s : InheritedSettings)
    → (inherit settings attrs s).status ≡ meet s.status (own_status settings attrs)
unfolding inherit metas_of own_status
inherit-status settings [] s = sym (meet-active s.status)
inherit-status settings (attr ∷ attrs) s = first attr.meta (λ t. inherit-status settings attrs t)
  where
    first :
        (m : Option Meta)
        → ((t : InheritedSettings)
            → (inherit settings attrs t).status ≡ meet t.status (own_status settings attrs))
        → (inherit settings attrs (apply_meta settings m s)).status
          ≡ meet s.status (
              meet_all (
                map
                  (meta_status settings)
                  (elim m [ none ↦ metas_of attrs | some n ↦ n ∷ metas_of attrs ])))
    first none ih = ih s
    first (some m) ih =
        ih (apply_meta settings (some m) s)
        ∙ ap (λ z. meet z (own_status settings attrs))
            (combine-meet_all (s.status ∷ meta_status settings m ∷ []))
        ∙ ap (λ z. meet (meet s.status z) (own_status settings attrs))
            (meet-active (meta_status settings m))
        ∙ meet_assoc s.status (meta_status settings m) (own_status settings attrs)

or_assoc : (a b c : Bool) → ((a || b) || c) ≡ (a || (b || c))
or_assoc a b c = ground arith

inherit-macro :
    (settings : Settings) (attrs : List Attribute) (s : InheritedSettings)
    → (inherit settings attrs s).macro_unavailable
      ≡ (s.macro_unavailable || any (attribute_unavailable settings) (metas_of attrs))
unfolding inherit metas_of
inherit-macro settings [] s = ground arith
inherit-macro settings (attr ∷ attrs) s = first attr.meta (λ t. inherit-macro settings attrs t)
  where
    first :
        (m : Option Meta)
        → ((t : InheritedSettings)
            → (inherit settings attrs t).macro_unavailable
              ≡ (t.macro_unavailable || any (attribute_unavailable settings) (metas_of attrs)))
        → (inherit settings attrs (apply_meta settings m s)).macro_unavailable ≡ (
            s.macro_unavailable
            || any
                (attribute_unavailable settings)
                (elim m [ none ↦ metas_of attrs | some n ↦ n ∷ metas_of attrs ]))
    first none ih = ih s
    first (some m) ih =
        ih (apply_meta settings (some m) s)
        ∙ or_assoc s.macro_unavailable (attribute_unavailable settings m)
            (any (attribute_unavailable settings) (metas_of attrs))

pub inherit-cfg :
    (settings : Settings) (attrs : List Attribute) (s : InheritedSettings)
    → (inherit settings attrs s).cfg ≡ s.cfg
unfolding inherit
inherit-cfg settings [] s = refl
inherit-cfg settings (attr ∷ attrs) s =
    inherit-cfg settings attrs (apply_meta settings attr.meta s) ∙ same attr.meta
  where
    same : (m : Option Meta) → (apply_meta settings m s).cfg ≡ s.cfg
    same none = refl
    same (some m) = refl

-- What a node inherits is the meet of the attributes of its ancestors and its own.
pub reference_status-step :
    (settings : Settings) (t : Tree) (chain : List Tree) (s : InheritedSettings)
    → s.status ≡ reference_status settings chain
    → (inherit settings (attributes_of (children_of t)) s).status
      ≡ reference_status settings (t ∷ chain)
unfolding reference_status ancestor_metas own_status
reference_status-step settings t chain s h =
    let attrs = attributes_of (children_of t) in
    let own = meet_all (map (meta_status settings) (metas_of attrs)) in
    let above = map (meta_status settings) (ancestor_metas chain) in
    inherit-status settings attrs s
    ∙ ap (λ z. meet z own) (h ∙ combine-meet_all above)
    ∙ meet_comm (meet_all above) own
    ∙ sym (meet_all-append (map (meta_status settings) (metas_of attrs)) above)
    ∙ sym (ap meet_all (map-append (meta_status settings) (metas_of attrs) (ancestor_metas chain)))
    ∙ sym (combine-meet_all (map (meta_status settings) (metas_of attrs ++ ancestor_metas chain)))

or_comm : (a b : Bool) → (a || b) ≡ (b || a)
or_comm a b = ground arith

pub reference_macro-step :
    (settings : Settings) (t : Tree) (chain : List Tree) (s : InheritedSettings)
    → s.macro_unavailable ≡ reference_macro settings chain
    → (inherit settings (attributes_of (children_of t)) s).macro_unavailable
      ≡ reference_macro settings (t ∷ chain)
unfolding reference_macro ancestor_metas
reference_macro-step settings t chain s h =
    let attrs = attributes_of (children_of t) in
    let own = any (attribute_unavailable settings) (metas_of attrs) in
    inherit-macro settings attrs s
    ∙ ap (λ z. z || own) h
    ∙ or_comm (any (attribute_unavailable settings) (ancestor_metas chain)) own
    ∙ sym (any-append (attribute_unavailable settings) (metas_of attrs) (ancestor_metas chain))
