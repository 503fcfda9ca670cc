-- ===== src/Frontend/Cfg/Entries.antt =====
-- crates/frontend-ra/src/configuration.rs: the chain of `cfg` entries that a node points to.
use ferrum_atlas.Prelude.{
  ◌≡◌, refl, sym, ap, ◌∙◌, subst, ℕ, zero, suc, ◌≤◌, ◌-◌, List, [], ◌∷◌, ◌++◌, Option, none, some,
  length, get_elem?, length-append, arith,
}
use ferrum_atlas.Prelude.Text.{Text}
use ferrum_atlas.Frontend.Cfg.Syntax.{Tree}
use ferrum_atlas.Frontend.Cfg.Predicate.{Settings}
use ferrum_atlas.Frontend.Cfg.Files.{
  InheritedSettings, CfgAttributes, attributes_of, cfg_texts, children_of, inherit, push_cfg,
  entered, attach, at_entry, cfg_from,
}
use ferrum_atlas.Frontend.Cfg.Reference.{
  reference_status, reference_macro, reference_cfg, reference_status-step, reference_macro-step,
  inherit-cfg,
}

get_elem?-append :
    {A : Type 0} (xs ys : List A) (i : ℕ) (a : A)
    → get_elem? xs i ≡ some a
    → get_elem? (xs ++ ys) i ≡ some a
get_elem?-append [] ys i a h = cc
get_elem?-append (x ∷ xs) ys zero a h = h
get_elem?-append (x ∷ xs) ys (suc i) a h = get_elem?-append xs ys i a h

get_elem?-last : {A : Type 0} (xs : List A) (a : A) → get_elem? (xs ++ a ∷ []) (length xs) ≡ some a
get_elem?-last [] a = refl
get_elem?-last (x ∷ xs) a = get_elem?-last xs a

-- More entries and more fuel change nothing.
pub cfg_from-append :
    (entries more : List CfgAttributes) (fuel enough : ℕ) (at : Option ℕ) (texts : List Text)
    → fuel ≤ enough
    → cfg_from entries fuel at ≡ some texts
    → cfg_from (entries ++ more) enough at ≡ some texts
unfolding cfg_from
cfg_from-append entries more fuel enough none texts l h = h
cfg_from-append entries more zero enough (some i) texts l h = cc
cfg_from-append entries more (suc fuel) zero (some i) texts l h = absurd (omega (arith, l))
cfg_from-append entries more (suc fuel) (suc enough) (some i) texts l h =
    entry_at (get_elem? entries i) refl h
      (λ at t k. cfg_from-append entries more fuel enough at t (omega (arith, l)) k)
  where
    tail :
        (own : List Text) (o : Option (List Text))
        → attach own o ≡ some texts
        → (rest : List Text) × (o ≡ some rest) × (some (own ++ rest) ≡ some texts)
    tail own none k = cc
    tail own (some rest) k = (rest, refl, k)

    entry_at :
        (o : Option CfgAttributes)
        → get_elem? entries i ≡ o
        → at_entry o (λ parent. cfg_from entries fuel parent) ≡ some texts
        → ((at : Option ℕ) (t : List Text)
            → cfg_from entries fuel at ≡ some t
            → cfg_from (entries ++ more) enough at ≡ some t)
        → at_entry
            (get_elem? (entries ++ more) i)
            (λ parent. cfg_from (entries ++ more) enough parent)
          ≡ some texts
    entry_at none e k ih = cc
    entry_at (some entry) e k ih =
        let (rest, found, whole) = tail entry.attributes (cfg_from entries fuel entry.parent) k in
        ap (λ o. at_entry o (λ parent. cfg_from (entries ++ more) enough parent))
          (get_elem?-append entries more i entry e)
        ∙ ap (attach entry.attributes) (ih entry.parent rest found)
        ∙ whole

-- What is inherited below a chain of nodes, the nearest first.
pub record Denotes (settings : Settings) (entries : List CfgAttributes) (s : InheritedSettings)
    (chain : List Tree) : Type 0 where
  pub status : s.status ≡ reference_status settings chain
  pub macros : s.macro_unavailable ≡ reference_macro settings chain
  pub texts : cfg_from entries (length entries) s.cfg ≡ some (reference_cfg chain)

pub Denotes-append :
    (settings : Settings) (entries more : List CfgAttributes) (s : InheritedSettings)
    (chain : List Tree)
    → Denotes settings entries s chain
    → Denotes settings (entries ++ more) s chain
Denotes-append settings entries more s chain d = record {
  status = d.status;
  macros = d.macros;
  texts =
      cfg_from-append entries more (length entries) (length (entries ++ more)) s.cfg
        (reference_cfg chain) (omega (arith, length-append entries more)) d.texts;
}

-- Pushing the texts of a node.
record Pushed (entries : List CfgAttributes) (s : InheritedSettings)
    (out : InheritedSettings × List CfgAttributes) (texts : List Text) : Type 0 where
  status : out.0.status ≡ s.status
  macros : out.0.macro_unavailable ≡ s.macro_unavailable
  more : List CfgAttributes
  grown : out.1 ≡ entries ++ more
  found : cfg_from out.1 (length out.1) out.0.cfg ≡ some texts

pub append_nil : {A : Type 0} (xs : List A) → xs ≡ xs ++ []
append_nil [] = refl
append_nil (x ∷ xs) = ap (λ r. x ∷ r) (append_nil xs)

push_cfg-Pushed :
    (own : List Text) (entries : List CfgAttributes) (s : InheritedSettings) (above : List Text)
    → cfg_from entries (length entries) s.cfg ≡ some above
    → Pushed entries s (push_cfg own s entries) (own ++ above)
push_cfg-Pushed [] entries s above h = record {
  status = refl;
  macros = refl;
  more = [];
  grown = append_nil entries;
  found = h;
}
push_cfg-Pushed (text ∷ texts) entries s above h =
    let entry : CfgAttributes = record { attributes = text ∷ texts; parent = s.cfg } in
    let grown : List CfgAttributes = entries ++ entry ∷ [] in
    let size : length grown ≡ suc (length entries) =
      omega (arith, length-append entries (entry ∷ [])) in
    let at : length grown - 1 ≡ length entries = omega (arith, size) in
    record {
      status = refl;
      macros = refl;
      more = entry ∷ [];
      grown = refl;
      found =
          subst (λ n. cfg_from grown n (some (length grown - 1)) ≡ some (text ∷ texts ++ above))
            (sym size)
            (subst
              (λ n. cfg_from grown (suc (length entries)) (some n) ≡ some (text ∷ texts ++ above))
              (sym at)
              (here entry grown (get_elem?-last entries entry) (
                cfg_from-append entries (entry ∷ []) (length entries) (length entries) s.cfg above
                  (omega arith) h)));
    }
  where
    here :
        (entry : CfgAttributes) (grown : List CfgAttributes)
        → get_elem? grown (length entries) ≡ some entry
        → cfg_from grown (length entries) entry.parent ≡ some above
        → cfg_from grown (suc (length entries)) (some (length entries))
          ≡ some (entry.attributes ++ above)
    here entry grown e r =
        unfold cfg_from in
        (ap (λ o. at_entry o (λ parent. cfg_from grown (length entries) parent)) e
          ∙ ap (attach entry.attributes) r)

-- A node that is entered below its chain.
pub entered-Denotes :
    (settings : Settings) (t : Tree) (chain : List Tree) (s : InheritedSettings)
    (entries : List CfgAttributes)
    → Denotes settings entries s chain
    → (more : List CfgAttributes) × ((entered settings t s entries).1 ≡ entries ++ more)
      × Denotes settings
          (entered settings t s entries).1
          (entered settings t s entries).0
          (t ∷ chain)
unfolding entered reference_cfg
entered-Denotes settings t chain s entries d =
    let attrs = attributes_of (children_of t) in
    let p =
      push_cfg-Pushed (cfg_texts attrs) entries (inherit settings attrs s) (reference_cfg chain) (
        subst (λ o. cfg_from entries (length entries) o ≡ some (reference_cfg chain))
          (sym (inherit-cfg settings attrs s)) d.texts) in
    (
      p.more,
      p.grown,
      record {
        status = p.status ∙ reference_status-step settings t chain s d.status;
        macros = p.macros ∙ reference_macro-step settings t chain s d.macros;
        texts = p.found;
      },
    )
