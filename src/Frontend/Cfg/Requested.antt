-- ===== src/Frontend/Cfg/Requested.antt =====
-- crates/frontend-ra/src/configuration.rs: the closed features are those that the selection and the
-- manifest request, and what cannot be decided here is marked.
use ferrum_atlas.Prelude.{
  ◌≡◌, refl, sym, ap, ◌∙◌, subst, ◌⊎◌, inl, inr, ◌↔◌, ℕ, zero, suc, ◌+◌, List, [], ◌∷◌, Bool, true,
  false, Option, none, some, Mem, set_insert, Mem-set_insert, Mem-set_insert_other,
  Mem-set_insert-cases, if◌then◌else◌, arith, length,
}
use ferrum_atlas.Prelude.Text.{Text, text_eq, text_ord}
use ferrum_atlas.Model.{BuildContext}
use ferrum_atlas.Frontend.Cfg.Predicate.{Settings}
use ferrum_atlas.Frontend.Cfg.Features.{
  string, boolean, array, table, other, Values, no_values, next_value, Entries, as_array, entry_of,
  is_foreign, Closing, push_enabled, push_declared, has, close_feature, close_features,
  count_declared, enabled_features, base_settings,
}
use ferrum_atlas.Frontend.Cfg.Closure.{has-Mem, close_features-ends, push_declared-features}

-- The strings of a list, and whether it has another value.
abbrev pub strings : Values → List Text
strings no_values = []
strings (next_value (string f) vs) = f ∷ strings vs
strings (next_value v vs) = strings vs

abbrev pub has_odd : Values → Bool
has_odd no_values = false
has_odd (next_value (string f) vs) = has_odd vs
has_odd (next_value v vs) = true

abbrev pub strings_of : Option Values → List Text
strings_of none = []
strings_of (some vs) = strings vs

abbrev pub has_odd_in : Option Values → Bool
has_odd_in none = false
has_odd_in (some vs) = has_odd vs

abbrev pub listed : Option Entries → Text → Option Values
listed declared f = as_array (entry_of declared f)

-- The selected features, and those that the manifest lists under a requested feature of its own.
pub data Requested (declared : Option Entries) (initial : List Text) : Text → Type 0 where
  asked : (f : Text) → Mem f initial → Requested declared initial f
  enabled_by :
      (g f : Text)
      → Requested declared initial g
      → is_foreign g ≡ false
      → Mem f (strings_of (listed declared g))
      → Requested declared initial f

-- Why the features are not all known: a requested one belongs to another package, or the list of one
-- has a value that is no string.
abbrev pub Undecided : Option Entries → List Text → Type 0
Undecided declared initial =
    (f : Text) × Requested declared initial f
    × ((is_foreign f ≡ true) ⊎ ((is_foreign f ≡ false) × (has_odd_in (listed declared f) ≡ true)))

pub record IsClosed (declared : Option Entries) (initial : List Text) (out : Settings)
    : Type 0 where
  pub sound :
      (f : Text) → Mem f out.features → Requested declared initial f × (is_foreign f ≡ false)
  pub whole : (f : Text) → Requested declared initial f → is_foreign f ≡ false → Mem f out.features
  pub unknown : (out.unknown_features ≡ true) ↔ Undecided declared initial

record Pushes (vs : Option Values) (c d : Closing) : Type 0 where
  keep : (f : Text) → Mem f c.pending → Mem f d.pending
  add : (f : Text) → Mem f (strings_of vs) → Mem f d.pending
  only : (f : Text) → Mem f d.pending → Mem f (strings_of vs) ⊎ Mem f c.pending
  still : c.settings.unknown_features ≡ true → d.settings.unknown_features ≡ true
  blur : has_odd_in vs ≡ true → d.settings.unknown_features ≡ true
  cause :
      d.settings.unknown_features ≡ true
      → (c.settings.unknown_features ≡ true) ⊎ (has_odd_in vs ≡ true)

blurred : Closing → Closing
blurred c = record c { settings = record c.settings { unknown_features = true } }

odd_step :
    (vs : Values) (c d : Closing)
    → Pushes (some vs) (blurred c) d
    → (keep : (f : Text) → Mem f c.pending → Mem f d.pending) × ((f : Text)
        → Mem f (strings vs)
        → Mem f d.pending)
      × ((f : Text) → Mem f d.pending → Mem f (strings vs) ⊎ Mem f c.pending)
      × (d.settings.unknown_features ≡ true)
unfolding blurred
odd_step vs c d p = (p.keep, p.add, p.only, p.still refl)

string_step :
    (f : Text) (vs : Values) (c d : Closing)
    → Pushes (some vs) (record c { pending = f ∷ c.pending }) d
    → Pushes (some (next_value (string f) vs)) c d
string_step f vs c d p = record {
  keep = λ g m. p.keep g (inr m);
  add = λ g m. elim m [ inl e ↦ p.keep g (inl e) | inr n ↦ p.add g n ];
  only = λ g m. elim (p.only g m) [
    | inl s ↦ inl (inr s)
    | inr s ↦ elim s [ inl e ↦ inl (inl e) | inr n ↦ inr n ]
  ];
  still = p.still;
  blur = p.blur;
  cause = p.cause;
}

push_enabled-Pushes : (vs : Values) (c : Closing) → Pushes (some vs) c (push_enabled vs c)
unfolding push_enabled blurred
push_enabled-Pushes no_values c = record {
  keep = λ f m. m;
  add = λ f m. absurd m;
  only = λ f m. inr m;
  still = λ e. e;
  blur = λ e. absurd (cc (e));
  cause = λ e. inl e;
}
push_enabled-Pushes (next_value (string f) vs) c =
    string_step f vs c (push_enabled vs (record c { pending = f ∷ c.pending }))
      (push_enabled-Pushes vs (record c { pending = f ∷ c.pending }))
push_enabled-Pushes (next_value (boolean b) vs) c =
    let (k, a, o, u) =
      odd_step vs c (push_enabled vs (blurred c)) (push_enabled-Pushes vs (blurred c)) in
    record { keep = k; add = a; only = o; still = λ e. u; blur = λ e. u; cause = λ e. inr refl }
push_enabled-Pushes (next_value (array v) vs) c =
    let (k, a, o, u) =
      odd_step vs c (push_enabled vs (blurred c)) (push_enabled-Pushes vs (blurred c)) in
    record { keep = k; add = a; only = o; still = λ e. u; blur = λ e. u; cause = λ e. inr refl }
push_enabled-Pushes (next_value (table t) vs) c =
    let (k, a, o, u) =
      odd_step vs c (push_enabled vs (blurred c)) (push_enabled-Pushes vs (blurred c)) in
    record { keep = k; add = a; only = o; still = λ e. u; blur = λ e. u; cause = λ e. inr refl }
push_enabled-Pushes (next_value other vs) c =
    let (k, a, o, u) =
      odd_step vs c (push_enabled vs (blurred c)) (push_enabled-Pushes vs (blurred c)) in
    record { keep = k; add = a; only = o; still = λ e. u; blur = λ e. u; cause = λ e. inr refl }

push_declared-Pushes : (vs : Option Values) (c : Closing) → Pushes vs c (push_declared vs c)
push_declared-Pushes none c = record {
  keep = λ f m. m;
  add = λ f m. absurd m;
  only = λ f m. inr m;
  still = λ e. e;
  blur = λ e. absurd (cc (e));
  cause = λ e. inl e;
}
push_declared-Pushes (some vs) c = push_enabled-Pushes vs c

-- A requested feature is enabled, or still pending, or marked.
abbrev Handled : Text → List Text → Settings → Type 0
Handled f pending settings =
    Mem f settings.features
    ⊎ (Mem f pending ⊎ ((is_foreign f ≡ true) × (settings.unknown_features ≡ true)))

record Progress (declared : Option Entries) (initial pending : List Text) (settings : Settings)
    : Type 0 where
  enabled :
      (f : Text) → Mem f settings.features → Requested declared initial f × (is_foreign f ≡ false)
  waiting : (f : Text) → Mem f pending → Requested declared initial f
  begun : (f : Text) → Mem f initial → Handled f pending settings
  passed :
      (g f : Text)
      → Mem g settings.features
      → Mem f (strings_of (listed declared g))
      → Handled f pending settings
  marked :
      (g : Text)
      → Mem g settings.features
      → has_odd_in (listed declared g) ≡ true
      → settings.unknown_features ≡ true
  cause : settings.unknown_features ≡ true → Undecided declared initial

module _ (declared : Option Entries) (initial : List Text) where
  skip_foreign :
      (f : Text) (pending : List Text) (settings : Settings)
      → is_foreign f ≡ true
      → Progress declared initial (f ∷ pending) settings
      → Progress declared initial pending (record settings { unknown_features = true })
  skip_foreign f pending settings foreign p = record {
    enabled = p.enabled;
    waiting = λ g m. p.waiting g (inr m);
    begun = λ g m. now g (p.begun g m);
    passed = λ g h m k. now h (p.passed g h m k);
    marked = λ g m o. refl;
    cause = λ e. (f, p.waiting f (inl refl), inl foreign);
  }
    where
      now :
          (g : Text)
          → Handled g (f ∷ pending) settings
          → Handled g pending (record settings { unknown_features = true })
      now g (inl m) = inl m
      now g (inr (inl (inl same))) = inr (inr (ap is_foreign same ∙ foreign, refl))
      now g (inr (inl (inr m))) = inr (inl m)
      now g (inr (inr (e, u))) = inr (inr (e, refl))

  skip_known :
      (f : Text) (pending : List Text) (settings : Settings)
      → Mem f settings.features
      → Progress declared initial (f ∷ pending) settings
      → Progress declared initial pending settings
  skip_known f pending settings known p = record {
    enabled = p.enabled;
    waiting = λ g m. p.waiting g (inr m);
    begun = λ g m. now g (p.begun g m);
    passed = λ g h m k. now h (p.passed g h m k);
    marked = p.marked;
    cause = p.cause;
  }
    where
      now : (g : Text) → Handled g (f ∷ pending) settings → Handled g pending settings
      now g (inl m) = inl m
      now g (inr (inl (inl same))) = inl (subst (λ x. Mem x settings.features) (sym same) known)
      now g (inr (inl (inr m))) = inr (inl m)
      now g (inr (inr e)) = inr (inr e)

  enable :
      (f : Text) (pending : List Text) (settings : Settings) (d : Closing)
      → is_foreign f ≡ false
      → Progress declared initial (f ∷ pending) settings
      → d.settings.features ≡ set_insert f settings.features
      → Pushes
          (listed declared f)
          (record {
            pending = pending;
            settings = record settings { features = set_insert f settings.features };
          })
          d
      → Progress declared initial d.pending d.settings
  enable f pending settings d plain p grown q = record {
    enabled = λ g m. elim (cases g m) [
      | inl same ↦
          (subst (Requested declared initial) (sym same) wanted, ap is_foreign same ∙ plain)
      | inr old ↦ p.enabled g old
    ];
    waiting = λ g m. elim (q.only g m) [
      | inl new ↦ enabled_by f g wanted plain new
      | inr old ↦ p.waiting g (inr old)
    ];
    begun = λ g m. now g (p.begun g m);
    passed = λ g h m k. elim (cases g m) [
      | inl same ↦ inr (inl (q.add h (subst (λ x. Mem h (strings_of (listed declared x))) same k)))
      | inr old ↦ now h (p.passed g h old k)
    ];
    marked = λ g m o. elim (cases g m) [
      | inl same ↦ q.blur (subst (λ x. has_odd_in (listed declared x) ≡ true) same o)
      | inr old ↦ q.still (p.marked g old o)
    ];
    cause = λ u. elim (q.cause u) [ inl old ↦ p.cause old | inr o ↦ (f, wanted, inr (plain, o)) ];
  }
    where
      wanted : Requested declared initial f
      wanted = p.waiting f (inl refl)

      cases : (g : Text) → Mem g d.settings.features → (g ≡ f) ⊎ Mem g settings.features
      cases g m = Mem-set_insert-cases g f settings.features (subst (Mem g) grown m)

      now : (g : Text) → Handled g (f ∷ pending) settings → Handled g d.pending d.settings
      now g (inl m) = inl (subst (Mem g) (sym grown) (Mem-set_insert_other g f settings.features m))
      now g (inr (inl (inl same))) = inl (
          subst (Mem g) (sym grown) (
            subst (λ x. Mem x (set_insert f settings.features)) (sym same)
              (Mem-set_insert f settings.features)))
      now g (inr (inl (inr m))) = inr (inl (q.keep g m))
      now g (inr (inr (e, u))) = inr (inr (e, q.still u))

  close_feature-Progress :
      (f : Text) (pending : List Text) (settings : Settings)
      → Progress declared initial (f ∷ pending) settings
      → Progress declared initial
          (close_feature declared f pending settings).pending
          (close_feature declared f pending settings).settings
  unfolding close_feature
  close_feature-Progress f pending settings p =
      go (is_foreign f) (has settings.features f) refl refl
    where
      next : Bool → Bool → Closing
      next foreign known =
          if foreign
          then record { pending = pending; settings = record settings { unknown_features = true } }
          else if known
          then record { pending = pending; settings = settings }
          else push_declared (as_array (entry_of declared f)) (record {
            pending = pending;
            settings = record settings { features = set_insert f settings.features };
          })

      go :
          (foreign known : Bool)
          → is_foreign f ≡ foreign
          → has settings.features f ≡ known
          → Progress declared initial (next foreign known).pending (next foreign known).settings
      go true known e k = skip_foreign f pending settings e p
      go false true e k = skip_known f pending settings (has-Mem settings.features f k) p
      go false false e k =
          let c : Closing = record {
            pending = pending;
            settings = record settings { features = set_insert f settings.features };
          } in
          enable f pending settings (push_declared (listed declared f) c) e p
            (push_declared-features (listed declared f) c)
            (push_declared-Pushes (listed declared f) c)

  close_features-Progress :
      (fuel : ℕ) (pending : List Text) (settings out : Settings)
      → Progress declared initial pending settings
      → close_features fuel declared pending settings ≡ some out
      → Progress declared initial [] out
  unfolding close_features
  close_features-Progress fuel [] settings out p h =
      subst (Progress declared initial []) (ap (λ o. elim o [ none ↦ settings | some s ↦ s ]) h) p
  close_features-Progress zero (f ∷ pending) settings out p h = cc
  close_features-Progress (suc fuel) (f ∷ pending) settings out p h =
      let c = close_feature declared f pending settings in
      close_features-Progress fuel c.pending c.settings out
        (close_feature-Progress f pending settings p) h

settled :
    (declared : Option Entries) (initial : List Text) (out : Settings)
    → Progress declared initial [] out
    → {f : Text} → Requested declared initial f
    → Mem f out.features ⊎ ((is_foreign f ≡ true) × (out.unknown_features ≡ true))
settled declared initial out p (asked f m) = elim (p.begun f m) [
  | inl e ↦ inl e
  | inr r ↦ elim r [ inl w ↦ absurd w | inr e ↦ inr e ]
]
settled declared initial out p (enabled_by g f r plain m) =
    elim (settled declared initial out p r) [
      | inl e ↦ elim (p.passed g f e m) [
        | inl done ↦ inl done
        | inr rest ↦ elim rest [ inl w ↦ absurd w | inr marked ↦ inr marked ]
      ]
      | inr foreign ↦ absurd (ground (arith, foreign.0, plain))
    ]

Progress-IsClosed :
    (declared : Option Entries) (initial : List Text) (out : Settings)
    → Progress declared initial [] out
    → IsClosed declared initial out
Progress-IsClosed declared initial out p = record {
  sound = p.enabled;
  whole = λ f r plain. elim (settled declared initial out p r) [
    | inl e ↦ e
    | inr foreign ↦ absurd (ground (arith, foreign.0, plain))
  ];
  unknown = (p.cause, λ u. because u);
}
  where
    because : Undecided declared initial → out.unknown_features ≡ true
    because (f, r, inl foreign) = elim (settled declared initial out p r) [
      | inl e ↦ absurd (ground (arith, foreign, (p.enabled f e).1))
      | inr marked ↦ marked.1
    ]
    because (f, r, inr (plain, odd)) = elim (settled declared initial out p r) [
      | inl e ↦ p.marked f e odd
      | inr marked ↦ absurd (ground (arith, marked.0, plain))
    ]

start :
    (declared : Option Entries) (initial : List Text) (settings : Settings)
    → settings.features ≡ []
    → settings.unknown_features ≡ false
    → Progress declared initial initial settings
start declared initial settings empty known = record {
  enabled = λ f m. absurd (subst (Mem f) empty m);
  waiting = λ f m. asked f m;
  begun = λ f m. inr (inl m);
  passed = λ g f m k. absurd (subst (Mem g) empty m);
  marked = λ g m o. absurd (subst (Mem g) empty m);
  cause = λ u. absurd (ground (arith, known, u));
}

-- The loop that closes the features of a crate ends, whatever the manifest lists, cycles included; the
-- enabled features are exactly the requested ones that do not belong to another package, that is the
-- pending ones at its start and, again and again, those listed by an enabled feature; and the features
-- are marked as not all known exactly when a requested feature belongs to another package or the list
-- of an enabled one has a value that is no string.
pub enabled_features-IsClosed :
    (context : BuildContext) (declared : Option Entries) (pending : List Text)
    → (out : Settings) × (enabled_features context declared pending ≡ some out)
      × IsClosed declared pending out
unfolding enabled_features
enabled_features-IsClosed context declared pending =
    let base : Settings = base_settings context in
    let fuel : ℕ = length pending + count_declared declared [] in
    let (out, ends) = close_features-ends fuel declared pending base (omega arith) in
    (
      out,
      ends,
      Progress-IsClosed declared pending out (
          close_features-Progress declared pending fuel pending base out
            (start declared pending base refl refl) ends),
    )
