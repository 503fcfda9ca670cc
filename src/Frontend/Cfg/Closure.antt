-- ===== src/Frontend/Cfg/Closure.antt =====
-- crates/frontend-ra/src/configuration.rs: the loop that closes the features ends, with the features
-- that are requested.
use ferrum_atlas.Prelude.{
  ◌≡◌, refl, sym, ap, ◌∙◌, subst, ℕ, zero, suc, ◌+◌, ◌≤◌, List, [], ◌∷◌, Bool, true, false, Option,
  none, some, length, Mem, set_insert, Mem-set_insert, Mem-set_insert_other, ◌==◌, if◌then◌else◌,
  arith,
}
use ferrum_atlas.Prelude.Text.{Text, text_eq, text_ord}
use ferrum_atlas.Frontend.Cfg.Predicate.{Settings}
use ferrum_atlas.Frontend.Cfg.Features.{
  string, boolean, array, table, other, Values, no_values, next_value, Entries, no_entries,
  next_entry, as_array, entry, entry_of, is_foreign, Closing, push_enabled, push_declared, has,
  close_feature, close_features, count_values, count_array, count_entries, count_declared,
}

pub has-Mem : (features : List Text) (f : Text) → has features f ≡ true → Mem f features
has-Mem [] f h = cc
has-Mem (g ∷ gs) f h = ground (arith, has-Mem gs f)

pub Mem-has : (features : List Text) (f : Text) → Mem f features → has features f ≡ true
Mem-has [] f h = absurd h
Mem-has (g ∷ gs) f h = ground (arith, Mem-has gs f)

-- The measure of the loop falls in each round.
has_more :
    (features : List Text) (f k : Text)
    → has features k ≡ true
    → has (set_insert f features) k ≡ true
has_more features f k h =
    Mem-has (set_insert f features) k (Mem-set_insert_other k f features (has-Mem features k h))

drop : (n : ℕ) (a b : Bool) → (a ≡ true → b ≡ true) → (if b then 0 else n) ≤ (if a then 0 else n)
drop n true true h = omega arith
drop n true false h = absurd (ground (arith, h refl))
drop n false true h = omega arith
drop n false false h = omega arith

count_less :
    (es : Entries) (features : List Text) (f : Text)
    → count_entries es (set_insert f features) ≤ count_entries es features
count_less no_entries features f = omega arith
count_less (next_entry k value es) features f = omega (
  arith,
  count_less es features f,
  drop (count_array (as_array (some value))) (has features k) (has (set_insert f features) k)
      (has_more features f k),
)

count_falls :
    (es : Entries) (features : List Text) (f : Text)
    → has features f ≡ false
    → count_array (as_array (entry es f)) + count_entries es (set_insert f features)
      ≤ count_entries es features
count_falls no_entries features f h = omega arith
count_falls (next_entry k value es) features f h = go (k == f) refl (count_falls es features f h)
  where
    counted :
        (a b : Bool) (n : ℕ)
        → a ≡ false
        → b ≡ true
        → n + (if b then 0 else n) ≤ (if a then 0 else n)
    counted a b n p q = rw (p, q) (omega arith)

    go :
        (same : Bool)
        → (k == f) ≡ same
        → count_array (as_array (entry es f)) + count_entries es (set_insert f features)
          ≤ count_entries es features
        → count_array (as_array (if same then some value else entry es f))
            + count_entries (next_entry k value es) (set_insert f features)
          ≤ count_entries (next_entry k value es) features
    go true e ih =
        let it : k ≡ f = ground (arith, e) in
        let n : ℕ = count_array (as_array (some value)) in
        omega (
          arith,
          count_less es features f,
          counted (has features k) (has (set_insert f features) k) n (ap (has features) it ∙ h) (
              Mem-has (set_insert f features) k
                (subst (λ z. Mem z (set_insert f features)) (sym it) (Mem-set_insert f features))),
        )
    go false e ih = omega (
      arith,
      ih,
      drop (count_array (as_array (some value))) (has features k) (has (set_insert f features) k)
          (has_more features f k),
    )

push_enabled-length :
    (vs : Values) (c : Closing)
    → length (push_enabled vs c).pending ≤ count_values vs + length c.pending
unfolding push_enabled
push_enabled-length no_values c = omega arith
push_enabled-length (next_value (string f) vs) c =
    omega (arith, push_enabled-length vs (record c { pending = f ∷ c.pending }))
push_enabled-length (next_value (boolean b) vs) c = omega (
  arith,
  push_enabled-length vs (record c { settings = record c.settings { unknown_features = true } }),
)
push_enabled-length (next_value (array v) vs) c = omega (
  arith,
  push_enabled-length vs (record c { settings = record c.settings { unknown_features = true } }),
)
push_enabled-length (next_value (table e) vs) c = omega (
  arith,
  push_enabled-length vs (record c { settings = record c.settings { unknown_features = true } }),
)
push_enabled-length (next_value other vs) c = omega (
  arith,
  push_enabled-length vs (record c { settings = record c.settings { unknown_features = true } }),
)

push_enabled-features :
    (vs : Values) (c : Closing) → (push_enabled vs c).settings.features ≡ c.settings.features
unfolding push_enabled
push_enabled-features no_values c = refl
push_enabled-features (next_value (string f) vs) c =
    push_enabled-features vs (record c { pending = f ∷ c.pending })
push_enabled-features (next_value (boolean b) vs) c = push_enabled-features vs _
push_enabled-features (next_value (array v) vs) c = push_enabled-features vs _
push_enabled-features (next_value (table e) vs) c = push_enabled-features vs _
push_enabled-features (next_value other vs) c = push_enabled-features vs _

push_declared-length :
    (o : Option Values) (c : Closing)
    → length (push_declared o c).pending ≤ count_array o + length c.pending
push_declared-length none c = omega arith
push_declared-length (some vs) c = push_enabled-length vs c

pub push_declared-features :
    (o : Option Values) (c : Closing) → (push_declared o c).settings.features ≡ c.settings.features
push_declared-features none c = refl
push_declared-features (some vs) c = push_enabled-features vs c

abbrev left_over : Option Entries → Closing → ℕ
left_over declared c = length c.pending + count_declared declared c.settings.features

count_declared-falls :
    (declared : Option Entries) (features : List Text) (f : Text)
    → has features f ≡ false
    → count_array (as_array (entry_of declared f)) + count_declared declared (set_insert f features)
      ≤ count_declared declared features
count_declared-falls none features f h = omega arith
count_declared-falls (some es) features f h = count_falls es features f h

close_feature-left_over :
    (declared : Option Entries) (f : Text) (pending : List Text) (settings : Settings)
    → left_over declared (close_feature declared f pending settings)
      ≤ length pending + count_declared declared settings.features
unfolding close_feature
close_feature-left_over declared f pending settings =
    go (is_foreign f) (has settings.features f) refl
  where
    go :
        (foreign known : Bool)
        → has settings.features f ≡ known
        → left_over declared (
            if foreign
            then record {
              pending = pending;
              settings = record settings { unknown_features = true };
            }
            else if known
            then record { pending = pending; settings = settings }
            else push_declared (as_array (entry_of declared f)) (record {
              pending = pending;
              settings = record settings { features = set_insert f settings.features };
            }))
          ≤ length pending + count_declared declared settings.features
    go true known e = omega arith
    go false true e = omega arith
    go false false e =
        let c : Closing = record {
          pending = pending;
          settings = record settings { features = set_insert f settings.features };
        } in
        let o : Option Values = as_array (entry_of declared f) in
        omega (
          arith,
          push_declared-length o c,
          ap (count_declared declared) (push_declared-features o c),
          count_declared-falls declared settings.features f e,
        )

-- The loop ends within the pending features and the values of the features that are not yet enabled.
pub close_features-ends :
    (fuel : ℕ) (declared : Option Entries) (pending : List Text) (settings : Settings)
    → length pending + count_declared declared settings.features ≤ fuel
    → (out : Settings) × (close_features fuel declared pending settings ≡ some out)
unfolding close_features
close_features-ends fuel declared [] settings h = (settings, refl)
close_features-ends zero declared (f ∷ pending) settings h = absurd (omega (arith, h))
close_features-ends (suc fuel) declared (f ∷ pending) settings h =
    let c = close_feature declared f pending settings in
    close_features-ends fuel declared c.pending c.settings
      (omega (arith, h, close_feature-left_over declared f pending settings))
