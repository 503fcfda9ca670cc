-- ===== src/Prelude/Order.antt =====
-- Ordered maps and sets of the standard library (`BTreeMap`, `BTreeSet`), as lists in the order of
-- their keys.
use Prim.Native.Nat.{ℕ}
use mathlib.Core.Path.{◌≡◌, refl, subst, sym, ap}
use mathlib.Core.Logic.{◌⊎◌, inl, inr, ◌≢◌}
use mathlib.Core.Bool.{Bool, true, false, ◌||◌, ◌&&◌}
use mathlib.Core.List.{List, [], ◌∷◌, ◌++◌, map}
use mathlib.Core.Option.{Option, none, some}
use native.Mathlib.Omega.{arith}
use ferrum_atlas.Prelude.Tests.{if◌then◌else◌, ltb}
use ferrum_atlas.Prelude.Equal.{PartialEq, ◌==◌, nat_eq}

-- The lexicographic order, which a derived `Ord` has on the number of the variant and its fields.
abbrev pub lex_lt : List ℕ → List ℕ → Bool
lex_lt [] [] = false
lex_lt [] (b ∷ bs) = true
lex_lt (a ∷ as1) [] = false
lex_lt (a ∷ as1) (b ∷ bs) = ltb a b || (a == b && lex_lt as1 bs)

pub record Ord {ℓ} (A : Type ℓ) : Type ℓ where
  pub less : A → A → Bool

instance abbrev pub nat_ord : Ord ℕ
nat_ord = record { less = ltb }

abbrev pub Mem : {A : Type 0} → A → List A → Type 0
Mem x [] = ⊥
Mem x (y ∷ ys) = (x ≡ y) ⊎ Mem x ys

-- Sets.
module _ {A : Type 0} ⦃eq : PartialEq A⦄ ⦃ord : Ord A⦄ where
  abbrev pub set_insert : A → List A → List A
  set_insert x [] = x ∷ []
  set_insert x (y ∷ ys) =
      let rest = set_insert x ys in
      if x == y then x ∷ ys else if ord.less x y then x ∷ y ∷ ys else y ∷ rest

  abbrev pub set_extend : List A → List A → List A
  set_extend s [] = s
  set_extend s (x ∷ xs) = set_extend (set_insert x s) xs

  pub Mem-set_insert : (x : A) (s : List A) → Mem x (set_insert x s)
  Mem-set_insert x [] = ground arith
  Mem-set_insert x (y ∷ ys) = ground (arith, Mem-set_insert x ys)

  pub Mem-set_insert_other : (z x : A) (s : List A) → Mem z s → Mem z (set_insert x s)
  Mem-set_insert_other z x [] h = ground arith
  Mem-set_insert_other z x (y ∷ ys) (inl h) = ground arith
  Mem-set_insert_other z x (y ∷ ys) (inr h) = ground (arith, Mem-set_insert_other z x ys h)

  pub Mem-set_insert-cases : (z x : A) (s : List A) → Mem z (set_insert x s) → (z ≡ x) ⊎ Mem z s
  Mem-set_insert-cases z x [] h = ground arith
  Mem-set_insert-cases z x (y ∷ ys) h = ground (arith, Mem-set_insert-cases z x ys)

  pub Mem-set_extend_left : (z : A) (s xs : List A) → Mem z s → Mem z (set_extend s xs)
  Mem-set_extend_left z s [] h = h
  Mem-set_extend_left z s (x ∷ xs) h =
      Mem-set_extend_left z (set_insert x s) xs (Mem-set_insert_other z x s h)

  pub Mem-set_extend_right : (z : A) (s xs : List A) → Mem z xs → Mem z (set_extend s xs)
  Mem-set_extend_right z s [] h = absurd h
  Mem-set_extend_right z s (x ∷ xs) (inl h) =
      Mem-set_extend_left z (set_insert x s) xs
        (subst (λ y. Mem y (set_insert x s)) (sym h) (Mem-set_insert x s))
  Mem-set_extend_right z s (x ∷ xs) (inr h) = Mem-set_extend_right z (set_insert x s) xs h

-- Maps from numbers.
module _ {ℓ} {V : Type ℓ} where
  abbrev pub lookup : ℕ → List (ℕ × V) → Option V
  lookup k [] = none
  lookup k ((k', v) ∷ m) = if k == k' then some v else lookup k m

  abbrev pub insert : ℕ → V → List (ℕ × V) → List (ℕ × V)
  insert k v [] = (k, v) ∷ []
  insert k v ((k', v') ∷ m) =
      let rest = insert k v m in
      if k == k' then (k, v) ∷ m else if ltb k k' then (k, v) ∷ (k', v') ∷ m else (k', v') ∷ rest

  abbrev pub remove_key : ℕ → List (ℕ × V) → List (ℕ × V)
  remove_key k [] = []
  remove_key k ((k', v) ∷ m) = let rest = remove_key k m in if k == k' then rest else (k', v) ∷ rest

  pub lookup-insert : (k : ℕ) (v : V) (m : List (ℕ × V)) → lookup k (insert k v m) ≡ some v
  lookup-insert k v [] = ground arith
  lookup-insert k v ((k', v') ∷ m) = ground (arith, lookup-insert k v m)

  pub lookup-insert_other :
      (q k : ℕ) (v : V) (m : List (ℕ × V)) → q ≢ k → lookup q (insert k v m) ≡ lookup q m
  lookup-insert_other q k v [] h = ground arith
  lookup-insert_other q k v ((k', v') ∷ m) h = ground (arith, lookup-insert_other q k v m h)

  pub lookup-remove_key : (k : ℕ) (m : List (ℕ × V)) → lookup k (remove_key k m) ≡ none
  lookup-remove_key k [] = refl
  lookup-remove_key k ((k', v) ∷ m) = ground (arith, lookup-remove_key k m)

  pub lookup-remove_key_other :
      (q k : ℕ) (m : List (ℕ × V)) → q ≢ k → lookup q (remove_key k m) ≡ lookup q m
  lookup-remove_key_other q k [] h = refl
  lookup-remove_key_other q k ((k', v) ∷ m) h = ground (arith, lookup-remove_key_other q k m h)

-- `sort_by_key` and `sort_by`, which are stable.
module _ {A : Type 0} (less : A → A → Bool) where
  abbrev pub sort_insert : A → List A → List A
  sort_insert x [] = x ∷ []
  sort_insert x (y ∷ ys) = let rest = sort_insert x ys in if less y x then y ∷ rest else x ∷ y ∷ ys

  abbrev pub sort_by : List A → List A
  sort_by [] = []
  sort_by (x ∷ xs) = sort_insert x (sort_by xs)

  Mem-sort_insert : (z x : A) (xs : List A) → (z ≡ x) ⊎ Mem z xs → Mem z (sort_insert x xs)
  Mem-sort_insert z x [] h = h
  Mem-sort_insert z x (y ∷ ys) h = ground (arith, Mem-sort_insert z x ys)

  pub Mem-sort_by : (z : A) (xs : List A) → Mem z xs → Mem z (sort_by xs)
  Mem-sort_by z [] h = h
  Mem-sort_by z (x ∷ xs) (inl h) = Mem-sort_insert z x (sort_by xs) (inl h)
  Mem-sort_by z (x ∷ xs) (inr h) = Mem-sort_insert z x (sort_by xs) (inr (Mem-sort_by z xs h))

  Mem-sort_insert_back : (z x : A) (xs : List A) → Mem z (sort_insert x xs) → (z ≡ x) ⊎ Mem z xs
  Mem-sort_insert_back z x [] h = h
  Mem-sort_insert_back z x (y ∷ ys) h = ground (arith, Mem-sort_insert_back z x ys)

  pub Mem-sort_by_back : (z : A) (xs : List A) → Mem z (sort_by xs) → Mem z xs
  Mem-sort_by_back z [] h = h
  Mem-sort_by_back z (x ∷ xs) h = elim (Mem-sort_insert_back z x (sort_by xs) h) [
    | inl e ↦ inl e
    | inr m ↦ inr (Mem-sort_by_back z xs m)
  ]

module _ {A : Type 0} where
  pub Mem-append_left : (z : A) (xs ys : List A) → Mem z xs → Mem z (xs ++ ys)
  Mem-append_left z [] ys h = absurd h
  Mem-append_left z (x ∷ xs) ys (inl h) = inl h
  Mem-append_left z (x ∷ xs) ys (inr h) = inr (Mem-append_left z xs ys h)

  pub Mem-append_right : (z : A) (xs ys : List A) → Mem z ys → Mem z (xs ++ ys)
  Mem-append_right z [] ys h = h
  Mem-append_right z (x ∷ xs) ys h = inr (Mem-append_right z xs ys h)

  pub Mem-map : {B : Type 0} (f : A → B) (z : A) (xs : List A) → Mem z xs → Mem (f z) (map f xs)
  Mem-map f z [] h = absurd h
  Mem-map f z (x ∷ xs) (inl h) = inl (ap f h)
  Mem-map f z (x ∷ xs) (inr h) = inr (Mem-map f z xs h)

module _ {A : Type 0} where
  pub Mem-append-cases : (z : A) (xs ys : List A) → Mem z (xs ++ ys) → Mem z xs ⊎ Mem z ys
  Mem-append-cases z [] ys h = inr h
  Mem-append-cases z (x ∷ xs) ys (inl h) = inl (inl h)
  Mem-append-cases z (x ∷ xs) ys (inr h) = elim (Mem-append-cases z xs ys h) [
    | inl m ↦ inl (inr m)
    | inr m ↦ inr m
  ]
