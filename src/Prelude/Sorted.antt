-- ===== src/Prelude/Sorted.antt =====
-- Sorted lists of numbers (`sort_unstable`), and what stands at an index of one.
use Prim.Native.Nat.{ℕ, zero, suc, ◌+◌, ◌-◌, ◌≤◌, ◌<◌}
use mathlib.Core.Path.{◌≡◌, refl, ap, ◌∙◌}
use mathlib.Core.Logic.{inl, inr}
use mathlib.Core.Bool.{Bool, true}
use mathlib.Core.List.{List, [], ◌∷◌}
use mathlib.Core.Option.{some}
use native.Mathlib.Omega.{arith}
use ferrum_atlas.Prelude.Lists.{length, All, count_if, get_elem?, last?}
use ferrum_atlas.Prelude.Tests.{ltb, leb}
use ferrum_atlas.Prelude.Order.{Mem, sort_insert, sort_by}

abbrev pub AtLeast : ℕ → List ℕ → Type 0
AtLeast x ys = All (λ y. x ≤ y) ys

abbrev pub Rising : List ℕ → Type 0
Rising [] = Unit
Rising (x ∷ xs) = AtLeast x xs × Rising xs

AtLeast-trans : (a x : ℕ) (ys : List ℕ) → a ≤ x → AtLeast x ys → AtLeast a ys
AtLeast-trans a x [] l h = tt
AtLeast-trans a x (y ∷ ys) l h = (omega (arith, l, h.0), AtLeast-trans a x ys l h.1)

AtLeast-sort_insert :
    (a x : ℕ) (ys : List ℕ) → a ≤ x → AtLeast a ys → AtLeast a (sort_insert ltb x ys)
AtLeast-sort_insert a x [] l h = (l, tt)
AtLeast-sort_insert a x (y ∷ ys) l h = ground (arith, AtLeast-sort_insert a x ys)

Rising-sort_insert : (x : ℕ) (ys : List ℕ) → Rising ys → Rising (sort_insert ltb x ys)
Rising-sort_insert x [] h = (tt, tt)
Rising-sort_insert x (y ∷ ys) h =
    ground (arith, Rising-sort_insert x ys, AtLeast-trans x y ys, AtLeast-sort_insert y x ys)

pub Rising-sort_by : (xs : List ℕ) → Rising (sort_by ltb xs)
Rising-sort_by [] = tt
Rising-sort_by (x ∷ xs) = Rising-sort_insert x (sort_by ltb xs) (Rising-sort_by xs)

module _ {A : Type 0} (less : A → A → Bool) where
  length-sort_insert : (x : A) (xs : List A) → length (sort_insert less x xs) ≡ suc (length xs)
  length-sort_insert x [] = refl
  length-sort_insert x (y ∷ ys) = ground (arith, length-sort_insert x ys)

  pub length-sort_by : (xs : List A) → length (sort_by less xs) ≡ length xs
  length-sort_by [] = refl
  length-sort_by (x ∷ xs) =
      length-sort_insert x (sort_by less xs) ∙ ap (λ n. suc n) (length-sort_by xs)

  count_if-sort_insert :
      (p : A → Bool) (x : A) (xs : List A)
      → count_if p (sort_insert less x xs) ≡ count_if p (x ∷ xs)
  count_if-sort_insert p x [] = refl
  count_if-sort_insert p x (y ∷ ys) = ground (arith, count_if-sort_insert p x ys)

  pub count_if-sort_by : (p : A → Bool) (xs : List A) → count_if p (sort_by less xs) ≡ count_if p xs
  count_if-sort_by p [] = refl
  count_if-sort_by p (x ∷ xs) =
      ground (arith, count_if-sort_insert p x (sort_by less xs), count_if-sort_by p xs)

pub AtLeast-Mem : (x z : ℕ) (ys : List ℕ) → AtLeast x ys → Mem z ys → x ≤ z
AtLeast-Mem x z [] h m = absurd m
AtLeast-Mem x z (y ∷ ys) h (inl e) = omega (arith, e, h.0)
AtLeast-Mem x z (y ∷ ys) h (inr m) = AtLeast-Mem x z ys h.1 m

-- All the elements are at least the first.
count_if-AtLeast : (x : ℕ) (ys : List ℕ) → AtLeast x ys → count_if (λ y. leb x y) ys ≡ length ys
count_if-AtLeast x [] h = refl
count_if-AtLeast x (y ∷ ys) h = ground (arith, count_if-AtLeast x ys)

-- An element is less than a number or at least it.
pub count_if-ltb :
    (a : ℕ) (xs : List ℕ) → count_if (λ x. ltb x a) xs + count_if (λ x. leb a x) xs ≡ length xs
count_if-ltb a [] = omega arith
count_if-ltb a (x ∷ xs) = ground (arith, count_if-ltb a xs)

-- The element at an index, with the elements up to it and from it on.
pub record IsRanked (xs : List ℕ) (i : ℕ) (a : ℕ) : Type 0 where
  pub here : get_elem? xs i ≡ some a
  pub inside : Mem a xs
  pub up_to : i < count_if (λ x. leb x a) xs
  pub onward : length xs ≤ i + count_if (λ x. leb a x) xs

pub get_elem?-IsRanked :
    (xs : List ℕ) (i : ℕ) → Rising xs → i < length xs → (a : ℕ) × IsRanked xs i a
get_elem?-IsRanked [] i h l = absurd (omega (arith, l))
get_elem?-IsRanked (x ∷ xs) zero h l = (
  x,
  record {
    here = refl;
    inside = inl refl;
    up_to = ground arith;
    onward = ground (arith, count_if-AtLeast x xs h.0);
  },
)
get_elem?-IsRanked (x ∷ xs) (suc i) h l =
    let (a, r) = get_elem?-IsRanked xs i h.1 (omega (arith, l)) in
    let low = AtLeast-Mem x a xs h.0 r.inside in
    (
      a,
      record {
        here = r.here;
        inside = inr r.inside;
        up_to = ground (arith, r.up_to, low);
        onward = ground (arith, r.onward, low);
      },
    )

last_at : (x : ℕ) (xs : List ℕ) → last? (x ∷ xs) ≡ get_elem? (x ∷ xs) (length xs)
last_at x [] = refl
last_at x (y ∷ ys) = last_at y ys

pub last?-get_elem? : (xs : List ℕ) → 0 < length xs → last? xs ≡ get_elem? xs (length xs - 1)
last?-get_elem? [] h = refl
last?-get_elem? (x ∷ xs) h =
    let index : length xs ≡ suc (length xs) - 1 = omega arith in
    last_at x xs ∙ ap (λ i. get_elem? (x ∷ xs) i) index

count_if-length : (p : ℕ → Bool) (xs : List ℕ) → count_if p xs ≤ length xs
count_if-length p [] = omega arith
count_if-length p (x ∷ xs) = ground (arith, count_if-length p xs)

pub count_if-all :
    (p : ℕ → Bool) (xs : List ℕ) (x : ℕ) → length xs ≤ count_if p xs → Mem x xs → p x ≡ true
count_if-all p [] x h m = absurd m
count_if-all p (y ∷ ys) x h m = ground (arith, count_if-length p ys, count_if-all p ys x, h, m)

Mem-get_elem? : (xs : List ℕ) (i a : ℕ) → get_elem? xs i ≡ some a → Mem a xs
Mem-get_elem? [] i a h = cc
Mem-get_elem? (x ∷ xs) zero a h = ground (arith, h)
Mem-get_elem? (x ∷ xs) (suc i) a h = inr (Mem-get_elem? xs i a h)

pub Rising-get_elem? :
    (xs : List ℕ) (i j a b : ℕ)
    → Rising xs
    → i ≤ j
    → get_elem? xs i ≡ some a
    → get_elem? xs j ≡ some b
    → a ≤ b
Rising-get_elem? [] i j a b h l p q = cc
Rising-get_elem? (x ∷ xs) zero zero a b h l p q = ground (arith, p, q)
Rising-get_elem? (x ∷ xs) zero (suc j) a b h l p q =
    let low = AtLeast-Mem x b xs h.0 (Mem-get_elem? xs j b q) in ground (arith, p, low)
Rising-get_elem? (x ∷ xs) (suc i) zero a b h l p q = absurd (omega (arith, l))
Rising-get_elem? (x ∷ xs) (suc i) (suc j) a b h l p q =
    Rising-get_elem? xs i j a b h.1 (omega (arith, l)) p q
