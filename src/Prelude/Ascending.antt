-- ===== src/Prelude/Ascending.antt =====
-- The keys of a `BTreeSet` or a `BTreeMap` rise, so that none stands twice.
use Prim.Native.Nat.{ℕ, suc, ◌<◌, ◌≤◌}
use mathlib.Core.Path.{◌≡◌, refl}
use mathlib.Core.Logic.{inl, inr, ◌≢◌}
use mathlib.Core.List.{List, [], ◌∷◌}
use native.Mathlib.Omega.{arith}
use ferrum_atlas.Prelude.Lists.{length, All}
use ferrum_atlas.Prelude.Equal.{◌==◌, nat_eq}
use ferrum_atlas.Prelude.Tests.{if◌then◌else◌}
use ferrum_atlas.Prelude.Order.{nat_ord, Mem, set_insert}

abbrev pub Above : ℕ → List ℕ → Type 0
Above x ys = All (λ y. x < y) ys

abbrev pub Ascending : List ℕ → Type 0
Ascending [] = Unit
Ascending (x ∷ xs) = Above x xs × Ascending xs

Above-trans : (a x : ℕ) (ys : List ℕ) → a < x → Above x ys → Above a ys
Above-trans a x [] l h = tt
Above-trans a x (y ∷ ys) l h = (omega (arith, h.0), Above-trans a x ys l h.1)

Above-set_insert : (a x : ℕ) (ys : List ℕ) → a < x → Above a ys → Above a (set_insert x ys)
Above-set_insert a x [] l h = (l, tt)
Above-set_insert a x (y ∷ ys) l h = ground (arith, Above-set_insert a x ys)

pub Ascending-set_insert : (x : ℕ) (ys : List ℕ) → Ascending ys → Ascending (set_insert x ys)
Ascending-set_insert x [] h = (tt, tt)
Ascending-set_insert x (y ∷ ys) h =
    ground (arith, Ascending-set_insert x ys, Above-trans x y ys, Above-set_insert y x ys)

pub Above-Mem : (x z : ℕ) (ys : List ℕ) → Above x ys → Mem z ys → x < z
Above-Mem x z [] h m = absurd m
Above-Mem x z (y ∷ ys) h (inl e) = omega (arith, e, h.0)
Above-Mem x z (y ∷ ys) h (inr m) = Above-Mem x z ys h.1 m

-- One occurrence less.
abbrev delete : ℕ → List ℕ → List ℕ
delete x [] = []
delete x (y ∷ ys) = let rest = delete x ys in if x == y then ys else y ∷ rest

length-delete : (x : ℕ) (ys : List ℕ) → Mem x ys → suc (length (delete x ys)) ≡ length ys
length-delete x [] h = absurd h
length-delete x (y ∷ ys) h = ground (arith, length-delete x ys)

Mem-delete : (z x : ℕ) (ys : List ℕ) → z ≢ x → Mem z ys → Mem z (delete x ys)
Mem-delete z x [] n h = absurd h
Mem-delete z x (y ∷ ys) n (inl h) = ground arith
Mem-delete z x (y ∷ ys) n (inr h) = ground (arith, Mem-delete z x ys n h)

-- The pigeonhole principle.
pub Ascending-length :
    (xs ys : List ℕ) → Ascending xs → ((z : ℕ) → Mem z xs → Mem z ys) → length xs ≤ length ys
Ascending-length [] ys a h = omega arith
Ascending-length (x ∷ xs) ys a h =
    let inside = λ (z : ℕ) (m : Mem z xs).
      let l = Above-Mem x z xs a.0 m in
      Mem-delete z x ys (λ e. omega (arith, l, e)) (h z (inr m)) in
    let shorter = Ascending-length xs (delete x ys) a.1 inside in
    omega (arith, shorter, length-delete x ys (h x (inl refl)))
