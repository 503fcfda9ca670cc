-- ===== src/Prelude/Equal.antt =====
-- The derived `PartialEq` of the source's types: an instance decides equality, `==` tests it.
use mathlib.Core.Path.{◌≡◌}
use mathlib.Core.Logic.{◌↔◌}
use mathlib.Core.Bool.{Bool, true, false, Bool-discrete}
use native.Mathlib.Omega.{arith}
use native.Mathlib.Decide.{ℕ_discrete}
use Prim.Native.Nat.{ℕ}

pub record PartialEq {ℓ} (A : Type ℓ) : Type ℓ where
  pub dec : Discrete A

infix 50 ◌==◌
abbrev pub ◌==◌ {ℓ} : {A : Type ℓ} ⦃e : PartialEq A⦄ → A → A → Bool
◌==◌ ⦃e⦄ a b = elim (e.dec a b) [ yes _ ↦ true | no _ ↦ false ]

instance abbrev pub nat_eq : PartialEq ℕ
nat_eq = record { dec = ℕ_discrete }

instance abbrev pub bool_eq : PartialEq Bool
bool_eq = record { dec = Bool-discrete }

module _ {ℓ} {A : Type ℓ} ⦃e : PartialEq A⦄ where
  pub ==_iff : (a b : A) → ((a == b) ≡ true) ↔ (a ≡ b)
  ==_iff a b = ground arith
