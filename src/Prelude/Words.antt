-- ===== src/Prelude/Words.antt =====
-- Machine integers: a value is a natural number, and each operation says what it does at the end of
-- the range.
use Prim.Native.Nat.{ℕ, ◌+◌, ◌%◌, min}

abbrev pub u32_max : ℕ
u32_max = 4294967295

abbrev pub u64_max : ℕ
u64_max = 18446744073709551615

-- `u32::saturating_add`.
unfoldable pub saturating_add : ℕ → ℕ → ℕ
saturating_add a b = min (a + b) u32_max

-- `as u32`.
abbrev pub as_u32 : ℕ → ℕ
as_u32 n = n % 4294967296
