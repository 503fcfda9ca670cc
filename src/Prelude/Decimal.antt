-- ===== src/Prelude/Decimal.antt =====
-- `str::parse` and `to_string` of unsigned integers.
use Prim.Native.Nat.{ℕ, ◌+◌, ◌-◌, ◌*◌}
use mathlib.Core.Option.{Option, none, some}
use mathlib.Core.List.{[], ◌∷◌}
use ferrum_atlas.Prelude.Tests.{leb, if◌then◌else◌}
use ferrum_atlas.Prelude.Equal.{◌==◌, nat_eq}
use ferrum_atlas.Prelude.Text.{Text, is_ascii_digit}

-- The value of a run of digits, or `none` at any other byte.
unfoldable pub digits_from : ℕ → Text → Option ℕ
digits_from acc [] = some acc
digits_from acc (c ∷ cs) =
    let rest = digits_from (acc * 10 + (c - b'0')) cs in if is_ascii_digit c then rest else none

abbrev digits_of : Text → Option ℕ
digits_of [] = none
digits_of (c ∷ cs) = digits_from 0 (c ∷ cs)

-- `u64::from_str` and its like: one leading `+` is accepted, and the value must fit.
abbrev pub unsigned_body : Text → Text
unsigned_body [] = []
unsigned_body (c ∷ cs) = if c == b'+' then cs else c ∷ cs

abbrev pub fit : ℕ → Option ℕ → Option ℕ
fit limit none = none
fit limit (some n) = if leb n limit then some n else none

unfoldable pub parse_unsigned : ℕ → Text → Option ℕ
unfolding digits_from
parse_unsigned limit text = fit limit (digits_of (unsigned_body text))
