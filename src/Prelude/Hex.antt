-- ===== src/Prelude/Hex.antt =====
-- Lower-case hexadecimal text, as `format!("{byte:02x}")` writes each byte.
use Prim.Native.Nat.{ℕ, ◌+◌, ◌-◌, ◌/◌, ◌%◌}
use mathlib.Core.List.{List, [], ◌∷◌}
use ferrum_atlas.Prelude.Tests.{ltb, if◌then◌else◌}
use ferrum_atlas.Prelude.Text.{Text}

abbrev pub hex_digit : ℕ → ℕ
hex_digit d = if ltb d 10 then b'0' + d else b'a' + (d - 10)

unfoldable pub hex : List ℕ → Text
hex [] = []
hex (b ∷ bytes) = hex_digit (b / 16) ∷ hex_digit (b % 16) ∷ hex bytes
