-- ===== src/Prelude/Text.antt =====
-- A `String` is the list of its UTF-8 bytes.
use Prim.Native.Char.{code}
use Prim.Native.String.{String}
use Prim.Native.Nat.{ℕ}
use mathlib.Core.Bool.{Bool, true, false, ◌&&◌, ◌||◌}
use mathlib.Core.Path.{◌≡◌, refl}
use mathlib.Core.List.{List, [], ◌∷◌}
use native.Mathlib.Decide.{ℕ_discrete}
use ferrum_atlas.Prelude.Tests.{leb}
use ferrum_atlas.Prelude.Order.{Ord, lex_lt}
use ferrum_atlas.Prelude.Equal.{PartialEq, ◌==◌, nat_eq}

abbrev pub Text : Type 0
Text = List ℕ

unfoldable pub Text-discrete : Discrete Text
unfolding ℕ_discrete
Text-discrete = hlevel ℕ_discrete

instance abbrev pub text_eq : PartialEq Text
text_eq = record { dec = Text-discrete }

instance abbrev pub text_ord : Ord Text
text_ord = record { less = lex_lt }

-- A literal of ASCII characters.
abbrev pub codes : String → Text
codes String.[] = []
codes (String.◌∷◌ c s) = code c ∷ codes s

abbrev pub starts_with : Text → Text → Bool
starts_with s [] = true
starts_with [] (p ∷ ps) = false
starts_with (c ∷ s) (p ∷ ps) = c == p && starts_with s ps

-- `ends_with`, of the reversed texts.
abbrev pub reverse_onto : Text → Text → Text
reverse_onto [] acc = acc
reverse_onto (c ∷ s) acc = reverse_onto s (c ∷ acc)

abbrev pub ends_with : Text → Text → Bool
ends_with s suffix = starts_with (reverse_onto s []) (reverse_onto suffix [])

abbrev pub is_ascii_digit : ℕ → Bool
is_ascii_digit c = leb b'0' c && leb c b'9'

abbrev pub is_ascii_alphanumeric : ℕ → Bool
is_ascii_alphanumeric c =
    is_ascii_digit c || (leb b'A' c && leb c b'Z') || (leb b'a' c && leb c b'z')

text_test : (codes "ab" == codes "ab") ≡ true
unfolding Text-discrete
text_test = refl
