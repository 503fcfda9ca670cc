-- ===== src/Query/Cursor/Tests.antt =====
-- A cursor of crates/query/src/cursor.rs that is written and read back.
use ferrum_atlas.Prelude.{
  ℕ, ◌≤◌, ◌<◌, List, [], ◌∷◌, ◌++◌, ◌≡◌, refl, some, none, ok, Option, arith, length, ℕ_discrete,
}
use ferrum_atlas.Prelude.Text.{Text, codes, Text-discrete}
use ferrum_atlas.Prelude.Hex.{hex}
use ferrum_atlas.Query.Cursor.{
  Cursor, Codec, dot, encode, decode, unhex, unhex_pairs, split_once, accept,
}
use ferrum_atlas.Query.Cursor.Seal.{decode-sealed, decode-encode}

abbrev cursor : Cursor
cursor = record {
  version = 1;
  snapshot = codes "s";
  context = codes "c";
  scope = codes "definitions";
  query = codes "q";
  last_name = codes "main";
  last_id = codes "d";
  expires = 200;
}

-- One byte tells the time of expiry, and the signature is the byte and its double, modulo 256.
abbrev codec : Codec
codec = record {
  to_vec = λ c. some (c.expires ∷ []);
  from_slice = read;
  sign = λ body. 17 ∷ 255 ∷ body;
}
  where
    read : List ℕ → Option Cursor
    read [] = none
    read (b ∷ bytes) = some (record cursor { expires = b })

decode-encode_example :
    (text : Text) × (encode codec cursor ≡ ok text) × (decode codec 100 text ≡ ok cursor)
decode-encode_example =
    decode-encode codec 100 cursor (200 ∷ []) refl refl (omega arith, tt)
      (omega arith, (omega arith, (omega arith, tt))) (omega arith) refl (omega arith)

abbrev letters : Text
letters = codes "c8.11ffc8"

decode-letters : decode codec 100 letters ≡ ok cursor
unfolding decode unhex unhex_pairs split_once accept ℕ_discrete Text-discrete
decode-letters = refl

decode-sealed_example :
    (body : List ℕ) × (letters ≡ hex body ++ dot ∷ hex (codec.sign body))
    × (codec.from_slice body ≡ some cursor)
    × (cursor.version ≡ 1)
    × (100 < 200)
    × (length letters ≤ 16384)
decode-sealed_example = decode-sealed codec 100 letters cursor decode-letters
