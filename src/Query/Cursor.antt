-- ===== src/Query/Cursor.antt =====
-- crates/query/src/cursor.rs: signed cursors of a paged query.
use ferrum_atlas.Prelude.{
  ℕ, ◌+◌, ◌-◌, ◌*◌, List, [], ◌∷◌, ◌++◌, Bool, true, false, not, ◌&&◌, ◌||◌, Option, none, some,
  Result, ok, err, bind, ok_or, ensure, length, all, ltb, leb, ◌==◌, nat_eq, if◌then◌else◌,
}
use ferrum_atlas.Prelude.Text.{Text, text_eq}
use ferrum_atlas.Prelude.Hex.{hex}
mod RoundTrip
mod Seal
mod Tests

pub data Error : Type 0 where
  invalid_cursor expired_cursor serialization : Error

pub record Cursor : Type 0 where
  pub version : ℕ
  pub snapshot : Text
  pub context : Text
  pub scope : Text
  pub query : Text
  pub last_name : Text
  pub last_id : Text
  pub expires : ℕ

-- `serde_json` for a cursor, and HMAC-SHA-256 under the server's key.
pub record Codec : Type 0 where
  pub to_vec : Cursor → Option (List ℕ)
  pub from_slice : List ℕ → Option Cursor
  pub sign : List ℕ → List ℕ

abbrev pub dot : ℕ
dot = b'.'

unfoldable pub encode : Codec → Cursor → Result Error Text
encode codec cursor =
    bind (ok_or (codec.to_vec cursor) serialization)
      λ body. ok (hex body ++ dot ∷ hex (codec.sign body))

abbrev pub digit : ℕ → Option ℕ
digit byte =
    if leb b'0' byte && leb byte b'9'
    then some (byte - b'0')
    else if leb b'a' byte && leb byte b'f'
    then some (byte - b'a' + 10)
    else none

abbrev pub digit_pair : Option ℕ → Option ℕ → Result Error ℕ
digit_pair (some high) (some low) = ok (high * 16 + low)
digit_pair _ _ = err invalid_cursor

-- `chunks_exact(2)` drops a last single byte, which the test of the length excludes.
unfoldable pub unhex_pairs : Text → Result Error (List ℕ)
unhex_pairs [] = ok []
unhex_pairs (a ∷ []) = ok []
unhex_pairs (a ∷ b ∷ rest) =
    let others = unhex_pairs rest in
    bind (digit_pair (digit a) (digit b)) λ byte. bind others λ bytes. ok (byte ∷ bytes)

abbrev pub is_even : Text → Bool
is_even [] = true
is_even (a ∷ []) = false
is_even (a ∷ b ∷ rest) = is_even rest

unfoldable pub unhex : Text → Result Error (List ℕ)
unhex text =
    if not (is_even text) || not (all (λ c. ltb c 128) text)
    then err invalid_cursor
    else unhex_pairs text

abbrev pub before : ℕ → Option (Text × Text) → Option (Text × Text)
before c none = none
before c (some (left, right)) = some (c ∷ left, right)

-- `split_once`.
unfoldable pub split_once : ℕ → Text → Option (Text × Text)
split_once separator [] = none
split_once separator (c ∷ text) =
    let rest = split_once separator text in
    if c == separator then some ([], text) else before c rest

-- `now` is the clock in seconds.
unfoldable pub accept : ℕ → Cursor → Result Error Cursor
accept now cursor =
    bind (ensure (cursor.version == 1) invalid_cursor)
      λ _. bind (ensure (not (leb cursor.expires now)) expired_cursor) λ _. ok cursor

unfoldable pub decode : Codec → ℕ → Text → Result Error Cursor
decode codec now encoded = bind (ensure (leb (length encoded) 16384) invalid_cursor) λ _.
    bind (ok_or (split_once dot encoded) invalid_cursor) λ parts. bind (unhex parts.0) λ body.
      bind (unhex parts.1) λ signature.
        bind (ensure (codec.sign body == signature) invalid_cursor)
          λ _. bind (ok_or (codec.from_slice body) invalid_cursor) (accept now)
