-- ===== src/Query/Cursor/RoundTrip.antt =====
-- The hexadecimal text of crates/query/src/cursor.rs, both ways.
use ferrum_atlas.Prelude.{
  ℕ, ◌+◌, ◌*◌, ◌/◌, ◌%◌, ◌<◌, List, [], ◌∷◌, ◌≡◌, refl, subst, true, Option, some, none, Result, ok,
  err, All, all, arith, ltb, bind,
}
use ferrum_atlas.Prelude.Text.{Text}
use ferrum_atlas.Prelude.Hex.{hex, hex_digit}
use ferrum_atlas.Query.Cursor.{Error, digit, digit_pair, unhex_pairs, unhex, is_even}

abbrev pub IsBytes : List ℕ → Type 0
IsBytes bytes = All (λ b. b < 256) bytes

digit-hex_digit : (d : ℕ) → d < 16 → digit (hex_digit d) ≡ some d
digit-hex_digit d h = ground arith

hex_digit-digit : (c d : ℕ) → digit c ≡ some d → (hex_digit d ≡ c) × (d < 16)
hex_digit-digit c d h = ground arith

byte-halves : (b : ℕ) → b / 16 * 16 + b % 16 ≡ b
byte-halves b = omega arith

high : (b : ℕ) → b < 256 → b / 16 < 16
high b h = omega arith

low : (b : ℕ) → b % 16 < 16
low b = omega arith

unhex_pairs-hex : (bytes : List ℕ) → IsBytes bytes → unhex_pairs (hex bytes) ≡ ok bytes
unfolding unhex_pairs hex
unhex_pairs-hex [] h = refl
unhex_pairs-hex (b ∷ bytes) h =
    rw
      (
        digit-hex_digit (b / 16) (high b h.0),
        digit-hex_digit (b % 16) (low b),
        unhex_pairs-hex bytes h.1,
        byte-halves b,
      )
      refl

is_even-hex : (bytes : List ℕ) → is_even (hex bytes) ≡ true
unfolding hex
is_even-hex [] = refl
is_even-hex (b ∷ bytes) = is_even-hex bytes

ascii-hex_digit : (d : ℕ) → d < 16 → ltb (hex_digit d) 128 ≡ true
ascii-hex_digit d h = ground arith

ascii-hex : (bytes : List ℕ) → IsBytes bytes → all (λ c. ltb c 128) (hex bytes) ≡ true
unfolding hex
ascii-hex [] h = refl
ascii-hex (b ∷ bytes) h =
    rw
      (ascii-hex_digit (b / 16) (high b h.0), ascii-hex_digit (b % 16) (low b), ascii-hex bytes h.1)
      refl

pub unhex-hex : (bytes : List ℕ) → IsBytes bytes → unhex (hex bytes) ≡ ok bytes
unfolding unhex
unhex-hex bytes h = rw (is_even-hex bytes, ascii-hex bytes h) (unhex_pairs-hex bytes h)

quotient : (a b : ℕ) → b < 16 → (a * 16 + b) / 16 ≡ a
quotient a b h = omega arith

remainder : (a b : ℕ) → b < 16 → (a * 16 + b) % 16 ≡ b
remainder a b h = omega arith

small : (a b : ℕ) → a < 16 → b < 16 → a * 16 + b < 256
small a b ha hb = omega arith

-- What a step of the decoder has read.
unhex_pairs-cons :
    (a b : ℕ) (rest : Text) (bytes : List ℕ)
    → unhex_pairs (a ∷ b ∷ rest) ≡ ok bytes
    → (x : ℕ) × (y : ℕ) × (others : List ℕ) × (digit a ≡ some x)
      × (digit b ≡ some y)
      × (unhex_pairs rest ≡ ok others)
      × (bytes ≡ (x * 16 + y) ∷ others)
unfolding unhex_pairs
unhex_pairs-cons a b rest bytes h = go (digit a) (digit b) (unhex_pairs rest) refl refl refl h
  where
    go :
        (p q : Option ℕ) (r : Result Error (List ℕ))
        → digit a ≡ p
        → digit b ≡ q
        → unhex_pairs rest ≡ r
        → bind (digit_pair p q) (λ byte. bind r (λ bytes. ok (byte ∷ bytes))) ≡ ok bytes
        → (x : ℕ) × (y : ℕ) × (others : List ℕ) × (digit a ≡ some x)
          × (digit b ≡ some y)
          × (unhex_pairs rest ≡ ok others)
          × (bytes ≡ (x * 16 + y) ∷ others)
    go none q r ea eb er e = cc
    go (some x) none r ea eb er e = cc
    go (some x) (some y) (err z) ea eb er e = cc
    go (some x) (some y) (ok others) ea eb er e = (x, y, others, ea, eb, er, ground arith)

unhex_pairs-nil : (bytes : List ℕ) → unhex_pairs [] ≡ ok bytes → [] ≡ bytes
unfolding unhex_pairs
unhex_pairs-nil bytes h = ground arith

hex-unhex_pairs :
    (text : Text) (bytes : List ℕ)
    → is_even text ≡ true
    → unhex_pairs text ≡ ok bytes
    → (hex bytes ≡ text) × IsBytes bytes
unfolding hex
hex-unhex_pairs [] bytes even h =
    subst (λ z. (hex z ≡ []) × IsBytes z) (unhex_pairs-nil bytes h) (refl, tt)
hex-unhex_pairs (a ∷ []) bytes even h = cc
hex-unhex_pairs (a ∷ b ∷ rest) bytes even h =
    let (x, y, others, first, second, read, whole) = unhex_pairs-cons a b rest bytes h in
    let (high_back, high_small) = hex_digit-digit a x first in
    let (low_back, low_small) = hex_digit-digit b y second in
    let (text_back, are_bytes) = hex-unhex_pairs rest others even read in
    rw whole (
      rw (quotient x y low_small, remainder x y low_small, high_back, low_back, text_back) refl,
      (small x y high_small low_small, are_bytes),
    )

pub hex-unhex :
    (text : Text) (bytes : List ℕ) → unhex text ≡ ok bytes → (hex bytes ≡ text) × IsBytes bytes
unfolding unhex
hex-unhex text bytes h = hex-unhex_pairs text bytes (ground arith) (ground arith)
