-- ===== src/Query/Cursor/Seal.antt =====
-- What a cursor of crates/query/src/cursor.rs vouches for: it was made by the server that reads it.
use ferrum_atlas.Prelude.{
  ℕ, ◌+◌, ◌*◌, ◌/◌, ◌%◌, ◌≤◌, ◌<◌, List, [], ◌∷◌, ◌++◌, ◌≡◌, refl, subst, ap, ◌∙◌, true, false,
  some, ok, ok_or, ensure, arith, leb, leb→le, le→leb, length, length-append, ◌==◌, nat_eq, ==_iff,
  bind-ok, Option-cases, inl, inr, ensure-ok, ok_or-ok,
}
use ferrum_atlas.Prelude.Text.{Text, text_eq}
use ferrum_atlas.Prelude.Hex.{hex, hex_digit}
use ferrum_atlas.Query.Cursor.{
  invalid_cursor, Cursor, Codec, dot, encode, unhex, split_once, accept, decode,
}
use ferrum_atlas.Query.Cursor.RoundTrip.{IsBytes, unhex-hex, hex-unhex}

split_once-joins :
    (separator : ℕ) (text left right : Text)
    → split_once separator text ≡ some (left, right)
    → text ≡ left ++ separator ∷ right
unfolding split_once
split_once-joins separator [] left right h = cc
split_once-joins separator (c ∷ text) left right h =
    elim (Option-cases (split_once separator text)) [
      | inl missing ↦ ground arith
      | inr (p, found) ↦ ground (arith, split_once-joins separator text p.0 p.1 (found ∙ refl))
    ]

not-dot : (d : ℕ) → d < 16 → (hex_digit d == dot) ≡ false
not-dot d h = ground arith

split_once-hex :
    (bytes : List ℕ) (rest : Text)
    → IsBytes bytes
    → split_once dot (hex bytes ++ dot ∷ rest) ≡ some (hex bytes, rest)
unfolding split_once hex
split_once-hex [] rest h = ground arith
split_once-hex (b ∷ bytes) rest h =
    rw
      (
        not-dot (b / 16) (omega (arith, h.0)),
        not-dot (b % 16) (omega arith),
        split_once-hex bytes rest h.1,
      )
      refl

length-hex : (bytes : List ℕ) → length (hex bytes) ≡ 2 * length bytes
unfolding hex
length-hex [] = refl
length-hex (b ∷ bytes) = omega (arith, length-hex bytes)

accept-ok :
    (now : ℕ) (cursor c : Cursor)
    → accept now cursor ≡ ok c
    → (cursor ≡ c) × (cursor.version ≡ 1) × (now < cursor.expires)
unfolding accept
accept-ok now cursor c h = ground arith

-- A cursor that is accepted is, letter by letter, the hexadecimal text of a body and of the server's
-- own signature of that body; the body reads as the cursor, whose version is 1 and whose time has not
-- come.
pub decode-sealed :
    (codec : Codec) (now : ℕ) (encoded : Text) (c : Cursor)
    → decode codec now encoded ≡ ok c
    → (body : List ℕ) × (encoded ≡ hex body ++ dot ∷ hex (codec.sign body))
      × (codec.from_slice body ≡ some c)
      × (c.version ≡ 1)
      × (now < c.expires)
      × (length encoded ≤ 16384)
unfolding decode
decode-sealed codec now encoded c h =
    let (_, short, h1) = bind-ok (ensure (leb (length encoded) 16384) invalid_cursor) _ c h in
    let (parts, split, h2) = bind-ok (ok_or (split_once dot encoded) invalid_cursor) _ c h1 in
    let (body, left, h3) = bind-ok (unhex parts.0) _ c h2 in
    let (signature, right, h4) = bind-ok (unhex parts.1) _ c h3 in
    let (_, signed, h5) = bind-ok (ensure (codec.sign body == signature) invalid_cursor) _ c h4 in
    let (cursor, read, h6) = bind-ok (ok_or (codec.from_slice body) invalid_cursor) _ c h5 in
    let (same, version, fresh) = accept-ok now cursor c h6 in
    let joined =
      split_once-joins dot encoded parts.0 parts.1
        (ok_or-ok (split_once dot encoded) invalid_cursor parts split) in
    let (left_back, _) = hex-unhex parts.0 body left in
    let (right_back, _) = hex-unhex parts.1 signature right in
    let is_signed =
      (==_iff (codec.sign body) signature).0
        (ensure-ok (codec.sign body == signature) invalid_cursor signed) in
    (
      body,
      rw (is_signed, left_back, right_back) joined,
      ok_or-ok (codec.from_slice body) invalid_cursor cursor read ∙ ap some same,
      subst (λ z. z.version ≡ 1) same version,
      subst (λ z. now < z.expires) same fresh,
      leb→le (length encoded) 16384 (ensure-ok (leb (length encoded) 16384) invalid_cursor short),
    )

encode-ok :
    (codec : Codec) (c : Cursor) (body : List ℕ)
    → codec.to_vec c ≡ some body
    → encode codec c ≡ ok (hex body ++ dot ∷ hex (codec.sign body))
unfolding encode
encode-ok codec c body h = rw h refl

-- The server takes its own cursor back until it expires, if its serialiser reads what it wrote, if body
-- and signature are bytes, and if both fit into 16384 letters.
pub decode-encode :
    (codec : Codec) (now : ℕ) (c : Cursor) (body : List ℕ)
    → codec.to_vec c ≡ some body
    → codec.from_slice body ≡ some c
    → IsBytes body
    → IsBytes (codec.sign body)
    → 2 * length body + 2 * length (codec.sign body) + 1 ≤ 16384
    → c.version ≡ 1
    → now < c.expires
    → (text : Text) × (encode codec c ≡ ok text) × (decode codec now text ≡ ok c)
unfolding decode accept
decode-encode codec now c body written read bytes signed short version fresh =
    let text = hex body ++ dot ∷ hex (codec.sign body) in
    let fits : leb (length text) 16384 ≡ true = le→leb (length text) 16384 (
      rw
        (
          length-append (hex body) (dot ∷ hex (codec.sign body)),
          length-hex body,
          length-hex (codec.sign body),
        )
        (omega arith)) in
    (
      text,
      encode-ok codec c body written,
      rw
          (
            fits,
            split_once-hex body (hex (codec.sign body)) bytes,
            unhex-hex body bytes,
            unhex-hex (codec.sign body) signed,
            (==_iff (codec.sign body) (codec.sign body)).1 refl,
            read,
          )
          (ground arith),
    )
