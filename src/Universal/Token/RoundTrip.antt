-- ===== src/Universal/Token/RoundTrip.antt =====
-- What `Token::parse` makes of what `Token::expose` wrote.
use clift.Base.{
  ℕ, ◌<◌, ◌≡◌, refl, sym, ap, ◌∙◌, true, false, some, [], ◌∷◌, ◌++◌, append_assoc, append-nil,
  arith,
}
use clift.Base.{eqb, length, Str, codes, ok, All, All-map}
use clift.Base.Text.{trim, trim_start_by, trim_end_by, is_whitespace, strip_prefix, split_once}
use clift.Base64.{Base64, IsByte, IsBase64url}
use clift.Domain.SafeName.{is_empty}
use clift.Universal.Token.{
  Token, object_id_bytes, seal_key_bytes, parse_object_id, parse_seal_key, parse_halves, parse,
  expose,
}

-- Arrays of bytes of the two lengths.
pub record IsValid (token : Token) : Type 0 where
  pub id_length : length token.id.bytes ≡ object_id_bytes
  pub key_length : length token.key.bytes ≡ seal_key_bytes
  pub id_bytes : All IsByte token.id.bytes
  pub key_bytes : All IsByte token.key.bytes

abbrev IsWhite : Str → Type 0
IsWhite = All (λ c. is_whitespace c ≡ true)

trim_start-append :
    (white s : Str)
    → IsWhite white
    → trim_start_by is_whitespace (white ++ s) ≡ trim_start_by is_whitespace s
unfolding trim_start_by
trim_start-append [] s h = refl
trim_start-append (c ∷ white) s (p, h) = rw p (trim_start-append white s h)

trim_end_white : (white : Str) → IsWhite white → trim_end_by is_whitespace white ≡ []
unfolding trim_end_by
trim_end_white [] h = refl
trim_end_white (c ∷ white) (p, h) = rw (trim_end_white white h, p)

-- The end of a text that ends in a character of the alphabet is not white.
trim_end-append :
    (s white : Str) (c : ℕ)
    → is_whitespace c ≡ false
    → IsWhite white
    → trim_end_by is_whitespace (s ++ c ∷ white) ≡ s ++ c ∷ []
unfolding trim_end_by
trim_end-append [] white c h k = rw (trim_end_white white k, h)
trim_end-append (d ∷ []) white c h k = rw (trim_end-append [] white c h k)
trim_end-append (d ∷ e ∷ s) white c h k = rw (trim_end-append (e ∷ s) white c h k)

-- A text that neither begins nor ends with white space, between white space.
trim_between :
    (white white' s : Str) (c d : ℕ)
    → IsWhite white
    → IsWhite white'
    → is_whitespace c ≡ false
    → is_whitespace d ≡ false
    → trim (white ++ (c ∷ s ++ d ∷ white')) ≡ c ∷ s ++ d ∷ []
unfolding trim trim_start_by
trim_between white white' s c d h k p q =
    rw (trim_start-append white (c ∷ s ++ d ∷ white') h, p, trim_end-append (c ∷ s) white' d q k)

last_of : (c : ℕ) (s : Str) → (front : Str) × (d : ℕ) × (c ∷ s ≡ front ++ d ∷ [])
last_of c [] = ([], c, refl)
last_of c (d ∷ s) = let (front, e, h) = last_of d s in (c ∷ front, e, ap (λ l. c ∷ l) h)

last-All : (P : ℕ → Type 0) (front : Str) (d : ℕ) → All P (front ++ d ∷ []) → P d
last-All P [] d h = h.0
last-All P (c ∷ front) d h = last-All P front d h.1

letter_plain : (c : ℕ) → IsBase64url c → (is_whitespace c ≡ false) × (eqb c b'#' ≡ false)
letter_plain c h = (ground arith, ground arith)

split_once-append :
    (separator : ℕ) (head tail : Str)
    → All (λ c. eqb c separator ≡ false) head
    → eqb separator separator ≡ true
    → split_once separator (head ++ separator ∷ tail) ≡ some (head, tail)
unfolding split_once
split_once-append separator [] tail h e = rw e
split_once-append separator (c ∷ head) tail (p, h) e =
    rw (split_once-append separator head tail h e, p)

nonempty_cons : (s : Str) → 0 < length s → (c : ℕ) × (t : Str) × (s ≡ c ∷ t)
nonempty_cons [] h = absurd (omega arith)
nonempty_cons (c ∷ t) h = (c, t, refl)

not_empty : (s : Str) → 0 < length s → is_empty s ≡ false
not_empty [] h = absurd (omega arith)
not_empty (c ∷ s) h = refl

module _ (base64 : Base64) where
  open base64 use {
    encode, decode, decode-encode, encode-decode, decode-IsByte, length-encode, encode_alphabet,
  }

  parse_halves-encode :
      (token : Token)
      → IsValid token
      → parse_halves base64 (some (encode token.id.bytes, encode token.key.bytes)) ≡ ok token
  unfolding parse_halves parse_object_id parse_seal_key
  parse_halves-encode token v =
      let id_empty =
        not_empty (encode token.id.bytes)
          (omega (arith, length-encode token.id.bytes, v.id_length)) in
      let key_empty =
        not_empty (encode token.key.bytes)
          (omega (arith, length-encode token.key.bytes, v.key_length)) in
      rw (
        id_empty,
        key_empty,
        decode-encode token.id.bytes v.id_bytes,
        v.id_length,
        decode-encode token.key.bytes v.key_bytes,
        v.key_length,
      )

  -- The token's text, from its first character to its last.
  exposed :
      (token : Token) (front white : Str) (d : ℕ)
      → encode token.key.bytes ≡ front ++ d ∷ []
      → expose base64 token ++ white
        ≡ b'c' ∷ (codes "lift://v1/" ++ (encode token.id.bytes ++ b'#' ∷ front)) ++ d ∷ white
  unfolding expose
  exposed token front white d e = rw e (simp (append_assoc))

  halves_found :
      (token : Token)
      → IsValid token
      → split_once b'#' (encode token.id.bytes ++ b'#' ∷ encode token.key.bytes)
        ≡ some (encode token.id.bytes, encode token.key.bytes)
  halves_found token v =
      split_once-append b'#' (encode token.id.bytes) (encode token.key.bytes)
        (All-map (λ c h. (letter_plain c h).1) (encode token.id.bytes)
          (encode_alphabet token.id.bytes v.id_bytes))
        refl

  parse_trimmed :
      (token : Token) (text : Str)
      → IsValid token
      → trim text ≡ expose base64 token
      → parse base64 text ≡ ok token
  unfolding parse
  parse_trimmed token text v e =
      rw e (unfold expose strip_prefix in rw (halves_found token v) (parse_halves-encode token v))

  -- The text of a token, between any white space, parses to the same token.
  pub parse-expose :
      (token : Token) (white white' : Str)
      → IsValid token
      → IsWhite white
      → IsWhite white'
      → parse base64 (white ++ (expose base64 token ++ white')) ≡ ok token
  parse-expose token white white' v h k =
      let (c, tail, e) =
        nonempty_cons (encode token.key.bytes)
          (omega (arith, length-encode token.key.bytes, v.key_length)) in
      let (front, d, e') = last_of c tail in
      let whole : encode token.key.bytes ≡ front ++ d ∷ [] = e ∙ e' in
      let plain : is_whitespace d ≡ false =
        (letter_plain d (
          last-All IsBase64url front d
            (rw whole at (encode_alphabet token.key.bytes v.key_bytes)))).0 in
      let s = codes "lift://v1/" ++ (encode token.id.bytes ++ b'#' ∷ front) in
      parse_trimmed token (white ++ (expose base64 token ++ white')) v (
        ap (λ t. trim (white ++ t)) (exposed token front white' d whole)
        ∙ trim_between white white' s b'c' d h k refl plain
        ∙ sym (exposed token front [] d whole)
        ∙ append-nil (expose base64 token))
