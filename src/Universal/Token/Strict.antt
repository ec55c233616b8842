-- ===== src/Universal/Token/Strict.antt =====
-- `Token::parse` accepts nothing but the texts of tokens.
use clift.Base.{ℕ, ◌≡◌, refl, sym, ap, ◌∙◌, ◌||◌, Option, none, some, List, [], ◌∷◌, ◌++◌, arith}
use clift.Base.{length, Str, Result, ok, err, Option-cases, Bool-cases, inl, inr}
use clift.Base.Fallible.{◌>>=◌}
use clift.Base.Text.{trim, strip_prefix, split_once}
use clift.Base.Text.Pieces.{strip_prefix-eq-some}
use clift.Base64.{Base64}
use clift.Domain.SafeName.{is_empty}
use clift.Universal.Token.{
  ObjectId, SealKey, Token, token_prefix, object_id_bytes, seal_key_bytes, parse_object_id,
  parse_seal_key, parse_halves, parse_rest, parse, expose, sized,
}
use clift.Universal.Token.RoundTrip.{IsValid}

split_once-eq-some :
    (separator : ℕ) (text head tail : Str)
    → split_once separator text ≡ some (head, tail)
    → head ++ separator ∷ tail ≡ text
unfolding split_once
split_once-eq-some separator [] head tail h = cc
split_once-eq-some separator (c ∷ text) head tail h =
    elim (Option-cases (split_once separator text)) [
      | inl e ↦ ground (arith, e)
      | inr ((f, b), e) ↦ ground (arith, e, split_once-eq-some separator text f b e)
    ]

sized-eq-ok :
    (count : ℕ) (o : Option (List ℕ)) (bytes : List ℕ)
    → sized count o ≡ ok bytes
    → (o ≡ some bytes) × (length bytes ≡ count)
sized-eq-ok count none bytes h = absurd (ground arith)
sized-eq-ok count (some found) bytes h =
    let same : found ≡ bytes = ground arith in (ap some same, ground arith)

>>=-eq-ok {ℓ κ μ} :
    {A : Type ℓ} {B : Type κ} {E : Type μ} (r : Result A E) (next : A → Result B E) {b : B}
    → (r >>= next) ≡ ok b
    → (a : A) × (r ≡ ok a) × (next a ≡ ok b)
>>=-eq-ok (ok a) next h = (a, refl, h)
>>=-eq-ok (err e) next h = cc

module _ (base64 : Base64) where
  open base64 use {encode, decode, encode-decode, decode-IsByte}

  pub id_strict :
      (text : Str) (id : ObjectId)
      → parse_object_id base64 text ≡ ok id
      → (encode id.bytes ≡ text)
        × (length id.bytes ≡ object_id_bytes)
        × (decode text ≡ some id.bytes)
  unfolding parse_object_id
  id_strict text id h =
      let (bytes, e, k) = >>=-eq-ok (sized object_id_bytes (decode text)) _ h in
      let (found, many) = sized-eq-ok object_id_bytes (decode text) bytes e in
      let same : bytes ≡ id.bytes = ground arith in
      rw (← same) (encode-decode text bytes found, many, found)

  key_strict :
      (text : Str) (key : SealKey)
      → parse_seal_key base64 text ≡ ok key
      → (encode key.bytes ≡ text)
        × (length key.bytes ≡ seal_key_bytes)
        × (decode text ≡ some key.bytes)
  unfolding parse_seal_key
  key_strict text key h =
      let (bytes, e, k) = >>=-eq-ok (sized seal_key_bytes (decode text)) _ h in
      let (found, many) = sized-eq-ok seal_key_bytes (decode text) bytes e in
      let same : bytes ≡ key.bytes = ground arith in
      rw (← same) (encode-decode text bytes found, many, found)

  abbrev Strict : Token → Str → Str → Type 0
  Strict token id key =
      (encode token.id.bytes ≡ id) × (encode token.key.bytes ≡ key) × IsValid token

  both_canonical :
      (id key : Str) (i : ObjectId) (k : SealKey) (token : Token)
      → parse_object_id base64 id ≡ ok i
      → parse_seal_key base64 key ≡ ok k
      → record { id = i; key = k } ≡ token
      → Strict token id key
  both_canonical id key i k token p q same =
      let (id_text, id_length, id_found) = id_strict id i p in
      let (key_text, key_length, key_found) = key_strict key k q in
      rw (← same) (
        id_text,
        key_text,
        record {
          id_length = id_length;
          key_length = key_length;
          id_bytes = decode-IsByte id i.bytes id_found;
          key_bytes = decode-IsByte key k.bytes key_found;
        },
      )

  parts_canonical :
      (id key : Str) (token : Token)
      → (parse_object_id base64 id >>= λ i.
          parse_seal_key base64 key >>= λ k. ok (record { id = i; key = k }))
        ≡ ok token
      → Strict token id key
  parts_canonical id key token h =
      let (i, p, h') = >>=-eq-ok (parse_object_id base64 id) _ h in
      let (k, q, h'') = >>=-eq-ok (parse_seal_key base64 key) _ h' in
      both_canonical id key i k token p q (ground arith)

  halves_canonical :
      (id key : Str) (token : Token)
      → parse_halves base64 (some (id, key)) ≡ ok token
      → Strict token id key
  unfolding parse_halves
  halves_canonical id key token h = elim (Bool-cases (is_empty id || is_empty key)) [
    | inl e ↦ cc (rw e at h)
    | inr e ↦ parts_canonical id key token (rw e at h)
  ]

  halves_found :
      (o : Option (Str × Str)) (token : Token)
      → parse_halves base64 o ≡ ok token
      → (id : Str) × (key : Str) × (o ≡ some (id, key)) × Strict token id key
  halves_found none token h = unfold parse_halves in cc h
  halves_found (some (id, key)) token h = (id, key, refl, halves_canonical id key token h)

  rest_found :
      (o : Option Str) (token : Token)
      → parse_rest base64 o ≡ ok token
      → (rest : Str) × (o ≡ some rest) × (parse_halves base64 (split_once b'#' rest) ≡ ok token)
  rest_found none token h = cc
  rest_found (some rest) token h = (rest, refl, h)

  -- A text that parses is, but for white space around it, the text of the token that comes out, whose
  -- id and key are 16 and 32 bytes.
  pub expose-parse :
      (text : Str) (token : Token)
      → parse base64 text ≡ ok token
      → (trim text ≡ expose base64 token) × IsValid token
  unfolding parse expose
  expose-parse text token h =
      let (rest, e, k) = rest_found (strip_prefix token_prefix (trim text)) token h in
      let (id, key, e', (id_text, key_text, valid)) = halves_found (split_once b'#' rest) token k in
      (
        sym (strip_prefix-eq-some token_prefix (trim text) rest e)
            ∙ ap (λ t. token_prefix ++ t) (sym (split_once-eq-some b'#' rest id key e'))
            ∙ rw (id_text, key_text),
        valid,
      )
