-- ===== src/Base64/Engine.antt =====
-- A concrete engine, which shows that the laws of `Base64` can be met.
use clift.Base.{
  ℕ, ◌+◌, ◌-◌, ◌*◌, ◌/◌, ◌%◌, ◌<◌, ◌≡◌, refl, ◌&&◌, Option, none, some, List, [], ◌∷◌, arith, ltb,
  length, ap, ◌∙◌, leb, eqb, if◌then◌else◌, Str, All,
}
use clift.Base64.{Base64, IsByte, IsBase64url}

letter : ℕ → ℕ
letter v =
    if ltb v 26
    then b'A' + v
    else if ltb v 52
    then b'a' + (v - 26)
    else if ltb v 62
    then b'0' + (v - 52)
    else if eqb v 62
    then b'-'
    else b'_'

-- The value of a letter, and 64 for what is none.
value : ℕ → ℕ
value c =
    if leb b'A' c && leb c b'Z'
    then c - b'A'
    else if leb b'a' c && leb c b'z'
    then c - b'a' + 26
    else if leb b'0' c && leb c b'9'
    then c - b'0' + 52
    else if eqb c b'-'
    then 62
    else if eqb c b'_'
    then 63
    else 64

unfoldable pub encode : List ℕ → Str
unfolding letter
encode [] = []
encode (a ∷ []) = letter (a / 4) ∷ letter (a % 4 * 16) ∷ []
encode (a ∷ b ∷ []) = letter (a / 4) ∷ letter (a % 4 * 16 + b / 16) ∷ letter (b % 16 * 4) ∷ []
encode (a ∷ b ∷ c ∷ rest) =
    letter (a / 4)
    ∷ letter (a % 4 * 16 + b / 16)
    ∷ letter (b % 16 * 4 + c / 64)
    ∷ letter (c % 64)
    ∷ encode rest

abbrev onto : ℕ → ℕ → ℕ → Option (List ℕ) → Option (List ℕ)
onto a b c none = none
onto a b c (some rest) = some (a ∷ b ∷ c ∷ rest)

abbrev triple : ℕ → ℕ → ℕ → ℕ → Option (List ℕ) → Option (List ℕ)
triple p q r s rest =
    if ltb p 64 && ltb q 64 && ltb r 64 && ltb s 64
    then onto (p * 4 + q / 16) (q % 16 * 16 + r / 4) (r % 4 * 64 + s) rest
    else none

-- The bits that a last group does not use must be zero.
abbrev last_two : ℕ → ℕ → Option (List ℕ)
last_two p q = if ltb p 64 && ltb q 64 && eqb (q % 16) 0 then some ((p * 4 + q / 16) ∷ []) else none

abbrev last_three : ℕ → ℕ → ℕ → Option (List ℕ)
last_three p q r =
    if ltb p 64 && ltb q 64 && ltb r 64 && eqb (r % 4) 0
    then some ((p * 4 + q / 16) ∷ (q % 16 * 16 + r / 4) ∷ [])
    else none

unfoldable pub decode : Str → Option (List ℕ)
unfolding value
decode [] = some []
decode (p ∷ []) = none
decode (p ∷ q ∷ []) = last_two (value p) (value q)
decode (p ∷ q ∷ r ∷ []) = last_three (value p) (value q) (value r)
decode (p ∷ q ∷ r ∷ s ∷ rest) = triple (value p) (value q) (value r) (value s) (decode rest)

value-letter : (v : ℕ) → v < 64 → value (letter v) ≡ v
unfolding value letter
value-letter v h = ground arith

letter-IsBase64url : (v : ℕ) → v < 64 → IsBase64url (letter v)
unfolding letter
letter-IsBase64url v h = ground arith

pub decode-encode : (bytes : List ℕ) → All IsByte bytes → decode (encode bytes) ≡ some bytes
unfolding decode encode
decode-encode [] h = refl
decode-encode (a ∷ []) h =
    rw (value-letter (a / 4) (omega arith), value-letter (a % 4 * 16) (omega arith)) (ground arith)
decode-encode (a ∷ b ∷ []) h =
    rw
      (
        value-letter (a / 4) (omega arith),
        value-letter (a % 4 * 16 + b / 16) (omega arith),
        value-letter (b % 16 * 4) (omega arith),
      )
      (ground arith)
decode-encode (a ∷ b ∷ c ∷ rest) h =
    rw
      (
        value-letter (a / 4) (omega arith),
        value-letter (a % 4 * 16 + b / 16) (omega arith),
        value-letter (b % 16 * 4 + c / 64) (omega arith),
        value-letter (c % 64) (omega arith),
        decode-encode rest h.1.1.1,
      )
      (ground arith)

pub encode_alphabet : (bytes : List ℕ) → All IsByte bytes → All IsBase64url (encode bytes)
unfolding encode
encode_alphabet [] h = tt
encode_alphabet (a ∷ []) h =
    (letter-IsBase64url (a / 4) (omega arith), (letter-IsBase64url (a % 4 * 16) (omega arith), tt))
encode_alphabet (a ∷ b ∷ []) h = (
  letter-IsBase64url (a / 4) (omega arith),
  (
    letter-IsBase64url (a % 4 * 16 + b / 16) (omega arith),
    (letter-IsBase64url (b % 16 * 4) (omega arith), tt),
  ),
)
encode_alphabet (a ∷ b ∷ c ∷ rest) h = (
  letter-IsBase64url (a / 4) (omega arith),
  (
    letter-IsBase64url (a % 4 * 16 + b / 16) (omega arith),
    (
      letter-IsBase64url (b % 16 * 4 + c / 64) (omega arith),
      (letter-IsBase64url (c % 64) (omega arith), encode_alphabet rest h.1.1.1),
    ),
  ),
)

letter-value : (c : ℕ) → value c < 64 → letter (value c) ≡ c
unfolding value letter
letter-value c h = ground arith

module _ (p q r s : ℕ) (hp : p < 64) (hq : q < 64) (hr : r < 64) (hs : s < 64) where
  regroup_1 : (p * 4 + q / 16) / 4 ≡ p
  regroup_1 = omega arith

  regroup_2 : (p * 4 + q / 16) % 4 * 16 + (q % 16 * 16 + r / 4) / 16 ≡ q
  regroup_2 = omega arith

  regroup_3 : (q % 16 * 16 + r / 4) % 16 * 4 + (r % 4 * 64 + s) / 64 ≡ r
  regroup_3 = omega arith

  regroup_4 : (r % 4 * 64 + s) % 64 ≡ s
  regroup_4 = omega arith

encode_four :
    (p q r s : ℕ) (rest : List ℕ)
    → value p < 64
    → value q < 64
    → value r < 64
    → value s < 64
    → encode (
        (value p * 4 + value q / 16)
        ∷ (value q % 16 * 16 + value r / 4)
        ∷ (value r % 4 * 64 + value s)
        ∷ rest)
      ≡ p ∷ q ∷ r ∷ s ∷ encode rest
unfolding encode
encode_four p q r s rest hp hq hr hs = rw (
  regroup_1 (value p) (value q) (value r) (value s) hp hq hr hs,
  regroup_2 (value p) (value q) (value r) (value s) hp hq hr hs,
  regroup_3 (value p) (value q) (value r) (value s) hp hq hr hs,
  regroup_4 (value p) (value q) (value r) (value s) hp hq hr hs,
  letter-value p hp,
  letter-value q hq,
  letter-value r hr,
  letter-value s hs,
)

-- A group of four letters.
triple-eq-some :
    (p q r s : ℕ) (rest : Option (List ℕ)) (bytes : List ℕ)
    → triple p q r s rest ≡ some bytes
    → (later : List ℕ) × (rest ≡ some later)
      × (p < 64)
      × (q < 64)
      × (r < 64)
      × (s < 64)
      × (bytes ≡ (p * 4 + q / 16) ∷ (q % 16 * 16 + r / 4) ∷ (r % 4 * 64 + s) ∷ later)
triple-eq-some p q r s none bytes h = absurd (ground arith)
triple-eq-some p q r s (some later) bytes h =
    (later, refl, ground arith, ground arith, ground arith, ground arith, ground arith)

last_two-eq-some :
    (p q : ℕ) (bytes : List ℕ)
    → last_two p q ≡ some bytes
    → (p < 64) × (q < 64) × (q % 16 ≡ 0) × (bytes ≡ (p * 4 + q / 16) ∷ [])
last_two-eq-some p q bytes h = (ground arith, ground arith, ground arith, ground arith)

last_three-eq-some :
    (p q r : ℕ) (bytes : List ℕ)
    → last_three p q r ≡ some bytes
    → (p < 64)
      × (q < 64)
      × (r < 64)
      × (r % 4 ≡ 0)
      × (bytes ≡ (p * 4 + q / 16) ∷ (q % 16 * 16 + r / 4) ∷ [])
last_three-eq-some p q r bytes h =
    (ground arith, ground arith, ground arith, ground arith, ground arith)

two_letters :
    (p q : ℕ) (bytes : List ℕ)
    → last_two (value p) (value q) ≡ some bytes
    → (encode bytes ≡ p ∷ q ∷ []) × All IsByte bytes
two_letters p q bytes h =
    let (hp, hq, unused, whole) = last_two-eq-some (value p) (value q) bytes h in
    let first : (value p * 4 + value q / 16) / 4 ≡ value p = omega arith in
    let second : (value p * 4 + value q / 16) % 4 * 16 ≡ value q = omega arith in
    rw whole
      (unfold encode in rw (first, second, letter-value p hp, letter-value q hq), (omega arith, tt))

three_letters :
    (p q r : ℕ) (bytes : List ℕ)
    → last_three (value p) (value q) (value r) ≡ some bytes
    → (encode bytes ≡ p ∷ q ∷ r ∷ []) × All IsByte bytes
three_letters p q r bytes h =
    let (hp, hq, hr, unused, whole) = last_three-eq-some (value p) (value q) (value r) bytes h in
    let first : (value p * 4 + value q / 16) / 4 ≡ value p = omega arith in
    let second : (value p * 4 + value q / 16) % 4 * 16 + (value q % 16 * 16 + value r / 4) / 16
        ≡ value q =
      omega arith in
    let third : (value q % 16 * 16 + value r / 4) % 16 * 4 ≡ value r = omega arith in
    rw whole (
      unfold encode in
          rw (first, second, third, letter-value p hp, letter-value q hq, letter-value r hr),
      (omega arith, (omega arith, tt)),
    )

none_decoded :
    (bytes : List ℕ)
    → ◌≡◌ {A = Option (List ℕ)} (some []) (some bytes)
    → (encode bytes ≡ []) × All IsByte bytes
unfolding encode
none_decoded [] h = (refl, tt)
none_decoded (b ∷ bytes) h = absurd (ground arith)

pub decoded :
    (text : Str) (bytes : List ℕ)
    → decode text ≡ some bytes
    → (encode bytes ≡ text) × All IsByte bytes
decoded [] bytes h = none_decoded bytes (unfold decode in h)
decoded (p ∷ []) bytes h = unfold decode in absurd (ground arith)
decoded (p ∷ q ∷ []) bytes h = two_letters p q bytes (unfold decode in h)
decoded (p ∷ q ∷ r ∷ []) bytes h = three_letters p q r bytes (unfold decode in h)
decoded (p ∷ q ∷ r ∷ s ∷ text) bytes h =
    let (later, e, hp, hq, hr, hs, whole) =
      triple-eq-some (value p) (value q) (value r) (value s) (decode text) bytes
        (unfold decode in h) in
    let (back, all) = decoded text later e in
    rw whole (
      encode_four p q r s later hp hq hr hs ∙ ap (λ l. p ∷ q ∷ r ∷ s ∷ l) back,
      (omega arith, (omega arith, (omega arith, all))),
    )

pub length-encode : (bytes : List ℕ) → length (encode bytes) ≡ (length bytes * 4 + 2) / 3
unfolding encode
length-encode [] = omega arith
length-encode (a ∷ []) = omega arith
length-encode (a ∷ b ∷ []) = omega arith
length-encode (a ∷ b ∷ c ∷ rest) = omega (arith, length-encode rest)

abbrev pub engine : Base64
engine = record {
  encode = encode;
  decode = decode;
  decode-encode = decode-encode;
  encode-decode = λ text bytes h. (decoded text bytes h).0;
  decode-IsByte = λ text bytes h. (decoded text bytes h).1;
  length-encode = length-encode;
  encode_alphabet = encode_alphabet;
}
