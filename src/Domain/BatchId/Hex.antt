-- ===== src/Domain/BatchId/Hex.antt =====
-- Which texts are identifiers of batches.
use clift.Base.{
  ℕ, zero, suc, ◌+◌, ◌-◌, ◌*◌, ◌/◌, ◌%◌, ◌<◌, ◌≡◌, ◌↔◌, refl, sym, ap, ◌∙◌, subst, arith, Bool,
  true, false, ◌&&◌, List, [], ◌∷◌,
}
use clift.Base.{leb, if◌then◌else◌, length, all, Str, ok, All}
use clift.Base.Bytes.{IsByte}
use clift.Base.Utf8.{len}
use clift.Domain.BatchId.{
  batch_id_bytes, hex_digit, hex_text, is_zero, is_hex, is_zero_digit, from_random_bytes, from_hex,
}

abbrev value_of : ℕ → ℕ
value_of c = if leb b'a' c then c - b'W' else c - b'0'

abbrev unhex : Str → List ℕ
unhex [] = []
unhex (c ∷ []) = []
unhex (c ∷ d ∷ s) = (value_of c * 16 + value_of d) ∷ unhex s

all_two :
    (p : ℕ → Bool) (c d : ℕ) (s : Str)
    → all p (c ∷ d ∷ s) ≡ true
    → (p c ≡ true) × (p d ≡ true) × (all p s ≡ true)
all_two p c d s h = ground arith

hex_digit-is_hex : (d : ℕ) → d < 16 → is_hex (hex_digit d) ≡ true
hex_digit-is_hex d h = ground arith

hex_digit-value_of : (c : ℕ) → is_hex c ≡ true → (hex_digit (value_of c) ≡ c) × (value_of c < 16)
hex_digit-value_of c h = ground arith

is_zero_digit-hex_digit : (d : ℕ) → d < 16 → is_zero_digit (hex_digit d) ≡ is_zero d
is_zero_digit-hex_digit d h = ground arith

is_zero_halves : (b : ℕ) → b < 256 → (is_zero (b / 16) && is_zero (b % 16)) ≡ is_zero b
is_zero_halves b h = ground arith

len-is_hex : (s : Str) → all is_hex s ≡ true → len s ≡ length s
unfolding len
len-is_hex [] h = refl
len-is_hex (c ∷ s) h = ground (arith, len-is_hex s)

hex_text-is_hex : (bytes : List ℕ) → All IsByte bytes → all is_hex (hex_text bytes) ≡ true
hex_text-is_hex [] h = refl
hex_text-is_hex (b ∷ bytes) (p, h) = rw (
  hex_digit-is_hex (b / 16) (omega arith),
  hex_digit-is_hex (b % 16) (omega arith),
  hex_text-is_hex bytes h,
)

length-hex_text : (bytes : List ℕ) → length (hex_text bytes) ≡ length bytes * 2
length-hex_text [] = refl
length-hex_text (b ∷ bytes) = omega (arith, length-hex_text bytes)

and_assoc : (a b c : Bool) → (a && (b && c)) ≡ ((a && b) && c)
and_assoc a b c = ground arith

is_zero_digit-hex_text :
    (bytes : List ℕ) → All IsByte bytes → all is_zero_digit (hex_text bytes) ≡ all is_zero bytes
is_zero_digit-hex_text [] h = refl
is_zero_digit-hex_text (b ∷ bytes) (p, h) = rw (
  is_zero_digit-hex_digit (b / 16) (omega arith),
  is_zero_digit-hex_digit (b % 16) (omega arith),
  is_zero_digit-hex_text bytes h,
  and_assoc (is_zero (b / 16)) (is_zero (b % 16)) (all is_zero bytes),
  is_zero_halves b p,
)

-- The bytes that a text of an even number of digits spells.
record Spelled (n : ℕ) (s : Str) : Type 0 where
  size : length (unhex s) ≡ n
  bytes : All IsByte (unhex s)
  same : hex_text (unhex s) ≡ s

unhex-Spelled : (n : ℕ) (s : Str) → length s ≡ n * 2 → all is_hex s ≡ true → Spelled n s
unhex-Spelled zero [] e h = record { size = refl; bytes = tt; same = refl }
unhex-Spelled zero (c ∷ s) e h = absurd (omega arith)
unhex-Spelled (suc n) [] e h = absurd (omega arith)
unhex-Spelled (suc n) (c ∷ []) e h = absurd (omega arith)
unhex-Spelled (suc n) (c ∷ d ∷ s) e h =
    let (high, low, later) = all_two is_hex c d s h in
    let rest = unhex-Spelled n s (omega arith) later in
    let (high_same, high_small) = hex_digit-value_of c high in
    let (low_same, low_small) = hex_digit-value_of d low in
    let upper : (value_of c * 16 + value_of d) / 16 ≡ value_of c = omega (arith, low_small) in
    let lower : (value_of c * 16 + value_of d) % 16 ≡ value_of d = omega (arith, low_small) in
    record {
      size = ap suc rest.size;
      bytes = (omega (arith, high_small, low_small), rest.bytes);
      same = rw (upper, lower, high_same, low_same, rest.same) refl;
    }

-- What `from_hex` found out about a text that it accepted.
record Accepted (s : Str) : Type 0 where
  size : len s ≡ batch_id_bytes * 2
  digits : all is_hex s ≡ true
  proper : all is_zero_digit s ≡ false

from_hex-Accepted : (s id : Str) → from_hex s ≡ ok id → Accepted s × (id ≡ s)
unfolding from_hex
from_hex-Accepted s id h = ground arith

Accepted-from_hex : (s : Str) → Accepted s → from_hex s ≡ ok s
unfolding from_hex
Accepted-from_hex s a = rw (a.size, a.digits, a.proper) refl

from_random_bytes-eq-ok :
    (bytes : List ℕ) (id : Str)
    → from_random_bytes bytes ≡ ok id
    → (all is_zero bytes ≡ false) × (hex_text bytes ≡ id)
unfolding from_random_bytes
from_random_bytes-eq-ok bytes id h = ground arith

-- The bytes that an identifier is made of.
pub record Origin (id : Str) : Type 0 where
  pub bytes : List ℕ
  pub size : length bytes ≡ batch_id_bytes
  pub each : All IsByte bytes
  pub draw : from_random_bytes bytes ≡ ok id

Origin-from_hex : (id : Str) → Origin id → from_hex id ≡ ok id
Origin-from_hex id o =
    let (proper, e) = from_random_bytes-eq-ok o.bytes id o.draw in
    let hex : all is_hex id ≡ true =
      subst (λ t. all is_hex t ≡ true) e (hex_text-is_hex o.bytes o.each) in
    let count : length id ≡ batch_id_bytes * 2 =
      ap length (sym e) ∙ length-hex_text o.bytes ∙ ap (λ n. n * 2) o.size in
    Accepted-from_hex id (record {
      size = len-is_hex id hex ∙ count;
      digits = hex;
      proper =
          subst (λ t. all is_zero_digit t ≡ false) e
            (is_zero_digit-hex_text o.bytes o.each ∙ proper);
    })

from_hex-Origin : (id : Str) → from_hex id ≡ ok id → Origin id
unfolding from_random_bytes
from_hex-Origin id h =
    let (a, _) = from_hex-Accepted id id h in
    let spelled =
      unhex-Spelled batch_id_bytes id (sym (len-is_hex id a.digits) ∙ a.size) a.digits in
    let proper : all is_zero (unhex id) ≡ false =
      sym (is_zero_digit-hex_text (unhex id) spelled.bytes)
      ∙ ap (all is_zero_digit) spelled.same
      ∙ a.proper in
    record {
      bytes = unhex id;
      size = spelled.size;
      each = spelled.bytes;
      draw = rw proper (ap ok spelled.same);
    }

-- A text reads back as an identifier exactly if it is what some sixteen random bytes are turned into.
pub from_hex-from_random_bytes : (id : Str) → (from_hex id ≡ ok id) ↔ Origin id
from_hex-from_random_bytes id = (from_hex-Origin id, Origin-from_hex id)
