-- ===== src/Base/Bytes.antt =====
-- Bytes, and integers as big-endian bytes: `to_be_bytes` and `from_be_bytes` of Rust's integers.
use Prim.Native.Nat.{ℕ, zero, suc, ◌+◌, ◌*◌, ◌/◌, ◌%◌, ◌^◌, ◌<◌}
use mathlib.Core.Path.{◌≡◌, refl, ap, ◌∙◌}
use mathlib.Core.List.{List, [], ◌∷◌, reverse, reverse-cons, reverse-reverse}
use native.Mathlib.Nat.{pow-suc}
use native.Mathlib.Omega.{arith}
use clift.Base.Lists.{length, length-append, All, All-append}

abbrev pub IsByte : ℕ → Type 0
IsByte b = b < 256

-- The last byte first.
le_bytes : ℕ → ℕ → List ℕ
le_bytes zero n = []
le_bytes (suc w) n = n % 256 ∷ le_bytes w (n / 256)

from_le : List ℕ → ℕ
from_le [] = 0
from_le (b ∷ bytes) = b + 256 * from_le bytes

-- The `width` bytes of `n.to_be_bytes()`.
unfoldable pub be_bytes : ℕ → ℕ → List ℕ
unfolding le_bytes
be_bytes width n = reverse (le_bytes width n)

unfoldable pub from_be : List ℕ → ℕ
unfolding from_le
from_be bytes = from_le (reverse bytes)

module _ {ℓ} {A : Type ℓ} where
  pub length-reverse : (xs : List A) → length (reverse xs) ≡ length xs
  length-reverse [] = refl
  length-reverse (x ∷ xs) =
      ap length (reverse-cons x xs)
      ∙ length-append (reverse xs) (x ∷ [])
      ∙ omega (arith, length-reverse xs)

All-reverse {ℓ κ} : {A : Type ℓ} (P : A → Type κ) (xs : List A) → All P xs → All P (reverse xs)
All-reverse P [] h = h
All-reverse P (x ∷ xs) (p, h) =
    rw (reverse-cons x xs) (All-append P (reverse xs) (x ∷ []) (All-reverse P xs h) (p, tt))

length-le_bytes : (width n : ℕ) → length (le_bytes width n) ≡ width
unfolding le_bytes
length-le_bytes zero n = refl
length-le_bytes (suc width) n = omega (arith, length-le_bytes width (n / 256))

le_bytes-IsByte : (width n : ℕ) → All IsByte (le_bytes width n)
unfolding le_bytes
le_bytes-IsByte zero n = tt
le_bytes-IsByte (suc width) n = (omega arith, le_bytes-IsByte width (n / 256))

from_le-le_bytes : (width n : ℕ) → n < 256 ^ width → from_le (le_bytes width n) ≡ n
unfolding from_le le_bytes
from_le-le_bytes zero n h = omega arith
from_le-le_bytes (suc width) n h =
    omega (arith, pow-suc 256 width, from_le-le_bytes width (n / 256))

le_bytes-from_le :
    (bytes : List ℕ) → All IsByte bytes → le_bytes (length bytes) (from_le bytes) ≡ bytes
unfolding from_le le_bytes
le_bytes-from_le [] h = refl
le_bytes-from_le (b ∷ bytes) (p, h) =
    let low : (b + 256 * from_le bytes) % 256 ≡ b = omega arith in
    let high : (b + 256 * from_le bytes) / 256 ≡ from_le bytes = omega arith in
    rw (low, high, le_bytes-from_le bytes h)

from_le-lt : (bytes : List ℕ) → All IsByte bytes → from_le bytes < 256 ^ length bytes
unfolding from_le
from_le-lt [] h = omega arith
from_le-lt (b ∷ bytes) (p, h) = omega (arith, pow-suc 256 (length bytes), from_le-lt bytes h)

pub length-be_bytes : (width n : ℕ) → length (be_bytes width n) ≡ width
unfolding be_bytes
length-be_bytes width n = length-reverse (le_bytes width n) ∙ length-le_bytes width n

pub be_bytes-IsByte : (width n : ℕ) → All IsByte (be_bytes width n)
unfolding be_bytes
be_bytes-IsByte width n = All-reverse IsByte (le_bytes width n) (le_bytes-IsByte width n)

pub from_be-be_bytes : (width n : ℕ) → n < 256 ^ width → from_be (be_bytes width n) ≡ n
unfolding from_be be_bytes
from_be-be_bytes width n h =
    ap from_le (reverse-reverse (le_bytes width n)) ∙ from_le-le_bytes width n h

-- Bytes are those of the number that they spell.
pub be_bytes-from_be :
    (width : ℕ) (bytes : List ℕ)
    → length bytes ≡ width
    → All IsByte bytes
    → be_bytes width (from_be bytes) ≡ bytes
unfolding from_be be_bytes
be_bytes-from_be width bytes e h =
    rw (← e, ← length-reverse bytes, le_bytes-from_le (reverse bytes) (All-reverse IsByte bytes h))
      (reverse-reverse bytes)

pub from_be-lt : (bytes : List ℕ) → All IsByte bytes → from_be bytes < 256 ^ length bytes
unfolding from_be
from_be-lt bytes h =
    rw (← length-reverse bytes) (from_le-lt (reverse bytes) (All-reverse IsByte bytes h))
