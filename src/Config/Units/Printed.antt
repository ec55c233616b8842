-- ===== src/Config/Units/Printed.antt =====
-- A number that is printed with a unit is parsed to their product.
use clift.Base.{
  ℕ, ◌*◌, ◌≤◌, codes, err, ltb, lt→ltb, ◌^◌, ◌<◌, ◌≡◌, refl, ◌∙◌, arith, Bool, true, false, some,
  [], ◌∷◌, ◌++◌,
}
use clift.Base.{str_eq, length, Str, Result, ok, All}
use clift.Base.Decimal.{to_string, to_string-IsDigit, to_string-nonempty, parse_u64-to_string}
use clift.Base.Text.{is_digit, is_whitespace, parse_u64, trim}
use clift.Config.Units.{
  UnitError, split_digits, lower_all, size_unit, checked_mul, parse_scaled, parse_size,
}
use clift.Domain.SafeName.Repair.{ends_in, trim_id}

abbrev Digit : ℕ → Type 0
Digit c = is_digit c ≡ true

split_digits-append :
    (digits : Str) (c : ℕ) (rest : Str)
    → All Digit digits
    → is_digit c ≡ false
    → split_digits (digits ++ c ∷ rest) ≡ (digits, c ∷ rest)
unfolding split_digits
split_digits-append [] c rest h other = rw other refl
split_digits-append (d ∷ digits) c rest (p, h) other =
    rw (p, split_digits-append digits c rest h other) refl

ends_in-append :
    (p : ℕ → Bool) (s : Str) (c : ℕ) (t : Str) → ends_in p (s ++ c ∷ t) ≡ ends_in p (c ∷ t)
ends_in-append p [] c t = refl
ends_in-append p (d ∷ []) c t = refl
ends_in-append p (d ∷ e ∷ s) c t = ends_in-append p (e ∷ s) c t

-- A unit: a text that begins with something else than a digit or white space, and does not end in white space.
abbrev pub IsUnit : Str → Type 0
IsUnit [] = ⊥
IsUnit (c ∷ text) =
    (is_digit c ≡ false) × (is_whitespace c ≡ false) × (ends_in is_whitespace (c ∷ text) ≡ false)

Digit-not_space : (c : ℕ) → Digit c → is_whitespace c ≡ false
Digit-not_space c h = ground arith

module _ (unit : Str → Result ℕ UnitError) (n k : ℕ) where
  parse_scaled-digits :
      (digits suffix : Str)
      → 0 < length digits
      → All Digit digits
      → IsUnit suffix
      → parse_u64 digits ≡ some n
      → unit (lower_all suffix) ≡ ok k
      → parse_scaled unit (digits ++ suffix) ≡ checked_mul n k
  unfolding parse_scaled
  parse_scaled-digits [] suffix pos h u number scale = absurd (omega arith)
  parse_scaled-digits (c ∷ digits) [] pos h u number scale = absurd u
  parse_scaled-digits (c ∷ digits) (first ∷ others) pos (p, h) (no_digit, no_space, closed) number
        scale =
      let whole : trim ((c ∷ digits) ++ first ∷ others) ≡ (c ∷ digits) ++ first ∷ others =
        trim_id ((c ∷ digits) ++ first ∷ others) (Digit-not_space c p)
          (ends_in-append is_whitespace (c ∷ digits) first others ∙ closed) in
      let suffix : trim (first ∷ others) ≡ first ∷ others =
        trim_id (first ∷ others) no_space closed in
      rw
        (
          whole,
          split_digits-append (c ∷ digits) first others (p, h) no_digit,
          number,
          suffix,
          scale,
        )
        refl

  -- A printed number with a unit, in large or small letters, is parsed to their product, or found to be too large.
  pub parse_scaled-to_string :
      (suffix : Str)
      → n < 2 ^ 64
      → IsUnit suffix
      → unit (lower_all suffix) ≡ ok k
      → parse_scaled unit (to_string n ++ suffix) ≡ checked_mul n k
  parse_scaled-to_string suffix small u scale =
      parse_scaled-digits (to_string n) suffix (to_string-nonempty n) (to_string-IsDigit n) u
        (parse_u64-to_string n small) scale

-- The units of sizes and the powers of 1024 that they stand for.
pub data IsPower : Str → ℕ → Type 0 where
  byte : IsPower (codes "b") 0
  kib : IsPower (codes "kib") 1
  kilo : IsPower (codes "k") 1
  mib : IsPower (codes "mib") 2
  mega : IsPower (codes "m") 2
  gib : IsPower (codes "gib") 3
  giga : IsPower (codes "g") 3

size_unit-IsPower : {s : Str} {e : ℕ} → IsPower s e → size_unit s ≡ ok (1024 ^ e)
size_unit-IsPower byte = refl
size_unit-IsPower kib = refl
size_unit-IsPower kilo = refl
size_unit-IsPower mib = refl
size_unit-IsPower mega = refl
size_unit-IsPower gib = refl
size_unit-IsPower giga = refl

-- A printed size with one of the units b, k, kib, m, mib, g and gib, its letters large or small, is parsed to the number times
-- 1024 to the power 0, 1, 1, 2, 2, 3 or 3 if that fits 64 bits, and is refused as too large if it does not.
pub parse_size-to_string :
    (n e : ℕ) (suffix : Str)
    → n < 2 ^ 64
    → IsUnit suffix
    → IsPower (lower_all suffix) e
    → (n * 1024 ^ e < 2 ^ 64 → parse_size (to_string n ++ suffix) ≡ ok (n * 1024 ^ e))
      × (2 ^ 64 ≤ n * 1024 ^ e → parse_size (to_string n ++ suffix) ≡ err UnitError.too_large)
unfolding parse_size
parse_size-to_string n e suffix small u power =
    let parsed =
      parse_scaled-to_string size_unit n (1024 ^ e) suffix small u (size_unit-IsPower power) in
    (
      (λ fits. parsed ∙ rw (lt→ltb (n * 1024 ^ e) (2 ^ 64) fits) refl),
      λ large.
          let p : ltb (n * 1024 ^ e) (2 ^ 64) ≡ false = ground (arith, large) in parsed ∙ rw p refl,
    )
