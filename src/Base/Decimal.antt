-- ===== src/Base/Decimal.antt =====
-- `to_string` of an unsigned integer, and `parse::<u64>` of what it writes.
use Prim.Native.Nat.{ℕ, zero, suc, ◌+◌, ◌-◌, ◌*◌, ◌/◌, ◌%◌, ◌^◌, ◌≤◌, ◌<◌}
use mathlib.Core.Path.{◌≡◌, ap, ◌∙◌}
use mathlib.Core.Logic.{inl, inr}
use mathlib.Core.Bool.{true, false, ◌&&◌}
use mathlib.Core.Option.{some}
use mathlib.Core.List.{[], ◌∷◌, ◌++◌}
use native.Mathlib.Nat.{pow-suc}
use native.Mathlib.Omega.{arith}
use clift.Base.Tests.{ltb, lt→ltb, eqb, ltb→lt, if◌then◌else◌, Str, Bool-cases}
use clift.Base.Lists.{length, length-append, All, All-append}
use clift.Base.Text.{is_digit, scan_u64, parse_u64}

-- The digits of a number with at most so many of them.
unfoldable pub digits : ℕ → ℕ → Str
digits zero n = []
digits (suc room) n =
    let front = digits room (n / 10) in
    if ltb n 10 then (b'0' + n) ∷ [] else front ++ (b'0' + n % 10) ∷ []

-- `n.to_string()` for a number below 2 ^ 64, which has at most twenty digits.
unfoldable pub to_string : ℕ → Str
unfolding digits
to_string n = digits 20 n

digit-step :
    (n d : ℕ) → d < 10 → n * 10 + d < 2 ^ 64 → scan_u64 n ((b'0' + d) ∷ []) ≡ some (n * 10 + d)
unfolding scan_u64
digit-step n d h k =
    let back : b'0' + d - b'0' ≡ d = omega arith in
    let digit : is_digit (b'0' + d) ≡ true = ground arith in
    let small : ltb (n * 10 + d) (2 ^ 64) ≡ true = ground arith in rw (back, digit, small)

scan_u64-append : (s t : Str) (n m : ℕ) → scan_u64 n s ≡ some m → scan_u64 n (s ++ t) ≡ scan_u64 m t
unfolding scan_u64
scan_u64-append [] t n m h = ap (λ k. scan_u64 k t) (ground arith)
scan_u64-append (c ∷ s) t n m h =
    elim (Bool-cases (is_digit c && ltb (n * 10 + (c - b'0')) (2 ^ 64))) [
      | inl p ↦ rw p (scan_u64-append s t (n * 10 + (c - b'0')) m (rw p at h))
      | inr p ↦ absurd (ground arith)
    ]

scan_u64-digits :
    (room n : ℕ) → 0 < room → n < 10 ^ room → n < 2 ^ 64 → scan_u64 0 (digits room n) ≡ some n
unfolding digits
scan_u64-digits zero n pos h k = absurd (omega arith)
scan_u64-digits (suc zero) n pos h k =
    rw (lt→ltb n 10 (omega arith))
      (digit-step 0 n (omega arith) (omega arith) ∙ ap some (omega arith))
scan_u64-digits (suc (suc room)) n pos h k = elim (Bool-cases (ltb n 10)) [
  | inl p ↦ rw p (digit-step 0 n (ltb→lt n 10 p) (omega arith) ∙ ap some (omega arith))
  | inr p ↦
      let high : 10 ≤ n = ground arith in
      let bound = pow-suc 10 (suc room) in
      rw p (
        scan_u64-append (digits (suc room) (n / 10)) ((b'0' + n % 10) ∷ []) 0 (n / 10)
          (scan_u64-digits (suc room) (n / 10) (omega arith) (omega (arith, bound)) (omega arith))
        ∙ digit-step (n / 10) (n % 10) (omega arith) (omega arith)
        ∙ ap some (omega arith))
]

digits-IsDigit : (room n : ℕ) → All (λ c. is_digit c ≡ true) (digits room n)
unfolding digits
digits-IsDigit zero n = tt
digits-IsDigit (suc room) n = elim (Bool-cases (ltb n 10)) [
  | inl p ↦ rw p (ground arith, tt)
  | inr p ↦ rw p (
      All-append (λ c. is_digit c ≡ true) (digits room (n / 10)) _ (digits-IsDigit room (n / 10))
        (ground arith, tt))
]

digits_some : (room n : ℕ) → 0 < length (digits (suc room) n)
unfolding digits
digits_some room n = elim (Bool-cases (ltb n 10)) [
  | inl p ↦ rw p (omega arith)
  | inr p ↦ rw p (omega (arith, length-append (digits room (n / 10)) ((b'0' + n % 10) ∷ [])))
]

parse_u64-scan_u64 :
    (s : Str) → 0 < length s → All (λ c. is_digit c ≡ true) s → parse_u64 s ≡ scan_u64 0 s
unfolding parse_u64
parse_u64-scan_u64 [] pos h = absurd (omega arith)
parse_u64-scan_u64 (c ∷ []) pos (p, h) = let plain : eqb c b'+' ≡ false = ground arith in rw plain
parse_u64-scan_u64 (c ∷ d ∷ s) pos (p, h) =
    let plain : eqb c b'+' ≡ false = ground arith in rw plain

pub to_string-IsDigit : (n : ℕ) → All (λ c. is_digit c ≡ true) (to_string n)
unfolding to_string
to_string-IsDigit n = digits-IsDigit 20 n

-- A number that is printed reads back.
pub parse_u64-to_string : (n : ℕ) → n < 2 ^ 64 → parse_u64 (to_string n) ≡ some n
parse_u64-to_string n h =
    parse_u64-scan_u64 (to_string n) (unfold to_string in digits_some 19 n) (to_string-IsDigit n)
    ∙ unfold to_string in scan_u64-digits 20 n (omega arith) (omega arith) h

pub to_string-nonempty : (n : ℕ) → 0 < length (to_string n)
unfolding to_string
to_string-nonempty n = digits_some 19 n
