-- ===== src/Sftp/Wire/Greeting.antt =====
-- The extension pairs of a greeting: the loop over them ends.
use clift.Base.{ℕ, zero, suc, ◌+◌, ◌≤◌, ◌<◌, ◌≡◌, refl, ap, arith, List, [], ◌∷◌}
use clift.Base.{length, length-append, Result, ok, err}
use clift.Base.Reader.{◌>>◌, take_bytes, >>=-eq-ok, take_be-eq-ok, take_bytes-eq-ok}
use clift.Sftp.Wire.{
  Wire, WireError, ended_early, read_u32, read_bytes, unit_after, skip_extensions,
}

read_bytes-shorter :
    (left bytes rest : List ℕ) → read_bytes left ≡ ok (bytes, rest) → 4 + length rest ≤ length left
unfolding read_bytes
read_bytes-shorter left bytes rest h =
    let (n, between, first, second) = >>=-eq-ok read_u32 (take_bytes ended_early) left h in
    let (header, front, width, _) = take_be-eq-ok ended_early 4 left n between first in
    let (back, _) = take_bytes-eq-ok ended_early n between bytes rest second in
    omega (
      arith,
      ap length front,
      length-append header between,
      width,
      ap length back,
      length-append bytes rest,
    )

unit_after-shorter :
    (left rest : List ℕ)
    → unit_after read_bytes left ≡ ok (tt, rest)
    → 4 + length rest ≤ length left
unit_after-shorter left rest h =
    let (bytes, between, first, second) = >>=-eq-ok read_bytes _ left h in
    let same : length between ≡ length rest = ground arith in
    omega (arith, read_bytes-shorter left bytes between first, same)

abbrev pair : Wire (Unit {0})
pair = unit_after read_bytes >> unit_after read_bytes

pair-shorter : (left rest : List ℕ) → pair left ≡ ok (tt, rest) → 8 + length rest ≤ length left
pair-shorter left rest h =
    let (_, between, first, second) =
      >>=-eq-ok (unit_after read_bytes) (λ _. unit_after read_bytes) left h in
    omega (arith, unit_after-shorter left between first, unit_after-shorter between rest second)

-- The loop of the source as it runs on the bytes that are left, without a count of its rounds: a derivation is a run that has
-- ended, and there is none for a loop that goes on for ever.
pub data Skips : List ℕ → Result (Unit {0} × List ℕ) WireError → Type 0 where
  at_the_end : Skips [] (ok (tt, []))
  breaks_off :
      {b : ℕ} {left : List ℕ} {e : WireError} → pair (b ∷ left) ≡ err e → Skips (b ∷ left) (err e)
  goes_on :
      {b : ℕ} {left rest : List ℕ} {r : Result (Unit {0} × List ℕ) WireError}
      → pair (b ∷ left) ≡ ok (tt, rest)
      → Skips rest r
      → Skips (b ∷ left) r

-- One round, whose result decides whether there is another.
round-Skips :
    (b : ℕ) (left : List ℕ) (next : Wire (Unit {0}))
    → ((rest : List ℕ) → length rest < length (b ∷ left) → Skips rest (next rest))
    → Skips (b ∷ left) ((pair >> next) (b ∷ left))
round-Skips b left next h = go (pair (b ∷ left)) refl
  where
    go :
        (r : Result (Unit {0} × List ℕ) WireError)
        → pair (b ∷ left) ≡ r
        → Skips (b ∷ left) (elim r as (λ _. Result (Unit {0} × List ℕ) WireError) [
          | ok (a, rest) ↦ next rest
          | err e ↦ err e
        ])
    go (ok (a, rest)) e = goes_on e (h rest (omega (arith, pair-shorter (b ∷ left) rest e)))
    go (err q) e = breaks_off e

-- The loop over the extension pairs of a greeting ends on every input, each round taking eight bytes or more, and with as many
-- rounds as there are bytes, or more, `skip_extensions` returns what the loop that has no count returns.
pub skip_extensions-Skips :
    (room : ℕ) (left : List ℕ) → length left ≤ room → Skips left (skip_extensions room left)
unfolding skip_extensions
skip_extensions-Skips room [] h = at_the_end
skip_extensions-Skips zero (b ∷ left) h = absurd (omega arith)
skip_extensions-Skips (suc room) (b ∷ left) h =
    round-Skips b left (skip_extensions room)
      (λ rest shorter. skip_extensions-Skips room rest (omega (arith, shorter, h)))
