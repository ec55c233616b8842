-- ===== src/Base/Utf8.antt =====
-- UTF-8, as Rust's `str` stores its characters and as `String::from_utf8` reads them.
pub mod Sound
use Prim.Native.Nat.{ℕ, ◌+◌, ◌-◌, ◌*◌, ◌/◌, ◌%◌, ◌≤◌, ◌<◌}
use mathlib.Core.Logic.{◌⊎◌}
use mathlib.Core.Path.{◌≡◌, refl}
use mathlib.Core.Bool.{Bool}
use Prim.Native.Nat.{zero, suc}
use native.Mathlib.Omega.{arith}
use mathlib.Core.List.{List, [], ◌∷◌, ◌++◌}
use clift.Base.Lists.{length, length-append, All}
use mathlib.Core.Bool.{◌&&◌, ◌||◌}
use mathlib.Core.Option.{Option, none, some}
use clift.Base.Tests.{ltb, lt→ltb, le→not_ltb, leb, if◌then◌else◌, Str}

-- A Unicode scalar value, which is what a Rust `char` is.
abbrev pub IsChar : ℕ → Type 0
IsChar c = (c < 0xd800) ⊎ ((0xdfff < c) × (c < 0x110000))

-- `char::len_utf8`
abbrev pub char_len : ℕ → ℕ
char_len c = if ltb c 0x80 then 1 else if ltb c 0x800 then 2 else if ltb c 0x10000 then 3 else 4

abbrev pub encode_char : ℕ → List ℕ
encode_char c =
    if ltb c 0x80
    then c ∷ []
    else if ltb c 0x800
    then (0xc0 + c / 0x40) ∷ (0x80 + c % 0x40) ∷ []
    else if ltb c 0x10000
    then (0xe0 + c / 0x1000) ∷ (0x80 + c / 0x40 % 0x40) ∷ (0x80 + c % 0x40) ∷ []
    else (0xf0 + c / 0x40000)
      ∷ (0x80 + c / 0x1000 % 0x40)
      ∷ (0x80 + c / 0x40 % 0x40)
      ∷ (0x80 + c % 0x40)
      ∷ []

-- `str::as_bytes`
unfoldable pub utf8 : Str → List ℕ
utf8 [] = []
utf8 (c ∷ s) = encode_char c ++ utf8 s

-- `str::len`
unfoldable pub len : Str → ℕ
len [] = 0
len (c ∷ s) = char_len c + len s

abbrev is_tail : ℕ → Bool
is_tail b = leb 0x80 b && ltb b 0xc0

abbrev is_char : ℕ → Bool
is_char c = ltb c 0xd800 || (ltb 0xdfff c && ltb c 0x110000)

abbrev onto : ℕ → Option Str → Option Str
onto c none = none
onto c (some s) = some (c ∷ s)

-- A scan over the bytes. `need` bytes of the current character are still to come, `acc` is what the
-- earlier ones spell, and the character must be `low` at least: a longer form than needed is refused.
unfoldable pub scan_utf8 : ℕ → ℕ → ℕ → List ℕ → Option Str
scan_utf8 zero acc low [] = some []
scan_utf8 (suc need) acc low [] = none
scan_utf8 zero acc low (b ∷ s) =
    let single = onto b (scan_utf8 0 0 0 s) in
    let double = scan_utf8 1 (b - 0xc0) 0x80 s in
    let triple = scan_utf8 2 (b - 0xe0) 0x800 s in
    let quadruple = scan_utf8 3 (b - 0xf0) 0x10000 s in
    if ltb b 0x80
    then single
    else if ltb b 0xc0
    then none
    else if ltb b 0xe0
    then double
    else if ltb b 0xf0
    then triple
    else if ltb b 0xf8
    then quadruple
    else none
scan_utf8 (suc zero) acc low (b ∷ s) =
    let c = acc * 0x40 + (b - 0x80) in
    let rest = onto c (scan_utf8 0 0 0 s) in
    if is_tail b && leb low c && is_char c then rest else none
scan_utf8 (suc (suc need)) acc low (b ∷ s) =
    let rest = scan_utf8 (suc need) (acc * 0x40 + (b - 0x80)) low s in
    if is_tail b then rest else none

-- `String::from_utf8`, less its error.
unfoldable pub from_utf8 : List ℕ → Option Str
unfolding scan_utf8
from_utf8 bytes = scan_utf8 0 0 0 bytes

back : (a x : ℕ) → a + x - a ≡ x
back a x = omega arith

-- The steps of the scan on what `encode_char` writes.
scan_first :
    (x : ℕ) (s : List ℕ)
    → (x < 0x80 → scan_utf8 0 0 0 (x ∷ s) ≡ onto x (scan_utf8 0 0 0 s))
      × (x < 0x20 → scan_utf8 0 0 0 ((0xc0 + x) ∷ s) ≡ scan_utf8 1 x 0x80 s)
      × (x < 0x10 → scan_utf8 0 0 0 ((0xe0 + x) ∷ s) ≡ scan_utf8 2 x 0x800 s)
      × (x < 8 → scan_utf8 0 0 0 ((0xf0 + x) ∷ s) ≡ scan_utf8 3 x 0x10000 s)
unfolding scan_utf8
scan_first x s = (
  λ h. ground arith,
  λ h. rw (
    le→not_ltb (0xc0 + x) 0x80 (omega arith),
    le→not_ltb (0xc0 + x) 0xc0 (omega arith),
    lt→ltb (0xc0 + x) 0xe0 (omega arith),
    back 0xc0 x,
  ),
  λ h. rw (
    le→not_ltb (0xe0 + x) 0x80 (omega arith),
    le→not_ltb (0xe0 + x) 0xc0 (omega arith),
    le→not_ltb (0xe0 + x) 0xe0 (omega arith),
    lt→ltb (0xe0 + x) 0xf0 (omega arith),
    back 0xe0 x,
  ),
  λ h. rw (
    le→not_ltb (0xf0 + x) 0x80 (omega arith),
    le→not_ltb (0xf0 + x) 0xc0 (omega arith),
    le→not_ltb (0xf0 + x) 0xe0 (omega arith),
    le→not_ltb (0xf0 + x) 0xf0 (omega arith),
    lt→ltb (0xf0 + x) 0xf8 (omega arith),
    back 0xf0 x,
  ),
)

scan_inner :
    (need acc low x : ℕ) (s : List ℕ)
    → x < 0x40
    → scan_utf8 (suc (suc need)) acc low ((0x80 + x) ∷ s)
      ≡ scan_utf8 (suc need) (acc * 0x40 + x) low s
unfolding scan_utf8
scan_inner need acc low x s h = ground arith

scan_last :
    (acc low x : ℕ) (s : List ℕ)
    → x < 0x40
    → low ≤ acc * 0x40 + x
    → IsChar (acc * 0x40 + x)
    → scan_utf8 1 acc low ((0x80 + x) ∷ s) ≡ onto (acc * 0x40 + x) (scan_utf8 0 0 0 s)
unfolding scan_utf8
scan_last acc low x s h le is = ground arith

scan-encode_char :
    (c : ℕ) (rest : List ℕ)
    → IsChar c
    → scan_utf8 0 0 0 (encode_char c ++ rest) ≡ onto c (scan_utf8 0 0 0 rest)
scan-encode_char c rest h = ground (
  arith,
  (scan_first c rest).0,
  (scan_first (c / 0x40) ((0x80 + c % 0x40) ∷ rest)).1,
  (scan_first (c / 0x1000) ((0x80 + c / 0x40 % 0x40) ∷ (0x80 + c % 0x40) ∷ rest)).2,
  (scan_first (c / 0x40000)
      ((0x80 + c / 0x1000 % 0x40) ∷ (0x80 + c / 0x40 % 0x40) ∷ (0x80 + c % 0x40) ∷ rest)).3,
  scan_inner 1 (c / 0x40000) 0x10000 (c / 0x1000 % 0x40)
      ((0x80 + c / 0x40 % 0x40) ∷ (0x80 + c % 0x40) ∷ rest),
  scan_inner 0 (c / 0x40000 * 0x40 + c / 0x1000 % 0x40) 0x10000 (c / 0x40 % 0x40)
      ((0x80 + c % 0x40) ∷ rest),
  scan_inner 0 (c / 0x1000) 0x800 (c / 0x40 % 0x40) ((0x80 + c % 0x40) ∷ rest),
  scan_last (c / 0x40) 0x80 (c % 0x40) rest,
  scan_last (c / 0x1000 * 0x40 + c / 0x40 % 0x40) 0x800 (c % 0x40) rest,
  scan_last ((c / 0x40000 * 0x40 + c / 0x1000 % 0x40) * 0x40 + c / 0x40 % 0x40) 0x10000 (c % 0x40)
      rest,
)

-- The bytes of a text read back as the text.
pub from_utf8-utf8 : (s : Str) → All IsChar s → from_utf8 (utf8 s) ≡ some s
unfolding from_utf8 utf8
from_utf8-utf8 [] h = refl
from_utf8-utf8 (c ∷ s) h =
    rw (scan-encode_char c (utf8 s) h.0) (ground (arith, from_utf8-utf8 s h.1))

pub length-utf8 : (s : Str) → length (utf8 s) ≡ len s
unfolding utf8 len
length-utf8 [] = refl
length-utf8 (c ∷ s) = rw length-append (ground (arith, length-utf8 s))
