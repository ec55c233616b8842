-- ===== src/Base/Text.antt =====
-- The parts of Rust's `str` that the program uses, on texts as lists of characters.
pub mod Pieces
use Prim.Native.Nat.{ℕ, ◌+◌, ◌-◌, ◌*◌, ◌^◌}
use mathlib.Core.Bool.{Bool, true, false, ◌&&◌, ◌||◌}
use mathlib.Core.Option.{Option, none, some}
use mathlib.Core.List.{List, [], ◌∷◌}
use clift.Base.Tests.{ltb, leb, eqb, if◌then◌else◌, Str}

-- `text.strip_prefix(prefix)`
unfoldable pub strip_prefix : Str → Str → Option Str
strip_prefix [] text = some text
strip_prefix (p ∷ prefix) [] = none
strip_prefix (p ∷ prefix) (c ∷ text) = if eqb p c then strip_prefix prefix text else none

abbrev pub is_some {ℓ} : {A : Type ℓ} → Option A → Bool
is_some none = false
is_some (some a) = true

abbrev before : ℕ → Option (Str × Str) → Option (Str × Str)
before c none = none
before c (some (head, tail)) = some (c ∷ head, tail)

-- `text.split_once(separator)`
unfoldable pub split_once : ℕ → Str → Option (Str × Str)
split_once separator [] = none
split_once separator (c ∷ text) =
    let rest = before c (split_once separator text) in
    if eqb c separator then some ([], text) else rest

abbrev onto_head : ℕ → List Str → List Str
onto_head c [] = (c ∷ []) ∷ []
onto_head c (part ∷ parts) = (c ∷ part) ∷ parts

-- `text.split(separator)`
unfoldable pub split : ℕ → Str → List Str
split separator [] = [] ∷ []
split separator (c ∷ text) =
    let rest = split separator text in if eqb c separator then [] ∷ rest else onto_head c rest

abbrev pub is_digit : ℕ → Bool
is_digit c = leb b'0' c && leb c b'9'

-- The digits of a number in a `u64`, each step checked for overflow.
unfoldable pub scan_u64 : ℕ → Str → Option ℕ
scan_u64 n [] = some n
scan_u64 n (c ∷ s) =
    let next = n * 10 + (c - b'0') in
    let rest = scan_u64 next s in if is_digit c && ltb next (2 ^ 64) then rest else none

-- `text.parse::<u64>()`: a sign `+` may stand in front, and nothing else but digits.
unfoldable pub parse_u64 : Str → Option ℕ
parse_u64 [] = none
parse_u64 (c ∷ []) = if eqb c b'+' then none else scan_u64 0 (c ∷ [])
parse_u64 (c ∷ d ∷ s) = if eqb c b'+' then scan_u64 0 (d ∷ s) else scan_u64 0 (c ∷ d ∷ s)

-- `char::is_control`
abbrev pub is_control : ℕ → Bool
is_control c = ltb c 0x20 || (leb 0x7f c && leb c 0x9f)

-- `char::is_whitespace`
abbrev pub is_whitespace : ℕ → Bool
is_whitespace c =
    (leb 9 c && leb c 13)
    || eqb c 32
    || eqb c 0x85
    || eqb c 0xa0
    || eqb c 0x1680
    || (leb 0x2000 c && leb c 0x200a)
    || eqb c 0x2028
    || eqb c 0x2029
    || eqb c 0x202f
    || eqb c 0x205f
    || eqb c 0x3000

-- `trim_start_matches`
unfoldable pub trim_start_by : (ℕ → Bool) → Str → Str
trim_start_by p [] = []
trim_start_by p (c ∷ s) = if p c then trim_start_by p s else c ∷ s

unfoldable pub trim_end_by : (ℕ → Bool) → Str → Str
trim_end_by p [] = []
trim_end_by p (c ∷ s) =
    let rest = trim_end_by p s in
    elim rest [ [] ↦ if p c then [] else c ∷ [] | d ∷ more ↦ c ∷ d ∷ more ]

-- `str::trim`
unfoldable pub trim : Str → Str
unfolding trim_start_by trim_end_by
trim s = trim_end_by is_whitespace (trim_start_by is_whitespace s)

-- `to_ascii_lowercase`
abbrev pub to_lower : ℕ → ℕ
to_lower c = if leb b'A' c && leb c b'Z' then c + 32 else c
