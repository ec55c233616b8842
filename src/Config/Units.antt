-- ===== src/Config/Units.antt =====
-- crates/clift-core/src/config/units.rs: sizes and durations as a user writes them. An error is the reason without its text.
pub mod Printed
mod Tests
use clift.Base.{ℕ, ◌*◌, ◌^◌, Option, none, some, List, [], ◌∷◌}
use clift.Base.{ltb, ◌==◌, str_eq, if◌then◌else◌, Str, codes, Result, ok, err}
use clift.Base.Fallible.{◌>>=◌}
use clift.Base.Text.{is_digit, parse_u64, trim, to_lower}
use clift.Domain.SafeName.{is_empty}
use clift.Relayd.Address.{Duration, from_secs}

pub data UnitError : Type 0 where
  must_not_be_empty no_number not_a_number unknown_unit no_unit too_large : UnitError

-- The digits in front and what follows them.
unfoldable pub split_digits : Str → Str × Str
split_digits [] = ([], [])
split_digits (c ∷ text) =
    let (digits, rest) = split_digits text in
    if is_digit c then (c ∷ digits, rest) else ([], c ∷ text)

abbrev pub lower_all : Str → Str
lower_all [] = []
lower_all (c ∷ text) = to_lower c ∷ lower_all text

abbrev pub size_unit : Str → Result ℕ UnitError
size_unit s =
    if s == []
    then ok 1
    else if s == codes "b"
    then ok 1
    else if s == codes "kib"
    then ok 1024
    else if s == codes "k"
    then ok 1024
    else if s == codes "mib"
    then ok (1024 * 1024)
    else if s == codes "m"
    then ok (1024 * 1024)
    else if s == codes "gib"
    then ok (1024 * 1024 * 1024)
    else if s == codes "g"
    then ok (1024 * 1024 * 1024)
    else err unknown_unit

abbrev pub duration_unit : Str → Result ℕ UnitError
duration_unit s =
    if s == codes "s"
    then ok 1
    else if s == codes "m"
    then ok 60
    else if s == codes "h"
    then ok (60 * 60)
    else if s == codes "d"
    then ok (24 * 60 * 60)
    else if s == []
    then err no_unit
    else err unknown_unit

-- `checked_mul`
abbrev pub checked_mul : ℕ → ℕ → Result ℕ UnitError
checked_mul a b = if ltb (a * b) (2 ^ 64) then ok (a * b) else err too_large

abbrev pub number_of : Option ℕ → Result ℕ UnitError
number_of none = err not_a_number
number_of (some n) = ok n

abbrev pub parse_digits : Str → Result ℕ UnitError
parse_digits digits = if is_empty digits then err no_number else number_of (parse_u64 digits)

-- What the two parsers share: a number and a unit, of which the letters may be large.
unfoldable pub parse_scaled : (Str → Result ℕ UnitError) → Str → Result ℕ UnitError
unfolding split_digits trim parse_u64
parse_scaled unit value =
    let trimmed = trim value in
    let (digits, suffix) = split_digits trimmed in
    let scaled = parse_digits digits >>= λ number.
    unit (lower_all (trim suffix)) >>= λ multiplier. checked_mul number multiplier in
    if is_empty trimmed then err must_not_be_empty else scaled

unfoldable pub parse_size : Str → Result ℕ UnitError
unfolding parse_scaled
parse_size value = parse_scaled size_unit value

unfoldable pub parse_duration : Str → Result Duration UnitError
unfolding parse_scaled
parse_duration value = parse_scaled duration_unit value >>= λ seconds. ok (from_secs seconds)
