-- ===== src/Calendar.antt =====
-- crates/clift-core/src/calendar.rs: dates in UTC. A `SystemTime` is the nanoseconds since the Unix epoch.
use clift.Base.{ℕ, suc, ◌+◌, ◌-◌, ◌*◌, ◌/◌, ◌%◌, ◌^◌, min, Option, none, some, [], ◌∷◌, ◌++◌}
use clift.Base.{ltb, leb, if◌then◌else◌, Str}
use clift.Base.Decimal.{to_string}
use clift.Base.Int.{
  ℤ, pos, negsuc, neg, ◌+ℤ◌, negate, scale, quotient, div_euclid, rem_euclid, is_negative, to_nat,
}
use clift.Relayd.Address.{Duration}

abbrev pub SystemTime : Type 0
SystemTime = ℤ

abbrev not_negative : ℤ → Option Duration
not_negative (pos n) = some n
not_negative (negsuc n) = none

-- `SystemTime::duration_since`, which fails for a later instant.
abbrev pub duration_since : SystemTime → SystemTime → Option Duration
duration_since now earlier = not_negative (now +ℤ negate earlier)

-- `SECONDS_PER_DAY`
abbrev pub seconds_per_day : ℕ
seconds_per_day = 86400

-- The year of the era and the day of the era are not negative, whatever the date is.
unfoldable pub days_from_civil : ℤ → ℕ → ℕ → ℤ
days_from_civil year month day =
    let year : ℤ = if leb month 2 then year +ℤ negsuc 0 else year in
    let era = quotient (if is_negative year then year +ℤ neg 399 else year) 400 in
    let year_of_era = to_nat (year +ℤ negate (scale era 400)) in
    let shifted = if ltb 2 month then month - 3 else month + 9 in
    let day_of_year = pos ((153 * shifted + 2) / 5 + day) +ℤ negsuc 0 in
    let day_of_era = pos (year_of_era * 365 + year_of_era / 4 - year_of_era / 100) +ℤ day_of_year in
    scale era 146097 +ℤ day_of_era +ℤ neg 719468

unfoldable pub civil_from_days : ℤ → ℤ × ℕ × ℕ
civil_from_days days =
    let days = days +ℤ pos 719468 in
    let era = quotient (if is_negative days then days +ℤ neg 146096 else days) 146097 in
    let day_of_era = to_nat (days +ℤ negate (scale era 146097)) in
    let year_of_era =
      (day_of_era - day_of_era / 1460 + day_of_era / 36524 - day_of_era / 146096) / 365 in
    let year = pos year_of_era +ℤ scale era 400 in
    let day_of_year = day_of_era - (365 * year_of_era + year_of_era / 4 - year_of_era / 100) in
    let month_prime = (5 * day_of_year + 2) / 153 in
    let day = day_of_year - (153 * month_prime + 2) / 5 + 1 in
    let month = if ltb month_prime 10 then month_prime + 3 else month_prime - 9 in
    (if leb month 2 then year +ℤ pos 1 else year, month, day)

-- Whole seconds, in an `i64` that saturates; those before the epoch are rounded towards it.
abbrev saturated : ℕ → ℕ
saturated nanoseconds = min (nanoseconds / 10 ^ 9) (2 ^ 63 - 1)

abbrev pub unix_seconds : SystemTime → ℤ
unix_seconds (pos n) = pos (saturated n)
unix_seconds (negsuc n) = neg (saturated (suc n))

-- `{n:02}`
abbrev pub two_digits : ℕ → Str
two_digits n = if ltb n 10 then b'0' ∷ to_string n else to_string n

-- `{n:03}`
abbrev pub three_digits : ℕ → Str
three_digits n = if ltb n 100 then b'0' ∷ two_digits n else to_string n

-- `{n:04}`, in which a sign counts.
abbrev pub four_digits : ℤ → Str
four_digits (pos n) = if ltb n 1000 then b'0' ∷ three_digits n else to_string n
four_digits (negsuc n) = b'-' ∷ three_digits (suc n)

abbrev pub date_text : ℤ × ℕ × ℕ → Str
date_text (year, month, day) = four_digits year ++ b'-' ∷ two_digits month ++ b'-' ∷ two_digits day

unfoldable pub format_date : SystemTime → Str
unfolding civil_from_days to_string
format_date time = date_text (civil_from_days (div_euclid (unix_seconds time) seconds_per_day))

unfoldable pub format_timestamp : SystemTime → Str
unfolding civil_from_days to_string
format_timestamp at =
    let seconds = unix_seconds at in
    let time = rem_euclid seconds seconds_per_day in
    date_text (civil_from_days (div_euclid seconds seconds_per_day))
    ++ b'T' ∷ two_digits (time / 3600)
    ++ b':' ∷ two_digits (time % 3600 / 60)
    ++ b':' ∷ two_digits (time % 60)
    ++ b'Z' ∷ []
