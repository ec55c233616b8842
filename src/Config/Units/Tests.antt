-- ===== src/Config/Units/Tests.antt =====
-- Runs of the model of the units at concrete texts, and its theorem applied to one.
use clift.Base.{◌*◌, ◌^◌, ◌<◌, ◌≤◌, ◌≡◌, refl, arith, ◌++◌, codes, ok, err}
use clift.Base.Decimal.{to_string}
use clift.Base.Text.{trim, parse_u64, scan_u64}
use clift.Config.Units.{unknown_unit, no_unit, too_large, parse_size, parse_duration}
use clift.Config.Units.Printed.{mib, parse_size-to_string}
use clift.Relayd.Address.{from_secs}

spaced_size : parse_size (codes " 50 mib ") ≡ ok (50 * 1024 * 1024)
unfolding parse_size trim parse_u64 scan_u64
spaced_size = refl

rate_refused : parse_size (codes "50 MB/s") ≡ err unknown_unit
unfolding parse_size trim parse_u64 scan_u64
rate_refused = refl

day_parsed : parse_duration (codes "7d") ≡ ok (from_secs 604800)
unfolding parse_duration trim parse_u64 scan_u64
day_parsed = refl

bare_duration_refused : parse_duration (codes "24") ≡ err no_unit
unfolding parse_duration trim parse_u64 scan_u64
bare_duration_refused = refl

parse_size-to_string_example :
    (50 * 1024 ^ 2 < 2 ^ 64 → parse_size (to_string 50 ++ codes "MiB") ≡ ok (50 * 1024 ^ 2))
    × (2 ^ 64 ≤ 50 * 1024 ^ 2 → parse_size (to_string 50 ++ codes "MiB") ≡ err too_large)
parse_size-to_string_example =
    parse_size-to_string 50 2 (codes "MiB") (omega arith) (refl, refl, refl) mib
