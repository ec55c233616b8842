-- ===== src/Domain/BatchId/Tests.antt =====
-- Runs of the model of the identifiers at concrete bytes, and its theorem applied to a text.
use clift.Base.{[], ◌≡◌, ◌↔◌, refl, ◌∷◌, codes, ok, err}
use clift.Base.Utf8.{len}
use clift.Domain.BatchId.{all_zero, not_hexadecimal, wrong_length, from_random_bytes, from_hex}
use clift.Domain.BatchId.Hex.{Origin, from_hex-from_random_bytes}

upper_case_refused : from_hex (codes "ABCDEF00000000000000000000000000") ≡ err not_hexadecimal
unfolding from_hex len
upper_case_refused = refl

short_refused : from_hex (codes "ab") ≡ err wrong_length
unfolding from_hex len
short_refused = refl

zero_draw_refused : from_random_bytes (0 ∷ 0 ∷ []) ≡ err all_zero
unfolding from_random_bytes
zero_draw_refused = refl

from_hex-from_random_bytes_example :
    (from_hex (codes "00ff000000000000000000000000000a")
      ≡ ok (codes "00ff000000000000000000000000000a"))
    ↔ Origin (codes "00ff000000000000000000000000000a")
from_hex-from_random_bytes_example =
    from_hex-from_random_bytes (codes "00ff000000000000000000000000000a")
