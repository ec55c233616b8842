-- ===== src/Domain/BatchId.antt =====
-- crates/clift-core/src/domain/batch_id.rs: the identifier of a batch, which is the text that the type holds. The random
-- bytes are an argument.
pub mod Hex
mod Tests
use clift.Base.{ℕ, ◌+◌, ◌*◌, ◌/◌, ◌%◌, Bool, not, ◌&&◌, ◌||◌, List, [], ◌∷◌, ◌++◌}
use clift.Base.{ltb, leb, eqb, if◌then◌else◌, all, Str, Result, ok, err}
use clift.Base.Text.{is_digit}
use clift.Base.Utf8.{len}

-- `BYTES`
abbrev pub batch_id_bytes : ℕ
batch_id_bytes = 16

pub data BatchIdError : Type 0 where
  all_zero wrong_length not_hexadecimal : BatchIdError

-- `char::from_digit(digit, 16)`, for a digit below 16.
abbrev pub hex_digit : ℕ → ℕ
hex_digit d = if ltb d 10 then b'0' + d else b'W' + d

abbrev pub hex_text : List ℕ → Str
hex_text [] = []
hex_text (b ∷ bytes) = hex_digit (b / 16) ∷ hex_digit (b % 16) ∷ hex_text bytes

abbrev pub is_zero : ℕ → Bool
is_zero b = eqb b 0

unfoldable pub from_random_bytes : List ℕ → Result Str BatchIdError
from_random_bytes bytes = if all is_zero bytes then err all_zero else ok (hex_text bytes)

abbrev pub is_hex : ℕ → Bool
is_hex c = is_digit c || (leb b'a' c && leb c b'f')

abbrev pub is_zero_digit : ℕ → Bool
is_zero_digit c = eqb c b'0'

unfoldable pub from_hex : Str → Result Str BatchIdError
unfolding len
from_hex value =
    if not (eqb (len value) (batch_id_bytes * 2))
    then err wrong_length
    else if not (all is_hex value)
    then err not_hexadecimal
    else if all is_zero_digit value
    then err all_zero
    else ok value
