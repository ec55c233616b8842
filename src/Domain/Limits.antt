-- ===== src/Domain/Limits.antt =====
-- crates/clift-core/src/domain/limits.rs: the three ceilings of a batch. An attachment is a local path, a name and a size; an
-- error says which ceiling was crossed, with the numbers that its message holds.
pub mod Laws
use clift.Base.{
  ℕ, ◌+◌, ◌-◌, ◌*◌, ◌^◌, ◌≤◌, ◌<◌, min, ◌≡◌, ◌↔◌, refl, Bool, true, false, ◌||◌, Option, none, some,
  List, [], ◌∷◌, arith,
}
use clift.Base.{ltb, eqb, if◌then◌else◌, length, Str, codes, Result, ok, err, All}

pub record LocalAttachment : Type 0 where
  pub path : Str
  pub name : Str
  pub size : ℕ

pub record Limits : Type 0 where
  pub max_file_size : ℕ
  pub max_batch_size : ℕ
  pub max_files : ℕ

pub data LimitsError : Type 0 where
  zero_file_size zero_batch_size zero_files file_above_batch : LimitsError

-- `Limits::new`
unfoldable pub new : ℕ → ℕ → ℕ → Result Limits LimitsError
new max_file_size max_batch_size max_files =
    if eqb max_file_size 0
    then err LimitsError.zero_file_size
    else if eqb max_batch_size 0
    then err LimitsError.zero_batch_size
    else if eqb max_files 0
    then err LimitsError.zero_files
    else if ltb max_batch_size max_file_size
    then err LimitsError.file_above_batch
    else ok (record {
      max_file_size = max_file_size;
      max_batch_size = max_batch_size;
      max_files = max_files;
    })

-- `Limits::default`
abbrev pub default_limits : Limits
default_limits = record {
  max_file_size = 50 * 1024 * 1024;
  max_batch_size = 100 * 1024 * 1024;
  max_files = 20;
}

pub data BatchError : Type 0 where
  too_many_files : ℕ → BatchError
  file_too_large : LocalAttachment → BatchError
  batch_too_large : ℕ → BatchError

abbrev pub saturating_add : ℕ → ℕ → ℕ
saturating_add a b = min (a + b) (2 ^ 64 - 1)

-- The fold of `check`.
unfoldable pub total : ℕ → List LocalAttachment → ℕ
total sum [] = sum
total sum (a ∷ attachments) = total (saturating_add sum a.size) attachments

-- The attachment at which the loop of `check` stops.
unfoldable pub first_above : ℕ → List LocalAttachment → Option LocalAttachment
first_above limit [] = none
first_above limit (a ∷ attachments) =
    let rest = first_above limit attachments in if ltb limit a.size then some a else rest

abbrev pub check_total :
    Limits → List LocalAttachment → Option LocalAttachment → Result (Unit {0}) BatchError
check_total limits attachments (some a) = err (file_too_large a)
check_total limits attachments none =
    if ltb limits.max_batch_size (total 0 attachments)
    then err (batch_too_large (total 0 attachments))
    else ok tt

-- `Limits::check`
unfoldable pub check : Limits → List LocalAttachment → Result (Unit {0}) BatchError
unfolding first_above total
check limits attachments =
    if ltb limits.max_files (length attachments)
    then err (too_many_files (length attachments))
    else check_total limits attachments (first_above limits.max_file_size attachments)

abbrev pub any_above : ℕ → List LocalAttachment → Bool
any_above limit [] = false
any_above limit (a ∷ attachments) = ltb limit a.size || any_above limit attachments

-- `Limits::key_for`
unfoldable pub key_for : Limits → List LocalAttachment → Str
key_for limits attachments =
    if ltb limits.max_files (length attachments)
    then codes "defaults.max_files"
    else if any_above limits.max_file_size attachments
    then codes "defaults.max_file_size"
    else codes "defaults.max_batch_size"
