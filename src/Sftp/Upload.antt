-- ===== src/Sftp/Upload.antt =====
-- crates/clift-transport/src/upload.rs: one file, written under another name, verified and renamed. The session, which
-- session.rs makes of packets, is a record of calls on a state of the host; the file that is sent is part of a call,
-- and the random bytes and what was found out about the local file are arguments.
pub mod Atomic
mod Tests
use clift.Base.{ℕ, bit_and, Option, none, some, List, [], ◌∷◌, ◌++◌}
use clift.Base.{eqb, if◌then◌else◌, Str, codes, Result, ok, err}
use clift.Base.Fallible.{map_err}
use clift.Domain.BatchId.{hex_text}
use clift.Domain.RemotePath
use clift.Domain.RemotePath.{is_slash}
use clift.Error.{CliftError, ErrorKind, Stage}
use clift.Remote.{Runs}
use clift.Sftp.Errors.{map_refusal}
use clift.Sftp.Wire.{Attrs}

-- Why a request did not get its answer, without the texts.
pub data Failure : Type 0 where
  refused : ℕ → Failure
  broken local not_started : Failure

pub record Session : Type 1 where
  pub State : Type 0
  pub upload : Str → ℕ → Runs State Attrs Failure
  pub remove : Str → Runs State (Unit {0}) Failure
  pub rename : Str → Str → Runs State (Unit {0}) Failure

-- `FILE_MODE`, 0o600.
abbrev pub file_mode : ℕ
file_mode = 384

abbrev pub transfer_error : ErrorKind → CliftError
transfer_error kind = record { stage = Stage.transfer; kind = kind }

-- The match on the permissions, of which the lower nine bits count.
abbrev pub verify_mode : Option ℕ → Result (Unit {0}) CliftError
verify_mode none = err (transfer_error ErrorKind.remote_directory)
verify_mode (some bits) =
    if eqb (bit_and bits 511) file_mode
    then ok tt
    else err (transfer_error ErrorKind.remote_directory)

abbrev pub verify_size : ℕ → Attrs → Option ℕ → Result (Unit {0}) CliftError
verify_size expected attrs none = err (transfer_error ErrorKind.transfer)
verify_size expected attrs (some reported) =
    if eqb reported expected
    then verify_mode attrs.permissions
    else err (transfer_error ErrorKind.transfer)

abbrev pub verify : ℕ → Attrs → Result (Unit {0}) CliftError
verify expected attrs = verify_size expected attrs attrs.size

abbrev at_slash : ℕ → Option Str → Option Str
at_slash c none = if is_slash c then some [] else none
at_slash c (some front) = some (c ∷ front)

-- What stands before the last separator.
unfoldable pub before_slash : Str → Option Str
before_slash [] = none
before_slash (c ∷ text) = at_slash c (before_slash text)

abbrev or_nothing : Option Str → Str
or_nothing none = []
or_nothing (some front) = front

-- `temporary_path`, of the random bytes.
unfoldable pub temporary_path : List ℕ → Str → Result Str CliftError
unfolding before_slash RemotePath.new
temporary_path bytes destination =
    map_err (λ e. transfer_error ErrorKind.internal)
      (RemotePath.new (
        or_nothing (before_slash destination)
        ++ b'/' ∷ (codes "." ++ (hex_text bytes ++ codes ".part"))))

module _ (session : Session) (expected : ℕ) (temporary destination : Str) where
  open session use {State, upload, remove, rename}

  -- The best-effort removal of the temporary file.
  abbrev pub tidied : State → State
  tidied s = (remove temporary s).0

  abbrev pub renamed :
      State × Result (Unit {0}) Failure → State × Result (Result ℕ CliftError) Failure
  renamed (s, ok done) = (s, ok (ok expected))
  renamed (s, err (refused code)) = (tidied s, ok (err (map_refusal Stage.transfer code)))
  renamed (s, err broken) = (s, err broken)
  renamed (s, err local) = (s, err local)
  renamed (s, err not_started) = (s, err not_started)

  abbrev pub verified :
      Result (Unit {0}) CliftError → State → State × Result (Result ℕ CliftError) Failure
  verified (err wrong) s = (tidied s, ok (err wrong))
  verified (ok done) s = renamed (rename temporary destination s)

  abbrev pub uploaded : State × Result Attrs Failure → State × Result (Result ℕ CliftError) Failure
  uploaded (s, ok attrs) = verified (verify expected attrs) s
  uploaded (s, err broken) = (s, err broken)
  uploaded (s, err (refused code)) = (tidied s, err (refused code))
  uploaded (s, err local) = (tidied s, err local)
  uploaded (s, err not_started) = (tidied s, err not_started)

  -- What `upload_atomic` does in a session.
  unfoldable pub put_in_place : Runs State (Result ℕ CliftError) Failure
  put_in_place s = uploaded (upload temporary file_mode s)
