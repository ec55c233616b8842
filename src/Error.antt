-- ===== src/Error.antt =====
-- crates/clift-core/src/error.rs and exit.rs: where a failure happened, what went wrong, and the number
-- that the process exits with. The text of a message, its remedy and its cause are left out.
use clift.Base.{ℕ, ◌≡◌, ◌≢◌, arith}

pub data Stage : Type 0 where
  clipboard attachment target_resolution connect transfer staging config integration relay : Stage
  injection internal : Stage

pub data ErrorKind : Type 0 where
  no_attachment config ambiguous_target ssh_connection transfer clipboard_read : ErrorKind
  remote_directory limit_exceeded token_unusable relay_unavailable integrity_failure : ErrorKind
  internal : ErrorKind

pub record CliftError : Type 0 where
  pub stage : Stage
  pub kind : ErrorKind

pub data ExitCode : Type 0 where
  success no_attachment config ambiguous_target ssh_connection transfer clipboard_read : ExitCode
  remote_directory limit_exceeded token_unusable relay_unavailable integrity_failure : ExitCode
  internal : ExitCode

-- `as_u8`
unfoldable pub as_u8 : ExitCode → ℕ
as_u8 ExitCode.success = 0
as_u8 ExitCode.no_attachment = 10
as_u8 ExitCode.config = 20
as_u8 ExitCode.ambiguous_target = 21
as_u8 ExitCode.ssh_connection = 22
as_u8 ExitCode.transfer = 23
as_u8 ExitCode.clipboard_read = 24
as_u8 ExitCode.remote_directory = 25
as_u8 ExitCode.limit_exceeded = 26
as_u8 ExitCode.token_unusable = 27
as_u8 ExitCode.relay_unavailable = 28
as_u8 ExitCode.integrity_failure = 29
as_u8 ExitCode.internal = 30

unfoldable pub exit_code : ErrorKind → ExitCode
exit_code ErrorKind.no_attachment = ExitCode.no_attachment
exit_code ErrorKind.config = ExitCode.config
exit_code ErrorKind.ambiguous_target = ExitCode.ambiguous_target
exit_code ErrorKind.ssh_connection = ExitCode.ssh_connection
exit_code ErrorKind.transfer = ExitCode.transfer
exit_code ErrorKind.clipboard_read = ExitCode.clipboard_read
exit_code ErrorKind.remote_directory = ExitCode.remote_directory
exit_code ErrorKind.limit_exceeded = ExitCode.limit_exceeded
exit_code ErrorKind.token_unusable = ExitCode.token_unusable
exit_code ErrorKind.relay_unavailable = ExitCode.relay_unavailable
exit_code ErrorKind.integrity_failure = ExitCode.integrity_failure
exit_code ErrorKind.internal = ExitCode.internal

-- Two kinds of failure that end in the same number are the same kind.
pub exit_code_injective : (j k : ErrorKind) → as_u8 (exit_code j) ≡ as_u8 (exit_code k) → j ≡ k
unfolding as_u8 exit_code
exit_code_injective j k h = ground arith

-- No kind of failure ends in 0, which stands for success.
pub exit_code-ne-success : (k : ErrorKind) → as_u8 (exit_code k) ≢ as_u8 ExitCode.success
unfolding as_u8 exit_code
exit_code-ne-success k h = ground arith

-- `CliftError::new(Stage::Relay, kind, ..)`
abbrev pub relay_error : ErrorKind → CliftError
relay_error kind = record { stage = Stage.relay; kind = kind }
