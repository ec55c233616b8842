-- ===== src/Sftp/Errors.antt =====
-- crates/clift-transport/src/errmap.rs, and the failures of session.rs: what OpenSSH printed, or the server answered, as a kind
-- of error. A remedy and the text of a message are left out; `to_lowercase` is the standard library's and an argument.
use clift.Base.{ℕ, Bool, ◌||◌, [], ◌∷◌}
use clift.Base.{eqb, if◌then◌else◌, Str, codes}
use clift.Base.Text.{strip_prefix, is_some}
use clift.Error.{CliftError, ErrorKind, Stage}
use clift.Sftp.Wire.Kind.{status_no_such_file, status_permission_denied, status_failure}

pub data Symptom : Type 0 where
  host_key_changed host_key_unknown authentication_rejected sftp_subsystem_missing : Symptom
  unreachable remote_permission_denied remote_missing transfer_failed unrecognised : Symptom

-- `text.contains(part)`
unfoldable pub contains_text : Str → Str → Bool
unfolding strip_prefix
contains_text part [] = is_some (strip_prefix part [])
contains_text part (c ∷ text) = is_some (strip_prefix part (c ∷ text)) || contains_text part text

-- The tests of `classify` on the text in lower case.
unfoldable pub classify_lower : Str → Symptom
unfolding contains_text
classify_lower text =
    if contains_text (codes "remote host identification has changed") text
    then host_key_changed
    else if contains_text (codes "host key verification failed") text
    then host_key_unknown
    else if contains_text (codes "permission denied (") text
    then authentication_rejected
    else if contains_text (codes "subsystem request failed") text
    then sftp_subsystem_missing
    else if contains_text (codes "permission denied") text
    then remote_permission_denied
    else if contains_text (codes "no such file or directory") text
        || contains_text (codes "not found") text
    then remote_missing
    else if contains_text (codes "connection refused") text
        || contains_text (codes "connection closed") text
        || contains_text (codes "no route to host") text
        || contains_text (codes "operation timed out") text
        || contains_text (codes "connection timed out") text
        || contains_text (codes "network is unreachable") text
    then unreachable
    else if contains_text (codes ": failure") text
    then transfer_failed
    else unrecognised

unfoldable pub classify : (Str → Str) → Str → Symptom
unfolding classify_lower
classify to_lowercase stderr = classify_lower (to_lowercase stderr)

abbrev pub unrecognised_kind : Stage → ErrorKind
unrecognised_kind Stage.connect = ErrorKind.ssh_connection
unrecognised_kind _ = ErrorKind.transfer

-- `Symptom::kind`
abbrev pub symptom_kind : Symptom → Stage → ErrorKind
symptom_kind host_key_changed stage = ErrorKind.ssh_connection
symptom_kind host_key_unknown stage = ErrorKind.ssh_connection
symptom_kind authentication_rejected stage = ErrorKind.ssh_connection
symptom_kind sftp_subsystem_missing stage = ErrorKind.ssh_connection
symptom_kind unreachable stage = ErrorKind.ssh_connection
symptom_kind remote_permission_denied stage = ErrorKind.remote_directory
symptom_kind remote_missing stage = ErrorKind.transfer
symptom_kind transfer_failed stage = ErrorKind.transfer
symptom_kind unrecognised stage = unrecognised_kind stage

abbrev pub map_failure : (Str → Str) → Stage → Str → CliftError
map_failure to_lowercase stage stderr = record {
  stage = stage;
  kind = symptom_kind (classify to_lowercase stderr) stage;
}

abbrev pub refusal_symptom : ℕ → Symptom
refusal_symptom code =
    if eqb code status_no_such_file
    then remote_missing
    else if eqb code status_permission_denied
    then remote_permission_denied
    else if eqb code status_failure
    then transfer_failed
    else unrecognised

abbrev pub map_refusal : Stage → ℕ → CliftError
map_refusal stage code = record { stage = stage; kind = symptom_kind (refusal_symptom code) stage }
