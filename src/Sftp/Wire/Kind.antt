-- ===== src/Sftp/Wire/Kind.antt =====
-- The types of the packets and the status codes of wire.rs.
use clift.Base.{ℕ}

abbrev pub init_kind : ℕ
init_kind = 1

abbrev pub version_reply : ℕ
version_reply = 2

abbrev pub open_kind : ℕ
open_kind = 3

abbrev pub close_kind : ℕ
close_kind = 4

abbrev pub write_kind : ℕ
write_kind = 6

abbrev pub lstat_kind : ℕ
lstat_kind = 7

abbrev pub fstat_kind : ℕ
fstat_kind = 8

abbrev pub setstat_kind : ℕ
setstat_kind = 9

abbrev pub fsetstat_kind : ℕ
fsetstat_kind = 10

abbrev pub opendir_kind : ℕ
opendir_kind = 11

abbrev pub readdir_kind : ℕ
readdir_kind = 12

abbrev pub remove_kind : ℕ
remove_kind = 13

abbrev pub mkdir_kind : ℕ
mkdir_kind = 14

abbrev pub rmdir_kind : ℕ
rmdir_kind = 15

abbrev pub realpath_kind : ℕ
realpath_kind = 16

abbrev pub rename_kind : ℕ
rename_kind = 18

abbrev pub status_kind : ℕ
status_kind = 101

abbrev pub handle_kind : ℕ
handle_kind = 102

abbrev pub name_kind : ℕ
name_kind = 104

abbrev pub attrs_kind : ℕ
attrs_kind = 105

abbrev pub status_ok : ℕ
status_ok = 0

abbrev pub status_eof : ℕ
status_eof = 1

abbrev pub status_no_such_file : ℕ
status_no_such_file = 2

abbrev pub status_permission_denied : ℕ
status_permission_denied = 3

abbrev pub status_failure : ℕ
status_failure = 4
