-- ===== src/Sftp/Wire/Build.antt =====
-- The requests of wire.rs as bytes. A packet under construction is its body.
use clift.Base.{ℕ, List, ◌∷◌, ◌++◌, bit_or}
use clift.Base.{length, Str}
use clift.Base.Bytes.{be_bytes}
use clift.Base.Utf8.{utf8}
use clift.Sftp.Wire.{version, attr_permissions, open_write, open_create, open_exclusive_flag}
use clift.Sftp.Wire.Kind.{
  init_kind, open_kind, close_kind, write_kind, lstat_kind, fstat_kind, setstat_kind, fsetstat_kind,
  opendir_kind, readdir_kind, remove_kind, mkdir_kind, rmdir_kind, realpath_kind, rename_kind,
}

-- `Packet::with_id`
unfoldable pub with_id : ℕ → ℕ → List ℕ
unfolding be_bytes
with_id kind id = kind ∷ be_bytes 4 id

-- What `Packet::bytes_field` and `Packet::string` append; the length is cast to 32 bits.
unfoldable pub field : List ℕ → List ℕ
unfolding be_bytes
field value = be_bytes 4 (length value) ++ value

-- What `Packet::permissions` appends.
unfoldable pub permissions : ℕ → List ℕ
unfolding be_bytes
permissions mode = be_bytes 4 attr_permissions ++ be_bytes 4 mode

unfoldable pub finish : List ℕ → List ℕ
unfolding be_bytes
finish body = be_bytes 4 (length body) ++ body

unfoldable pub init : List ℕ
unfolding finish
init = finish (init_kind ∷ be_bytes 4 version)

-- A request about one text, which is a path or a handle.
unfoldable pub about : ℕ → ℕ → List ℕ → List ℕ
unfolding finish with_id field
about kind id value = finish (with_id kind id ++ field value)

abbrev pub realpath : ℕ → Str → List ℕ
realpath id path = about realpath_kind id (utf8 path)

abbrev pub lstat : ℕ → Str → List ℕ
lstat id path = about lstat_kind id (utf8 path)

abbrev pub fstat : ℕ → List ℕ → List ℕ
fstat id handle = about fstat_kind id handle

abbrev pub close : ℕ → List ℕ → List ℕ
close id handle = about close_kind id handle

abbrev pub opendir : ℕ → Str → List ℕ
opendir id path = about opendir_kind id (utf8 path)

abbrev pub readdir : ℕ → List ℕ → List ℕ
readdir id handle = about readdir_kind id handle

abbrev pub remove : ℕ → Str → List ℕ
remove id path = about remove_kind id (utf8 path)

abbrev pub rmdir : ℕ → Str → List ℕ
rmdir id path = about rmdir_kind id (utf8 path)

-- A request that gives a path or a handle a mode.
unfoldable pub with_mode : ℕ → ℕ → List ℕ → ℕ → List ℕ
unfolding finish with_id field permissions
with_mode kind id value mode = finish (with_id kind id ++ (field value ++ permissions mode))

abbrev pub mkdir : ℕ → Str → ℕ → List ℕ
mkdir id path mode = with_mode mkdir_kind id (utf8 path) mode

abbrev pub setstat_mode : ℕ → Str → ℕ → List ℕ
setstat_mode id path mode = with_mode setstat_kind id (utf8 path) mode

abbrev pub fsetstat_mode : ℕ → List ℕ → ℕ → List ℕ
fsetstat_mode id handle mode = with_mode fsetstat_kind id handle mode

abbrev pub open_flags : ℕ
open_flags = bit_or (bit_or open_write open_create) open_exclusive_flag

unfoldable pub open_exclusive : ℕ → Str → ℕ → List ℕ
unfolding finish with_id field permissions utf8
open_exclusive id path mode =
    finish
      (with_id open_kind id ++ (field (utf8 path) ++ (be_bytes 4 open_flags ++ permissions mode)))

unfoldable pub write : ℕ → List ℕ → ℕ → List ℕ → List ℕ
unfolding finish with_id field
write id handle offset content =
    finish (with_id write_kind id ++ (field handle ++ (be_bytes 8 offset ++ field content)))

unfoldable pub rename : ℕ → Str → Str → List ℕ
unfolding finish with_id field utf8
rename id from to = finish (with_id rename_kind id ++ (field (utf8 from) ++ field (utf8 to)))
