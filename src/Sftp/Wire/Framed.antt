-- ===== src/Sftp/Wire/Framed.antt =====
-- The requests that are built, as a server reads them.
use clift.Base.{ℕ, ◌+◌, ◌^◌, ◌<◌, ◌≤◌, ◌≡◌, refl, ap, ◌∙◌, arith, true, false, List, ◌++◌}
use clift.Base.{length, length-append, Str, ok}
use clift.Base.Bytes.{be_bytes, length-be_bytes}
use clift.Base.Reader.{◌>>=◌, pure, Takes, >>=-Takes, >>=-pure-Takes}
use clift.Base.Utf8.{utf8}
use clift.Sftp.Wire.{max_packet, read_u32, read_u64, read_bytes}
use clift.Sftp.Wire.Asked.{
  Asks, about_one, set_mode, open_file, write_at, rename_to, is_one_of, one_text, text_and_mode,
  read_mode, read_asks, read_request, read_packet, request-Takes, mode-Takes, read_packet-finish,
}
use clift.Sftp.Wire.Build.{
  realpath, lstat, opendir, remove, rmdir, fstat, close, readdir, mkdir, setstat_mode,
  fsetstat_mode, field, with_id, permissions, finish, about, with_mode, open_flags, open_exclusive,
  write, rename,
}
use clift.Sftp.Wire.Kind.{
  open_kind, close_kind, write_kind, lstat_kind, fstat_kind, setstat_kind, fsetstat_kind,
  opendir_kind, readdir_kind, remove_kind, mkdir_kind, rmdir_kind, realpath_kind, rename_kind,
}
use clift.Sftp.Wire.Served.Attributes.{Fits, u32-Takes, u64-Takes, field-Takes}

-- The requests but for the greeting, which has no id.
pub data Request : Type 0 where
  realpath_of lstat_of opendir_of remove_of rmdir_of : Str → Request
  fstat_of close_of readdir_of : List ℕ → Request
  mkdir_of setstat_of : Str → ℕ → Request
  fsetstat_of : List ℕ → ℕ → Request
  open_of : Str → ℕ → Request
  write_of : List ℕ → ℕ → List ℕ → Request
  rename_of : Str → Str → Request

abbrev pub build : ℕ → Request → List ℕ
build id (realpath_of path) = realpath id path
build id (lstat_of path) = lstat id path
build id (opendir_of path) = opendir id path
build id (remove_of path) = remove id path
build id (rmdir_of path) = rmdir id path
build id (fstat_of handle) = fstat id handle
build id (close_of handle) = close id handle
build id (readdir_of handle) = readdir id handle
build id (mkdir_of path mode) = mkdir id path mode
build id (setstat_of path mode) = setstat_mode id path mode
build id (fsetstat_of handle mode) = fsetstat_mode id handle mode
build id (open_of path mode) = open_exclusive id path mode
build id (write_of handle offset content) = write id handle offset content
build id (rename_of from to) = rename id from to

abbrev pub asks_of : Request → Asks
asks_of (realpath_of path) = about_one realpath_kind (utf8 path)
asks_of (lstat_of path) = about_one lstat_kind (utf8 path)
asks_of (opendir_of path) = about_one opendir_kind (utf8 path)
asks_of (remove_of path) = about_one remove_kind (utf8 path)
asks_of (rmdir_of path) = about_one rmdir_kind (utf8 path)
asks_of (fstat_of handle) = about_one fstat_kind handle
asks_of (close_of handle) = about_one close_kind handle
asks_of (readdir_of handle) = about_one readdir_kind handle
asks_of (mkdir_of path mode) = set_mode mkdir_kind (utf8 path) mode
asks_of (setstat_of path mode) = set_mode setstat_kind (utf8 path) mode
asks_of (fsetstat_of handle mode) = set_mode fsetstat_kind handle mode
asks_of (open_of path mode) = open_file (utf8 path) 0x2a mode
asks_of (write_of handle offset content) = write_at handle offset content
asks_of (rename_of from to) = rename_to (utf8 from) (utf8 to)

-- The widths of the numbers and texts of a request.
abbrev pub IsRequest : Request → Type 0
IsRequest (realpath_of path) = Fits (utf8 path)
IsRequest (lstat_of path) = Fits (utf8 path)
IsRequest (opendir_of path) = Fits (utf8 path)
IsRequest (remove_of path) = Fits (utf8 path)
IsRequest (rmdir_of path) = Fits (utf8 path)
IsRequest (fstat_of handle) = Fits handle
IsRequest (close_of handle) = Fits handle
IsRequest (readdir_of handle) = Fits handle
IsRequest (mkdir_of path mode) = Fits (utf8 path) × (mode < 256 ^ 4)
IsRequest (setstat_of path mode) = Fits (utf8 path) × (mode < 256 ^ 4)
IsRequest (fsetstat_of handle mode) = Fits handle × (mode < 256 ^ 4)
IsRequest (open_of path mode) = Fits (utf8 path) × (mode < 256 ^ 4)
IsRequest (write_of handle offset content) = Fits handle × (offset < 256 ^ 8) × Fits content
IsRequest (rename_of from to) = Fits (utf8 from) × Fits (utf8 to)

-- The bytes of a request that its body is read as.
record Framed (packet : List ℕ) (request : ℕ × Asks) : Type 0 where
  body : List ℕ
  framed : packet ≡ finish body
  nonempty : 0 < length body
  read : Takes read_request body request

with_id-Framed :
    (kind id : ℕ) (part : List ℕ) {asks : Asks}
    → kind < 256
    → id < 256 ^ 4
    → Takes (read_asks kind) part asks
    → Framed (finish (with_id kind id ++ part)) (id, asks)
unfolding with_id
with_id-Framed kind id part h k read = record {
  body = with_id kind id ++ part;
  framed = refl;
  nonempty = omega arith;
  read = request-Takes kind id h k read;
}

about-Framed :
    (kind id : ℕ) (value : List ℕ)
    → kind < 256
    → is_one_of one_text kind ≡ true
    → id < 256 ^ 4
    → Fits value
    → Framed (about kind id value) (id, about_one kind value)
unfolding about
about-Framed kind id value small one h k =
    with_id-Framed kind id (field value) small h
      (rw one (>>=-pure-Takes (λ value. about_one kind value) (field-Takes value k)))

with_mode-Framed :
    (kind id : ℕ) (value : List ℕ) (mode : ℕ)
    → kind < 256
    → is_one_of one_text kind ≡ false
    → is_one_of text_and_mode kind ≡ true
    → id < 256 ^ 4
    → Fits value
    → mode < 256 ^ 4
    → Framed (with_mode kind id value mode) (id, set_mode kind value mode)
unfolding with_mode
with_mode-Framed kind id value mode small other moded h k l =
    with_id-Framed kind id (field value ++ permissions mode) small h (
      rw (other, moded)
        (>>=-Takes (λ value. read_mode >>= λ mode. pure (set_mode kind value mode))
          (field-Takes value k)
          (>>=-pure-Takes (λ mode. set_mode kind value mode) (mode-Takes mode l))))

build-Framed :
    (id : ℕ) (request : Request)
    → id < 256 ^ 4
    → IsRequest request
    → Framed (build id request) (id, asks_of request)
unfolding open_exclusive write rename
build-Framed id (realpath_of path) h v =
    about-Framed realpath_kind id (utf8 path) (omega arith) refl h v
build-Framed id (lstat_of path) h v = about-Framed lstat_kind id (utf8 path) (omega arith) refl h v
build-Framed id (opendir_of path) h v =
    about-Framed opendir_kind id (utf8 path) (omega arith) refl h v
build-Framed id (remove_of path) h v =
    about-Framed remove_kind id (utf8 path) (omega arith) refl h v
build-Framed id (rmdir_of path) h v = about-Framed rmdir_kind id (utf8 path) (omega arith) refl h v
build-Framed id (fstat_of handle) h v = about-Framed fstat_kind id handle (omega arith) refl h v
build-Framed id (close_of handle) h v = about-Framed close_kind id handle (omega arith) refl h v
build-Framed id (readdir_of handle) h v = about-Framed readdir_kind id handle (omega arith) refl h v
build-Framed id (mkdir_of path mode) h (v, w) =
    with_mode-Framed mkdir_kind id (utf8 path) mode (omega arith) refl refl h v w
build-Framed id (setstat_of path mode) h (v, w) =
    with_mode-Framed setstat_kind id (utf8 path) mode (omega arith) refl refl h v w
build-Framed id (fsetstat_of handle mode) h (v, w) =
    with_mode-Framed fsetstat_kind id handle mode (omega arith) refl refl h v w
build-Framed id (open_of path mode) h (v, w) = with_id-Framed open_kind id _ (omega arith) h (
    >>=-Takes (λ path. read_u32 >>= λ flags. read_mode >>= λ mode. pure (open_file path flags mode))
      (field-Takes (utf8 path) v)
      (>>=-Takes (λ flags. read_mode >>= λ mode. pure (open_file (utf8 path) flags mode))
        (u32-Takes open_flags (omega arith))
        (>>=-pure-Takes (λ mode. open_file (utf8 path) open_flags mode) (mode-Takes mode w))))
build-Framed id (write_of handle offset content) h (v, w, x) =
    with_id-Framed write_kind id _ (omega arith) h (
      >>=-Takes
        (λ handle.
          read_u64 >>= λ offset. read_bytes >>= λ content. pure (write_at handle offset content))
        (field-Takes handle v)
        (>>=-Takes (λ offset. read_bytes >>= λ content. pure (write_at handle offset content))
          (u64-Takes offset w)
          (>>=-pure-Takes (λ content. write_at handle offset content) (field-Takes content x))))
build-Framed id (rename_of from to) h (v, w) = with_id-Framed rename_kind id _ (omega arith) h (
    >>=-Takes (λ from. read_bytes >>= λ to. pure (rename_to from to)) (field-Takes (utf8 from) v)
      (>>=-pure-Takes (λ to. rename_to (utf8 from) to) (field-Takes (utf8 to) w)))

-- Every request that is no larger than a packet may be, with numbers and texts of the widths that they are written with, is
-- read by a server as one packet that asks for exactly that, under its id; a file is opened for writing and created, and must not exist.
pub read_packet-build :
    (id : ℕ) (request : Request)
    → id < 256 ^ 4
    → IsRequest request
    → length (build id request) ≤ 4 + max_packet
    → read_packet (build id request) ≡ ok (id, asks_of request)
unfolding finish
read_packet-build id request h v small =
    let f = build-Framed id request h v in
    let size : length (build id request) ≡ 4 + length f.body =
      ap length f.framed
      ∙ length-append (be_bytes 4 (length f.body)) f.body
      ∙ ap (λ n. n + length f.body) (length-be_bytes 4 (length f.body)) in
    ap read_packet f.framed
    ∙ read_packet-finish f.body (id, asks_of request) f.nonempty (omega (arith, small, size)) f.read
