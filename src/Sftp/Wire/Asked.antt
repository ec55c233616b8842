-- ===== src/Sftp/Wire/Asked.antt =====
-- A packet as a server reads it: where it ends, and what it asks for.
use clift.Base.{
  ℕ, ◌^◌, ◌<◌, ◌≤◌, ◌≡◌, refl, ap, subst, ◌∙◌, arith, Bool, true, false, ◌||◌, List, [], ◌∷◌, ◌++◌,
  append-nil,
}
use clift.Base.{
  eqb, eqb_iff, take-append_self, drop-append_self, le→not_ltb, if◌then◌else◌, length, take, drop,
  Result, ok, err,
}
use clift.Base.Bytes.{be_bytes-from_be, be_bytes, from_be, length-be_bytes, from_be-be_bytes}
use clift.Base.Reader.{
  ◌>>=◌, ◌>>◌, take_bytes, lift, pure, guard, Takes, >>=-Takes, >>=-pure-Takes, take_be-be_bytes,
}
use clift.Sftp.Wire.{
  Wire, WireError, ended_early, past_the_end, unexpected_type, max_packet, attr_permissions,
  packet_length, read_u8, read_u32, read_u64, read_bytes,
}
use clift.Sftp.Wire.Build.{with_id, permissions, finish}
use clift.Sftp.Wire.Kind.{
  open_kind, close_kind, write_kind, lstat_kind, fstat_kind, setstat_kind, fsetstat_kind,
  opendir_kind, readdir_kind, remove_kind, mkdir_kind, rmdir_kind, realpath_kind, rename_kind,
}
use clift.Sftp.Wire.Served.Attributes.{u32-Takes}

-- What a request asks for, with a path as its bytes.
pub data Asks : Type 0 where
  about_one : ℕ → List ℕ → Asks
  set_mode : ℕ → List ℕ → ℕ → Asks
  open_file : List ℕ → ℕ → ℕ → Asks
  write_at : List ℕ → ℕ → List ℕ → Asks
  rename_to : List ℕ → List ℕ → Asks

abbrev pub is_one_of : List ℕ → ℕ → Bool
is_one_of [] kind = false
is_one_of (k ∷ kinds) kind = eqb kind k || is_one_of kinds kind

abbrev pub one_text : List ℕ
one_text =
    realpath_kind ∷ lstat_kind ∷ fstat_kind ∷ close_kind ∷ opendir_kind ∷ readdir_kind ∷ remove_kind
    ∷ rmdir_kind ∷ []

abbrev pub text_and_mode : List ℕ
text_and_mode = mkdir_kind ∷ setstat_kind ∷ fsetstat_kind ∷ []

-- An attribute block with a mode alone.
abbrev pub read_mode : Wire ℕ
read_mode = read_u32 >>= λ flags. guard (eqb flags attr_permissions) unexpected_type >> read_u32

abbrev pub read_asks : ℕ → Wire Asks
read_asks kind =
    if is_one_of one_text kind
    then (read_bytes >>= λ value. pure (about_one kind value))
    else if is_one_of text_and_mode kind
    then (read_bytes >>= λ value. read_mode >>= λ mode. pure (set_mode kind value mode))
    else if eqb kind open_kind
    then (read_bytes >>= λ path.
        read_u32 >>= λ flags. read_mode >>= λ mode. pure (open_file path flags mode))
    else if eqb kind write_kind
    then (read_bytes >>= λ handle.
        read_u64 >>= λ offset. read_bytes >>= λ content. pure (write_at handle offset content))
    else if eqb kind rename_kind
    then (read_bytes >>= λ from. read_bytes >>= λ to. pure (rename_to from to))
    else lift (err unexpected_type)

abbrev pub read_request : Wire (ℕ × Asks)
read_request = read_u8 >>= λ kind. read_u32 >>= λ id. read_asks kind >>= λ asks. pure (id, asks)

abbrev whole : Result ((ℕ × Asks) × List ℕ) WireError → Result (ℕ × Asks) WireError
whole (err e) = err e
whole (ok (request, [])) = ok request
whole (ok (request, b ∷ left)) = err past_the_end

abbrev as_long : Result ℕ WireError → List ℕ → Result (ℕ × Asks) WireError
as_long (err e) body = err e
as_long (ok count) body =
    if eqb count (length body) then whole (read_request body) else err past_the_end

-- A packet with nothing behind it, as a server reads it.
unfoldable pub read_packet : List ℕ → Result (ℕ × Asks) WireError
unfolding packet_length take_bytes read_bytes
read_packet packet = as_long (packet_length (take 4 packet)) (drop 4 packet)

byte-Takes : (b : ℕ) → b < 256 → Takes read_u8 (b ∷ []) b
unfolding from_be
byte-Takes b h =
    let same : be_bytes 1 b ≡ b ∷ [] =
      ap (be_bytes 1) (omega arith) ∙ be_bytes-from_be 1 (b ∷ []) refl (h, tt) in
    record {
      taken = λ rest.
          subst (λ bytes. read_u8 (bytes ++ rest) ≡ ok (b, rest)) same
            (take_be-be_bytes ended_early 1 b rest (omega (arith, h)));
    }

pub request-Takes :
    (kind id : ℕ) {part : List ℕ} {asks : Asks}
    → kind < 256
    → id < 256 ^ 4
    → Takes (read_asks kind) part asks
    → Takes read_request (with_id kind id ++ part) (id, asks)
unfolding with_id
request-Takes kind id {part} {asks} h k read =
    >>=-Takes (λ kind. read_u32 >>= λ id. read_asks kind >>= λ asks. pure (id, asks))
      {front = kind ∷ []} {back = be_bytes 4 id ++ part} (byte-Takes kind h)
      (>>=-Takes (λ id. read_asks kind >>= λ asks. pure (id, asks)) (u32-Takes id k)
        (>>=-pure-Takes (λ asks. (id, asks)) read))

pub mode-Takes : (mode : ℕ) → mode < 256 ^ 4 → Takes read_mode (permissions mode) mode
unfolding permissions
mode-Takes mode h =
    >>=-Takes (λ flags. guard (eqb flags attr_permissions) unexpected_type >> read_u32)
      (u32-Takes attr_permissions (omega arith))
      (record { taken = λ rest. (u32-Takes mode h).taken rest })

-- The length in front of a packet that is no larger than one may be is that of the rest, which is read as a whole.
pub read_packet-finish :
    (body : List ℕ) (request : ℕ × Asks)
    → 0 < length body
    → length body ≤ max_packet
    → Takes read_request body request
    → read_packet (finish body) ≡ ok request
unfolding read_packet finish
read_packet-finish body request pos small read =
    let header = be_bytes 4 (length body) in
    let width = length-be_bytes 4 (length body) in
    let front : take 4 (header ++ body) ≡ header =
      subst (λ n. take n (header ++ body) ≡ header) width (take-append_self header body) in
    let back : drop 4 (header ++ body) ≡ body =
      subst (λ n. drop n (header ++ body) ≡ body) width (drop-append_self header body) in
    let nonzero : eqb (length body) 0 ≡ false = ground arith in
    let same : eqb (length body) (length body) ≡ true =
      (eqb_iff (length body) (length body)).1 refl in
    let count : packet_length header ≡ ok (length body) =
      rw
        (
          from_be-be_bytes 4 (length body) (omega (arith, small)),
          nonzero,
          le→not_ltb max_packet (length body) small,
        )
        refl in
    let all : read_request body ≡ ok (request, []) =
      subst (λ bytes. read_request bytes ≡ ok (request, [])) (append-nil body) (read.taken []) in
    ap (λ b. as_long (packet_length b) (drop 4 (header ++ body))) front
    ∙ ap (λ b. as_long (packet_length header) b) back
    ∙ ap (λ r. as_long r body) count
    ∙ rw (same, all) refl
