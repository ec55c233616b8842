-- ===== src/Sftp/Wire.antt =====
-- crates/clift-transport/src/wire.rs: the packets of SFTP version 3. A cursor is the bytes that are left; an error is the
-- reason without its numbers, and `from_utf8_lossy` is the standard library's and an argument.
pub mod Kind
pub mod Build
pub mod Served
pub mod Asked
pub mod Framed
pub mod Greeting
mod Tests
pub use Kind.*
use clift.Base.{
  ℕ, zero, suc, ◌+◌, ◌*◌, ◌/◌, ◌^◌, bit_and, Bool, true, false, not, Option, none, some, List, [],
  ◌∷◌, ◌++◌,
}
use clift.Base.{ltb, leb, eqb, if◌then◌else◌, length, Str, Result, ok, err}
use clift.Base.Bytes.{be_bytes, from_be}
use clift.Base.Reader.{Reads, ◌>>=◌, ◌>>◌, lift, pure, guard, take_bytes, take_be}
use clift.Base.Utf8.{utf8}

-- `VERSION`, `MAX_PACKET` and `WRITE_CHUNK`
abbrev pub version : ℕ
version = 3

abbrev pub max_packet : ℕ
max_packet = 256 * 1024

abbrev pub write_chunk : ℕ
write_chunk = 32 * 1024

-- The bits of the flags of an attribute block, and of those of an `OPEN`.
abbrev pub attr_size : ℕ
attr_size = 0x1

abbrev pub attr_uidgid : ℕ
attr_uidgid = 0x2

abbrev pub attr_permissions : ℕ
attr_permissions = 0x4

abbrev pub attr_acmodtime : ℕ
attr_acmodtime = 0x8

abbrev pub attr_extended : ℕ
attr_extended = 0x80000000

abbrev pub open_write : ℕ
open_write = 0x2

abbrev pub open_create : ℕ
open_create = 0x8

abbrev pub open_exclusive_flag : ℕ
open_exclusive_flag = 0x20

pub data WireError : Type 0 where
  empty_packet packet_too_large not_a_version too_many_names unexpected_type : WireError
  past_the_end ended_early : WireError

pub record Attrs : Type 0 where
  pub size : Option ℕ
  pub permissions : Option ℕ
  pub mtime : Option ℕ

pub record NameEntry : Type 0 where
  pub filename : List ℕ
  pub attrs : Attrs

pub data Reply : Type 0 where
  status_reply : ℕ → ℕ → Str → Reply
  handle_reply : ℕ → List ℕ → Reply
  name_reply : ℕ → List NameEntry → Reply
  attrs_reply : ℕ → Attrs → Reply

-- `Reply::id`
abbrev pub id_of : Reply → ℕ
id_of (status_reply id code message) = id
id_of (handle_reply id handle) = id
id_of (name_reply id entries) = id
id_of (attrs_reply id attrs) = id

-- `packet_length`, of the four bytes of a header.
unfoldable pub packet_length : List ℕ → Result ℕ WireError
unfolding from_be
packet_length header =
    let length = from_be header in
    if eqb length 0
    then err empty_packet
    else if ltb max_packet length
    then err packet_too_large
    else ok length

abbrev pub Wire : Type 0 → Type 0
Wire A = Reads A WireError

abbrev pub read_u8 : Wire ℕ
read_u8 = take_be ended_early 1

abbrev pub read_u32 : Wire ℕ
read_u32 = take_be ended_early 4

abbrev pub read_u64 : Wire ℕ
read_u64 = take_be ended_early 8

-- `Reader::bytes`
unfoldable pub read_bytes : Wire (List ℕ)
unfolding take_be take_bytes
read_bytes = read_u32 >>= λ length. take_bytes ended_early length

abbrev pub has : ℕ → ℕ → Bool
has flags bit = not (eqb (bit_and flags bit) 0)

abbrev pub optional : {A : Type 0} → Bool → Wire A → Wire (Option A)
optional true read = read >>= λ a. pure (some a)
optional false read = pure none

abbrev pub unit_after : {A : Type 0} → Wire A → Wire (Unit {0})
unit_after read = read >>= λ a. pure tt

abbrev pub when : Bool → Wire (Unit {0}) → Wire (Unit {0})
when true read = read
when false read = pure tt

-- `count` pairs of texts.
unfoldable pub skip_pairs : ℕ → Wire (Unit {0})
unfolding read_bytes
skip_pairs zero = pure tt
skip_pairs (suc count) = unit_after read_bytes >> unit_after read_bytes >> skip_pairs count

-- `Reader::attrs`
unfoldable pub read_attrs : Wire Attrs
unfolding take_be skip_pairs
read_attrs = read_u32 >>= λ flags. optional (has flags attr_size) read_u64 >>= λ size.
    when (has flags attr_uidgid) (unit_after read_u32 >> unit_after read_u32)
    >> optional (has flags attr_permissions) read_u32
    >>= λ permissions.
        optional (has flags attr_acmodtime) (unit_after read_u32 >> read_u32) >>= λ mtime.
        when (has flags attr_extended) (read_u32 >>= λ count. skip_pairs count)
        >> pure (record { size = size; permissions = permissions; mtime = mtime })

abbrev pub read_entry : Wire NameEntry
read_entry = read_bytes >>= λ filename. read_bytes >>= λ longname.
    read_attrs >>= λ attrs. pure (record { filename = filename; attrs = attrs })

-- The loop over the names.
unfoldable pub read_entries : ℕ → Wire (List NameEntry)
unfolding read_bytes read_attrs
read_entries zero = pure []
read_entries (suc count) =
    read_entry >>= λ entry. read_entries count >>= λ entries. pure (entry ∷ entries)

-- A read that is left out at the end of the packet.
abbrev pub unless_empty : {A : Type 0} → A → Wire A → Wire A
unless_empty a read [] = ok (a, [])
unless_empty a read (b ∷ left) = read (b ∷ left)

-- `Reader::remaining`
abbrev pub remaining : Wire ℕ
remaining left = ok (length left, left)

module _ (from_utf8_lossy : List ℕ → Str) where
  abbrev pub read_status : ℕ → Wire Reply
  read_status id = read_u32 >>= λ code.
      unless_empty [] (read_bytes >>= λ bytes. pure (from_utf8_lossy bytes)) >>= λ message.
      unless_empty tt (unit_after read_bytes) >> pure (status_reply id code message)

  abbrev pub read_name : ℕ → Wire Reply
  read_name id = read_u32 >>= λ count. remaining >>= λ room.
      guard (leb count (room / 12)) too_many_names >> read_entries count >>= λ entries.
      pure (name_reply id entries)

  abbrev pub read_kind : ℕ → ℕ → Wire Reply
  read_kind kind id =
      if eqb kind status_kind
      then read_status id
      else if eqb kind handle_kind
      then (read_bytes >>= λ handle. pure (handle_reply id handle))
      else if eqb kind name_kind
      then read_name id
      else if eqb kind attrs_kind
      then (read_attrs >>= λ attrs. pure (attrs_reply id attrs))
      else lift (err unexpected_type)

  abbrev pub at_end : Result (Reply × List ℕ) WireError → Result Reply WireError
  at_end (err e) = err e
  at_end (ok (reply, [])) = ok reply
  at_end (ok (reply, b ∷ left)) = err past_the_end

  unfoldable pub decode_reply : List ℕ → Result Reply WireError
  unfolding take_be read_bytes read_attrs read_entries
  decode_reply body = at_end ((read_u8 >>= λ kind. read_u32 >>= λ id. read_kind kind id) body)

-- The extension pairs of a greeting, to the end of the packet. The caller gives as many rounds as there are bytes, and each
-- round takes eight bytes or more, so that the clause for no round left, which the source does not have, is never reached.
unfoldable pub skip_extensions : ℕ → Wire (Unit {0})
unfolding read_bytes
skip_extensions room [] = ok (tt, [])
skip_extensions zero (b ∷ left) = err ended_early
skip_extensions (suc room) (b ∷ left) =
    (unit_after read_bytes >> unit_after read_bytes >> skip_extensions room) (b ∷ left)

abbrev pub value_of : Result (ℕ × List ℕ) WireError → Result ℕ WireError
value_of (ok (n, left)) = ok n
value_of (err e) = err e

unfoldable pub decode_version : List ℕ → Result ℕ WireError
unfolding take_be skip_extensions
decode_version body = value_of (
    (read_u8 >>= λ kind. guard (eqb kind version_reply) not_a_version >> read_u32 >>= λ version.
    skip_extensions (length body) >> pure version)
      body)
