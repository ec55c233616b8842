-- ===== src/Universal/Bundle.antt =====
-- crates/clift-core/src/universal/bundle.rs: the frame inside a sealed object. The cursor `Reader` is the
-- list of the bytes that it has not read; a `usize` has 64 bits.
pub mod Strict
pub mod Canonical
pub mod RoundTrip
use clift.Base.{ℕ, zero, suc, not, List, [], ◌∷◌, ◌++◌, Option, none, some}
use clift.Base.{ltb, leb, eqb, if◌then◌else◌, length, Str, Result, ok, err}
use clift.Base.Bytes.{be_bytes}
use clift.Base.Fallible
use clift.Base.Fallible.{map_err}
use clift.Base.Reader.{Reads, ◌>>=◌, ◌>>◌, lift, pure, guard, take_bytes, take_be}
use clift.Base.Utf8.{utf8, from_utf8}
use clift.Domain.SafeName
use clift.Error.{CliftError, ErrorKind, relay_error}
use clift.Universal.Media

-- A `BundleEntry`, whose name is a `SafeFileName`.
pub record Entry : Type 0 where
  pub name : Str
  pub media_type : Str
  pub content : List ℕ

-- `MAX_ENTRIES`
abbrev pub max_entries : ℕ
max_entries = 20

-- `MAX_MEDIA_TYPE_LEN`
abbrev pub max_media_type_len : ℕ
max_media_type_len = 127

abbrev pub malformed : CliftError
malformed = relay_error ErrorKind.integrity_failure

abbrev pub limit_exceeded : CliftError
limit_exceeded = relay_error ErrorKind.limit_exceeded

-- `BundleEntry::new`
unfoldable pub new_entry : Str → Str → List ℕ → Result Entry CliftError
new_entry name media_type content =
    Fallible.◌>>=◌ (Media.check media_type name)
      (λ checked. ok (record { name = name; media_type = media_type; content = content }))

-- What `push_short` appends.
unfoldable pub short : List ℕ → Result (List ℕ) CliftError
short bytes =
    if ltb 0xffff (length bytes) then err malformed else ok (be_bytes 2 (length bytes) ++ bytes)

-- What one round of the loop appends, in front of what the later rounds do.
abbrev pub join : List ℕ → List ℕ → List ℕ → List ℕ → List ℕ
join name media_type content later =
    name ++ (media_type ++ (be_bytes 8 (length content) ++ (content ++ later)))

unfoldable pub encode_entries : List Entry → Result (List ℕ) CliftError
unfolding short
encode_entries [] = ok []
encode_entries (e ∷ entries) = Fallible.◌>>=◌ (short (utf8 e.name)) λ name.
    Fallible.◌>>=◌ (short (utf8 e.media_type)) λ media_type.
      Fallible.◌>>=◌ (encode_entries entries) λ later. ok (join name media_type e.content later)

unfoldable pub encode : List Entry → Result (List ℕ) CliftError
unfolding encode_entries
encode [] = err malformed
encode (e ∷ entries) =
    if ltb max_entries (length (e ∷ entries))
    then err limit_exceeded
    else Fallible.◌>>=◌ (encode_entries (e ∷ entries))
        (λ later. ok (be_bytes 1 (length (e ∷ entries)) ++ later))

abbrev pub text_of : Option Str → Result Str CliftError
text_of none = err malformed
text_of (some text) = ok text

-- `Reader::short_text`
unfoldable pub short_text : ℕ → Reads Str CliftError
unfolding take_bytes take_be
short_text limit = do
  size ← take_be malformed 2
  guard (not (eqb size 0)) malformed
  guard (leb size limit) malformed
  bytes ← take_bytes malformed size
  lift (text_of (from_utf8 bytes))

-- `SafeFileName::new` with its error attributed to the relay, and `BundleEntry::new`.
unfoldable pub checked_entry : Str → Str → List ℕ → Result Entry CliftError
unfolding new_entry
checked_entry name media_type content =
    Fallible.◌>>=◌ (map_err (λ e. malformed) (SafeName.new name))
      (λ safe. new_entry safe media_type content)

-- One round of the loop of `decode`.
unfoldable pub decode_entry : Reads Entry CliftError
unfolding short_text checked_entry take_be take_bytes
decode_entry = do
  name ← short_text SafeName.max_len
  media_type ← short_text max_media_type_len
  size ← take_be malformed 8
  content ← take_bytes malformed size
  lift (checked_entry name media_type content)

unfoldable pub decode_entries : ℕ → Reads (List Entry) CliftError
unfolding decode_entry
decode_entries zero = pure []
decode_entries (suc count) = do e ← decode_entry; entries ← decode_entries count; pure (e ∷ entries)

unfoldable pub decode_all : Reads (List Entry) CliftError
unfolding decode_entries take_be
decode_all = do
  count ← take_be malformed 1
  guard (not (eqb count 0)) malformed
  guard (leb count max_entries) limit_exceeded
  decode_entries count

-- Nothing may be left behind the last entry.
abbrev pub complete : Result (List Entry × List ℕ) CliftError → Result (List Entry) CliftError
complete (ok (entries, [])) = ok entries
complete (ok (entries, b ∷ left)) = err malformed
complete (err e) = err e

unfoldable pub decode : List ℕ → Result (List Entry) CliftError
unfolding decode_all
decode frame = complete (decode_all frame)
