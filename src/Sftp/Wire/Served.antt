-- ===== src/Sftp/Wire/Served.antt =====
-- The replies as a server of the protocol's draft writes them, and what is read of them.
pub mod Attributes
use clift.Base.{
  ℕ, zero, suc, ◌+◌, ◌*◌, ◌/◌, ◌^◌, ◌<◌, ◌≤◌, ◌≡◌, refl, sym, ap, ◌∙◌, subst, arith, Bool, true,
  false, Option, none, some, List, [], ◌∷◌, ◌++◌, append_assoc, append-nil,
}
use clift.Base.{
  ltb, leb, eqb, le→leb, if◌then◌else◌, length, length-append, Str, Result, ok, err, All,
}
use clift.Base.Bytes.{be_bytes, length-be_bytes}
use clift.Base.Reader.{
  Reads, ◌>>=◌, ◌>>◌, pure, guard, Takes, pure-Takes, >>=-Takes, >>=-pure-Takes, >>=-ok,
  take_be-be_bytes, take_bytes-append,
}
use clift.Sftp.Wire
use clift.Sftp.Wire.{
  Wire, WireError, ended_early, too_many_names, Attrs, NameEntry, Reply, status_reply, handle_reply,
  name_reply, attrs_reply, read_u8, read_u32, read_bytes, read_attrs, read_entry, read_entries,
  read_name, read_status, read_kind, remaining, unless_empty, unit_after, at_end, decode_reply,
}
use clift.Sftp.Wire.Build.{field}
use clift.Sftp.Wire.Kind.{status_kind, handle_kind, name_kind, attrs_kind}
use clift.Sftp.Wire.Served.Attributes.{
  Block, IsBlock, block_bytes, kept, flags, block_parts, Fits, block-Takes, field-Takes, u32-Takes,
  unit_after-Takes,
}

-- A name of a listing, with the line that a server makes for people.
pub record Listing : Type 0 where
  pub filename : List ℕ
  pub longname : List ℕ
  pub attrs : Block

pub record IsListing (l : Listing) : Type 0 where
  pub filename : Fits l.filename
  pub longname : Fits l.longname
  pub attrs : IsBlock l.attrs

-- What a server says, of which the language tag of a status is not kept.
pub data Answer : Type 0 where
  status_answer : ℕ → List ℕ → List ℕ → Answer
  handle_answer : List ℕ → Answer
  name_answer : List Listing → Answer
  attrs_answer : Block → Answer

abbrev pub IsAnswer : Answer → Type 0
IsAnswer (status_answer code message tag) = (code < 256 ^ 4) × Fits message × Fits tag
IsAnswer (handle_answer handle) = Fits handle
IsAnswer (name_answer listings) = (length listings < 256 ^ 4) × All IsListing listings
IsAnswer (attrs_answer attrs) = IsBlock attrs

abbrev pub listing_bytes : Listing → List ℕ
listing_bytes l = field l.filename ++ (field l.longname ++ block_bytes l.attrs)

abbrev pub listings_bytes : List Listing → List ℕ
listings_bytes [] = []
listings_bytes (l ∷ listings) = listing_bytes l ++ listings_bytes listings

-- The bytes of an answer, behind its type and its id.
abbrev pub answer_bytes : Answer → List ℕ
answer_bytes (status_answer code message tag) = be_bytes 4 code ++ (field message ++ field tag)
answer_bytes (handle_answer handle) = field handle
answer_bytes (name_answer listings) = be_bytes 4 (length listings) ++ listings_bytes listings
answer_bytes (attrs_answer attrs) = block_bytes attrs

abbrev pub kind_of : Answer → ℕ
kind_of (status_answer code message tag) = status_kind
kind_of (handle_answer handle) = handle_kind
kind_of (name_answer listings) = name_kind
kind_of (attrs_answer attrs) = attrs_kind

abbrev pub packet : ℕ → Answer → List ℕ
packet id answer = be_bytes 1 (kind_of answer) ++ (be_bytes 4 id ++ answer_bytes answer)

abbrev pub entry_of : Listing → NameEntry
entry_of l = record { filename = l.filename; attrs = kept l.attrs }

abbrev pub entries_of : List Listing → List NameEntry
entries_of [] = []
entries_of (l ∷ listings) = entry_of l ∷ entries_of listings

module _ (from_utf8_lossy : List ℕ → Str) where
  abbrev pub reply_of : ℕ → Answer → Reply
  reply_of id (status_answer code message tag) = status_reply id code (from_utf8_lossy message)
  reply_of id (handle_answer handle) = handle_reply id handle
  reply_of id (name_answer listings) = name_reply id (entries_of listings)
  reply_of id (attrs_answer attrs) = attrs_reply id (kept attrs)

entry-Takes : (l : Listing) → IsListing l → Takes read_entry (listing_bytes l) (entry_of l)
entry-Takes l h =
    >>=-Takes
      (λ filename. read_bytes >>= λ longname.
        read_attrs >>= λ attrs. pure (record { filename = filename; attrs = attrs }))
      (field-Takes l.filename h.filename)
      (>>=-Takes
        (λ longname. read_attrs >>= λ attrs. pure (record { filename = l.filename; attrs = attrs }))
        (field-Takes l.longname h.longname)
        (>>=-pure-Takes (λ attrs. record { filename = l.filename; attrs = attrs })
          (block-Takes l.attrs h.attrs)))

entries-Takes :
    (listings : List Listing)
    → All IsListing listings
    → Takes (read_entries (length listings)) (listings_bytes listings) (entries_of listings)
unfolding read_entries
entries-Takes [] h = pure-Takes []
entries-Takes (l ∷ listings) (p, h) =
    >>=-Takes (λ entry. read_entries (length listings) >>= λ entries. pure (entry ∷ entries))
      (entry-Takes l p)
      (>>=-pure-Takes (λ entries. entry_of l ∷ entries) (entries-Takes listings h))

length-field : (bytes : List ℕ) → length (field bytes) ≡ 4 + length bytes
unfolding field
length-field bytes =
    omega (arith, length-append (be_bytes 4 (length bytes)) bytes, length-be_bytes 4 (length bytes))

length-block_bytes : (a : Block) → 4 ≤ length (block_bytes a)
length-block_bytes a =
    omega (arith, length-append (be_bytes 4 (flags a)) (block_parts a), length-be_bytes 4 (flags a))

-- Each name takes twelve bytes or more.
length-listings_bytes :
    (listings : List Listing) → 12 * length listings ≤ length (listings_bytes listings)
length-listings_bytes [] = omega arith
length-listings_bytes (l ∷ listings) = omega (
  arith,
  length-append (listing_bytes l) (listings_bytes listings),
  length-append (field l.filename) (field l.longname ++ block_bytes l.attrs),
  length-append (field l.longname) (block_bytes l.attrs),
  length-field l.filename,
  length-field l.longname,
  length-block_bytes l.attrs,
  length-listings_bytes listings,
)

unless_empty-Takes :
    {A : Type 0} (default : A) {read : Wire A} (bytes : List ℕ) {a : A}
    → 0 < length bytes
    → Takes read bytes a
    → Takes (unless_empty default read) bytes a
unless_empty-Takes default [] pos h = absurd (omega arith)
unless_empty-Takes default (b ∷ bytes) pos h = record { taken = λ rest. h.taken rest }

module _ (from_utf8_lossy : List ℕ → Str) where
  status-Takes :
      (id code : ℕ) (message tag : List ℕ)
      → IsAnswer (status_answer code message tag)
      → Takes
          (read_status from_utf8_lossy id)
          (answer_bytes (status_answer code message tag))
          (status_reply id code (from_utf8_lossy message))
  status-Takes id code message tag (p, q, r) =
      >>=-Takes
        (λ code.
          unless_empty [] (read_bytes >>= λ bytes. pure (from_utf8_lossy bytes)) >>= λ message.
          unless_empty tt (unit_after read_bytes) >> pure (status_reply id code message))
        (u32-Takes code p)
        (>>=-Takes
          (λ message.
            unless_empty tt (unit_after read_bytes) >> pure (status_reply id code message))
          (unless_empty-Takes [] (field message) (omega (arith, length-field message))
            (>>=-pure-Takes from_utf8_lossy (field-Takes message q)))
          (>>=-pure-Takes (λ _. status_reply id code (from_utf8_lossy message))
            (unless_empty-Takes tt (field tag) (omega (arith, length-field tag))
              (unit_after-Takes (field-Takes tag r)))))

  abbrev names_read : ℕ → ℕ → Wire Reply
  names_read id count = remaining >>= λ room.
      guard (leb count (room / 12)) too_many_names >> read_entries count >>= λ entries.
      pure (name_reply id entries)

  names-Takes :
      (id : ℕ) (listings : List Listing)
      → All IsListing listings
      → Takes
          (names_read id (length listings))
          (listings_bytes listings)
          (name_reply id (entries_of listings))
  names-Takes id listings h = record {
    taken = λ rest.
        let bytes = listings_bytes listings in
        let room : leb (length listings) (length (bytes ++ rest) / 12) ≡ true =
          le→leb (length listings) (length (bytes ++ rest) / 12)
            (omega (arith, length-append bytes rest, length-listings_bytes listings)) in
        rw room (
          (>>=-pure-Takes (λ entries. name_reply id entries) (entries-Takes listings h)).taken
            rest);
  }

  reply-Takes :
      (id : ℕ) (answer : Answer)
      → IsAnswer answer
      → Takes
          (read_kind from_utf8_lossy (kind_of answer) id)
          (answer_bytes answer)
          (reply_of from_utf8_lossy id answer)
  reply-Takes id (status_answer code message tag) h = status-Takes id code message tag h
  reply-Takes id (handle_answer handle) h =
      >>=-pure-Takes (λ handle. handle_reply id handle) (field-Takes handle h)
  reply-Takes id (name_answer listings) (p, h) =
      >>=-Takes (names_read id) (u32-Takes (length listings) p) (names-Takes id listings h)
  reply-Takes id (attrs_answer attrs) h =
      >>=-pure-Takes (λ attrs. attrs_reply id attrs) (block-Takes attrs h)

  kind-Takes : (answer : Answer) → Takes read_u8 (be_bytes 1 (kind_of answer)) (kind_of answer)
  kind-Takes answer = record {
    taken = λ rest. take_be-be_bytes ended_early 1 (kind_of answer) rest (small answer);
  }
    where
      small : (answer : Answer) → kind_of answer < 256 ^ 1
      small (status_answer code message tag) = omega arith
      small (handle_answer handle) = omega arith
      small (name_answer listings) = omega arith
      small (attrs_answer attrs) = omega arith

-- The packet of an answer, with everything in it of the width that it is written with, is read back as that answer under
-- its id, with nothing left over: its code and message, its handle, its names with their attributes, or its attributes.
pub decode_reply-packet :
    (from_utf8_lossy : List ℕ → Str) (id : ℕ) (answer : Answer)
    → id < 256 ^ 4
    → IsAnswer answer
    → decode_reply from_utf8_lossy (packet id answer) ≡ ok (reply_of from_utf8_lossy id answer)
unfolding decode_reply
decode_reply-packet from_utf8_lossy id answer h v =
    let whole =
      >>=-Takes (λ kind. read_u32 >>= λ id. read_kind from_utf8_lossy kind id)
        (kind-Takes from_utf8_lossy answer)
        (>>=-Takes (read_kind from_utf8_lossy (kind_of answer)) (u32-Takes id h)
          (reply-Takes from_utf8_lossy id answer v)) in
    ap (at_end from_utf8_lossy) (
      subst
        (λ bytes.
          (read_u8 >>= λ kind. read_u32 >>= λ id. read_kind from_utf8_lossy kind id) bytes
          ≡ ok (reply_of from_utf8_lossy id answer, []))
        (append-nil (packet id answer)) (whole.taken []))
