-- ===== src/Universal/Bundle/RoundTrip.antt =====
-- What `decode` of bundle.rs makes of what `encode` wrote.
use clift.Base.{
  ℕ, ◌^◌, ◌≤◌, ◌<◌, ◌≡◌, refl, sym, ap, ◌∙◌, false, List, [], ◌∷◌, ◌++◌, append_assoc, append-nil,
  arith,
}
use clift.Base.{eqb, le→not_ltb, le→leb, length, Str, ok, All}
use clift.Base.Bytes.{be_bytes}
use clift.Base.Reader.{>>=-ok, take_bytes, take_be, take_bytes-append, take_be-be_bytes}
use clift.Base.Utf8.{utf8, from_utf8-utf8, length-utf8, len, IsChar}
use clift.Domain.SafeName.{new, IsSafe, max_len}
use clift.Domain.SafeName.Repair.{facts}
use clift.Universal.Media
use clift.Universal.Bundle.{
  Entry, malformed, max_media_type_len, max_entries, short, short_text, decode_entry,
  decode_entries, decode_all, decode, encode, encode_entries, checked_entry, new_entry, join,
  complete,
}

-- What `BundleEntry::new` checked, what a Rust `str` and `Vec` are, and the longest media type that
-- the decoder reads.
pub record IsValid (e : Entry) : Type 0 where
  pub safe : IsSafe e.name
  pub agrees : Media.check e.media_type e.name ≡ ok tt
  pub name_chars : All IsChar e.name
  pub media_chars : All IsChar e.media_type
  pub media_short : len e.media_type ≤ max_media_type_len
  pub content_fits : length e.content < 2 ^ 64

not_zero : (n : ℕ) → 0 < n → eqb n 0 ≡ false
not_zero n h = ground arith

short_text-utf8 :
    (limit : ℕ) (text : Str) (rest : List ℕ)
    → All IsChar text
    → 0 < len text
    → len text ≤ limit
    → len text < 2 ^ 16
    → short_text limit (be_bytes 2 (length (utf8 text)) ++ (utf8 text ++ rest)) ≡ ok (text, rest)
unfolding short_text
short_text-utf8 limit text rest chars pos fits small =
    let size = length-utf8 text in
    >>=-ok (take_be malformed 2) _ _
      (take_be-be_bytes malformed 2 (length (utf8 text)) (utf8 text ++ rest) (omega arith))
    ∙ rw
        (
          not_zero (length (utf8 text)) (omega arith),
          le→leb (length (utf8 text)) limit (omega arith),
        )
        (>>=-ok (take_bytes malformed (length (utf8 text))) _ _
            (take_bytes-append malformed (utf8 text) rest)
          ∙ rw (from_utf8-utf8 text chars))

media_nonempty : (media_type name : Str) → Media.check media_type name ≡ ok tt → 0 < len media_type
unfolding len
media_nonempty [] name h = absurd (unfold Media.check in cc h)
media_nonempty (c ∷ s) name h = ground arith

name_nonempty : (name : Str) → IsSafe name → 0 < len name
unfolding len
name_nonempty [] safe = absurd (unfold new in cc safe)
name_nonempty (c ∷ s) safe = ground arith

checked_entry-IsValid : (e : Entry) → IsValid e → checked_entry e.name e.media_type e.content ≡ ok e
unfolding checked_entry new_entry
checked_entry-IsValid e v = rw (v.safe, v.agrees)

abbrev pub prefixed : Str → List ℕ
prefixed text = be_bytes 2 (length (utf8 text)) ++ utf8 text

-- The bytes of one entry, in front of those of the later ones.
abbrev pub entry_bytes : Entry → List ℕ → List ℕ
entry_bytes e later = join (prefixed e.name) (prefixed e.media_type) e.content later

abbrev pub frame_of : List Entry → List ℕ
frame_of [] = []
frame_of (e ∷ entries) = entry_bytes e (frame_of entries)

short-prefixed : (text : Str) → len text ≤ 255 → short (utf8 text) ≡ ok (prefixed text)
unfolding short
short-prefixed text h = ground (arith, length-utf8 text)

encode_entries-frame_of :
    (entries : List Entry) → All IsValid entries → encode_entries entries ≡ ok (frame_of entries)
unfolding encode_entries
encode_entries-frame_of [] h = refl
encode_entries-frame_of (e ∷ entries) (v, h) = rw (
  short-prefixed e.name ((facts e.name v.safe).short),
  short-prefixed e.media_type (omega (arith, v.media_short)),
  encode_entries-frame_of entries h,
)

-- What an entry is followed by does not matter to how it reads.
decode_entry-entry_bytes :
    (e : Entry) (rest : List ℕ) → IsValid e → decode_entry (entry_bytes e rest) ≡ ok (e, rest)
unfolding decode_entry
decode_entry-entry_bytes e rest v =
    let name_short : len e.name ≤ max_len = (facts e.name v.safe).short in
    let media_short : len e.media_type ≤ max_media_type_len = v.media_short in
    let tail = be_bytes 8 (length e.content) ++ (e.content ++ rest) in
    rw
      (
        append_assoc (be_bytes 2 (length (utf8 e.name))) (utf8 e.name)
            (prefixed e.media_type ++ tail),
        append_assoc (be_bytes 2 (length (utf8 e.media_type))) (utf8 e.media_type) tail,
      )
      (>>=-ok (short_text max_len) _ _ (
          short_text-utf8 max_len e.name _ v.name_chars (name_nonempty e.name v.safe) name_short
            (omega arith))
        ∙ >>=-ok (short_text max_media_type_len) _ _ (
            short_text-utf8 max_media_type_len e.media_type _ v.media_chars
              (media_nonempty e.media_type e.name v.agrees) media_short (omega arith))
        ∙ >>=-ok (take_be malformed 8) _ _
            (take_be-be_bytes malformed 8 (length e.content) (e.content ++ rest) v.content_fits)
        ∙ >>=-ok (take_bytes malformed (length e.content)) _ _
            (take_bytes-append malformed e.content rest)
        ∙ rw (checked_entry-IsValid e v))

pub frame_of-append :
    (e : Entry) (entries : List Entry) (rest : List ℕ)
    → frame_of (e ∷ entries) ++ rest ≡ entry_bytes e (frame_of entries ++ rest)
frame_of-append e entries rest = simp (append_assoc)

decode_entries-frame_of :
    (entries : List Entry) (rest : List ℕ)
    → All IsValid entries
    → decode_entries (length entries) (frame_of entries ++ rest) ≡ ok (entries, rest)
unfolding decode_entries
decode_entries-frame_of [] rest h = refl
decode_entries-frame_of (e ∷ entries) rest (v, h) = rw (frame_of-append e entries rest) (
    >>=-ok decode_entry _ _ (decode_entry-entry_bytes e (frame_of entries ++ rest) v)
    ∙ >>=-ok (decode_entries (length entries)) _ _ (decode_entries-frame_of entries rest h))

decode_all-frame_of :
    (entries : List Entry) (rest : List ℕ)
    → All IsValid entries
    → 0 < length entries
    → length entries ≤ max_entries
    → decode_all (be_bytes 1 (length entries) ++ (frame_of entries ++ rest)) ≡ ok (entries, rest)
unfolding decode_all
decode_all-frame_of entries rest h pos few =
    >>=-ok (take_be malformed 1) _ _
      (take_be-be_bytes malformed 1 (length entries) (frame_of entries ++ rest) (omega arith))
    ∙ rw (not_zero (length entries) pos, le→leb (length entries) max_entries few)
        (decode_entries-frame_of entries rest h)

pub encode-frame_of :
    (entries : List Entry)
    → All IsValid entries
    → 0 < length entries
    → length entries ≤ max_entries
    → encode entries ≡ ok (be_bytes 1 (length entries) ++ frame_of entries)
unfolding encode
encode-frame_of [] h pos few = absurd (omega arith)
encode-frame_of (e ∷ entries) h pos few =
    rw (encode_entries-frame_of (e ∷ entries) h, le→not_ltb max_entries (length (e ∷ entries)) few)

-- One to twenty valid entries are encoded, and the frame decodes to the same entries in the same
-- order.
pub decode-encode :
    (entries : List Entry)
    → All IsValid entries
    → 0 < length entries
    → length entries ≤ max_entries
    → (frame : List ℕ) × (encode entries ≡ ok frame) × (decode frame ≡ ok entries)
unfolding decode
decode-encode entries h pos few = (
  be_bytes 1 (length entries) ++ frame_of entries,
  encode-frame_of entries h pos few,
  complete_decode,
)
  where
    complete_decode : decode (be_bytes 1 (length entries) ++ frame_of entries) ≡ ok entries
    complete_decode = ap complete (
        ap (λ bytes. decode_all (be_bytes 1 (length entries) ++ bytes))
          (sym (append-nil (frame_of entries)))
        ∙ decode_all-frame_of entries [] h pos few)
