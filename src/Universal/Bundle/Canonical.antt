-- ===== src/Universal/Bundle/Canonical.antt =====
-- `decode` of bundle.rs accepts nothing but what `encode` writes.
use clift.Base.{
  ℕ, zero, suc, ◌^◌, ◌≤◌, ◌<◌, ◌≡◌, refl, sym, ap, ◌∙◌, true, not, List, [], ◌∷◌, ◌++◌,
  append_assoc, append-nil, arith, Option, none, some, subst,
}
use clift.Base.{leb, eqb, length, Str, Result, ok, err, All}
use clift.Base.Bytes.{be_bytes, IsByte}
use clift.Base.Fallible
use clift.Base.Fallible.{map_err}
use clift.Base.Reader.{
  >>=-eq-ok, guard-eq-ok, lift-eq-ok, take_be_canonical, take_bytes_canonical, take_be, take_bytes,
  pure,
}
use clift.Base.Utf8.{utf8, from_utf8, length-utf8, len, IsChar}
use clift.Base.Utf8.Sound.{from_utf8-eq-some}
use clift.Domain.SafeName.{NameError, new, IsSafe, max_len}
use clift.Domain.SafeName.Repair.{new-eq-ok}
use clift.Error.{CliftError}
use clift.Universal.Media
use clift.Universal.Bundle.{
  Entry, malformed, limit_exceeded, max_media_type_len, max_entries, short_text, decode_entry,
  decode_entries, decode_all, decode, encode, checked_entry, new_entry, text_of,
}
use clift.Universal.Bundle.RoundTrip.{
  IsValid, prefixed, entry_bytes, frame_of, encode-frame_of, frame_of-append,
}
use clift.Universal.Bundle.Strict.{decode_all-eq-ok}

text_of-eq-ok : (o : Option Str) (text : Str) → text_of o ≡ ok text → o ≡ some text
text_of-eq-ok none text h = cc
text_of-eq-ok (some s) text h = ground arith

-- The parts of a short text, put together.
prefixed_whole :
    (left l l' rest bytes : List ℕ) (text : Str) (size : ℕ)
    → left ≡ be_bytes 2 size ++ l
    → l ≡ bytes ++ l'
    → length bytes ≡ size
    → utf8 text ≡ bytes
    → l' ≡ rest
    → left ≡ prefixed text ++ rest
prefixed_whole left l l' rest bytes text size front front' count spelled same =
    rw (front, front', ← count, ← spelled, same)
      (sym (append_assoc (be_bytes 2 (length (utf8 text))) (utf8 text) rest))

fitting :
    (text : Str) (bytes : List ℕ) (size limit : ℕ)
    → length bytes ≡ size
    → utf8 text ≡ bytes
    → leb size limit ≡ true
    → len text ≤ limit
fitting text bytes size limit count spelled fits =
    ground (arith, length-utf8 text, ap length spelled)

short_text_canonical :
    (limit : ℕ) (left : List ℕ) (text : Str) (rest : List ℕ)
    → All IsByte left
    → short_text limit left ≡ ok (text, rest)
    → (left ≡ prefixed text ++ rest) × (len text ≤ limit) × All IsChar text × All IsByte rest
unfolding short_text
short_text_canonical limit left text rest h e =
    let (size, l, e', k) = >>=-eq-ok (take_be malformed 2) _ left e in
    let (front, small, h') = take_be_canonical malformed 2 left size l h e' in
    let (nonzero, k') = guard-eq-ok (not (eqb size 0)) malformed _ l k in
    let (fits, k'') = guard-eq-ok (leb size limit) malformed _ l k' in
    let (bytes, l', e'', m) = >>=-eq-ok (take_bytes malformed size) _ l k'' in
    let (front', count, h'') = take_bytes_canonical malformed size l bytes l' h' e'' in
    let (found, same) = lift-eq-ok (text_of (from_utf8 bytes)) l' text rest m in
    let (spelled, chars) =
      from_utf8-eq-some bytes text (text_of-eq-ok (from_utf8 bytes) text found) in
    (
      prefixed_whole left l l' rest bytes text size front front' count spelled same,
      fitting text bytes size limit count spelled fits,
      chars,
      subst (All IsByte) same h'',
    )

abbrev entry_of : Str → Str → List ℕ → Entry
entry_of name media_type content = record {
  name = name;
  media_type = media_type;
  content = content;
}

new_entry-eq-ok :
    (name media_type : Str) (content : List ℕ) (e : Entry)
    → new_entry name media_type content ≡ ok e
    → (Media.check media_type name ≡ ok tt) × (e ≡ entry_of name media_type content)
unfolding new_entry
new_entry-eq-ok name media_type content e h = go (Media.check media_type name) refl h
  where
    go :
        (c : Result (Unit {0}) CliftError)
        → Media.check media_type name ≡ c
        → Fallible.◌>>=◌ c (λ checked. ok (entry_of name media_type content)) ≡ ok e
        → (Media.check media_type name ≡ ok tt) × (e ≡ entry_of name media_type content)
    go (ok u) q k = (q, ground arith)
    go (err u) q k = cc

checked_entry-eq-ok :
    (name media_type : Str) (content : List ℕ) (e : Entry)
    → checked_entry name media_type content ≡ ok e
    → IsSafe name × (Media.check media_type name ≡ ok tt) × (e ≡ entry_of name media_type content)
unfolding checked_entry
checked_entry-eq-ok name media_type content e h = go (new name) refl h
  where
    go :
        (r : Result Str NameError)
        → new name ≡ r
        → Fallible.◌>>=◌ (map_err (λ e. malformed) r) (λ safe. new_entry safe media_type content)
          ≡ ok e
        → IsSafe name
          × (Media.check media_type name ≡ ok tt)
          × (e ≡ entry_of name media_type content)
    go (ok safe) p k =
        let same : safe ≡ name = new-eq-ok name safe p in
        let (agrees, made) =
          new_entry-eq-ok name media_type content e
            (subst (λ t. new_entry t media_type content ≡ ok e) same k) in
        (p ∙ ap (λ t. ok t) same, agrees, made)
    go (err safe) p k = cc

entry_whole :
    (left l1 l2 l3 l4 rest : List ℕ) (name media_type : Str) (content : List ℕ) (size : ℕ)
    (e : Entry)
    → left ≡ prefixed name ++ l1
    → l1 ≡ prefixed media_type ++ l2
    → l2 ≡ be_bytes 8 size ++ l3
    → l3 ≡ content ++ l4
    → length content ≡ size
    → l4 ≡ rest
    → e ≡ entry_of name media_type content
    → left ≡ entry_bytes e rest
entry_whole left l1 l2 l3 l4 rest name media_type content size e p1 p2 p3 p4 count same made =
    rw (p1, p2, p3, p4, ← count, same, made)

entry-IsValid :
    (name media_type : Str) (content : List ℕ) (size : ℕ) (e : Entry)
    → e ≡ entry_of name media_type content
    → IsSafe name
    → Media.check media_type name ≡ ok tt
    → All IsChar name
    → All IsChar media_type
    → len media_type ≤ max_media_type_len
    → length content ≡ size
    → size < 256 ^ 8
    → IsValid e
entry-IsValid name media_type content size e made safe agrees name_chars media_chars short count
      small =
    rw made (record {
      safe = safe;
      agrees = agrees;
      name_chars = name_chars;
      media_chars = media_chars;
      media_short = short;
      content_fits = omega arith;
    })

decode_entry_canonical :
    (left : List ℕ) (e : Entry) (rest : List ℕ)
    → All IsByte left
    → decode_entry left ≡ ok (e, rest)
    → (left ≡ entry_bytes e rest) × IsValid e × All IsByte rest
unfolding decode_entry
decode_entry_canonical left e rest h q =
    let (name, l, e1, k1) = >>=-eq-ok (short_text max_len) _ left q in
    let (front1, fits1, chars1, h1) = short_text_canonical max_len left name l h e1 in
    let (media_type, l', e2, k2) = >>=-eq-ok (short_text max_media_type_len) _ l k1 in
    let (front2, fits2, chars2, h2) =
      short_text_canonical max_media_type_len l media_type l' h1 e2 in
    let (size, l'', e3, k3) = >>=-eq-ok (take_be malformed 8) _ l' k2 in
    let (front3, small, h3) = take_be_canonical malformed 8 l' size l'' h2 e3 in
    let (content, l''', e4, k4) = >>=-eq-ok (take_bytes malformed size) _ l'' k3 in
    let (front4, count, h4) = take_bytes_canonical malformed size l'' content l''' h3 e4 in
    let (checked, same) = lift-eq-ok (checked_entry name media_type content) l''' e rest k4 in
    let (safe, agrees, made) = checked_entry-eq-ok name media_type content e checked in
    (
      entry_whole left l l' l'' l''' rest name media_type content size e front1 front2 front3 front4
          count same made,
      entry-IsValid name media_type content size e made safe agrees chars1 chars2 fits2 count small,
      subst (All IsByte) same h4,
    )

-- The entries that were read, put together.
entries_whole :
    (left l l' rest : List ℕ) (e : Entry) (later entries : List Entry) (count : ℕ)
    → left ≡ entry_bytes e l
    → l ≡ frame_of later ++ l'
    → IsValid e
    → All IsValid later
    → length later ≡ count
    → pure {E = CliftError} (e ∷ later) l' ≡ ok (entries, rest)
    → (left ≡ frame_of entries ++ rest) × All IsValid entries × (length entries ≡ suc count)
entries_whole left l l' rest e later entries count front1 front2 valid valids many k =
    let same : e ∷ later ≡ entries = ground arith in
    let end : l' ≡ rest = ground arith in
    rw (← same, ← end, front1, front2)
      (sym (frame_of-append e later l'), (valid, valids), ap suc many)

decode_entries_canonical :
    (count : ℕ) (left : List ℕ) (entries : List Entry) (rest : List ℕ)
    → All IsByte left
    → decode_entries count left ≡ ok (entries, rest)
    → (left ≡ frame_of entries ++ rest) × All IsValid entries × (length entries ≡ count)
unfolding decode_entries
decode_entries_canonical zero left [] rest h q = (ground arith, tt, refl)
decode_entries_canonical zero left (e ∷ entries) rest h q = cc
decode_entries_canonical (suc count) left entries rest h q =
    let (e, l, e1, k1) = >>=-eq-ok decode_entry _ left q in
    let (front1, valid, h1) = decode_entry_canonical left e l h e1 in
    let (later, l', e2, k2) = >>=-eq-ok (decode_entries count) _ l k1 in
    let (front2, valids, many) = decode_entries_canonical count l later l' h1 e2 in
    entries_whole left l l' rest e later entries count front1 front2 valid valids many k2

frame_whole :
    (frame l : List ℕ) (entries : List Entry) (count : ℕ)
    → frame ≡ be_bytes 1 count ++ l
    → l ≡ frame_of entries ++ []
    → All IsValid entries
    → length entries ≡ count
    → not (eqb count 0) ≡ true
    → leb count max_entries ≡ true
    → (encode entries ≡ ok frame)
      × All IsValid entries
      × (0 < length entries)
      × (length entries ≤ max_entries)
frame_whole frame l entries count front whole valid many nonzero few =
    let some_entries : 0 < length entries = ground arith in
    let few_entries : length entries ≤ max_entries = ground arith in
    (
      encode-frame_of entries valid some_entries few_entries
          ∙ rw (front, whole, ← many, append-nil (frame_of entries)),
      valid,
      some_entries,
      few_entries,
    )

-- A frame of bytes that decodes is exactly what `encode` writes for the entries that come out, which
-- are one to twenty and all valid.
pub encode-decode :
    (frame : List ℕ) (entries : List Entry)
    → All IsByte frame
    → decode frame ≡ ok entries
    → (encode entries ≡ ok frame)
      × All IsValid entries
      × (0 < length entries)
      × (length entries ≤ max_entries)
unfolding decode_all
encode-decode frame entries h q =
    let (count, l, e1, k1) =
      >>=-eq-ok (take_be malformed 1) _ frame (decode_all-eq-ok frame entries q) in
    let (front, small, h1) = take_be_canonical malformed 1 frame count l h e1 in
    let (nonzero, k2) = guard-eq-ok (not (eqb count 0)) malformed _ l k1 in
    let (few, k3) = guard-eq-ok (leb count max_entries) limit_exceeded _ l k2 in
    let (whole, valid, many) = decode_entries_canonical count l entries [] h1 k3 in
    frame_whole frame l entries count front whole valid many nonzero few
