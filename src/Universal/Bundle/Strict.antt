-- ===== src/Universal/Bundle/Strict.antt =====
-- `decode` of bundle.rs reads a frame to its end and not past it.
use clift.Base.{ℕ, zero, suc, ◌≡◌, ◌≢◌, not, List, [], ◌∷◌, ◌++◌, arith}
use clift.Base.{leb, eqb, Result, ok, err}
use clift.Base.Reader.{
  Reads, ◌>>◌, IsLocal, >>=-IsLocal, pure-IsLocal, lift-IsLocal, guard-IsLocal, take_bytes-IsLocal,
  take_be-IsLocal, guard, take_bytes, take_be,
}
use clift.Domain.SafeName.{max_len}
use clift.Error.{CliftError}
use clift.Universal.Bundle.{
  Entry, malformed, limit_exceeded, max_media_type_len, max_entries, short_text, decode_entry,
  decode_entries, decode_all, decode, complete, checked_entry,
}

>>-IsLocal :
    {B : Type 0} (first : Reads (Unit {0}) CliftError) (next : Reads B CliftError)
    → IsLocal first
    → IsLocal next
    → IsLocal (first >> next)
>>-IsLocal first next p q = >>=-IsLocal first (λ _. next) p (λ _. q)

short_text-IsLocal : (limit : ℕ) → IsLocal (short_text limit)
unfolding short_text
short_text-IsLocal limit = >>=-IsLocal (take_be malformed 2) _ (take_be-IsLocal malformed 2) λ size.
    >>-IsLocal (guard (not (eqb size 0)) malformed) _ (guard-IsLocal (not (eqb size 0)) malformed) (
      >>-IsLocal (guard (leb size limit) malformed) _ (guard-IsLocal (leb size limit) malformed) (
        >>=-IsLocal (take_bytes malformed size) _ (take_bytes-IsLocal malformed size)
          (λ bytes. lift-IsLocal _)))

decode_entry-IsLocal : IsLocal decode_entry
unfolding decode_entry
decode_entry-IsLocal = >>=-IsLocal (short_text max_len) _ (short_text-IsLocal max_len) λ name.
    >>=-IsLocal (short_text max_media_type_len) _ (short_text-IsLocal max_media_type_len)
      λ media_type. >>=-IsLocal (take_be malformed 8) _ (take_be-IsLocal malformed 8) λ size.
        >>=-IsLocal (take_bytes malformed size) _ (take_bytes-IsLocal malformed size)
          λ content. lift-IsLocal (checked_entry name media_type content)

decode_entries-IsLocal : (count : ℕ) → IsLocal (decode_entries count)
unfolding decode_entries
decode_entries-IsLocal zero = pure-IsLocal []
decode_entries-IsLocal (suc count) = >>=-IsLocal decode_entry _ decode_entry-IsLocal λ e.
    >>=-IsLocal (decode_entries count) _ (decode_entries-IsLocal count)
      λ entries. pure-IsLocal (e ∷ entries)

decode_all-IsLocal : IsLocal decode_all
unfolding decode_all
decode_all-IsLocal = >>=-IsLocal (take_be malformed 1) _ (take_be-IsLocal malformed 1) λ count.
    >>-IsLocal (guard (not (eqb count 0)) malformed) _ (guard-IsLocal (not (eqb count 0)) malformed)
      (>>-IsLocal (guard (leb count max_entries) limit_exceeded) _
        (guard-IsLocal (leb count max_entries) limit_exceeded) (decode_entries-IsLocal count))

complete-eq-ok :
    (r : Result (List Entry × List ℕ) CliftError) (entries : List Entry)
    → complete r ≡ ok entries
    → r ≡ ok (entries, [])
complete-eq-ok (ok (entries', [])) entries h = ground arith
complete-eq-ok (ok (entries', b ∷ left)) entries h = cc
complete-eq-ok (err e) entries h = cc

pub decode_all-eq-ok :
    (frame : List ℕ) (entries : List Entry)
    → decode frame ≡ ok entries
    → decode_all frame ≡ ok (entries, [])
unfolding decode
decode_all-eq-ok frame entries h = complete-eq-ok (decode_all frame) entries h

-- A frame that decodes is refused with any bytes behind it, as an integrity failure.
pub decode_trailing :
    (frame more : List ℕ) (b : ℕ) (entries : List Entry)
    → decode frame ≡ ok entries
    → decode (frame ++ b ∷ more) ≡ err malformed
unfolding decode
decode_trailing frame more b entries h =
    rw (decode_all-IsLocal frame (b ∷ more) entries [] (decode_all-eq-ok frame entries h))

-- No proper beginning of a frame that decodes is itself a frame that decodes.
pub decode_truncated :
    (front back : List ℕ) (b : ℕ) (entries shorter : List Entry)
    → decode (front ++ b ∷ back) ≡ ok entries
    → decode front ≢ ok shorter
decode_truncated front back b entries shorter h k = cc (decode_trailing front back b shorter k)
