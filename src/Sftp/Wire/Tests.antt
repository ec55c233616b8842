-- ===== src/Sftp/Wire/Tests.antt =====
-- Runs of the model of wire.rs at concrete packets, and its theorems applied to them.
use clift.Base.{◌+◌, ◌≤◌, ◌≡◌, refl, arith, some, [], ◌∷◌, ◌++◌, codes, length, ok, err}
use clift.Base.Bytes.{from_be}
use clift.Base.Utf8.{utf8}
use clift.Sftp.Wire.{
  empty_packet, packet_too_large, past_the_end, too_many_names, ended_early, unexpected_type,
  max_packet, status_reply, packet_length, decode_reply, decode_version, skip_extensions,
}
use clift.Sftp.Wire.Build.{field, init, open_exclusive}
use clift.Sftp.Wire.Asked.{open_file, read_packet}
use clift.Sftp.Wire.Framed.{IsRequest, open_of, build, read_packet-build}
use clift.Sftp.Wire.Greeting.{Skips, skip_extensions-Skips}
use clift.Sftp.Wire.Served.{IsListing, Listing, name_answer, packet, reply_of, decode_reply-packet}

greeting : init ≡ 0 ∷ 0 ∷ 0 ∷ 5 ∷ 1 ∷ 0 ∷ 0 ∷ 0 ∷ 3 ∷ []
unfolding init
greeting = refl

empty_refused : packet_length (0 ∷ 0 ∷ 0 ∷ 0 ∷ []) ≡ err empty_packet
unfolding packet_length
empty_refused = refl

large_refused : packet_length (0 ∷ 4 ∷ 0 ∷ 1 ∷ []) ≡ err packet_too_large
unfolding packet_length
large_refused = refl

-- A status without its message is accepted, and bytes behind a handle are not.
bare_status :
    decode_reply (λ bytes. bytes) (101 ∷ 0 ∷ 0 ∷ 0 ∷ 7 ∷ 0 ∷ 0 ∷ 0 ∷ 4 ∷ [])
    ≡ ok (status_reply 7 4 [])
unfolding decode_reply from_be
bare_status = refl

trailing_refused :
    decode_reply (λ bytes. bytes) (102 ∷ 0 ∷ 0 ∷ 0 ∷ 7 ∷ 0 ∷ 0 ∷ 0 ∷ 1 ∷ 65 ∷ 66 ∷ [])
    ≡ err past_the_end
unfolding decode_reply from_be
trailing_refused = refl

names_refused :
    decode_reply (λ bytes. bytes) (104 ∷ 0 ∷ 0 ∷ 0 ∷ 7 ∷ 255 ∷ 255 ∷ 255 ∷ 255 ∷ [])
    ≡ err too_many_names
unfolding decode_reply from_be
names_refused = refl

write_refused : decode_reply (λ bytes. bytes) (6 ∷ 0 ∷ 0 ∷ 0 ∷ 7 ∷ []) ≡ err unexpected_type
unfolding decode_reply from_be
write_refused = refl

extension_skipped :
    decode_version (2 ∷ 0 ∷ 0 ∷ 0 ∷ 3 ∷ 0 ∷ 0 ∷ 0 ∷ 1 ∷ 65 ∷ 0 ∷ 0 ∷ 0 ∷ 1 ∷ 49 ∷ []) ≡ ok 3
unfolding decode_version from_be
extension_skipped = refl

half_extension_refused :
    decode_version (2 ∷ 0 ∷ 0 ∷ 0 ∷ 3 ∷ 0 ∷ 0 ∷ 0 ∷ 1 ∷ 65 ∷ []) ≡ err ended_early
unfolding decode_version from_be
half_extension_refused = refl

abbrev shot : Listing
shot = record {
  filename = codes "shot.png";
  longname = codes "-rw------- shot.png";
  attrs = record {
    size = some 1234567890123;
    owner = some (1000, 1000);
    permissions = some 33152;
    times = some (1, 2);
    extended = some ((codes "a", codes "b") ∷ []);
  };
}

shot_fits : IsListing shot
shot_fits = record {
  filename = omega arith;
  longname = omega arith;
  attrs = record {
    size = omega arith;
    owner = (omega arith, omega arith);
    permissions = omega arith;
    times = (omega arith, omega arith);
    extended = (omega arith, ((omega arith, omega arith), tt));
  };
}

decode_reply-packet_example :
    decode_reply (λ bytes. bytes) (packet 7 (name_answer (shot ∷ [])))
    ≡ ok (reply_of (λ bytes. bytes) 7 (name_answer (shot ∷ [])))
decode_reply-packet_example =
    decode_reply-packet (λ bytes. bytes) 7 (name_answer (shot ∷ [])) (omega arith)
      (omega arith, (shot_fits, tt))

path_fits : IsRequest (open_of (codes "/in/a") 384)
unfolding utf8
path_fits = (omega arith, omega arith)

open_small : length (build 7 (open_of (codes "/in/a") 384)) ≤ 4 + max_packet
unfolding open_exclusive
open_small = omega arith

read_packet-build_example :
    read_packet (build 7 (open_of (codes "/in/a") 384))
    ≡ ok (7, open_file (utf8 (codes "/in/a")) 42 384)
read_packet-build_example =
    read_packet-build 7 (open_of (codes "/in/a") 384) (omega arith) path_fits open_small

pair_short : length (field (codes "a") ++ field (codes "1")) ≤ 10
unfolding field
pair_short = omega arith

skip_extensions-Skips_example :
    Skips
      (field (codes "a") ++ field (codes "1"))
      (skip_extensions 10 (field (codes "a") ++ field (codes "1")))
skip_extensions-Skips_example =
    skip_extensions-Skips 10 (field (codes "a") ++ field (codes "1")) pair_short
