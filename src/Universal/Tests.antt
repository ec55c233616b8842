-- ===== src/Universal/Tests.antt =====
-- Runs of the models of Universal Mode at concrete inputs, and their theorems applied to them.
use clift.Base.{
  ℕ, ap, sym, ◌∙◌, append-nil, ◌≤◌, ◌<◌, ◌≡◌, ◌≢◌, refl, some, List, [], ◌∷◌, ◌++◌, arith,
}
use clift.Base.{length, take, codes, ok, err, All}
use clift.Base.Bytes.{be_bytes, from_be, IsByte}
use clift.Base.Reader.{take_be, take_bytes}
use clift.Base.Text.{trim, strip_prefix}
use clift.Base.Utf8.{utf8, from_utf8, len}
use clift.Base64.Engine.{engine}
use clift.Domain.SafeName
use clift.Relayd.Address.{from_secs}
use clift.Universal.Media
use clift.Universal.Bundle.{encode, decode, malformed, max_entries}
use clift.Universal.Bundle.RoundTrip as BundleRoundTrip
use clift.Universal.Bundle.RoundTrip.{decode-encode}
use clift.Universal.Bundle.Strict.{decode_trailing, decode_truncated}
use clift.Universal.Bundle.Canonical.{encode-decode}
use clift.Universal.Crypto.{
  seal, open_sealed, sealed_len, envelope, nonce_bytes, tag_bytes, associated_data,
}
use clift.Universal.Crypto.Envelope.{open-seal, open_sealed-eq-ok}
use clift.Universal.Settings
use clift.Universal.Settings.{RelaySettings}
use clift.Universal.Settings.Laws as SettingsLaws
use clift.Universal.Settings.Laws.{new-IsValid}
use clift.Universal.Token.{parse, expose}
use clift.Universal.Token.RoundTrip as TokenRoundTrip
use clift.Universal.Token.RoundTrip.{parse-expose}
use clift.Universal.Token.Strict.{expose-parse}
use clift.Universal.Samples.{shot, shot_frame, shot-IsValid, zeros, token, plain_cipher}

shot_encoded : encode (shot ∷ []) ≡ ok shot_frame
unfolding encode utf8 be_bytes
shot_encoded = refl

shot_decoded : decode shot_frame ≡ ok (shot ∷ [])
unfolding decode take_be take_bytes from_be from_utf8 SafeName.new len Media.check
shot_decoded = refl

shot_bytes : All IsByte shot_frame
shot_bytes = ground arith

decode-encode_example :
    (frame : List ℕ) × (encode (shot ∷ []) ≡ ok frame) × (decode frame ≡ ok (shot ∷ []))
decode-encode_example = decode-encode (shot ∷ []) (shot-IsValid, tt) (omega arith) (omega arith)

encode-decode_example :
    (encode (shot ∷ []) ≡ ok shot_frame)
    × All BundleRoundTrip.IsValid (shot ∷ [])
    × (0 < length (shot ∷ []))
    × (length (shot ∷ []) ≤ max_entries)
encode-decode_example = encode-decode shot_frame (shot ∷ []) shot_bytes shot_decoded

decode_trailing_example : decode (shot_frame ++ 0 ∷ []) ≡ err malformed
decode_trailing_example = decode_trailing shot_frame [] 0 (shot ∷ []) shot_decoded

decode_truncated_example : decode (take 28 shot_frame) ≢ ok (shot ∷ [])
decode_truncated_example =
    decode_truncated (take 28 shot_frame) [] 2 (shot ∷ []) (shot ∷ []) shot_decoded

token-IsValid : TokenRoundTrip.IsValid token
token-IsValid = record {
  id_length = refl;
  key_length = refl;
  id_bytes = ground arith;
  key_bytes = ground arith;
}

parse-expose_example : parse engine (b' ' ∷ (expose engine token ++ 10 ∷ [])) ≡ ok token
parse-expose_example =
    parse-expose engine token (b' ' ∷ []) (10 ∷ []) token-IsValid (refl, tt) (refl, tt)

expose-parse_example :
    (trim (expose engine token) ≡ expose engine token) × TokenRoundTrip.IsValid token
expose-parse_example = expose-parse engine (expose engine token) token (
    ap (parse engine) (sym (append-nil (expose engine token)))
    ∙ parse-expose engine token [] [] token-IsValid tt tt)

open-seal_example :
    (sealed : List ℕ) × (seal plain_cipher shot_frame token.key (zeros 24) ≡ ok sealed)
    × (length sealed ≡ sealed_len (length shot_frame))
    × (open_sealed plain_cipher sealed token.key ≡ ok shot_frame)
open-seal_example = open-seal plain_cipher shot_frame (zeros 24) token.key (omega arith) refl

abbrev sealed_pair : List ℕ
sealed_pair = envelope (zeros 24) (7 ∷ 8 ∷ zeros 16)

pair_opens : open_sealed plain_cipher sealed_pair token.key ≡ ok (7 ∷ 8 ∷ [])
unfolding open_sealed plain_cipher
pair_opens = refl

open_sealed-eq-ok_example :
    (nonce : List ℕ) × (ciphertext : List ℕ) × (sealed_pair ≡ envelope nonce ciphertext)
    × (length nonce ≡ nonce_bytes)
    × (tag_bytes ≤ length ciphertext)
    × (plain_cipher.decrypt token.key.bytes nonce (associated_data nonce) ciphertext
        ≡ some (7 ∷ 8 ∷ []))
open_sealed-eq-ok_example =
    open_sealed-eq-ok plain_cipher sealed_pair (7 ∷ 8 ∷ []) token.key pair_opens

abbrev relay_settings : RelaySettings
relay_settings = record { url = codes "https://r.io"; max_object_bytes = 1000; ttl = from_secs 60 }

settings_made : Settings.new (codes " https://r.io/ ") 1000 (from_secs 60) ≡ ok relay_settings
unfolding Settings.new Settings.trimmed trim strip_prefix
settings_made = refl

new-IsValid_example :
    SettingsLaws.IsValid relay_settings
    × (Settings.new relay_settings.url 1000 (from_secs 60) ≡ ok relay_settings)
new-IsValid_example =
    new-IsValid (codes " https://r.io/ ") 1000 (from_secs 60) relay_settings settings_made
