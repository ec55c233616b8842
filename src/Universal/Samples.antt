-- ===== src/Universal/Samples.antt =====
-- An attachment, its frame, a token and a cipher, on which the models of Universal Mode are run.
use clift.Base.{ℕ, zero, suc, ap, ◌-◌, ◌≡◌, refl, Option, some, List, [], ◌∷◌, ◌++◌, arith}
use clift.Base.{length, length-append, take, take-append_self, codes}
use clift.Base.Utf8.{len}
use clift.Domain.SafeName
use clift.Universal.Media
use clift.Universal.Bundle.{Entry}
use clift.Universal.Bundle.RoundTrip as BundleRoundTrip
use clift.Universal.Bundle.RoundTrip.{decode-encode}
use clift.Universal.Crypto.{Aead}
use clift.Universal.Token.{Token}

abbrev pub shot : Entry
shot = record { name = codes "a.png"; media_type = codes "image/png"; content = 1 ∷ 2 ∷ [] }

abbrev pub shot_frame : List ℕ
shot_frame =
    1 ∷ 0 ∷ 5 ∷ b'a' ∷ b'.' ∷ b'p' ∷ b'n' ∷ b'g' ∷ 0 ∷ 9 ∷ b'i' ∷ b'm' ∷ b'a' ∷ b'g' ∷ b'e' ∷ b'/'
    ∷ b'p' ∷ b'n' ∷ b'g' ∷ 0 ∷ 0 ∷ 0 ∷ 0 ∷ 0 ∷ 0 ∷ 0 ∷ 2 ∷ 1 ∷ 2 ∷ []

pub shot-IsValid : BundleRoundTrip.IsValid shot
unfolding SafeName.new len Media.check
shot-IsValid = record {
  safe = refl;
  agrees = refl;
  name_chars = ground arith;
  media_chars = ground arith;
  media_short = omega arith;
  content_fits = omega arith;
}

abbrev pub zeros : ℕ → List ℕ
zeros zero = []
zeros (suc n) = 0 ∷ zeros n

abbrev pub token : Token
token = record { id = record { bytes = zeros 16 }; key = record { bytes = zeros 32 } }

-- A cipher without secrecy: the tag is sixteen zeros.
abbrev decrypted : List ℕ → Option (List ℕ)
decrypted ciphertext = some (take (length ciphertext - 16) ciphertext)

unfoldable pub plain_cipher : Aead
plain_cipher = record {
  encrypt = λ key nonce aad message. some (message ++ zeros 16);
  decrypt = λ key nonce aad ciphertext. decrypted ciphertext;
  encrypts = λ key nonce aad message small.
      (message ++ zeros 16, refl, omega (arith, length-append message (zeros 16)), dropped message);
}
  where
    dropped : (message : List ℕ) → decrypted (message ++ zeros 16) ≡ some message
    dropped message =
        let size : length (message ++ zeros 16) - 16 ≡ length message =
          omega (arith, length-append message (zeros 16)) in
        rw size (ap (λ l. some l) (take-append_self message (zeros 16)))
