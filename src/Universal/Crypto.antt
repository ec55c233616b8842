-- ===== src/Universal/Crypto.antt =====
-- crates/clift-core/src/universal/crypto.rs: the envelope round a ciphertext. The cipher is the chacha20poly1305
-- library's, which is not part of the repository: its two functions and what the program relies on.
pub mod Envelope
use clift.Base.{ℕ, ◌+◌, ◌-◌, ◌^◌, ◌≤◌, ◌≡◌, Option, none, some, List, [], ◌∷◌, ◌++◌}
use clift.Base.{
  ltb, eqb, not, str_beq, if◌then◌else◌, length, take, drop, Str, codes, Result, ok, err, All,
}
use clift.Base.Bytes.{IsByte}
use clift.Error.{CliftError, ErrorKind, relay_error}
use clift.Universal.Token.{SealKey}

-- `XChaCha20Poly1305` with a key, a nonce, the associated data and a message; `none` is its error.
pub record Aead : Type 0 where
  pub encrypt : List ℕ → List ℕ → List ℕ → List ℕ → Option (List ℕ)
  pub decrypt : List ℕ → List ℕ → List ℕ → List ℕ → Option (List ℕ)
  pub encrypts :
      (key nonce aad message : List ℕ)
      → length message ≤ 2 ^ 38 - 64
      → (ciphertext : List ℕ) × (encrypt key nonce aad message ≡ some ciphertext)
        × (length ciphertext ≡ length message + 16)
        × (decrypt key nonce aad ciphertext ≡ some message)

-- `MAGIC`
abbrev pub magic : List ℕ
magic = codes "CLIFTv1"

-- `ALGORITHM_XCHACHA20_POLY1305`
abbrev pub algorithm_xchacha20_poly1305 : ℕ
algorithm_xchacha20_poly1305 = 1

-- `NONCE_BYTES`
abbrev pub nonce_bytes : ℕ
nonce_bytes = 24

-- `TAG_BYTES`
abbrev pub tag_bytes : ℕ
tag_bytes = 16

-- `HEADER_BYTES`
abbrev pub header_bytes : ℕ
header_bytes = 32

-- `MIN_SEALED_BYTES`
abbrev pub min_sealed_bytes : ℕ
min_sealed_bytes = header_bytes + tag_bytes

abbrev pub associated_data : List ℕ → List ℕ
associated_data nonce = codes "clift/v1/object" ++ (magic ++ algorithm_xchacha20_poly1305 ∷ nonce)

abbrev pub sealed_len : ℕ → ℕ
sealed_len plaintext_len = header_bytes + plaintext_len + tag_bytes

abbrev pub integrity : CliftError
integrity = relay_error ErrorKind.integrity_failure

abbrev pub envelope : List ℕ → List ℕ → List ℕ
envelope nonce ciphertext = magic ++ algorithm_xchacha20_poly1305 ∷ (nonce ++ ciphertext)

abbrev pub enveloped : List ℕ → Option (List ℕ) → Result (List ℕ) CliftError
enveloped nonce none = err (relay_error ErrorKind.internal)
enveloped nonce (some ciphertext) = ok (envelope nonce ciphertext)

abbrev pub opened : Option (List ℕ) → Result (List ℕ) CliftError
opened none = err integrity
opened (some plaintext) = ok plaintext

-- The byte at a position that is there.
abbrev pub at : ℕ → List ℕ → ℕ
at n bytes = elim (drop n bytes) [ [] ↦ 0 | b ∷ rest ↦ b ]

module _ (aead : Aead) where
  unfoldable pub seal : List ℕ → SealKey → List ℕ → Result (List ℕ) CliftError
  seal plaintext key nonce =
      enveloped nonce (aead.encrypt key.bytes nonce (associated_data nonce) plaintext)

  unfoldable pub open_sealed : List ℕ → SealKey → Result (List ℕ) CliftError
  open_sealed sealed key =
      let nonce = take nonce_bytes (drop 8 sealed) in
      if ltb (length sealed) min_sealed_bytes
      then err integrity
      else if not (str_beq (take 7 sealed) magic)
      then err integrity
      else if not (eqb (at 7 sealed) algorithm_xchacha20_poly1305)
      then err integrity
      else opened (aead.decrypt key.bytes nonce (associated_data nonce) (drop header_bytes sealed))
