-- ===== src/Base64.antt =====
-- The `base64` library's `URL_SAFE_NO_PAD` engine, which is not part of the repository: its two functions
-- and what the program relies on. The decoder refuses padding and unused bits that are set, so a text decodes
-- to bytes that encode to it again.
pub mod Engine
pub use clift.Base.Bytes.{IsByte}
use clift.Base.{
  ℕ, ◌+◌, ◌*◌, ◌/◌, length, ◌≡◌, Bool, true, ◌&&◌, ◌||◌, Option, some, List, [], ◌∷◌, leb, eqb, Str,
  All,
}

-- The alphabet, as `is_base64url` of crates/clift-relayd/src/server.rs tests it.
abbrev pub is_base64url : ℕ → Bool
is_base64url b =
    (leb b'a' b && leb b b'z')
    || (leb b'A' b && leb b b'Z')
    || (leb b'0' b && leb b b'9')
    || eqb b b'-'
    || eqb b b'_'

abbrev pub IsBase64url : ℕ → Type 0
IsBase64url c = is_base64url c ≡ true

pub record Base64 : Type 0 where
  pub encode : List ℕ → Str
  pub decode : Str → Option (List ℕ)
  pub decode-encode : (bytes : List ℕ) → All IsByte bytes → decode (encode bytes) ≡ some bytes
  pub encode-decode : (text : Str) (bytes : List ℕ) → decode text ≡ some bytes → encode bytes ≡ text
  pub decode-IsByte : (text : Str) (bytes : List ℕ) → decode text ≡ some bytes → All IsByte bytes
  pub length-encode : (bytes : List ℕ) → length (encode bytes) ≡ (length bytes * 4 + 2) / 3
  pub encode_alphabet : (bytes : List ℕ) → All IsByte bytes → All IsBase64url (encode bytes)
