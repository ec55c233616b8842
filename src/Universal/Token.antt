-- ===== src/Universal/Token.antt =====
-- crates/clift-core/src/universal/token.rs: the string that travels through the user's terminal.
pub mod RoundTrip
pub mod Strict
use clift.Base.{ℕ, Bool, ◌||◌, Option, none, some, List, [], ◌∷◌, ◌++◌}
use clift.Base.{eqb, if◌then◌else◌, length, Str, codes, Result, ok, err}
use clift.Base.Fallible.{◌>>=◌}
use clift.Base.Text.{trim, strip_prefix, split_once}
use clift.Base64.{Base64}
use clift.Domain.SafeName.{is_empty}
use clift.Error.{CliftError, ErrorKind, relay_error}

-- `TOKEN_PREFIX`
abbrev pub token_prefix : Str
token_prefix = codes "clift://v1/"

-- `OBJECT_ID_BYTES`
abbrev pub object_id_bytes : ℕ
object_id_bytes = 16

-- `SEAL_KEY_BYTES`
abbrev pub seal_key_bytes : ℕ
seal_key_bytes = 32

-- An array of so many bytes, by `from_bytes` or `parse`.
pub record ObjectId : Type 0 where
  pub bytes : List ℕ

pub record SealKey : Type 0 where
  pub bytes : List ℕ

pub record Token : Type 0 where
  pub id : ObjectId
  pub key : SealKey

abbrev pub malformed : CliftError
malformed = relay_error ErrorKind.token_unusable

-- `try_into` an array of the given length.
abbrev pub sized : ℕ → Option (List ℕ) → Result (List ℕ) CliftError
sized count none = err malformed
sized count (some bytes) = if eqb (length bytes) count then ok bytes else err malformed

module _ (base64 : Base64) where
  open base64 use {encode, decode}

  unfoldable pub parse_object_id : Str → Result ObjectId CliftError
  parse_object_id text =
      sized object_id_bytes (decode text) >>= λ bytes. ok (record { bytes = bytes })

  unfoldable pub parse_seal_key : Str → Result SealKey CliftError
  parse_seal_key text =
      sized seal_key_bytes (decode text) >>= λ bytes. ok (record { bytes = bytes })

  -- `ObjectId::encoded` and `SealKey::encoded`
  abbrev pub encoded_id : ObjectId → Str
  encoded_id id = encode id.bytes

  abbrev pub encoded_key : SealKey → Str
  encoded_key key = encode key.bytes

  -- The two halves of a token, on either side of its `#`.
  unfoldable pub parse_halves : Option (Str × Str) → Result Token CliftError
  unfolding parse_object_id parse_seal_key
  parse_halves none = err malformed
  parse_halves (some (id, key)) =
      if is_empty id || is_empty key
      then err malformed
      else (parse_object_id id >>= λ i. parse_seal_key key >>= λ k. ok (record { id = i; key = k }))

  -- A version other than 1 is told apart in the message only.
  abbrev pub parse_rest : Option Str → Result Token CliftError
  parse_rest none = err malformed
  parse_rest (some rest) = parse_halves (split_once b'#' rest)

  unfoldable pub parse : Str → Result Token CliftError
  unfolding parse_halves
  parse text = parse_rest (strip_prefix token_prefix (trim text))

  unfoldable pub expose : Token → Str
  expose token = token_prefix ++ (encoded_id token.id ++ b'#' ∷ encoded_key token.key)

  unfoldable pub redacted : Token → Str
  redacted token = token_prefix ++ (encoded_id token.id ++ codes "#<redacted>")
