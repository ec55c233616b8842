-- ===== src/RelayClient.antt =====
-- crates/clift-relay/src/lib.rs: the relay client. An answer is what the HTTP library read of it; `none` stands
-- for a request that failed, and a redirect is an answer like others.
pub mod Served
mod Tests
use clift.Base.{ℕ, ◌+◌, ◌*◌, ◌/◌, ◌^◌, ◌||◌, Option, none, some, List, ◌++◌}
use clift.Base.{eqb, if◌then◌else◌, Str, codes, Result, ok, err}
use clift.Base.Decimal.{to_string}
use clift.Base.Fallible.{◌>>=◌}
use clift.Base64.{Base64}
use clift.Error.{CliftError, ErrorKind, relay_error}
use clift.Relayd.Address.{Duration, from_secs}
use clift.Universal.Port.{PublishedObject}
use clift.Universal.Token.{ObjectId, parse_object_id, encoded_id}

-- The members of a JSON document that the client asks for, each if it is there with the right type.
pub record Members : Type 0 where
  pub object_id : Option Str
  pub ttl_seconds : Option ℕ
  pub objects : Option ℕ
  pub max_object_bytes : Option ℕ
  pub max_ttl_seconds : Option ℕ

pub data Text : Type 0 where
  unreadable not_json : Text
  document : Members → Text

-- `bytes` is the body as it was read under `max_download_bytes`, if that succeeded.
pub record Answer : Type 0 where
  pub status : ℕ
  pub text : Text
  pub bytes : Option (List ℕ)

-- `MAX_DOWNLOAD_BYTES`
abbrev pub max_download_bytes : ℕ
max_download_bytes = 64 * 1024 * 1024

abbrev pub unreachable : CliftError
unreachable = relay_error ErrorKind.relay_unavailable

abbrev pub malformed_answer : CliftError
malformed_answer = relay_error ErrorKind.relay_unavailable

unfoldable pub status_error : ℕ → CliftError
status_error status =
    if eqb status 404 || eqb status 410
    then relay_error ErrorKind.token_unusable
    else if eqb status 413
    then relay_error ErrorKind.limit_exceeded
    else if eqb status 429
    then relay_error ErrorKind.relay_unavailable
    else if eqb status 400
    then relay_error ErrorKind.internal
    else relay_error ErrorKind.relay_unavailable

-- `duration.as_secs()`
abbrev pub as_secs : Duration → ℕ
as_secs duration = duration / 10 ^ 9

abbrev pub publish_path : Duration → Str
publish_path ttl = codes "/v1/objects?ttl=" ++ to_string (as_secs ttl)

abbrev pub health_path : Str
health_path = codes "/v1/health"

abbrev pub members_of : Text → Result Members CliftError
members_of unreadable = err unreachable
members_of not_json = err malformed_answer
members_of (document members) = ok members

-- `map_or(ttl, Duration::from_secs)`
abbrev pub granted : Duration → Option ℕ → Duration
granted ttl none = ttl
granted ttl (some seconds) = from_secs seconds

abbrev pub or_default : Option ℕ → ℕ
or_default none = 0
or_default (some n) = n

pub record RelayHealth : Type 0 where
  pub objects : ℕ
  pub max_object_bytes : ℕ
  pub max_ttl_seconds : ℕ

unfoldable pub health : Option Answer → Result RelayHealth CliftError
unfolding status_error
health none = err unreachable
health (some answer) =
    if eqb answer.status 200
    then (members_of answer.text >>= λ members. ok (record {
      objects = or_default members.objects;
      max_object_bytes = or_default members.max_object_bytes;
      max_ttl_seconds = or_default members.max_ttl_seconds;
    }))
    else err (status_error answer.status)

abbrev pub bytes_read : Option (List ℕ) → Result (List ℕ) CliftError
bytes_read none = err (relay_error ErrorKind.relay_unavailable)
bytes_read (some bytes) = ok bytes

unfoldable pub retrieved : Option Answer → Result (List ℕ) CliftError
unfolding status_error
retrieved none = err unreachable
retrieved (some answer) =
    if eqb answer.status 200 then bytes_read answer.bytes else err (status_error answer.status)

unfoldable pub revoked : Option Answer → Result (Unit {0}) CliftError
unfolding status_error
revoked none = err unreachable
revoked (some answer) =
    if eqb answer.status 204 || eqb answer.status 200 || eqb answer.status 404
    then ok tt
    else err (status_error answer.status)

module _ (base64 : Base64) where
  abbrev pub object_path : ObjectId → Str
  object_path id = codes "/v1/objects/" ++ encoded_id base64 id

  abbrev pub object_url : Str → ObjectId → Str
  object_url base_url id = base_url ++ object_path id

  abbrev pub named : Duration → Members → Option Str → Result PublishedObject CliftError
  named ttl members none = err (relay_error ErrorKind.relay_unavailable)
  named ttl members (some id) = parse_object_id base64 id >>= λ parsed.
      ok (record { id = parsed; ttl = granted ttl members.ttl_seconds })

  unfoldable pub published : Duration → Option Answer → Result PublishedObject CliftError
  unfolding status_error parse_object_id
  published ttl none = err unreachable
  published ttl (some answer) =
      if eqb answer.status 201 || eqb answer.status 200
      then (members_of answer.text >>= λ members. named ttl members members.object_id)
      else err (status_error answer.status)
