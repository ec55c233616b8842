-- ===== src/Universal/Publish.antt =====
-- crates/clift-core/src/usecase/publish.rs, and fetch.rs up to the entries that it writes: sealing, publishing
-- and redeeming.
pub mod Redeem
use clift.Base.{ℕ, min, ◌-◌, ◌^◌, List, [], ◌∷◌}
use clift.Base.{ltb, if◌then◌else◌, length, Str, Result, ok, err}
use clift.Base.Fallible.{◌>>=◌}
use clift.Error.{CliftError, ErrorKind, relay_error}
use clift.Relayd.Address.{Duration}
use clift.Universal.Bundle
use clift.Universal.Bundle.{Entry}
use clift.Universal.Crypto.{Aead, seal, open_sealed, sealed_len}
use clift.Universal.Port.{Relay, PublishedObject}
use clift.Universal.Settings.{RelaySettings}
use clift.Universal.Token.{ObjectId, SealKey, Token}

pub record PublishedEntry : Type 0 where
  pub name : Str
  pub media_type : Str
  pub size : ℕ

pub record Published : Type 0 where
  pub token : Token
  pub ttl : Duration
  pub sealed_bytes : ℕ
  pub entries : List PublishedEntry

abbrev pub limit_exceeded : CliftError
limit_exceeded = relay_error ErrorKind.limit_exceeded

unfoldable pub described : List Entry → List PublishedEntry
described [] = []
described (e ∷ entries) =
    record { name = e.name; media_type = e.media_type; size = length e.content } ∷ described entries

-- `projected`, whose conversion saturates.
abbrev pub projected : List ℕ → ℕ
projected frame = min (sealed_len (length frame)) (2 ^ 64 - 1)

module _ (aead : Aead) (relay : Relay) where
  open relay use {State, Call}

  -- What the relay said becomes the token.
  abbrev pub finish :
      List Entry
      → SealKey
      → List ℕ
      → State × Result PublishedObject CliftError
      → State × Result Published CliftError
  finish entries key sealed (s, err e) = (s, err e)
  finish entries key sealed (s, ok object) = (
    s,
    ok (record {
      token = record { id = object.id; key = key };
      ttl = object.ttl;
      sealed_bytes = min (length sealed) (2 ^ 64 - 1);
      entries = described entries;
    }),
  )

  abbrev pub send :
      State
      → Call
      → List Entry
      → RelaySettings
      → SealKey
      → Result (List ℕ) CliftError
      → State × Result Published CliftError
  send s call entries settings key (err e) = (s, err e)
  send s call entries settings key (ok sealed) =
      finish entries key sealed (relay.publish s call sealed settings.ttl)

  -- The two draws from the random source, a key and a nonce, in this order.
  abbrev pub draw :
      State
      → Call
      → List Entry
      → RelaySettings
      → List ℕ
      → Result (List ℕ) CliftError
      → Result (List ℕ) CliftError
      → State × Result Published CliftError
  draw s call entries settings frame (err e) nonce = (s, err e)
  draw s call entries settings frame (ok key) (err e) = (s, err e)
  draw s call entries settings frame (ok key) (ok nonce) =
      send s call entries settings (record { bytes = key })
        (seal aead frame (record { bytes = key }) nonce)

  abbrev pub publish_frame :
      State
      → Call
      → List Entry
      → RelaySettings
      → Result (List ℕ) CliftError
      → Result (List ℕ) CliftError
      → Result (List ℕ) CliftError
      → State × Result Published CliftError
  publish_frame s call entries settings key nonce (err e) = (s, err e)
  publish_frame s call entries settings key nonce (ok frame) =
      if ltb settings.max_object_bytes (projected frame)
      then (s, err limit_exceeded)
      else draw s call entries settings frame key nonce

  unfoldable pub publish :
      State
      → Call
      → List Entry
      → RelaySettings
      → Result (List ℕ) CliftError
      → Result (List ℕ) CliftError
      → State × Result Published CliftError
  publish s call entries settings key nonce =
      publish_frame s call entries settings key nonce (Bundle.encode entries)

  abbrev pub open_entries :
      Token → State × Result (List ℕ) CliftError → State × Result (List Entry) CliftError
  open_entries token (s, err e) = (s, err e)
  open_entries token (s, ok sealed) =
      (s, (open_sealed aead sealed token.key >>= λ frame. Bundle.decode frame))

  -- The entries of a token, which `fetch` hands to `write_batch`.
  unfoldable pub fetch_entries : State → Call → Token → State × Result (List Entry) CliftError
  fetch_entries s call token = open_entries token (relay.retrieve s call token.id)
