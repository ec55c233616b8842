-- ===== src/Universal/Port.antt =====
-- `Relay` and `PublishedObject` of crates/clift-core/src/ports.rs: what the use cases know of a relay, with the
-- promises of the trait's documentation. What a call reads from outside, the clock and the network, is
-- its argument of type `Call`.
use clift.Base.{◌≡◌, List, ℕ, Result, ok, err}
use clift.Error.{CliftError, ErrorKind, relay_error}
use clift.Relayd.Address.{Duration}
use clift.Universal.Token.{ObjectId}

pub record PublishedObject : Type 0 where
  pub id : ObjectId
  pub ttl : Duration

pub record Relay : Type 1 where
  pub State : Type 0
  pub Call : Type 0
  pub publish : State → Call → List ℕ → Duration → State × Result PublishedObject CliftError
  pub retrieve : State → Call → ObjectId → State × Result (List ℕ) CliftError
  pub revoke : State → Call → ObjectId → State × Result (Unit {0}) CliftError

-- A successful retrieval is the object's last. `Answered` says that a call gets through to the relay
-- and its answer back, and `InTime` that the second call is made within the lifetime that the first one
-- started.
pub record SingleUse (relay : Relay) : Type 1 where
  pub IsSound : relay.State → Type 0
  pub Answered : relay.State → relay.Call → Type 0
  pub InTime : relay.Call → relay.Call → Duration → Type 0
  pub Gone : relay.State → ObjectId → Type 0
  pub retrieve-publish :
      (s s' : relay.State) (before after : relay.Call) (sealed : List ℕ) (ttl : Duration)
      (object : PublishedObject)
      → IsSound s
      → relay.publish s before sealed ttl ≡ (s', ok object)
      → Answered s' after
      → InTime before after object.ttl
      → (s'' : relay.State) × (relay.retrieve s' after object.id ≡ (s'', ok sealed))
        × Gone s'' object.id
  pub retrieve_gone :
      (s : relay.State) (call : relay.Call) (id : ObjectId)
      → Gone s id
      → Answered s call
      → (relay.retrieve s call id).1 ≡ err (relay_error ErrorKind.token_unusable)
