-- ===== src/RelayClient/Tests.antt =====
-- The client and the relay at a concrete input, and the theorems on the two applied to it.
use clift.Base.{ℕ, ◌≡◌, refl, true, some, List, [], ◌∷◌, arith}
use clift.Base.{codes, ok, err}
use clift.Base.{ap, ◌++◌, length}
use clift.Base.Bytes.{be_bytes}
use clift.Base.Utf8.{utf8}
use clift.Base.Dict
use clift.Base.Decimal.{to_string}
use clift.Base.Text.{split_once, split, parse_u64, scan_u64, strip_prefix}
use clift.Base64.Engine
use clift.Base64.Engine.{engine}
use clift.Error.{ErrorKind, relay_error}
use clift.Relayd.Address.{v4, from_secs}
use clift.Relayd.RateLimit
use clift.Relayd.RateLimit.{allow}
use clift.Relayd.Store
use clift.Relayd.Server
use clift.Relayd.Server.{Document}
use clift.RelayClient
use clift.RelayClient.Served
use clift.RelayClient.Served.{Call, http_relay}
use clift.RelayClient.Served.SingleUse
use clift.RelayClient.Served.SingleUse.{http_relay-SingleUse}
use clift.Universal.Port
use clift.Universal.Port.{PublishedObject}
use clift.Universal.Bundle
use clift.Universal.Crypto.{envelope, seal}
use clift.Universal.Publish.{Published, described, publish, finish, fetch_entries}
use clift.Universal.Publish.Redeem.{fetch-publish}
use clift.Universal.Samples.{shot, shot_frame, shot-IsValid, zeros, token, plain_cipher}
use clift.Universal.Settings.{RelaySettings}
use clift.Universal.Token.{parse_object_id}

-- A document is printed as no bytes: the client reads its members.
abbrev print : Document → List ℕ
print document = []

abbrev relay : Port.Relay
relay = http_relay engine print

abbrev sixteen : List ℕ
sixteen = 0 ∷ 1 ∷ 2 ∷ 3 ∷ 4 ∷ 5 ∷ 6 ∷ 7 ∷ 8 ∷ 9 ∷ 10 ∷ 11 ∷ 12 ∷ 13 ∷ 14 ∷ 15 ∷ []

abbrev call_at : ℕ → Call
call_at now = record {
  connects = true;
  arrives = true;
  address = some (v4 1);
  outside = record { asked_at = now; first = now; second = now; random = some sixteen };
}

abbrev idle : Server.Relay
idle = Server.new (Store.new 1000 2000) 10 (from_secs 3600)

abbrev object : PublishedObject
object = record { id = record { bytes = sixteen }; ttl = from_secs 60 }

-- The sealed object of the frame with the cipher of the samples, and the relay that holds it.
abbrev sealed : List ℕ
sealed = envelope (zeros 24) (shot_frame ++ zeros 16)

abbrev holding : Server.Relay
holding = record {
  store = record {
    objects =
        (codes "AAECAwQFBgcICQoLDA0ODw", record { bytes = sealed; expires_at = from_secs 60 }) ∷ [];
    max_object_bytes = 1000;
    max_total_bytes = 2000;
  };
  limiter = record { per_minute = 10; windows = (v4 1, record { started = 0; count = 1 }) ∷ [] };
  max_ttl = from_secs 3600;
}

object_published : relay.publish idle (call_at 0) sealed (from_secs 60) ≡ (holding, ok object)
unfolding Served.exchange Server.handle Server.new Server.requested_ttl Server.split_query
    Server.read_to_end Store.new Store.put Store.held Store.drop_expired Dict.get Dict.insert
    Dict.remove Dict.retain Dict.total RateLimit.new allow RateLimit.entry RateLimit.counted
    RateLimit.sweep to_string split_once split parse_u64 scan_u64 strip_prefix Engine.encode
    Engine.decode parse_object_id RelayClient.published
object_published = refl

idle-IsSound : SingleUse.IsSound engine print idle
unfolding Store.new Server.new
idle-IsSound = (tt, omega arith)

next_call-Answered : SingleUse.Answered engine print holding (call_at 1)
unfolding Dict.get Dict.insert Dict.remove Dict.retain RateLimit.entry RateLimit.counted
    RateLimit.sweep allow
next_call-Answered = record { connects = refl; arrives = refl; allowed = refl }

retrieve-publish_whole_example :
    (r'' : Server.Relay) × (relay.retrieve holding (call_at 1) object.id ≡ (r'', ok sealed))
    × SingleUse.Gone engine print r'' object.id
retrieve-publish_whole_example =
    SingleUse.retrieve-publish_whole engine print idle holding (call_at 0) (call_at 1) sealed
      (from_secs 60) object idle-IsSound object_published next_call-Answered (omega arith)

abbrev settings : RelaySettings
settings = record { url = codes "https://r.io"; max_object_bytes = 1000; ttl = from_secs 60 }

abbrev sent : Published
sent = record {
  token = record { id = object.id; key = token.key };
  ttl = from_secs 60;
  sealed_bytes = length sealed;
  entries = described (shot ∷ []);
}

sending :
    publish plain_cipher relay idle (call_at 0) (shot ∷ []) settings (ok (zeros 32)) (ok (zeros 24))
    ≡ (holding, ok sent)
unfolding publish seal plain_cipher Bundle.encode utf8 be_bytes
sending = ap (finish plain_cipher relay (shot ∷ []) token.key sealed) object_published

fetch-publish_example :
    let (s'', fetched) = fetch_entries plain_cipher relay holding (call_at 1) sent.token in
    (fetched ≡ ok (shot ∷ []))
    × (SingleUse.Answered engine print s'' (call_at 2)
        → (fetch_entries plain_cipher relay s'' (call_at 2) sent.token).1
          ≡ err (relay_error ErrorKind.token_unusable))
fetch-publish_example =
    fetch-publish plain_cipher relay (http_relay-SingleUse engine print) idle holding (call_at 0)
      (call_at 1) (call_at 2) (shot ∷ []) settings (zeros 32) (zeros 24) sent idle-IsSound
      (shot-IsValid, tt) refl (omega arith) sending next_call-Answered (omega arith)
