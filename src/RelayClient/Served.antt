-- ===== src/RelayClient/Served.antt =====
-- The client of crates/clift-relay against the relay of crates/clift-relayd: an exchange is one run of `handle`, between a
-- request that reaches the relay or not and an answer that reaches the client or not.
pub mod Posted
pub mod SingleUse
use clift.Base.{ℕ, Bool, Option, none, some, List, [], ◌++◌}
use clift.Base.{leb, if◌then◌else◌, length, Str, Result}
use clift.Base64.{Base64}
use clift.Error.{CliftError}
use clift.Relayd.Address.{IpAddr, Duration}
use clift.Relayd.Server
use clift.Relayd.Server.{Outside, Request, Response, Method, Content, Document}
use clift.RelayClient.{
  Members, Text, Answer, max_download_bytes, published, retrieved, revoked, publish_path,
  object_path, document, not_json,
}
use clift.Universal.Port
use clift.Universal.Port.{PublishedObject}
use clift.Universal.Token.{ObjectId}

-- What a call meets outside the two programs.
pub record Call : Type 0 where
  pub connects : Bool
  pub arrives : Bool
  pub address : Option IpAddr
  pub outside : Outside

-- The members that the client finds in each of the relay's documents.
abbrev pub members_seen : Document → Members
members_seen (Document.health objects bytes max_object_bytes max_ttl_seconds) = record {
  object_id = none;
  ttl_seconds = none;
  objects = some objects;
  max_object_bytes = some max_object_bytes;
  max_ttl_seconds = some max_ttl_seconds;
}
members_seen (Document.created id seconds) = record {
  object_id = some id;
  ttl_seconds = some seconds;
  objects = none;
  max_object_bytes = none;
  max_ttl_seconds = none;
}
members_seen (Document.problem message) = record {
  object_id = none;
  ttl_seconds = none;
  objects = none;
  max_object_bytes = none;
  max_ttl_seconds = none;
}

abbrev pub limited : List ℕ → Option (List ℕ)
limited bytes = if leb (length bytes) max_download_bytes then some bytes else none

-- `print` is serde_json's: the bytes of a document.
module _ (base64 : Base64) (print : Document → List ℕ) where
  open base64 use {encode}

  abbrev pub seen : ℕ → Content → Answer
  seen status (Content.json doc) = record {
    status = status;
    text = document (members_seen doc);
    bytes = limited (print doc);
  }
  seen status (Content.octets bytes) = record {
    status = status;
    text = not_json;
    bytes = limited bytes;
  }
  seen status Content.empty = record { status = status; text = not_json; bytes = some [] }

  abbrev pub answer_of : Response → Answer
  answer_of response = seen response.status response.content

  abbrev pub request_of : Method → Str → Option ℕ → List ℕ → Call → Request
  request_of method url body_length body call = record {
    remote_addr = call.address;
    method = method;
    url = url;
    body_length = body_length;
    body = record { arrives = body; breaks = Bool.false };
    reaches = call.arrives;
  }

  abbrev pub answered : Call → Server.Relay × Response → Server.Relay × Option Answer
  answered call (r, response) = (r, if call.arrives then some (answer_of response) else none)

  unfoldable pub exchange : Server.Relay → Call → Request → Server.Relay × Option Answer
  exchange r call request =
      if call.connects
      then answered call (Server.handle encode r request call.outside)
      else (r, none)

  -- The second part of a pair, read.
  abbrev pub with {ℓ} :
      {A : Type ℓ} → (Option Answer → A) → Server.Relay × Option Answer → Server.Relay × A
  with read (r, answer) = (r, read answer)

  abbrev pub post_request : Call → List ℕ → Duration → Request
  post_request call sealed ttl =
      request_of Method.post (publish_path ttl) (some (length sealed)) sealed call

  abbrev pub object_request : Method → Call → ObjectId → Request
  object_request method call id = request_of method (object_path base64 id) none [] call

  -- `HttpRelay` with this relay at its base URL.
  abbrev pub http_relay : Port.Relay
  http_relay = record {
    State = Server.Relay;
    Call = Call;
    publish = λ r call sealed ttl.
        with (published base64 ttl) (exchange r call (post_request call sealed ttl));
    retrieve = λ r call id. with retrieved (exchange r call (object_request Method.get call id));
    revoke = λ r call id. with revoked (exchange r call (object_request Method.delete call id));
  }
