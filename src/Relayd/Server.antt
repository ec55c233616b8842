-- ===== src/Relayd/Server.antt =====
-- crates/clift-relayd/src/server.rs: the relay's four routes. A request is what the HTTP library read,
-- whether its answer reached the client included; a JSON document is kept as data.
mod Query
pub mod Routes
pub mod Delivery
pub mod Accepted
pub mod Lifetime
unfoldable pub use Query.*
use clift.Base.{
  ℕ, zero, suc, ◌+◌, ◌/◌, ◌^◌, min, Bool, true, false, ◌&&◌, ◌||◌, not, Option, none, some, List,
  [], ◌∷◌, String,
}
use clift.Base.{ltb, leb, eqb, ◌==◌, if◌then◌else◌, length, take, all, Str, str_eq, codes}
use clift.Base.Text.{strip_prefix, is_some}
use clift.Base.Utf8.{utf8}
use clift.Base64.{is_base64url}
use clift.Relayd.Address.{IpAddr, v4, Instant, Duration, from_secs}
use clift.Relayd.RateLimit
use clift.Relayd.RateLimit.{RateLimiter, allow}
use clift.Relayd.Store
use clift.Relayd.Store.{Store, Refusal, PutResult}

pub record Relay : Type 0 where
  pub store : Store
  pub limiter : RateLimiter
  pub max_ttl : Duration

unfoldable pub new : Store → ℕ → Duration → Relay
unfolding RateLimit.new
new store requests_per_minute max_ttl = record {
  store = store;
  limiter = RateLimit.new requests_per_minute;
  max_ttl = max_ttl;
}

pub data Method : Type 0 where
  get post delete other : Method

-- The body that arrives: its bytes, and whether reading fails behind them.
pub record Body : Type 0 where
  pub arrives : List ℕ
  pub breaks : Bool

pub record Request : Type 0 where
  pub remote_addr : Option IpAddr
  pub method : Method
  pub url : Str
  pub body_length : Option ℕ
  pub body : Body
  pub reaches : Bool

-- What one call reads from outside: the clock, in the order of the readings, and 16 random bytes.
pub record Outside : Type 0 where
  pub asked_at : Instant
  pub first : Instant
  pub second : Instant
  pub random : Option (List ℕ)

pub data Document : Type 0 where
  health : ℕ → ℕ → ℕ → ℕ → Document
  created : Str → ℕ → Document
  problem : String → Document

pub data Content : Type 0 where
  json : Document → Content
  octets : List ℕ → Content
  empty : Content

pub record Response : Type 0 where
  pub status : ℕ
  pub headers : List (String × String)
  pub content : Content

-- `ENCODED_ID_LEN`
abbrev pub encoded_id_len : ℕ
encoded_id_len = 22

-- `OBJECT_PREFIX`
abbrev pub object_prefix : Str
object_prefix = codes "/v1/objects/"

-- `TOO_LARGE`
abbrev pub too_large : String
too_large = "the object is larger than this relay accepts"

abbrev pub add_headers : String → List (String × String)
add_headers content_type = ("Content-Type", content_type) ∷ ("Cache-Control", "no-store") ∷ []

abbrev pub respond_json : ℕ → Document → Response
respond_json status document = record {
  status = status;
  headers = add_headers "application/json";
  content = json document;
}

abbrev pub respond : ℕ → String → Response
respond status message = respond_json status (problem message)

abbrev pub respond_empty : ℕ → Response
respond_empty status = record { status = status; headers = []; content = empty }

-- `take(limit)` and `read_to_end`: a reader that breaks within the limit is an error.
unfoldable pub read_to_end : ℕ → Body → Option (List ℕ)
read_to_end limit body =
    if ltb (length body.arrives) limit && body.breaks then none else some (take limit body.arrives)

abbrev pub or_zero : Option ℕ → ℕ
or_zero none = 0
or_zero (some n) = n

unfoldable pub health_of : Relay → Response
unfolding Store.usage
health_of r =
    let usage = Store.usage r.store in
    respond_json 200
      (health usage.objects usage.bytes r.store.max_object_bytes (r.max_ttl / 10 ^ 9))

-- The answer to what the store said.
abbrev pub put_response : Str → Duration → PutResult → Response
put_response id ttl none = respond_json 201 (created id (ttl / 10 ^ 9))
put_response id ttl (some Refusal.too_large) = respond 413 too_large
put_response id ttl (some Refusal.full) = respond 503 "the relay is holding as much as it can"

abbrev pub put_into : Relay → Store → Relay
put_into r store = record r { store = store }

-- A delivery that failed is put back with the end that was read before the `take`.
unfoldable pub restore_failed : Store → Str → List ℕ → Option Instant → Instant → Store
restore_failed store id bytes none now = store
restore_failed store id bytes (some expires_at) now = Store.restore store id bytes expires_at now

unfoldable pub deliver :
    Relay → Request → Str → Option Instant → Store → Option (List ℕ) → Instant → Relay × Response
deliver r request id expires_at store none now = (put_into r store, respond 404 "no such object")
deliver r request id expires_at store (some bytes) now =
    let response : Response = record {
      status = 200;
      headers = add_headers "application/octet-stream";
      content = octets bytes;
    } in
    if request.reaches
    then (put_into r store, response)
    else (put_into r (restore_failed store id bytes expires_at now), response)

-- The test that comes before the store is asked.
unfoldable pub well_formed : Str → Bool
well_formed id = eqb (length (utf8 id)) encoded_id_len && all is_base64url (utf8 id)

-- The program asks the store three times here, for the end, for the bytes and to put them back, and takes the lock for each;
-- this is the case that no other thread's call comes between them.
unfoldable pub retrieve : Relay → Request → Str → Outside → Relay × Response
unfolding deliver restore_failed
retrieve r request id o =
    let (store, bytes) = Store.take r.store id o.first in
    if well_formed id
    then deliver r request id (Store.expiry_of r.store id) store bytes o.second
    else (r, respond 404 "no such object")

-- `encode` is the base64 library's URL-safe encoding without padding.
module _ (encode : List ℕ → Str) where
  abbrev pub new_object_id : Option (List ℕ) → Option Str
  new_object_id none = none
  new_object_id (some bytes) = some (encode bytes)

  unfoldable pub store_body : Relay → Duration → List ℕ → Outside → Option Str → Relay × Response
  store_body r ttl body o none = (r, respond 503 "the relay has no working random source")
  store_body r ttl body o (some id) =
      let (store, result) = Store.put r.store id body ttl o.first o.second in
      (put_into r store, put_response id ttl result)

  unfoldable pub accept_body : Relay → Duration → Option (List ℕ) → Outside → Relay × Response
  unfolding store_body
  accept_body r ttl none o = (r, respond 400 "the request body could not be read")
  accept_body r ttl (some []) o = (r, respond 400 "the request body is empty")
  accept_body r ttl (some (b ∷ body)) o =
      if ltb r.store.max_object_bytes (length (b ∷ body))
      then (r, respond 413 too_large)
      else store_body r ttl (b ∷ body) o (new_object_id o.random)

  -- `publish`, once the query has been read.
  abbrev pub publish_with : Relay → Request → TtlResult → Outside → Relay × Response
  publish_with r request (TtlResult.err message) o = (r, respond 400 message)
  publish_with r request (TtlResult.ok ttl) o =
      let ceiling = r.store.max_object_bytes in
      if ltb ceiling (or_zero request.body_length)
      then (r, respond 413 too_large)
      else accept_body r ttl (read_to_end (min (ceiling + 1) Store.max_u64) request.body) o

  unfoldable pub publish : Relay → Request → Str → Outside → Relay × Response
  unfolding accept_body
  publish r request query o = publish_with r request (requested_ttl query r.max_ttl) o

  -- The `match` on the method and the path; the last two patterns hold an object's path.
  unfoldable pub by_object : Relay → Request → Method → Option Str → Outside → Relay × Response
  by_object r request get (some id) o = retrieve r request id o
  by_object r request delete (some id) o = (put_into r (Store.remove r.store id), respond_empty 204)
  by_object r request _ _ o = (r, respond 404 "no such endpoint")

  unfoldable pub dispatch : Relay → Request → Method → Str → Str → Outside → Relay × Response
  unfolding publish health_of
  dispatch r request method path query o =
      let objects = by_object r request method (strip_prefix object_prefix path) o in
      elim method [
        | get ↦ if path == codes "/v1/health" then (r, health_of r) else objects
        | post ↦ if path == codes "/v1/objects" then publish r request query o else objects
        | _ ↦ objects
      ]

  unfoldable pub route : Relay → Request → Outside → Relay × Response
  unfolding dispatch by_object retrieve
  route r request o =
      let (path, query) = split_query request.url in dispatch r request request.method path query o

  abbrev pub address_of : Option IpAddr → IpAddr
  address_of none = v4 0
  address_of (some address) = address

  unfoldable pub handle : Relay → Request → Outside → Relay × Response
  unfolding route
  handle r request o =
      let (limiter, allowed) = allow r.limiter (address_of request.remote_addr) o.asked_at in
      let r' : Relay = record r { limiter = limiter } in
      if allowed then route r' request o else (r', respond 429 "too many requests")
