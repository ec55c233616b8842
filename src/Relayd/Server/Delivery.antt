-- ===== src/Relayd/Server/Delivery.antt =====
-- What a client gets from `publish` and `retrieve` of server.rs, one request after another.
use clift.Base.{
  ℕ, ◌+◌, ◌/◌, ◌^◌, ◌≤◌, ◌<◌, ◌≡◌, ◌≢◌, refl, min, true, false, none, some, List, [], arith,
}
use clift.Base.{lt→ltb, leb, if◌then◌else◌, length, take_all, Str, str_eq, str_beq_iff}
use clift.Base.Dict
use clift.Relayd.Address.{Instant, Duration}
use clift.Relayd.Store
use clift.Relayd.Store.{Store, Object, IsValid, held, unexpired, found}
use clift.Relayd.Store.Takes.{take-put, take-take, take-found, get-take, get-restore}
use clift.Relayd.Server.{
  Relay, Request, Outside, Body, Response, TtlResult, requested_ttl, or_zero, read_to_end,
  well_formed, put_into, respond, retrieve, publish, created, respond_json, octets, add_headers,
}

-- The relay has room for a body: it is not empty, within the ceiling for one object, and with what
-- has not expired it is within the ceiling for all.
pub record HasRoom (r : Relay) (body : List ℕ) (now : Instant) : Type 0 where
  pub some_bytes : body ≢ []
  pub one : length body ≤ r.store.max_object_bytes
  pub all : held (Store.drop_expired now r.store) + length body ≤ r.store.max_total_bytes
  pub ceiling : r.store.max_object_bytes < Store.max_u64

read_whole :
    (limit : ℕ) (body : Body)
    → length body.arrives < limit
    → body.breaks ≡ false
    → read_to_end limit body ≡ some body.arrives
unfolding read_to_end
read_whole limit body h e = ground (arith, take_all limit body.arrives)

put-HasRoom :
    (r : Relay) (id : Str) (body : List ℕ) (ttl : Duration) (now now' : Instant)
    → HasRoom r body now
    → (Store.put r.store id body ttl now now').1 ≡ none
unfolding Store.put Store.drop_expired
put-HasRoom r id body ttl now now' room = ground (arith, room.one, room.all)

abbrev pub octets_response : List ℕ → Response
octets_response bytes = record {
  status = 200;
  headers = add_headers "application/octet-stream";
  content = octets bytes;
}

pub retrieve-found :
    (r : Relay) (request : Request) (id : Str) (o : Outside) (bytes : List ℕ)
    → well_formed id ≡ true
    → request.reaches ≡ true
    → (Store.take r.store id o.first).1 ≡ some bytes
    → retrieve r request id o
      ≡ (put_into r (Store.take r.store id o.first).0, octets_response bytes)
unfolding retrieve
retrieve-found r request id o bytes well reaches h = rw (well, h, reaches)

pub retrieve-missing :
    (r : Relay) (request : Request) (id : Str) (o : Outside)
    → (Store.take r.store id o.first).1 ≡ none
    → (retrieve r request id o).1 ≡ respond 404 "no such object"
unfolding retrieve
retrieve-missing r request id o h = ground arith

module _ (encode : List ℕ → Str) where
  publish_lem :
      (r : Relay) (request : Request) (query : Str) (o : Outside) (ttl : Duration) (random : List ℕ)
      → requested_ttl query r.max_ttl ≡ TtlResult.ok ttl
      → or_zero request.body_length ≤ r.store.max_object_bytes
      → request.body.breaks ≡ false
      → HasRoom r request.body.arrives o.first
      → o.random ≡ some random
      → publish encode r request query o ≡ (
        put_into r (Store.put r.store (encode random) request.body.arrives ttl o.first o.second).0,
        respond_json 201 (created (encode random) (ttl / 10 ^ 9)),
      )
  unfolding publish
  publish_lem r request query o ttl random t declared whole room rand =
      let body = request.body.arrives in
      let limit = min (r.store.max_object_bytes + 1) Store.max_u64 in
      ground (
        arith,
        room.some_bytes,
        room.one,
        room.ceiling,
        read_whole limit request.body,
        put-HasRoom r (encode random) body ttl o.first o.second room,
      )

  -- What `publish` accepts, the next `retrieve` of its id before the end of its lifetime delivers byte
  -- for byte, and a second one gets 404. The time to live is the one that the query asks for, the body
  -- arrives whole and there is room for it, and the encoded random id has the form of an id.
  pub retrieve-publish :
      (r : Relay) (request again : Request) (query : Str) (o o' o'' : Outside) (ttl : Duration)
      (random : List ℕ)
      → IsValid r.store
      → requested_ttl query r.max_ttl ≡ TtlResult.ok ttl
      → or_zero request.body_length ≤ r.store.max_object_bytes
      → request.body.breaks ≡ false
      → HasRoom r request.body.arrives o.first
      → o.random ≡ some random
      → well_formed (encode random) ≡ true
      → again.reaches ≡ true
      → o'.first < o.second + ttl
      → let (r', answer) = publish encode r request query o in
        let (r'', delivered) = retrieve r' again (encode random) o' in
        (answer ≡ respond_json 201 (created (encode random) (ttl / 10 ^ 9)))
        × (delivered ≡ octets_response request.body.arrives)
        × ((retrieve r'' again (encode random) o'').1 ≡ respond 404 "no such object")
  retrieve-publish r request again query o o' o'' ttl random valid t declared whole room rand well
        reaches early =
      rw (publish_lem r request query o ttl random t declared whole room rand) (
        rw (retrieve-found stored again id o' body well reaches got) (
          refl,
          refl,
          retrieve-missing (put_into stored (Store.take stored.store id o'.first).0) again id o''
              (take-take stored.store id o'.first o''.first),
        ))
    where
      id : Str
      id = encode random

      body : List ℕ
      body = request.body.arrives

      stored : Relay
      stored = put_into r (Store.put r.store id body ttl o.first o.second).0

      got :
          (Store.take (Store.put r.store id body ttl o.first o.second).0 id o'.first).1 ≡ some body
      got = rw (
        take-put r.store id body ttl o.first o.second o'.first valid
            (put-HasRoom r id body ttl o.first o.second room),
        lt→ltb o'.first (o.second + ttl) early,
      )

-- A delivery that does not reach the client uses nothing up and extends nothing: the object is under
-- its id again, with its bytes and the end of its lifetime, unless that end has come meanwhile. Other
-- ids are as after a sweep.
pub retrieve_failed :
    (r : Relay) (request : Request) (id other : Str) (o : Outside) (object : Object)
    → IsValid r.store
    → well_formed id ≡ true
    → request.reaches ≡ false
    → Dict.get r.store.objects id ≡ some object
    → o.first < object.expires_at
    → (Dict.get (retrieve r request id o).0.store.objects id
        ≡ (if leb object.expires_at o.second then none else some object))
      × (other ≢ id
          → Dict.get (retrieve r request id o).0.store.objects other ≡ found r.store other o.first)
unfolding retrieve
retrieve_failed r request id other o object valid well reaches h early =
    let got = take-found r.store id object o.first valid h early in
    let left = (Store.take r.store id o.first).0 in
    let ending : Store.expiry_of r.store id ≡ some object.expires_at =
      unfold Store.expiry_of in rw h in
    rw
      (
        well,
        got,
        ending,
        reaches,
        get-restore left id id,
        get-restore left id other,
        get-take r.store id,
      )
      (
        ground (arith, str_beq_iff id id, get-take r.store id id o.first),
        λ ne. ground (arith, ne, str_beq_iff id other, get-take r.store id other o.first),
      )
