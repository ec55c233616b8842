-- ===== src/RelayClient/Served/SingleUse.antt =====
-- The client and the relay together keep the promises of the port.
use clift.Base.{ℕ, ◌+◌, ◌≤◌, ◌<◌, ◌≡◌, ◌≢◌, refl, ap, ◌∙◌, true, none, some, List, [], ◌∷◌, arith}
use clift.Base.{lt→ltb, le→leb, str_eq, length, all, Str, ok, err, All, All-map}
use clift.Base.Dict
use clift.Base.Utf8.{utf8, encode_char}
use clift.Base64.{Base64, IsByte, IsBase64url, is_base64url}
use clift.Error.{ErrorKind, relay_error}
use clift.Relayd.Address.{Duration}
use clift.Relayd.RateLimit.{allow}
use clift.Relayd.Store
use clift.Relayd.Store.Takes.{take-put, take-absent, get-take}
use clift.Relayd.Server
use clift.Relayd.Server.{
  Request, Method, Document, handle, route, retrieve, address_of, well_formed, put_into, respond,
}
use clift.Relayd.Server.Delivery.{retrieve-found, retrieve-missing, octets_response}
use clift.Relayd.Server.Routes.{handle_cases, route_object}
use clift.RelayClient.{retrieved, max_download_bytes}
use clift.RelayClient.Served.{Call, answer_of, exchange, object_request, http_relay}
use clift.RelayClient.Served.Posted.{Posted, publish-Posted, exchange_through, limited_relay}
use clift.Universal.Port
use clift.Universal.Port.{PublishedObject}
use clift.Universal.Token.{ObjectId, parse_object_id, object_id_bytes}
use clift.Universal.Token.Strict.{id_strict}

-- Characters of the alphabet are single bytes.
utf8_letters : (s : Str) → All IsBase64url s → (utf8 s ≡ s) × (all is_base64url s ≡ true)
unfolding utf8
utf8_letters [] h = (refl, refl)
utf8_letters (c ∷ s) (p, h) =
    let (same, good) = utf8_letters s h in
    let one : encode_char c ≡ c ∷ [] = ground arith in (rw (one, same), rw (p, good))

letter_ne_question : (c : ℕ) → IsBase64url c → c ≢ b'?'
letter_ne_question c p = ground arith

plain_id : (s : Str) → All IsBase64url s → All (λ (c : ℕ). c ≢ b'?') s
plain_id s h = All-map letter_ne_question s h

module _ (base64 : Base64) (print : Document → List ℕ) where
  open base64 use {encode, decode-IsByte, length-encode, encode_alphabet}

  -- The id of sixteen bytes has the form that the relay asks for.
  id_well_formed :
      (id : ObjectId)
      → length id.bytes ≡ object_id_bytes
      → All IsByte id.bytes
      → well_formed (encode id.bytes) ≡ true
  unfolding well_formed
  id_well_formed id size bytes =
      let (same, good) = utf8_letters (encode id.bytes) (encode_alphabet id.bytes bytes) in
      let many : length (encode id.bytes) ≡ 22 = omega (arith, length-encode id.bytes, size) in
      rw (same, good, many)

  pub record Answered (r : Server.Relay) (call : Call) : Type 0 where
    pub connects : call.connects ≡ true
    pub arrives : call.arrives ≡ true
    pub allowed : (allow r.limiter (address_of encode call.address) call.outside.asked_at).1 ≡ true

  -- A GET that gets through is one `retrieve` of the relay.
  get_through :
      (r : Server.Relay) (call : Call) (id : ObjectId)
      → All IsByte id.bytes
      → Answered r call
      → exchange base64 print r call (object_request base64 print Method.get call id) ≡ (
          let (r', response) =
            retrieve
              (limited_relay base64 print r call)
              (object_request base64 print Method.get call id)
              (encode id.bytes)
              call.outside in
          (r', some (answer_of base64 print response)))
  get_through r call id bytes a =
      let request = object_request base64 print Method.get call id in
      let routed = (handle_cases encode r request call.outside).1 a.allowed in
      let got =
        (route_object encode (limited_relay base64 print r call) request (encode id.bytes)
            call.outside (plain_id (encode id.bytes) (encode_alphabet id.bytes bytes)) refl).0
          refl in
      exchange_through base64 print r call request a.connects a.arrives
      ∙ ap (λ x. (x.0, some (answer_of base64 print x.1))) (routed ∙ got)

  abbrev pub IsSound : Server.Relay → Type 0
  IsSound r = Store.IsValid r.store × (r.store.max_object_bytes ≤ max_download_bytes)

  abbrev pub InTime : Call → Call → Duration → Type 0
  InTime before after ttl = after.outside.first < before.outside.second + ttl

  abbrev pub Gone : Server.Relay → ObjectId → Type 0
  Gone r id = (Dict.get r.store.objects (encode id.bytes) ≡ none) × All IsByte id.bytes

  abbrev pub relay : Port.Relay
  relay = http_relay base64 print

  missing :
      retrieved (some (answer_of base64 print (respond 404 "no such object")))
      ≡ err (relay_error ErrorKind.token_unusable)
  unfolding retrieved
  missing = refl

  got_whole :
      (sealed : List ℕ)
      → length sealed ≤ max_download_bytes
      → retrieved (some (answer_of base64 print (octets_response sealed))) ≡ ok sealed
  unfolding retrieved
  got_whole sealed small = rw (le→leb (length sealed) max_download_bytes small)

  pub retrieve_gone_lem :
      (r : Server.Relay) (call : Call) (id : ObjectId)
      → Gone r id
      → Answered r call
      → (relay.retrieve r call id).1 ≡ err (relay_error ErrorKind.token_unusable)
  retrieve_gone_lem r call id (absent, bytes) a =
      let r1 = limited_relay base64 print r call in
      let request = object_request base64 print Method.get call id in
      let none_taken = take-absent r.store (encode id.bytes) call.outside.first absent in
      let response = retrieve-missing r1 request (encode id.bytes) call.outside none_taken in
      ap (λ x. retrieved x.1) (get_through r call id bytes a)
      ∙ ap (λ x. retrieved (some (answer_of base64 print x))) response
      ∙ missing

  -- What was stored is taken out whole by a GET in time, and is gone then.
  retrieve_stored :
      (r : Server.Relay) (call : Call) (id : ObjectId) (sealed : List ℕ)
      → length id.bytes ≡ object_id_bytes
      → All IsByte id.bytes
      → length sealed ≤ max_download_bytes
      → Answered r call
      → (Store.take r.store (encode id.bytes) call.outside.first).1 ≡ some sealed
      → (r' : Server.Relay) × (relay.retrieve r call id ≡ (r', ok sealed)) × Gone r' id
  retrieve_stored r call id sealed size bytes small a taken =
      let r1 = limited_relay base64 print r call in
      let request = object_request base64 print Method.get call id in
      let found =
        retrieve-found r1 request (encode id.bytes) call.outside sealed
          (id_well_formed id size bytes) a.arrives taken in
      let after = put_into r1 (Store.take r.store (encode id.bytes) call.outside.first).0 in
      (
        after,
        ap (λ x. (x.0, retrieved x.1)) (get_through r call id bytes a)
            ∙ ap (λ x. (x.0, retrieved (some (answer_of base64 print x.1)))) found
            ∙ ap (λ y. (after, y)) (got_whole sealed small),
        (
          get-take r.store (encode id.bytes) (encode id.bytes) call.outside.first
              ∙ rw (str_eq.test_iff (encode id.bytes) (encode id.bytes)).1 refl,
          bytes,
        ),
      )

  -- The id that the client read is the one that the relay stored under.
  id_read :
      (id : Str) (object : PublishedObject)
      → parse_object_id base64 id ≡ ok object.id
      → (encode object.id.bytes ≡ id)
        × (length object.id.bytes ≡ object_id_bytes)
        × All IsByte object.id.bytes
  id_read id object h =
      let (text, size, found) = id_strict base64 id object.id h in
      (text, size, decode-IsByte id object.id.bytes found)

  -- An object that the client published is there for a `take` before the end of the lifetime that the
  -- client was told.
  stored_taken :
      (r r' : Server.Relay) (before after : Call) (sealed : List ℕ) (object : PublishedObject)
      → IsSound r
      → Posted base64 print r r' before sealed object
      → InTime before after object.ttl
      → (Store.take r'.store (encode object.id.bytes) after.outside.first).1 ≡ some sealed
  stored_taken r r' before after sealed object (valid, _) posted timely =
      let a = posted.stored in
      let (text, _, _) = id_read posted.id object posted.parses in
      let early : after.outside.first < before.outside.second + a.ttl =
        omega (arith, posted.lasts, a.told, timely) in
      rw (text, a.after)
        (take-put r.store posted.id sealed a.ttl before.outside.first before.outside.second
            after.outside.first valid a.accepted
          ∙ rw (lt→ltb after.outside.first (before.outside.second + a.ttl) early))

  -- Over the two programs, where the relay's ceiling for an object is at most the 64 MiB that the client reads of an answer: an
  -- object whose publication succeeded is retrieved whole by a call whose request and answer get through and that the rate
  -- limit allows, before the end of the lifetime that the client was told, and is gone from the relay afterwards.
  pub retrieve-publish_whole :
      (r r' : Server.Relay) (before after : Call) (sealed : List ℕ) (ttl : Duration)
      (object : PublishedObject)
      → IsSound r
      → relay.publish r before sealed ttl ≡ (r', ok object)
      → Answered r' after
      → InTime before after object.ttl
      → (r'' : Server.Relay) × (relay.retrieve r' after object.id ≡ (r'', ok sealed))
        × Gone r'' object.id
  retrieve-publish_whole r r' before after sealed ttl object sound h a timely =
      let posted =
        publish-Posted base64 print r r' before sealed ttl object (omega (arith, sound.1)) h in
      let (_, size, bytes) = id_read posted.id object posted.parses in
      retrieve_stored r' after object.id sealed size bytes
        (omega (arith, posted.stored.small, sound.1)) a
        (stored_taken r r' before after sealed object sound posted timely)

  abbrev pub http_relay-SingleUse : Port.SingleUse relay
  http_relay-SingleUse = record {
    IsSound = IsSound;
    Answered = Answered;
    InTime = InTime;
    Gone = Gone;
    retrieve-publish = retrieve-publish_whole;
    retrieve_gone = retrieve_gone_lem;
  }
