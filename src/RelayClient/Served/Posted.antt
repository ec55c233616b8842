-- ===== src/RelayClient/Served/Posted.antt =====
-- What the relay has done when the client's `publish` succeeds.
use clift.Base.{
  ℕ, ◌<◌, ◌≡◌, refl, sym, ap, ◌∙◌, subst, true, ◌||◌, none, some, List, ◌++◌, arith, Bool-cases,
  inl, inr,
}
use clift.Base.{eqb, Str, codes, Result, ok, err}
use clift.Base.Decimal.{to_string}
use clift.Base.Fallible.{◌>>=◌}
use clift.Base.Text.{split_once}
use clift.Base64.{Base64}
use clift.Error.{CliftError}
use clift.Relayd.Address.{Duration, from_secs}
use clift.Relayd.RateLimit.{allow}
use clift.Relayd.Store
use clift.Relayd.Server
use clift.Relayd.Server.{
  Outside, Request, Response, Method, Content, Document, created, json, respond, handle, route,
  address_of,
}
use clift.Relayd.Server.Accepted.{Accepted, publish-created}
use clift.Relayd.Server.Routes.{handle_cases}
use clift.RelayClient.{
  Members, Answer, published, publish_path, as_secs, members_of, named, granted, status_error,
  unreachable,
}
use clift.RelayClient.Served.{
  Call, seen, answer_of, exchange, post_request, http_relay, members_seen,
}
use clift.Universal.Port.{PublishedObject}
use clift.Universal.Token.{ObjectId, parse_object_id}

module _ (base64 : Base64) (print : Document → List ℕ) where
  open base64 use {encode}

  -- The answer that the client takes for a success.
  record Told (content : Content) (object : PublishedObject) : Type 0 where
    id : Str
    seconds : ℕ
    says : content ≡ json (created id seconds)
    parses : parse_object_id base64 id ≡ ok object.id
    lasts : object.ttl ≡ from_secs seconds

  named-eq-ok :
      (ttl : Duration) (members : Members) (id : Str) (object : PublishedObject)
      → named base64 ttl members (some id) ≡ ok object
      → (parse_object_id base64 id ≡ ok object.id) × (object.ttl ≡ granted ttl members.ttl_seconds)
  named-eq-ok ttl members id object h = go (parse_object_id base64 id) refl h
    where
      go :
          (r : Result ObjectId CliftError)
          → parse_object_id base64 id ≡ r
          → (r >>= λ parsed. ok (record { id = parsed; ttl = granted ttl members.ttl_seconds }))
            ≡ ok object
          → (parse_object_id base64 id ≡ ok object.id)
            × (object.ttl ≡ granted ttl members.ttl_seconds)
      go (ok parsed) e k =
          let same : parsed ≡ object.id = ground arith in (e ∙ ap (λ i. ok i) same, ground arith)
      go (err e') e k = cc

  document-eq-ok :
      (ttl : Duration) (doc : Document) (object : PublishedObject)
      → named base64 ttl (members_seen doc) (members_seen doc).object_id ≡ ok object
      → Told (json doc) object
  document-eq-ok ttl (Document.health a b c d) object h = cc
  document-eq-ok ttl (Document.problem message) object h = cc
  document-eq-ok ttl (Document.created id seconds) object h =
      let (parses, lasts) =
        named-eq-ok ttl (members_seen (Document.created id seconds)) id object h in
      record { id = id; seconds = seconds; says = refl; parses = parses; lasts = lasts }

  answer-eq-ok :
      (ttl : Duration) (answer : Answer) (object : PublishedObject)
      → published base64 ttl (some answer) ≡ ok object
      → (members_of answer.text >>= λ members. named base64 ttl members members.object_id)
        ≡ ok object
  unfolding published
  answer-eq-ok ttl answer object h =
      elim (Bool-cases (eqb answer.status 201 || eqb answer.status 200)) [
        | inl p ↦ rw p at h
        | inr p ↦ cc (rw p at h)
      ]

  content-eq-ok :
      (ttl : Duration) (status : ℕ) (content : Content) (object : PublishedObject)
      → published base64 ttl (some (seen base64 print status content)) ≡ ok object
      → Told content object
  content-eq-ok ttl status (Content.json doc) object h =
      document-eq-ok ttl doc object
        (answer-eq-ok ttl (seen base64 print status (Content.json doc)) object h)
  content-eq-ok ttl status (Content.octets bytes) object h =
      cc (answer-eq-ok ttl (seen base64 print status (Content.octets bytes)) object h)
  content-eq-ok ttl status Content.empty object h =
      cc (answer-eq-ok ttl (seen base64 print status Content.empty) object h)

  abbrev query_of : Duration → Str
  query_of ttl = codes "ttl=" ++ to_string (as_secs ttl)

  split_publish :
      (ttl : Duration) → Server.split_query (publish_path ttl) ≡ (codes "/v1/objects", query_of ttl)
  unfolding Server.split_query split_once
  split_publish ttl = refl

  route_post :
      (r : Server.Relay) (call : Call) (sealed : List ℕ) (ttl : Duration) (o : Outside)
      → route encode r (post_request base64 print call sealed ttl) o
        ≡ Server.publish encode r (post_request base64 print call sealed ttl) (query_of ttl) o
  unfolding route
  route_post r call sealed ttl o = rw (split_publish ttl)

  abbrev pub limited_relay : Server.Relay → Call → Server.Relay
  limited_relay r call = record r {
    limiter = (allow r.limiter (address_of encode call.address) call.outside.asked_at).0;
  }

  -- The client's `publish` succeeded: the relay let the request through and stored the whole object.
  pub record Posted (r r' : Server.Relay) (call : Call) (sealed : List ℕ) (object : PublishedObject)
      : Type 0 where
    pub id : Str
    pub seconds : ℕ
    pub stored : Accepted encode (limited_relay r call) sealed call.outside id seconds r'
    pub parses : parse_object_id base64 id ≡ ok object.id
    pub lasts : object.ttl ≡ from_secs seconds

  from_publish :
      (r : Server.Relay) (call : Call) (sealed : List ℕ) (ttl : Duration) (object : PublishedObject)
      → r.store.max_object_bytes < Store.max_u64
      → let request = post_request base64 print call sealed ttl in
        let (r', response) =
          Server.publish encode (limited_relay r call) request (query_of ttl) call.outside in
        published base64 ttl (some (answer_of base64 print response)) ≡ ok object
        → Posted r r' call sealed object
  from_publish r call sealed ttl object fits h =
      let request = post_request base64 print call sealed ttl in
      let response =
        (Server.publish encode (limited_relay r call) request (query_of ttl) call.outside).1 in
      let told = content-eq-ok ttl response.status response.content object h in
      record {
        id = told.id;
        seconds = told.seconds;
        stored =
            publish-created encode (limited_relay r call) request (query_of ttl) call.outside
              told.id told.seconds fits told.says;
        parses = told.parses;
        lasts = told.lasts;
      }

  limited_answer :
      (ttl : Duration)
      → published base64 ttl (some (answer_of base64 print (respond 429 "too many requests")))
        ≡ err (status_error 429)
  unfolding published
  limited_answer ttl = refl

  handled :
      (r : Server.Relay) (call : Call) (sealed : List ℕ) (ttl : Duration) (object : PublishedObject)
      → r.store.max_object_bytes < Store.max_u64
      → let (r', response) =
          handle encode r (post_request base64 print call sealed ttl) call.outside in
        published base64 ttl (some (answer_of base64 print response)) ≡ ok object
        → Posted r r' call sealed object
  handled r call sealed ttl object fits h =
      let request = post_request base64 print call sealed ttl in
      let (refused, routed) = handle_cases encode r request call.outside in
      elim (Bool-cases (allow r.limiter (address_of encode call.address) call.outside.asked_at).1) [
        | inl p ↦
            subst
              (λ x.
                published base64 ttl (some (answer_of base64 print x.1)) ≡ ok object
                → Posted r x.0 call sealed object)
              (sym (routed p ∙ route_post (limited_relay r call) call sealed ttl call.outside))
              (from_publish r call sealed ttl object fits) h
        | inr p ↦
            let limited : published base64 ttl
                  (some (answer_of base64 print (respond 429 "too many requests")))
                ≡ ok object =
              rw (refused p).0 at h in
            cc (sym (limited_answer ttl) ∙ limited)
      ]

  -- An exchange in which both messages get through.
  pub exchange_through :
      (r : Server.Relay) (call : Call) (request : Request)
      → call.connects ≡ true
      → call.arrives ≡ true
      → exchange base64 print r call request ≡ (
        (handle encode r request call.outside).0,
        some (answer_of base64 print (handle encode r request call.outside).1),
      )
  unfolding exchange
  exchange_through r call request connects arrives = rw (connects, arrives)

  silent : (ttl : Duration) → published base64 ttl none ≡ err unreachable
  unfolding published
  silent ttl = refl

  pub publish-Posted :
      (r r' : Server.Relay) (call : Call) (sealed : List ℕ) (ttl : Duration)
      (object : PublishedObject)
      → r.store.max_object_bytes < Store.max_u64
      → (http_relay base64 print).publish r call sealed ttl ≡ (r', ok object)
      → Posted r r' call sealed object
  unfolding exchange
  publish-Posted r r' call sealed ttl object fits h = elim (Bool-cases call.connects) [
    | inr p ↦ cc (sym (silent ttl) ∙ ap (λ x. x.1) (rw p at h))
    | inl p ↦ elim (Bool-cases call.arrives) [
      | inr q ↦ cc (sym (silent ttl) ∙ ap (λ x. x.1) (rw (p, q) at h))
      | inl q ↦
          let through = exchange_through r call (post_request base64 print call sealed ttl) p q in
          let k = rw through at h in
          subst (λ s. Posted r s call sealed object) (ap (λ x. x.0) k)
            (handled r call sealed ttl object fits (ap (λ x. x.1) k))
    ]
  ]
