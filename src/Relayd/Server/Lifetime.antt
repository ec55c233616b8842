-- ===== src/Relayd/Server/Lifetime.antt =====
-- No sequence of requests to the relay, deliveries that fail and are put back included, makes an object live longer than the
-- window that it was given.
use clift.Base.{
  length, ltb, codes, ◌==◌, ℕ, ◌≤◌, ◌≡◌, ◌≢◌, refl, ap, Option, none, some, List, [], ◌∷◌, arith,
  Str, str_eq, All, inl, inr, Bool-cases, Option-cases,
}
use clift.Base.Dict
use clift.Base.Text.{strip_prefix}
use clift.Relayd.Address.{Instant, Duration}
use clift.Relayd.RateLimit.{allow}
use clift.Relayd.Store
use clift.Relayd.Store.{Store, Op, IsValid, put_op, take_op, restore_op, remove_op, apply}
use clift.Relayd.Store.Bounds.{apply-IsValid}
use clift.Relayd.Store.Expiry.{GoneBy, NoLonger, GoneBy-apply, take-GoneBy}
use clift.Relayd.Server.{
  or_zero, split_query, object_prefix, requested_ttl, Relay, Request, Method, Outside, TtlResult,
  publish, publish_with, accept_body, store_body, retrieve, deliver, restore_failed, dispatch,
  by_object, route, handle, respond, new_object_id, well_formed, address_of, get, post, delete,
  other,
}

-- The requests that the relay handles one after another.
unfoldable pub handle_all : (List ℕ → Str) → Relay → List (Request × Outside) → Relay
handle_all encode r [] = r
handle_all encode r ((request, o) ∷ requests) =
    handle_all encode (handle encode r request o).0 requests

module _ (id : Str) (limit : Instant) where
  -- A store in which the object of the id, if there is one, is gone by the limit.
  pub record Bounded (s : Store) : Type 0 where
    pub valid : IsValid s
    pub gone : GoneBy limit (Dict.get s.objects id)

  Bounded-apply : (s : Store) (op : Op) → NoLonger id limit op → Bounded s → Bounded (apply s op)
  Bounded-apply s op small b = record {
    valid = apply-IsValid s op b.valid;
    gone = GoneBy-apply s op id limit b.valid small b.gone;
  }

  -- What is put back after a delivery of the id has the end that was read before.
  expiry_small :
      (s : Store) (j : Str) (expires_at : Instant)
      → Bounded s
      → Store.expiry_of s j ≡ some expires_at
      → j ≡ id
      → expires_at ≤ limit
  unfolding Store.expiry_of
  expiry_small s j expires_at b h e = go (Dict.get s.objects id) (cc (h, e)) b.gone
    where
      go :
          (o : Option Store.Object)
          → elim o as (λ _. Option Instant) [ none ↦ none | some o ↦ some o.expires_at ]
            ≡ some expires_at
          → GoneBy limit o
          → expires_at ≤ limit
      go none h g = cc h
      go (some o) h g = let same : o.expires_at ≡ expires_at = cc h in omega (arith, g, same)

  deliver-Bounded :
      (r : Relay) (request : Request) (j : Str) (expires_at : Option Instant) (store : Store)
      (bytes : Option (List ℕ)) (now : Instant)
      → Bounded store
      → ((end : Instant) → expires_at ≡ some end → j ≡ id → end ≤ limit)
      → Bounded (deliver r request j expires_at store bytes now).0.store
  unfolding deliver restore_failed
  deliver-Bounded r request j expires_at store none now b small = b
  deliver-Bounded r request j none store (some bytes) now b small =
      elim (Bool-cases request.reaches) [ inl p ↦ rw p b | inr p ↦ rw p b ]
  deliver-Bounded r request j (some end) store (some bytes) now b small =
      elim (Bool-cases request.reaches) [
        | inl p ↦ rw p b
        | inr p ↦
            rw p
              (unfold apply in Bounded-apply store (restore_op j bytes end now) (small end refl) b)
      ]

  retrieve-Bounded :
      (r : Relay) (request : Request) (j : Str) (o : Outside)
      → Bounded r.store
      → Bounded (retrieve r request j o).0.store
  unfolding retrieve
  retrieve-Bounded r request j o b = elim (Bool-cases (well_formed j)) [
    | inl p ↦ rw p (
        deliver-Bounded r request j (Store.expiry_of r.store j) (Store.take r.store j o.first).0
          (Store.take r.store j o.first).1 o.second
          (unfold apply in Bounded-apply r.store (take_op j o.first) tt b)
          (λ end e same. expiry_small r.store j end b e same))
    | inr p ↦ rw p b
  ]

  module _ (encode : List ℕ → Str) where
    -- The request does not draw the id anew.
    abbrev pub DrawsOther : Outside → Type 0
    DrawsOther o = new_object_id encode o.random ≢ some id

    store_body-Bounded :
        (r : Relay) (ttl : Duration) (body : List ℕ) (o : Outside) (drawn : Option Str)
        → drawn ≢ some id
        → Bounded r.store
        → Bounded (store_body encode r ttl body o drawn).0.store
    unfolding store_body
    store_body-Bounded r ttl body o none fresh b = b
    store_body-Bounded r ttl body o (some j) fresh b =
        unfold apply in
        Bounded-apply r.store (put_op j body ttl o.first o.second) (λ e. fresh (ap some e)) b

    accept_body-Bounded :
        (r : Relay) (ttl : Duration) (body : Option (List ℕ)) (o : Outside)
        → DrawsOther o
        → Bounded r.store
        → Bounded (accept_body encode r ttl body o).0.store
    unfolding accept_body
    accept_body-Bounded r ttl none o fresh b = b
    accept_body-Bounded r ttl (some []) o fresh b = b
    accept_body-Bounded r ttl (some (c ∷ body)) o fresh b =
        elim (Bool-cases (ltb r.store.max_object_bytes (length (c ∷ body)))) [
          | inl p ↦ rw p b
          | inr p ↦ rw p (store_body-Bounded r ttl (c ∷ body) o _ fresh b)
        ]

    publish_with-Bounded :
        (r : Relay) (request : Request) (ttl : TtlResult) (o : Outside)
        → DrawsOther o
        → Bounded r.store
        → Bounded (publish_with encode r request ttl o).0.store
    publish_with-Bounded r request (TtlResult.err message) o fresh b = b
    publish_with-Bounded r request (TtlResult.ok ttl) o fresh b =
        elim (Bool-cases (ltb r.store.max_object_bytes (or_zero request.body_length))) [
          | inl p ↦ rw p b
          | inr p ↦ rw p (accept_body-Bounded r ttl _ o fresh b)
        ]

    by_object-Bounded :
        (r : Relay) (request : Request) (method : Method) (j : Option Str) (o : Outside)
        → Bounded r.store
        → Bounded (by_object encode r request method j o).0.store
    unfolding by_object
    by_object-Bounded r request get (some j) o b = retrieve-Bounded r request j o b
    by_object-Bounded r request delete (some j) o b =
        unfold apply in Bounded-apply r.store (remove_op j) tt b
    by_object-Bounded r request get none o b = b
    by_object-Bounded r request delete none o b = b
    by_object-Bounded r request post j o b = b
    by_object-Bounded r request other j o b = b

    dispatch-Bounded :
        (r : Relay) (request : Request) (method : Method) (path query : Str) (o : Outside)
        → DrawsOther o
        → Bounded r.store
        → Bounded (dispatch encode r request method path query o).0.store
    unfolding dispatch publish
    dispatch-Bounded r request get path query o fresh b =
        elim (Bool-cases (path == codes "/v1/health")) [
          | inl p ↦ rw p b
          | inr p ↦ rw p (by_object-Bounded r request get (strip_prefix object_prefix path) o b)
        ]
    dispatch-Bounded r request post path query o fresh b =
        elim (Bool-cases (path == codes "/v1/objects")) [
          | inl p ↦ rw p (publish_with-Bounded r request (requested_ttl query r.max_ttl) o fresh b)
          | inr p ↦ rw p (by_object-Bounded r request post (strip_prefix object_prefix path) o b)
        ]
    dispatch-Bounded r request delete path query o fresh b =
        by_object-Bounded r request delete (strip_prefix object_prefix path) o b
    dispatch-Bounded r request other path query o fresh b =
        by_object-Bounded r request other (strip_prefix object_prefix path) o b

    handle-Bounded :
        (r : Relay) (request : Request) (o : Outside)
        → DrawsOther o
        → Bounded r.store
        → Bounded (handle encode r request o).0.store
    unfolding handle route
    handle-Bounded r request o fresh b =
        let (limiter, allowed) =
          allow r.limiter (address_of encode request.remote_addr) o.asked_at in
        let (path, query) = split_query request.url in
        elim (Bool-cases (allow r.limiter (address_of encode request.remote_addr) o.asked_at).1) [
          | inl p ↦ rw p (
              dispatch-Bounded (record r { limiter = limiter }) request request.method path query o
                fresh b)
          | inr p ↦ rw p b
        ]

    handle_all-Bounded :
        (r : Relay) (requests : List (Request × Outside))
        → All (λ (q : Request × Outside). DrawsOther q.1) requests
        → Bounded r.store
        → Bounded (handle_all encode r requests).store
    unfolding handle_all
    handle_all-Bounded r [] fresh b = b
    handle_all-Bounded r ((request, o) ∷ requests) (fresh, rest) b =
        handle_all-Bounded (handle encode r request o).0 requests rest
          (handle-Bounded r request o fresh b)

ends-GoneBy :
    (s : Store) (id : Str) (limit : Instant)
    → Store.expiry_of s id ≡ some limit
    → GoneBy limit (Dict.get s.objects id)
unfolding Store.expiry_of
ends-GoneBy s id limit h = elim (Option-cases (Dict.get s.objects id)) [
  | inl e ↦ cc (rw e at h)
  | inr (o, e) ↦ let same : o.expires_at ≡ limit = cc (rw e at h) in rw e (omega (arith, same))
]

-- The relay, whose store has one entry for each id, holds an object that ends at `limit`. Whatever requests it then handles, deliveries of the object that fail and are
-- put back included, as long as none of them draws the object's id anew: a GET of the id from that end on is answered
-- 404, with no object.
pub retrieve-handle_all :
    (encode : List ℕ → Str) (r : Relay) (id : Str) (limit : Instant)
    (requests : List (Request × Outside)) (request : Request) (o : Outside)
    → IsValid r.store
    → Store.expiry_of r.store id ≡ some limit
    → All (λ (q : Request × Outside). new_object_id encode q.1.random ≢ some id) requests
    → limit ≤ o.first
    → (retrieve (handle_all encode r requests) request id o).1 ≡ respond 404 "no such object"
unfolding retrieve
retrieve-handle_all encode r id limit requests request o valid ends fresh late =
    let start : Bounded id limit r.store = record {
      valid = valid;
      gone = ends-GoneBy r.store id limit ends;
    } in
    let b = handle_all-Bounded id limit encode r requests fresh start in
    let missed =
      take-GoneBy (handle_all encode r requests).store id limit o.first b.valid b.gone late in
    elim (Bool-cases (well_formed id)) [
      | inl p ↦ rw (p, missed) (unfold deliver in refl)
      | inr p ↦ rw p refl
    ]
