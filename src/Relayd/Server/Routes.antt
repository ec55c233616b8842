-- ===== src/Relayd/Server/Routes.antt =====
-- `handle` of server.rs: limiting and routing.
use clift.Base.{
  ℕ, ◌≤◌, ◌<◌, ◌≡◌, ◌≢◌, refl, true, false, none, List, [], ◌∷◌, ◌++◌, arith, Str, str_eq, All,
  All-append,
}
use clift.Base.Text.{split_once, split, strip_prefix}
use clift.Relayd.Address.{Duration}
use clift.Relayd.RateLimit.{allow}
use clift.Relayd.Store
use clift.Relayd.Server.{
  Relay, Request, Outside, TtlResult, ttl_of_pairs, split_query, requested_ttl, object_prefix,
  respond, respond_empty, put_into, dispatch, by_object, retrieve, route, handle, address_of, get,
  delete,
}

ttl_of_pairs_bounds :
    (pairs : List Str) (maximum ttl : Duration)
    → 0 < maximum
    → ttl_of_pairs pairs maximum ≡ TtlResult.ok ttl
    → (0 < ttl) × (ttl ≤ maximum)
unfolding ttl_of_pairs
ttl_of_pairs_bounds [] maximum ttl pos h = ground arith
ttl_of_pairs_bounds ([] ∷ pairs) maximum ttl pos h = ttl_of_pairs_bounds pairs maximum ttl pos h
ttl_of_pairs_bounds ((c ∷ text) ∷ pairs) maximum ttl pos h =
    ground (arith, ttl_of_pairs_bounds pairs maximum ttl pos)

-- Whatever the query says, a lifetime that is granted is positive and at most the relay's maximum.
pub requested_ttl_bounds :
    (query : Str) (maximum ttl : Duration)
    → 0 < maximum
    → requested_ttl query maximum ≡ TtlResult.ok ttl
    → (0 < ttl) × (ttl ≤ maximum)
unfolding requested_ttl
requested_ttl_bounds query maximum ttl pos h =
    ttl_of_pairs_bounds (split b'&' query) maximum ttl pos h

split_once_absent :
    (separator : ℕ) (text : Str)
    → All (λ (c : ℕ). c ≢ separator) text
    → split_once separator text ≡ none
unfolding split_once
split_once_absent separator [] h = refl
split_once_absent separator (c ∷ text) h = ground (arith, split_once_absent separator text h.1, h.0)

parts-object :
    (request : Request) (id : Str)
    → All (λ (c : ℕ). c ≢ b'?') id
    → request.url ≡ object_prefix ++ id
    → split_query request.url ≡ (object_prefix ++ id, [])
unfolding split_query
parts-object request id plain url =
    let all_plain = All-append (λ (c : ℕ). c ≢ b'?') object_prefix id (omega arith) plain in
    rw (url, split_once_absent b'?' (object_prefix ++ id) all_plain)

module _ (encode : List ℕ → Str) where
  -- A request over the limit gets 429 and leaves the store as it was; one within the limit is routed.
  pub handle_cases :
      (r : Relay) (request : Request) (o : Outside)
      → let (limiter, allowed) =
          allow r.limiter (address_of encode request.remote_addr) o.asked_at in
        (allowed ≡ false
          → ((handle encode r request o).1 ≡ respond 429 "too many requests")
            × ((handle encode r request o).0.store ≡ r.store))
        × (allowed ≡ true
            → handle encode r request o ≡ route encode (record r { limiter = limiter }) request o)
  unfolding handle
  handle_cases r request o = (λ e. rw e (refl, refl), λ e. rw e)

  -- GET and DELETE of `/v1/objects/<id>`, for an id with no `?`, reach the object of that id; the answer to
  -- DELETE is 204 with no content, whichever objects the relay holds.
  pub route_object :
      (r : Relay) (request : Request) (id : Str) (o : Outside)
      → All (λ (c : ℕ). c ≢ b'?') id
      → request.url ≡ object_prefix ++ id
      → (request.method ≡ get → route encode r request o ≡ retrieve r request id o)
        × (request.method ≡ delete
            → route encode r request o ≡ (put_into r (Store.remove r.store id), respond_empty 204))
  unfolding dispatch by_object strip_prefix
  route_object r request id o plain url =
      let parts = parts-object request id plain url in
      (
        λ is_get. unfold route in rw (is_get, parts),
        λ is_delete. unfold route in rw (is_delete, parts),
      )
