-- ===== src/Relayd/Server/Accepted.antt =====
-- What `publish` of server.rs has done when it answers with an object's id.
use clift.Base.{
  ℕ, ◌+◌, ◌/◌, ◌^◌, ◌≤◌, ◌<◌, ◌≡◌, refl, sym, ◌∙◌, subst, min, none, some, Option, List, [], ◌∷◌,
  arith, Bool-cases, inl, inr,
}
use clift.Base.{ltb, length, take, take_all, length-take, Str}
use clift.Relayd.Address.{Duration}
use clift.Relayd.Store
use clift.Relayd.Store.{PutResult, Refusal}
use clift.Relayd.Server.{
  Relay, Request, Outside, Body, TtlResult, requested_ttl, or_zero, read_to_end, put_into, publish,
  publish_with, accept_body, store_body, put_response, new_object_id, created, json,
}

-- The body that arrived was stored under a fresh id with the lifetime that the answer tells in seconds.
pub record Accepted (encode : List ℕ → Str) (r : Relay) (body : List ℕ) (o : Outside) (id : Str)
    (seconds : ℕ) (r' : Relay) : Type 0 where
  pub random : List ℕ
  pub ttl : Duration
  pub named : id ≡ encode random
  pub told : seconds ≡ ttl / 10 ^ 9
  pub small : length body ≤ r.store.max_object_bytes
  pub accepted : (Store.put r.store id body ttl o.first o.second).1 ≡ none
  pub after : r' ≡ put_into r (Store.put r.store id body ttl o.first o.second).0

put_response-created :
    (id id' : Str) (ttl : Duration) (result : PutResult) (seconds : ℕ)
    → (put_response id ttl result).content ≡ json (created id' seconds)
    → (result ≡ none) × (id ≡ id') × (seconds ≡ ttl / 10 ^ 9)
put_response-created id id' ttl none seconds h = (refl, ground arith, ground arith)
put_response-created id id' ttl (some Refusal.too_large) seconds h = cc
put_response-created id id' ttl (some Refusal.full) seconds h = cc

module _ (encode : List ℕ → Str) where
  store_body-created :
      (r : Relay) (ttl : Duration) (body : List ℕ) (o : Outside) (id' : Str) (seconds : ℕ)
      → length body ≤ r.store.max_object_bytes
      → (store_body encode r ttl body o (new_object_id encode o.random)).1.content
        ≡ json (created id' seconds)
      → Accepted encode r body o id' seconds
          (store_body encode r ttl body o (new_object_id encode o.random)).0
  unfolding store_body
  store_body-created r ttl body o id' seconds small h = go o.random h
    where
      go :
          (random : Option (List ℕ))
          → (store_body encode r ttl body o (new_object_id encode random)).1.content
            ≡ json (created id' seconds)
          → Accepted encode r body o id' seconds
              (store_body encode r ttl body o (new_object_id encode random)).0
      go none h = cc
      go (some random) h =
          let (fine, same, told) = put_response-created (encode random) id' ttl _ seconds h in
          rw (← same) (record {
            random = random;
            ttl = ttl;
            named = refl;
            told = told;
            small = small;
            accepted = fine;
            after = refl;
          })

  accept_body-created :
      (r : Relay) (ttl : Duration) (body : Option (List ℕ)) (o : Outside) (id : Str) (seconds : ℕ)
      → (accept_body encode r ttl body o).1.content ≡ json (created id seconds)
      → (whole : List ℕ) × (body ≡ some whole)
        × Accepted encode r whole o id seconds (accept_body encode r ttl body o).0
  unfolding accept_body
  accept_body-created r ttl none o id seconds h = cc
  accept_body-created r ttl (some []) o id seconds h = cc
  accept_body-created r ttl (some (b ∷ body)) o id seconds h =
      elim (Bool-cases (ltb r.store.max_object_bytes (length (b ∷ body)))) [
        | inl p ↦ cc (rw p at h)
        | inr p ↦ (
          b ∷ body,
          refl,
          rw p (store_body-created r ttl (b ∷ body) o id seconds (ground arith) (rw p at h)),
        )
      ]

-- A body that was read within the ceiling was read whole.
read_to_end-whole :
    (ceiling : ℕ) (body : Body) (whole : List ℕ)
    → ceiling < Store.max_u64
    → length whole ≤ ceiling
    → read_to_end (min (ceiling + 1) Store.max_u64) body ≡ some whole
    → whole ≡ body.arrives
unfolding read_to_end
read_to_end-whole ceiling body whole fits small h =
    let limit = min (ceiling + 1) Store.max_u64 in
    let cut : take limit body.arrives ≡ whole = ground arith in
    let size : length (take limit body.arrives) ≤ ceiling = rw cut small in
    let short : length body.arrives ≤ limit = omega (arith, length-take limit body.arrives, size) in
    sym cut ∙ take_all limit body.arrives short

module _ (encode : List ℕ → Str) where
  ttl_accepted :
      (r : Relay) (request : Request) (o : Outside) (id : Str) (seconds : ℕ) (t : TtlResult)
      → r.store.max_object_bytes < Store.max_u64
      → (publish_with encode r request t o).1.content ≡ json (created id seconds)
      → Accepted encode r request.body.arrives o id seconds (publish_with encode r request t o).0
  ttl_accepted r request o id seconds (TtlResult.err message) fits h = cc
  ttl_accepted r request o id seconds (TtlResult.ok ttl) fits h =
      elim (Bool-cases (ltb r.store.max_object_bytes (or_zero request.body_length))) [
        | inl p ↦ cc (rw p at h)
        | inr p ↦
            let read =
              read_to_end (min (r.store.max_object_bytes + 1) Store.max_u64) request.body in
            let (whole, e, a) = accept_body-created encode r ttl read o id seconds (rw p at h) in
            rw p (
              subst
                (λ body. Accepted encode r body o id seconds (accept_body encode r ttl read o).0)
                (read_to_end-whole r.store.max_object_bytes request.body whole fits a.small e) a)
      ]

  -- An answer with an id means that the whole body that arrived is stored under it.
  pub publish-created :
      (r : Relay) (request : Request) (query : Str) (o : Outside) (id : Str) (seconds : ℕ)
      → r.store.max_object_bytes < Store.max_u64
      → (publish encode r request query o).1.content ≡ json (created id seconds)
      → Accepted encode r request.body.arrives o id seconds (publish encode r request query o).0
  unfolding publish
  publish-created r request query o id seconds fits h =
      ttl_accepted r request o id seconds (requested_ttl query r.max_ttl) fits h
