-- ===== src/Relayd/Tests.antt =====
-- Runs of the relay's model at concrete inputs, and its theorems applied to them.
use clift.Base.{
  ℕ, ◌+◌, ◌*◌, ◌/◌, ◌^◌, ◌≤◌, ◌<◌, min, ◌≡◌, ◌≢◌, refl, true, false, none, some, List, [], ◌∷◌,
  ◌++◌, arith,
}
use clift.Base.{leb, if◌then◌else◌, length, Str, str_eq, codes}
use clift.Base.Dict
use clift.Base.Text.{split_once, split, parse_u64, scan_u64}
use clift.Base.Utf8.{utf8}
use clift.Base64.Engine
use clift.Base64.Engine.{engine}
use clift.Relayd.Address.{IpAddr, v4, Instant, from_secs}
use clift.Relayd.RateLimit
use clift.Relayd.RateLimit.{run, allow}
use clift.Relayd.RateLimit.Alone.{alone_or_all, times_of, answers_of, run-refines-alone}
use clift.Relayd.RateLimit.Quota.{granted, granted-run}
use clift.Relayd.Store
use clift.Relayd.Store.{
  Store, Object, Op, held, put, take, restore, apply, put_op, take_op, restore_op, sweep_op, found,
}
use clift.Relayd.Store.Bounds.{held-run, restore-exceeds, all_put_back}
use clift.Relayd.Store.Bounds
use clift.Relayd.Store.Takes.{take-put}
use clift.Relayd.Store.Wins.{wins, stores, occupied, wins-le-stores}
use clift.Relayd.Store.InTime.{wins-put}
use clift.Relayd.Server.{
  Relay, Request, Outside, TtlResult, requested_ttl, well_formed, publish, retrieve, handle, route,
  respond, respond_json, created, address_of, object_prefix, respond_empty, put_into, get, delete,
  post,
}
use clift.Relayd.Server.Delivery.{retrieve-publish, retrieve_failed, octets_response, HasRoom}
use clift.Relayd.Server.Lifetime.{handle_all, retrieve-handle_all}
use clift.Relayd.Server.Routes.{requested_ttl_bounds, handle_cases, route_object}

abbrev second : ℕ
second = from_secs 1

-- Three requests of one address within a minute, and one of another between them.
abbrev busy : List (IpAddr × Instant)
busy = (v4 1, 0) ∷ (v4 2, second) ∷ (v4 1, 2 * second) ∷ (v4 1, 3 * second) ∷ []

busy_answers :
    run (RateLimit.new 2) busy ≡ (v4 1, true) ∷ (v4 2, true) ∷ (v4 1, true) ∷ (v4 1, false) ∷ []
unfolding run allow RateLimit.new Dict.insert Dict.remove Dict.get
busy_answers = refl

run-refines-alone_example :
    answers_of (v4 1) (run (RateLimit.new 2) busy) ≡ alone_or_all 2 (times_of (v4 1) busy)
run-refines-alone_example = run-refines-alone (v4 1) 2 busy (omega arith) (omega arith)

granted-run_example :
    granted (answers_of (v4 1) (run (RateLimit.new 2) busy)) ≡ min 2 (length (times_of (v4 1) busy))
unfolding times_of
granted-run_example =
    granted-run (v4 1) 2 busy (omega arith) (omega arith) (omega arith) (omega arith)

abbrev small : Store
small = record { objects = []; max_object_bytes = 4; max_total_bytes = 4 }

-- Two objects fill the store in turn, and the first is put back while the second is held.
abbrev refilled : List Op
refilled =
    put_op (codes "a") (1 ∷ 2 ∷ 3 ∷ []) 100 0 0
    ∷ take_op (codes "a") 1
    ∷ put_op (codes "b") (4 ∷ 5 ∷ 6 ∷ 7 ∷ []) 100 2 2
    ∷ restore_op (codes "a") (1 ∷ 2 ∷ 3 ∷ []) 100 3
    ∷ []

held-refilled : held (Bounds.run (Store.new 4 4) refilled) ≡ 7
unfolding held Bounds.run Store.new apply put take restore Dict.total Dict.get Dict.insert
    Dict.remove Dict.retain Store.drop_expired
held-refilled = refl

held-run_example : held (Bounds.run (Store.new 4 4) refilled) ≤ 4 + all_put_back refilled
held-run_example = held-run 4 4 refilled (omega arith)

abbrev holding : Store
holding = record small {
  objects = (codes "b", record { bytes = 4 ∷ 5 ∷ 6 ∷ 7 ∷ []; expires_at = 102 }) ∷ [];
}

restore-exceeds_example : 4 < held (restore holding (codes "a") (1 ∷ 2 ∷ 3 ∷ []) 100 3)
unfolding Dict.get held Dict.total
restore-exceeds_example =
    restore-exceeds holding (codes "a") (1 ∷ 2 ∷ 3 ∷ []) 100 3 (refl, tt) refl (omega arith)
      (omega arith)

take-put_example :
    (take (put small (codes "a") (1 ∷ 2 ∷ []) 100 0 0).0 (codes "a") 99).1 ≡ some (1 ∷ 2 ∷ [])
unfolding put Store.drop_expired held Dict.retain Dict.total
take-put_example = take-put small (codes "a") (1 ∷ 2 ∷ []) 100 0 0 99 tt refl

abbrev racing : List Op
racing = take_op (codes "a") 5 ∷ take_op (codes "a") 5 ∷ sweep_op 6 ∷ take_op (codes "a") 7 ∷ []

-- Two calls race for one object, it is put back once, and a later call gets it again.
abbrev raced : List Op
raced =
    take_op (codes "b") 5
    ∷ take_op (codes "b") 5
    ∷ restore_op (codes "b") (4 ∷ 5 ∷ 6 ∷ 7 ∷ []) 102 6
    ∷ take_op (codes "b") 7
    ∷ []

handed_out_twice : wins (codes "b") holding raced ≡ (4 ∷ 5 ∷ 6 ∷ 7 ∷ []) ∷ (4 ∷ 5 ∷ 6 ∷ 7 ∷ []) ∷ []
unfolding wins apply take restore Store.drop_expired Dict.get Dict.retain Dict.remove Dict.insert
handed_out_twice = refl

wins-le-stores_example :
    length (wins (codes "b") holding raced)
    ≤ occupied (Dict.get holding.objects (codes "b")) + stores (codes "b") raced
wins-le-stores_example = wins-le-stores (codes "b") holding raced

abbrev meanwhile : List Op
meanwhile = take_op (codes "b") 2 ∷ put_op (codes "c") (9 ∷ []) 100 3 3 ∷ sweep_op 3 ∷ []

b_ne_a : codes "b" ≢ codes "a"
b_ne_a e = cc ((str_eq.test_iff (codes "b") (codes "a")).1 e)

c_ne_a : codes "c" ≢ codes "a"
c_ne_a e = cc ((str_eq.test_iff (codes "c") (codes "a")).1 e)

wins-put_example :
    wins
      (codes "a")
      (put small (codes "a") (1 ∷ 2 ∷ []) 100 0 0).0
      (meanwhile ++ take_op (codes "a") 4 ∷ racing)
    ≡ (1 ∷ 2 ∷ []) ∷ []
unfolding put Store.drop_expired held Dict.retain Dict.total
wins-put_example =
    wins-put small (codes "a") (1 ∷ 2 ∷ []) 100 0 0 4 meanwhile racing tt refl
      ((b_ne_a, omega arith), ((c_ne_a, omega arith), (omega arith, tt))) (omega arith)
      (tt, (tt, (tt, (tt, tt))))

abbrev random : List ℕ
random = 0 ∷ 1 ∷ 2 ∷ 3 ∷ 4 ∷ 5 ∷ 6 ∷ 7 ∷ 8 ∷ 9 ∷ 10 ∷ 11 ∷ 12 ∷ 13 ∷ 14 ∷ 255 ∷ []

abbrev object_id : Str
object_id = engine.encode random

abbrev relay : Relay
relay = record {
  store = record small { max_object_bytes = 8; max_total_bytes = 16 };
  limiter = RateLimit.new 10;
  max_ttl = from_secs 600;
}

abbrev upload : Request
upload = record {
  remote_addr = some (v4 1);
  method = post;
  url = codes "/v1/objects?ttl=60";
  body_length = some 3;
  body = record { arrives = 7 ∷ 8 ∷ 9 ∷ []; breaks = false };
  reaches = true;
}

abbrev download : Request
download = record upload { method = get; url = object_prefix ++ object_id }

abbrev at : ℕ → Outside
at n = record { asked_at = n; first = n; second = n; random = some random }

sixty_seconds : requested_ttl (codes "ttl=60") relay.max_ttl ≡ TtlResult.ok (from_secs 60)
unfolding requested_ttl split split_once parse_u64 scan_u64
sixty_seconds = refl

id_is_well_formed : well_formed object_id ≡ true
unfolding well_formed utf8 Engine.encode
id_is_well_formed = refl

room_for_three : HasRoom relay (7 ∷ 8 ∷ 9 ∷ []) 0
unfolding held Store.drop_expired Dict.retain Dict.total
room_for_three = record {
  some_bytes = λ e. cc;
  one = omega arith;
  all = omega arith;
  ceiling = omega arith;
}

requested_ttl_bounds_example : (0 < from_secs 60) × (from_secs 60 ≤ relay.max_ttl)
requested_ttl_bounds_example =
    requested_ttl_bounds (codes "ttl=60") relay.max_ttl (from_secs 60) (omega arith) sixty_seconds

retrieve-publish_example :
    let (r', answer) = publish engine.encode relay upload (codes "ttl=60") (at 0) in
    let (r'', delivered) = retrieve r' download object_id (at 5) in
    (answer ≡ respond_json 201 (created object_id (from_secs 60 / 10 ^ 9)))
    × (delivered ≡ octets_response (7 ∷ 8 ∷ 9 ∷ []))
    × ((retrieve r'' download object_id (at 6)).1 ≡ respond 404 "no such object")
retrieve-publish_example =
    retrieve-publish engine.encode relay upload download (codes "ttl=60") (at 0) (at 5) (at 6)
      (from_secs 60) random tt sixty_seconds (omega arith) refl room_for_three refl
      id_is_well_formed refl (omega arith)

abbrev kept_object : Object
kept_object = record { bytes = 1 ∷ 2 ∷ []; expires_at = 100 }

abbrev keeping : Relay
keeping = record relay { store = record small { objects = (object_id, kept_object) ∷ [] } }

abbrev lost : Request
lost = record download { reaches = false }

retrieve_failed_example :
    (Dict.get (retrieve keeping lost object_id (at 5)).0.store.objects object_id
      ≡ (if leb 100 5 then none else some kept_object))
    × (codes "other" ≢ object_id
        → Dict.get (retrieve keeping lost object_id (at 5)).0.store.objects (codes "other")
          ≡ found keeping.store (codes "other") 5)
retrieve_failed_example =
    retrieve_failed keeping lost object_id (codes "other") (at 5) kept_object
      (unfold Dict.get in (refl, tt)) id_is_well_formed refl (unfold Dict.get Engine.encode in refl)
      (omega arith)

-- A delivery of the object is lost, and another object is published.
abbrev lost_then_other : List (Request × Outside)
lost_then_other =
    (lost, record { asked_at = 5; first = 5; second = 5; random = none })
    ∷ (upload, record { asked_at = 6; first = 6; second = 6; random = some (1 ∷ []) })
    ∷ []

other_id : engine.encode (1 ∷ []) ≢ object_id
unfolding Engine.encode
other_id e = cc ((str_eq.test_iff (engine.encode (1 ∷ [])) object_id).1 e)

kept_ends : Store.expiry_of keeping.store object_id ≡ some 100
unfolding Store.expiry_of Engine.encode Dict.get
kept_ends = refl

retrieve-handle_all_example :
    (retrieve (handle_all engine.encode keeping lost_then_other) download object_id (at 100)).1
    ≡ respond 404 "no such object"
retrieve-handle_all_example =
    retrieve-handle_all engine.encode keeping object_id 100 lost_then_other download (at 100)
      (unfold Dict.get in (refl, tt)) kept_ends ((λ e. cc e), ((λ e. other_id (cc e)), tt))
      (omega arith)

handle_cases_example :
    let (limiter, allowed) = allow relay.limiter (address_of engine.encode upload.remote_addr) 0 in
    (allowed ≡ false
      → ((handle engine.encode relay upload (at 0)).1 ≡ respond 429 "too many requests")
        × ((handle engine.encode relay upload (at 0)).0.store ≡ relay.store))
    × (allowed ≡ true
        → handle engine.encode relay upload (at 0)
          ≡ route engine.encode (record relay { limiter = limiter }) upload (at 0))
handle_cases_example = handle_cases engine.encode relay upload (at 0)

route_object_example :
    (download.method ≡ get
      → route engine.encode keeping download (at 0) ≡ retrieve keeping download object_id (at 0))
    × (download.method ≡ delete
        → route engine.encode keeping download (at 0)
          ≡ (put_into keeping (Store.remove keeping.store object_id), respond_empty 204))
route_object_example =
    route_object engine.encode keeping download object_id (at 0)
      (unfold Engine.encode in omega arith) refl
