-- ===== src/Relayd/Store/Takes.antt =====
-- What the calls of store.rs leave under one id, and what one `take` of it hands out.
use clift.Base.{
  ℕ, ◌+◌, ◌<◌, ◌≡◌, ◌≢◌, refl, ◌&&◌, none, some, List, arith, ltb, ◌==◌, if◌then◌else◌, Str, str_eq,
  str_beq_iff,
}
use clift.Base.Dict
use clift.Base.Dict.Laws.{
  retain-IsMap, insert-IsMap, get-remove, get-insert, get-retain, get-retain-none,
}
use clift.Relayd.Address.{Instant, Duration}
use clift.Relayd.Store.{
  Store, Object, Op, unexpired, drop_expired, put, take, restore, remove, sweep, apply, IsValid,
  put_op, take_op, restore_op, remove_op, sweep_op, found,
}

-- The store after an accepted `put`.
abbrev pub stored : Store → Str → List ℕ → Instant → Instant → Store
stored s id bytes expires_at now =
    let swept = drop_expired now s in
    let object : Object = record { bytes = bytes; expires_at = expires_at } in
    record swept { objects = Dict.insert id object swept.objects }

pub put-stored :
    (s : Store) (id : Str) (bytes : List ℕ) (ttl : Duration) (now now' : Instant)
    → (put s id bytes ttl now now').1 ≡ none
    → (put s id bytes ttl now now').0 ≡ stored s id bytes (now' + ttl) now
unfolding put
put-stored s id bytes ttl now now' accepted = ground arith

pub stored-IsValid :
    (s : Store) (id : Str) (bytes : List ℕ) (expires_at now : Instant)
    → IsValid s
    → IsValid (stored s id bytes expires_at now)
unfolding drop_expired
stored-IsValid s id bytes expires_at now valid =
    insert-IsMap id _ _ (retain-IsMap (unexpired now) s.objects valid)

pub found-stored :
    (s : Store) (id : Str) (bytes : List ℕ) (expires_at now then' : Instant)
    → IsValid s
    → found (stored s id bytes expires_at now) id then' ≡ (
        if ltb then' expires_at
        then some (record { bytes = bytes; expires_at = expires_at })
        else none)
found-stored s id bytes expires_at now then' valid =
    rw
      (
        get-retain (unexpired then') id _ (stored-IsValid s id bytes expires_at now valid),
        get-insert id id,
      )
      (rw (str_eq.test_iff id id).1 refl)

-- An object that `put` accepted is handed out byte for byte to a `take` before the end of its
-- lifetime, and to none from then on; the store has one object at most under each id.
pub take-put :
    (s : Store) (id : Str) (bytes : List ℕ) (ttl : Duration) (now now' then' : Instant)
    → IsValid s
    → (put s id bytes ttl now now').1 ≡ none
    → (take (put s id bytes ttl now now').0 id then').1
      ≡ (if ltb then' (now' + ttl) then some bytes else none)
take-put s id bytes ttl now now' then' valid accepted =
    rw (put-stored s id bytes ttl now now' accepted) (
      unfold take drop_expired in
      ground (arith, found-stored s id bytes (now' + ttl) now then' valid))

-- A call that does not store anything under the id.
abbrev pub Quiet : Str → Op → Type 0
Quiet id (put_op j bytes ttl now now') = j ≢ id
Quiet id (restore_op j bytes expires_at now) = j ≢ id
Quiet id _ = Unit

pub get-apply :
    (id : Str) (s : Store) (op : Op)
    → Quiet id op
    → Dict.get s.objects id ≡ none
    → Dict.get (apply s op).objects id ≡ none
unfolding apply put take restore remove sweep drop_expired
get-apply id s (put_op j bytes ttl now now') q h = ground (
  arith,
  get-insert j id (record { bytes = bytes; expires_at = now' + ttl }) (drop_expired now s).objects,
  get-retain-none (unexpired now) id s.objects,
  str_beq_iff j id,
)
get-apply id s (take_op j now) q h = ground (
  arith,
  get-remove j id (drop_expired now s).objects,
  get-retain-none (unexpired now) id s.objects,
)
get-apply id s (restore_op j bytes expires_at now) q h = ground (
  arith,
  get-insert j id (record { bytes = bytes; expires_at = expires_at }) s.objects,
  str_beq_iff j id,
)
get-apply id s (remove_op j) q h = ground (arith, get-remove j id s.objects)
get-apply id s (sweep_op now) q h = get-retain-none (unexpired now) id s.objects h

pub take-absent :
    (s : Store) (id : Str) (now : Instant) → Dict.get s.objects id ≡ none → (take s id now).1 ≡ none
unfolding take drop_expired
take-absent s id now h = rw (get-retain-none (unexpired now) id s.objects h)

-- Whatever a `take` found, the id is free after it.
pub get-take_self :
    (s : Store) (id : Str) (now : Instant) → Dict.get (apply s (take_op id now)).objects id ≡ none
unfolding apply take
get-take_self s id now =
    ground (arith, get-remove id id (drop_expired now s).objects, str_beq_iff id id)

pub get-take :
    (s : Store) (id other : Str) (now : Instant)
    → Dict.get (take s id now).0.objects other ≡ (if id == other then none else found s other now)
unfolding take drop_expired
get-take s id other now = get-remove id other _

pub get-restore :
    (s : Store) (id other : Str) (bytes : List ℕ) (expires_at now : Instant)
    → Dict.get (restore s id bytes expires_at now).objects other ≡ (
        if ltb now expires_at && (id == other)
        then some (record { bytes = bytes; expires_at = expires_at })
        else Dict.get s.objects other)
unfolding restore
get-restore s id other bytes expires_at now =
    ground
      (arith, get-insert id other (record { bytes = bytes; expires_at = expires_at }) s.objects)

pub take-take :
    (s : Store) (id : Str) (now then' : Instant) → (take (take s id now).0 id then').1 ≡ none
take-take s id now then' = take-absent _ id then' (unfold apply in get-take_self s id now)

pub take-found :
    (s : Store) (id : Str) (o : Object) (now : Instant)
    → IsValid s
    → Dict.get s.objects id ≡ some o
    → now < o.expires_at
    → (take s id now).1 ≡ some o.bytes
unfolding take drop_expired
take-found s id o now valid h early = ground (arith, get-retain (unexpired now) id s.objects valid)
