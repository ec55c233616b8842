-- ===== src/Relayd/Store/Bounds.antt =====
-- The two ceilings of store.rs.
use clift.Base.{ℕ, ◌+◌, ◌≤◌, ◌<◌, ◌≡◌, refl, none, List, [], ◌∷◌, arith, length, Str, str_eq}
use clift.Base.Dict
use clift.Base.Dict.Laws.{
  total-retain-le, total-remove, total-insert, retain-IsMap, remove-IsMap, insert-IsMap,
}
use clift.Relayd.Address.{Instant, Duration}
use clift.Relayd.Store.{
  Store, new, Object, Op, object_size, unexpired, held, drop_expired, put, take, restore, remove,
  sweep, apply, IsValid, max_u64, put_op, take_op, restore_op, remove_op, sweep_op,
}

drop_expired-IsValid : (now : Instant) (s : Store) → IsValid s → IsValid (drop_expired now s)
unfolding drop_expired
drop_expired-IsValid now s h = retain-IsMap (unexpired now) s.objects h

-- Every call keeps one object at most under each id.
pub apply-IsValid : (s : Store) (op : Op) → IsValid s → IsValid (apply s op)
unfolding apply put take restore remove sweep
apply-IsValid s (put_op id bytes ttl now now') h =
    grind (arith, drop_expired-IsValid now s h, insert-IsMap)
apply-IsValid s (take_op id now) h =
    remove-IsMap id (drop_expired now s).objects (drop_expired-IsValid now s h)
apply-IsValid s (restore_op id bytes expires_at now) h = grind (arith, insert-IsMap)
apply-IsValid s (remove_op id) h = remove-IsMap id s.objects h
apply-IsValid s (sweep_op now) h = drop_expired-IsValid now s h

drop_expired-le : (now : Instant) (s : Store) → held (drop_expired now s) ≤ held s
unfolding drop_expired held
drop_expired-le now s = total-retain-le object_size (unexpired now) s.objects

-- A store that holds no more than its ceiling and `extra` bytes.
abbrev pub Within : Store → ℕ → Type 0
Within s extra = held s ≤ s.max_total_bytes + extra

-- The bytes that a call puts back without a look at the ceiling.
abbrev pub put_back : Op → ℕ
put_back (restore_op id bytes expires_at now) = length bytes
put_back _ = 0

total-remove-le : (id : Str) (s : Store) → IsValid s → held (remove s id) ≤ held s
unfolding remove held
total-remove-le id s h = omega (arith, total-remove object_size id s.objects h)

total-insert-le :
    (id : Str) (o : Object) (s : Store)
    → IsValid s
    → held (record s { objects = Dict.insert id o s.objects }) ≤ held s + length o.bytes
unfolding held
total-insert-le id o s h = omega (arith, total-insert object_size id o s.objects h)

max_total-apply : (s : Store) (op : Op) → (apply s op).max_total_bytes ≡ s.max_total_bytes
unfolding apply put take restore remove sweep drop_expired
max_total-apply s (put_op id bytes ttl now now') = ground arith
max_total-apply s (take_op id now) = refl
max_total-apply s (restore_op id bytes expires_at now) = ground arith
max_total-apply s (remove_op id) = refl
max_total-apply s (sweep_op now) = refl

abbrev object_of : List ℕ → Instant → Object
object_of bytes expires_at = record { bytes = bytes; expires_at = expires_at }

held-put :
    (s : Store) (id : Str) (bytes : List ℕ) (ttl : Duration) (now now' : Instant) (extra : ℕ)
    → s.max_total_bytes < max_u64
    → IsValid s
    → Within s extra
    → held (put s id bytes ttl now now').0 ≤ s.max_total_bytes + extra
unfolding put
held-put s id bytes ttl now now' extra fits valid h =
    let swept = drop_expired now s in
    let object : Object = object_of bytes (now' + ttl) in
    let same : swept.max_total_bytes ≡ s.max_total_bytes = unfold drop_expired in refl in
    ground (
      arith,
      same,
      drop_expired-le now s,
      total-insert-le id object swept (drop_expired-IsValid now s valid),
    )

held-apply :
    (s : Store) (op : Op) (extra : ℕ)
    → s.max_total_bytes < max_u64
    → IsValid s
    → Within s extra
    → held (apply s op) ≤ s.max_total_bytes + (extra + put_back op)
unfolding apply
held-apply s (put_op id bytes ttl now now') extra fits valid h =
    omega (arith, held-put s id bytes ttl now now' extra fits valid h)
held-apply s (take_op id now) extra fits valid h =
    unfold take remove in
    omega (
      arith,
      drop_expired-le now s,
      total-remove-le id (drop_expired now s) (drop_expired-IsValid now s valid),
    )
held-apply s (restore_op id bytes expires_at now) extra fits valid h =
    unfold restore in ground (arith, total-insert-le id (object_of bytes expires_at) s valid)
held-apply s (remove_op id) extra fits valid h = omega (arith, total-remove-le id s valid)
held-apply s (sweep_op now) extra fits valid h =
    unfold sweep in omega (arith, drop_expired-le now s)

unfoldable pub run : Store → List Op → Store
run s [] = s
run s (op ∷ ops) = run (apply s op) ops

unfoldable pub all_put_back : List Op → ℕ
all_put_back [] = 0
all_put_back (op ∷ ops) = put_back op + all_put_back ops

run-Within :
    (s : Store) (ops : List Op) (extra : ℕ)
    → s.max_total_bytes < max_u64
    → IsValid s
    → Within s extra
    → held (run s ops) ≤ s.max_total_bytes + (extra + all_put_back ops)
unfolding run all_put_back
run-Within s [] extra fits valid h = omega arith
run-Within s (op ∷ ops) extra fits valid h =
    let same = max_total-apply s op in
    let after = held-apply s op extra fits valid h in
    omega (
      arith,
      run-Within (apply s op) ops (extra + put_back op) (omega arith) (apply-IsValid s op valid)
          (omega arith),
    )

-- From an empty store, after any sequence of calls, what is held exceeds the total ceiling by at
-- most the bytes that `restore` calls were given; the ceiling is below 2 ^ 64 - 1.
pub held-run :
    (max_object_bytes max_total_bytes : ℕ) (ops : List Op)
    → max_total_bytes < max_u64
    → held (run (new max_object_bytes max_total_bytes) ops) ≤ max_total_bytes + all_put_back ops
unfolding new held Dict.total
held-run max_object_bytes max_total_bytes ops fits = omega (
  arith,
  run-Within
      (record {
        objects = [];
        max_object_bytes = max_object_bytes;
        max_total_bytes = max_total_bytes;
      })
      ops 0 fits tt (omega arith),
)

-- `restore` does not look at the total ceiling: an object that has not expired goes back under its
-- free id also where the store then holds more than the ceiling.
pub restore-exceeds :
    (s : Store) (id : Str) (bytes : List ℕ) (expires_at now : Instant)
    → IsValid s
    → Dict.get s.objects id ≡ none
    → now < expires_at
    → s.max_total_bytes < held s + length bytes
    → s.max_total_bytes < held (restore s id bytes expires_at now)
unfolding restore held
restore-exceeds s id bytes expires_at now valid absent later over =
    ground (arith, total-insert object_size id (object_of bytes expires_at) s.objects valid)
