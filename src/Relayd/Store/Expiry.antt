-- ===== src/Relayd/Store/Expiry.antt =====
-- When an object is gone: a call that stores nothing new under its id gives it no longer lifetime.
use clift.Base.{◌+◌, ◌≤◌, ◌≡◌, ◌≢◌, Option, none, some, arith, Str, str_eq, str_beq_iff}
use clift.Base.Dict
use clift.Base.Dict.Laws.{get-remove, get-insert, get-retain, kept}
use clift.Relayd.Address.{Instant}
use clift.Relayd.Store.{
  Store, Object, Op, unexpired, drop_expired, put, take, restore, remove, sweep, apply, IsValid,
  put_op, take_op, restore_op, remove_op, sweep_op,
}

-- An object that is gone by `limit`.
abbrev pub GoneBy : Instant → Option Object → Type 0
GoneBy limit none = Unit
GoneBy limit (some o) = o.expires_at ≤ limit

-- A call that stores nothing new under the id, and puts back no longer lifetime than the limit.
abbrev pub NoLonger : Str → Instant → Op → Type 0
NoLonger id limit (put_op j bytes ttl now now') = j ≢ id
NoLonger id limit (restore_op j bytes expires_at now) = j ≡ id → expires_at ≤ limit
NoLonger id limit _ = Unit

GoneBy-kept :
    (limit now : Instant) (o : Option Object)
    → GoneBy limit o
    → GoneBy limit (kept (unexpired now) o)
GoneBy-kept limit now none h = tt
GoneBy-kept limit now (some o) h = ground arith

GoneBy-drop_expired :
    (s : Store) (id : Str) (limit now : Instant)
    → IsValid s
    → GoneBy limit (Dict.get s.objects id)
    → GoneBy limit (Dict.get (drop_expired now s).objects id)
unfolding drop_expired
GoneBy-drop_expired s id limit now valid h =
    rw (get-retain (unexpired now) id s.objects valid) (GoneBy-kept limit now _ h)

pub GoneBy-apply :
    (s : Store) (op : Op) (id : Str) (limit : Instant)
    → IsValid s
    → NoLonger id limit op
    → GoneBy limit (Dict.get s.objects id)
    → GoneBy limit (Dict.get (apply s op).objects id)
unfolding apply put take restore remove sweep
GoneBy-apply s (put_op j bytes ttl now now') id limit valid e h = ground (
  arith,
  GoneBy-drop_expired s id limit now valid h,
  get-insert j id (record { bytes = bytes; expires_at = now' + ttl }) (drop_expired now s).objects,
  str_beq_iff j id,
)
GoneBy-apply s (take_op j now) id limit valid e h = ground (
  arith,
  GoneBy-drop_expired s id limit now valid h,
  get-remove j id (drop_expired now s).objects,
)
GoneBy-apply s (restore_op j bytes expires_at now) id limit valid e h = ground (
  arith,
  e,
  get-insert j id (record { bytes = bytes; expires_at = expires_at }) s.objects,
  str_beq_iff j id,
)
GoneBy-apply s (remove_op j) id limit valid e h = ground (arith, get-remove j id s.objects)
GoneBy-apply s (sweep_op now) id limit valid e h = GoneBy-drop_expired s id limit now valid h

pub take-GoneBy :
    (s : Store) (id : Str) (limit now : Instant)
    → IsValid s
    → GoneBy limit (Dict.get s.objects id)
    → limit ≤ now
    → (take s id now).1 ≡ none
unfolding take drop_expired
take-GoneBy s id limit now valid h late =
    ground (arith, get-retain (unexpired now) id s.objects valid)
