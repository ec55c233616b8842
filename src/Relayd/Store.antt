-- ===== src/Relayd/Store.antt =====
-- crates/clift-relayd/src/store.rs: the objects that the relay holds. Each call takes the map's lock,
-- so calls run one after another; a reading of the clock is an argument, in the order of the readings.
pub mod Bounds
pub mod Takes
pub mod Wins
pub mod InTime
pub mod Expiry
use clift.Base.{ℕ, ◌+◌, ◌-◌, ◌^◌, ◌≤◌, ◌<◌, min, Bool, Option, none, some, List, []}
use clift.Base.{ltb, leb, if◌then◌else◌, length, Str, str_eq}
use clift.Base.Dict
use clift.Base.Dict.{Dict, IsMap}
use clift.Relayd.Address.{Instant, Duration}

pub record Object : Type 0 where
  pub bytes : List ℕ
  pub expires_at : Instant

pub data Refusal : Type 0 where
  too_large full : Refusal

pub record Usage : Type 0 where
  pub objects : ℕ
  pub bytes : ℕ

pub record Store : Type 0 where
  pub objects : Dict Str Object
  pub max_object_bytes : ℕ
  pub max_total_bytes : ℕ

-- `none` is `Ok(())`.
abbrev pub PutResult : Type 0
PutResult = Option Refusal

unfoldable pub new : ℕ → ℕ → Store
new max_object_bytes max_total_bytes = record {
  objects = [];
  max_object_bytes = max_object_bytes;
  max_total_bytes = max_total_bytes;
}

abbrev pub max_u64 : ℕ
max_u64 = 2 ^ 64 - 1

abbrev pub object_size : Object → ℕ
object_size o = length o.bytes

-- `objects.values().map(|object| object.bytes.len() as u64).sum()`
unfoldable pub held : Store → ℕ
held s = Dict.total object_size s.objects

abbrev pub unexpired : Instant → Object → Bool
unexpired now o = ltb now o.expires_at

unfoldable pub drop_expired : Instant → Store → Store
drop_expired now s = record s { objects = Dict.retain (unexpired now) s.objects }

-- The first reading of the clock is `drop_expired`'s, and the second starts the object's lifetime.
unfoldable pub put : Store → Str → List ℕ → Duration → Instant → Instant → Store × PutResult
put s id bytes ttl now now' =
    let swept = drop_expired now s in
    let object : Object = record { bytes = bytes; expires_at = now' + ttl } in
    if ltb s.max_object_bytes (length bytes)
    then (s, some Refusal.too_large)
    else if ltb swept.max_total_bytes (min (held swept + length bytes) max_u64)
    then (swept, some Refusal.full)
    else (record swept { objects = Dict.insert id object swept.objects }, none)

abbrev bytes_of : Option Object → Option (List ℕ)
bytes_of none = none
bytes_of (some o) = some o.bytes

unfoldable pub take : Store → Str → Instant → Store × Option (List ℕ)
take s id now =
    let swept = drop_expired now s in
    (record swept { objects = Dict.remove id swept.objects }, bytes_of (Dict.get swept.objects id))

unfoldable pub restore : Store → Str → List ℕ → Instant → Instant → Store
restore s id bytes expires_at now =
    let object : Object = record { bytes = bytes; expires_at = expires_at } in
    if leb expires_at now then s else record s { objects = Dict.insert id object s.objects }

abbrev expiry : Option Object → Option Instant
expiry none = none
expiry (some o) = some o.expires_at

unfoldable pub expiry_of : Store → Str → Option Instant
expiry_of s id = expiry (Dict.get s.objects id)

unfoldable pub remove : Store → Str → Store
remove s id = record s { objects = Dict.remove id s.objects }

unfoldable pub sweep : Store → Instant → Store
sweep s now = drop_expired now s

unfoldable pub usage : Store → Usage
unfolding held
usage s = record { objects = length s.objects; bytes = held s }

-- What a call on the store was, with its arguments and its readings of the clock.
pub data Op : Type 0 where
  put_op : Str → List ℕ → Duration → Instant → Instant → Op
  take_op : Str → Instant → Op
  restore_op : Str → List ℕ → Instant → Instant → Op
  remove_op : Str → Op
  sweep_op : Instant → Op

unfoldable pub apply : Store → Op → Store
apply s (put_op id bytes ttl now now') = (put s id bytes ttl now now').0
apply s (take_op id now) = (take s id now).0
apply s (restore_op id bytes expires_at now) = restore s id bytes expires_at now
apply s (remove_op id) = remove s id
apply s (sweep_op now) = sweep s now

-- Each id has one object.
abbrev pub IsValid : Store → Type 0
IsValid s = IsMap s.objects

-- The object under an id that a call at `now` still finds.
abbrev pub found : Store → Str → Instant → Option Object
found s id now = Dict.get (Dict.retain (unexpired now) s.objects) id
