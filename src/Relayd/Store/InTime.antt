-- ===== src/Relayd/Store/InTime.antt =====
-- What `take` of store.rs hands out of an object in time, whatever the calls before and after it.
use clift.Base.{
  ℕ, ◌+◌, ◌<◌, ◌≡◌, ◌≢◌, refl, none, some, List, [], ◌∷◌, ◌++◌, ◌∙◌, arith, Str, str_eq,
  str_beq_iff, All,
}
use clift.Base.Dict
use clift.Base.Dict.Laws.{get-remove, get-insert, get-retain}
use clift.Relayd.Address.{Instant, Duration}
use clift.Relayd.Store.{
  Store, Object, Op, unexpired, drop_expired, put, take, restore, remove, sweep, apply, IsValid,
  put_op, take_op, restore_op, remove_op, sweep_op,
}
use clift.Relayd.Store.Bounds.{apply-IsValid}
use clift.Relayd.Store.Takes.{stored, put-stored, stored-IsValid, Quiet, take-found}
use clift.Relayd.Store.Wins.{wins, wins-take}

-- A call that is no call for the id, and does not read the clock at or past `ending`.
abbrev pub Before : Str → Instant → Op → Type 0
Before id ending (put_op j bytes ttl now now') = (j ≢ id) × (now < ending)
Before id ending (take_op j now) = (j ≢ id) × (now < ending)
Before id ending (restore_op j bytes expires_at now) = j ≢ id
Before id ending (remove_op j) = j ≢ id
Before id ending (sweep_op now) = now < ending

get-drop_expired :
    (id : Str) (s : Store) (o : Object) (now : Instant)
    → IsValid s
    → Dict.get s.objects id ≡ some o
    → now < o.expires_at
    → Dict.get (drop_expired now s).objects id ≡ some o
unfolding drop_expired
get-drop_expired id s o now valid h early =
    ground (arith, get-retain (unexpired now) id s.objects valid)

-- Such a call leaves the object where it is.
get-apply_other :
    (id : Str) (s : Store) (o : Object) (op : Op)
    → IsValid s
    → Before id o.expires_at op
    → Dict.get s.objects id ≡ some o
    → Dict.get (apply s op).objects id ≡ some o
unfolding apply put take restore remove sweep
get-apply_other id s o (put_op j bytes ttl now now') valid (other, early) h = ground (
  arith,
  get-drop_expired id s o now valid h early,
  get-insert j id (record { bytes = bytes; expires_at = now' + ttl }) (drop_expired now s).objects,
  str_beq_iff j id,
)
get-apply_other id s o (take_op j now) valid (other, early) h = ground (
  arith,
  get-drop_expired id s o now valid h early,
  get-remove j id (drop_expired now s).objects,
  str_beq_iff j id,
)
get-apply_other id s o (restore_op j bytes expires_at now) valid other h = ground (
  arith,
  get-insert j id (record { bytes = bytes; expires_at = expires_at }) s.objects,
  str_beq_iff j id,
)
get-apply_other id s o (remove_op j) valid other h =
    ground (arith, get-remove j id s.objects, str_beq_iff j id)
get-apply_other id s o (sweep_op now) valid early h = get-drop_expired id s o now valid h early

wins_step :
    (id : Str) (ending : Instant) (s : Store) (op : Op) (ops : List Op)
    → Before id ending op
    → wins id s (op ∷ ops) ≡ wins id (apply s op) ops
unfolding wins
wins_step id ending s (put_op j bytes ttl now now') ops b = refl
wins_step id ending s (take_op j now) ops (other, early) = ground (arith, str_beq_iff j id)
wins_step id ending s (restore_op j bytes expires_at now) ops b = refl
wins_step id ending s (remove_op j) ops b = refl
wins_step id ending s (sweep_op now) ops b = refl

wins-found :
    (id : Str) (s : Store) (o : Object) (between ops : List Op) (then' : Instant)
    → IsValid s
    → Dict.get s.objects id ≡ some o
    → All (Before id o.expires_at) between
    → then' < o.expires_at
    → All (Quiet id) ops
    → wins id s (between ++ take_op id then' ∷ ops) ≡ o.bytes ∷ []
wins-found id s o [] ops then' valid h b early q =
    rw (wins-take id s then' ops q, take-found s id o then' valid h early) refl
wins-found id s o (op ∷ between) ops then' valid h (b, bs) early q =
    wins_step id o.expires_at s op (between ++ take_op id then' ∷ ops) b
    ∙ wins-found id (apply s op) o between ops then' (apply-IsValid s op valid)
        (get-apply_other id s o op valid b h) bs early q

-- In a store with one entry for each id: after an accepted `put`, and any calls for other ids and sweeps that read the clock before the end of the object's lifetime,
-- the first `take` of its id gets exactly the bytes that were stored if it too comes before that end; and no
-- later `take` of the id gets anything, as long as no later `put` or `restore` stores something under it.
pub wins-put :
    (s : Store) (id : Str) (bytes : List ℕ) (ttl : Duration) (now now' then' : Instant)
    (between ops : List Op)
    → IsValid s
    → (put s id bytes ttl now now').1 ≡ none
    → All (Before id (now' + ttl)) between
    → then' < now' + ttl
    → All (Quiet id) ops
    → wins id (put s id bytes ttl now now').0 (between ++ take_op id then' ∷ ops) ≡ bytes ∷ []
wins-put s id bytes ttl now now' then' between ops valid accepted b early q =
    rw (put-stored s id bytes ttl now now' accepted) (
      wins-found id (stored s id bytes (now' + ttl) now)
        (record { bytes = bytes; expires_at = now' + ttl }) between ops then'
        (stored-IsValid s id bytes (now' + ttl) now valid)
        (rw (get-insert id id) (rw (str_eq.test_iff id id).1 refl)) b early q)
