-- ===== src/Relayd/Store/Wins.antt =====
-- Single use: which calls of `take` of store.rs get an object, over any sequence of calls. Simultaneous requests are
-- such a sequence, since each call holds the map's lock from its first access to its last.
use clift.Base.{
  ℕ, ◌+◌, ◌≤◌, ◌≡◌, refl, none, some, Option, List, [], ◌∷◌, sym, ap, false, subst, arith, ◌==◌,
  if◌then◌else◌, length, Str, str_eq, str_beq_iff, All, inl, inr, Bool-cases, Option-cases,
}
use clift.Base.Dict
use clift.Relayd.Address.{Instant}
use clift.Relayd.Store.{
  Store, Object, Op, take, apply, put_op, take_op, restore_op, remove_op, sweep_op,
}
use clift.Relayd.Store.Takes.{Quiet, get-apply, get-take_self, take-absent}

-- The bytes that the calls of `take` for one id hand out, in order.
unfoldable pub wins : Str → Store → List Op → List (List ℕ)
wins id s [] = []
wins id s (op ∷ ops) =
    let rest = wins id (apply s op) ops in
    elim op [
      | take_op j now ↦
          if j == id
          then elim (take s j now).1 [ none ↦ rest | some bytes ↦ bytes ∷ rest ]
          else rest
      | _ ↦ rest
    ]

wins_absent :
    (id : Str) (s : Store) (ops : List Op)
    → All (Quiet id) ops
    → Dict.get s.objects id ≡ none
    → wins id s ops ≡ []
unfolding wins
wins_absent id s [] q h = refl
wins_absent id s (put_op j bytes ttl now now' ∷ ops) q h =
    wins_absent id (apply s _) ops q.1 (get-apply id s _ q.0 h)
wins_absent id s (take_op j now ∷ ops) q h =
    let later = wins_absent id _ ops q.1 (get-apply id s (take_op j now) tt h) in
    elim (Bool-cases (j == id)) [
      | inl p ↦
          let same : j ≡ id = (str_eq.test_iff j id).0 p in
          let missed : (take s j now).1 ≡ none = rw same (take-absent s id now h) in
          rw (p, missed) later
      | inr p ↦ rw p later
    ]
wins_absent id s (restore_op j bytes expires_at now ∷ ops) q h =
    wins_absent id (apply s _) ops q.1 (get-apply id s _ q.0 h)
wins_absent id s (remove_op j ∷ ops) q h =
    wins_absent id (apply s _) ops q.1 (get-apply id s _ q.0 h)
wins_absent id s (sweep_op now ∷ ops) q h =
    wins_absent id (apply s _) ops q.1 (get-apply id s _ q.0 h)

-- A call of `take` for the id ends the story.
pub wins-take :
    (id : Str) (s : Store) (now : Instant) (ops : List Op)
    → All (Quiet id) ops
    → wins id s (take_op id now ∷ ops)
      ≡ elim (take s id now).1 [ none ↦ [] | some bytes ↦ bytes ∷ [] ]
unfolding wins
wins-take id s now ops q = ground (
  arith,
  str_beq_iff id id,
  wins_absent id (apply s (take_op id now)) ops q (get-take_self s id now),
)

-- How many calls store something under the id.
unfoldable pub stored_by : Str → Op → ℕ
stored_by id (put_op j bytes ttl now now') = if j == id then 1 else 0
stored_by id (restore_op j bytes expires_at now) = if j == id then 1 else 0
stored_by id _ = 0

unfoldable pub stores : Str → List Op → ℕ
unfolding stored_by
stores id [] = 0
stores id (op ∷ ops) = stored_by id op + stores id ops

abbrev pub occupied : Option Object → ℕ
occupied none = 0
occupied (some o) = 1

occupied-le-one : (o : Option Object) → occupied o ≤ 1
occupied-le-one none = omega arith
occupied-le-one (some o) = omega arith

-- What nothing is found under before a call is not found under after it.
occupied_mono : (o o' : Option Object) → (o ≡ none → o' ≡ none) → occupied o' ≤ occupied o
occupied_mono none o' h = rw (h refl) (omega arith)
occupied_mono (some o) o' h = occupied-le-one o'

occupied-apply :
    (id : Str) (s : Store) (op : Op)
    → occupied (Dict.get (apply s op).objects id)
      ≤ occupied (Dict.get s.objects id) + stored_by id op
unfolding stored_by
occupied-apply id s (put_op j bytes ttl now now') = elim (Bool-cases (j == id)) [
  | inl p ↦ rw p (omega (arith, occupied-le-one _))
  | inr p ↦ omega (
    arith,
    occupied_mono _ _
        (get-apply id s (put_op j bytes ttl now now') (λ e. cc (p, (str_eq.test_iff j id).1 e))),
  )
]
occupied-apply id s (restore_op j bytes expires_at now) = elim (Bool-cases (j == id)) [
  | inl p ↦ rw p (omega (arith, occupied-le-one _))
  | inr p ↦ omega (
    arith,
    occupied_mono _ _ (
        get-apply id s (restore_op j bytes expires_at now)
          (λ e. cc (p, (str_eq.test_iff j id).1 e))),
  )
]
occupied-apply id s (take_op j now) =
    omega (arith, occupied_mono _ _ (get-apply id s (take_op j now) tt))
occupied-apply id s (remove_op j) =
    omega (arith, occupied_mono _ _ (get-apply id s (remove_op j) tt))
occupied-apply id s (sweep_op now) =
    omega (arith, occupied_mono _ _ (get-apply id s (sweep_op now) tt))

-- What one answer adds to the answers of the later calls.
abbrev with_answer : Option (List ℕ) → List (List ℕ) → List (List ℕ)
with_answer none rest = rest
with_answer (some bytes) rest = bytes ∷ rest

with_answer-le :
    (answer : Option (List ℕ)) (rest : List (List ℕ))
    → length (with_answer answer rest) ≤ 1 + length rest
with_answer-le none rest = omega arith
with_answer-le (some bytes) rest = omega arith

-- What one `take` for the id hands out was under it, and is there no longer.
won-take :
    (id : Str) (s : Store) (now : Instant) (rest : List (List ℕ)) (more : ℕ)
    → length rest ≤ occupied (Dict.get (apply s (take_op id now)).objects id) + more
    → length (with_answer (take s id now).1 rest) ≤ occupied (Dict.get s.objects id) + more
won-take id s now rest more h =
    let free : occupied (Dict.get (apply s (take_op id now)).objects id) ≡ 0 =
      rw (get-take_self s id now) refl in
    elim (Option-cases (Dict.get s.objects id)) [
      | inl e ↦ rw (take-absent s id now e) (omega (arith, h, free))
      | inr (o, e) ↦ rw e (omega (arith, h, free, with_answer-le (take s id now).1 rest))
    ]

wins_same :
    (id : Str) (s : Store) (now : Instant) (ops : List Op)
    → wins id s (take_op id now ∷ ops)
      ≡ with_answer (take s id now).1 (wins id (apply s (take_op id now)) ops)
unfolding wins
wins_same id s now ops = elim (Option-cases (take s id now).1) [
  | inl q ↦ rw ((str_eq.test_iff id id).1 refl, q) refl
  | inr (bytes, q) ↦ rw ((str_eq.test_iff id id).1 refl, q) refl
]

wins_other :
    (id j : Str) (s : Store) (now : Instant) (ops : List Op)
    → (j == id) ≡ false
    → wins id s (take_op j now ∷ ops) ≡ wins id (apply s (take_op j now)) ops
unfolding wins
wins_other id j s now ops p = rw p refl

wins_own :
    (id j : Str) (s : Store) (now : Instant) (ops : List Op)
    → j ≡ id
    → length (wins id (apply s (take_op j now)) ops)
      ≤ occupied (Dict.get (apply s (take_op j now)).objects id) + stores id ops
    → length (wins id s (take_op j now ∷ ops)) ≤ occupied (Dict.get s.objects id) + stores id ops
wins_own id j s now ops e =
    subst
      (λ (j : Str).
        length (wins id (apply s (take_op j now)) ops)
          ≤ occupied (Dict.get (apply s (take_op j now)).objects id) + stores id ops
        → length (wins id s (take_op j now ∷ ops))
          ≤ occupied (Dict.get s.objects id) + stores id ops)
      (sym e) (λ h. rw (wins_same id s now ops) (won-take id s now _ (stores id ops) h))

-- Over any sequence of calls, the calls of `take` for one id that get an object are no more than the objects that were
-- stored under it: the one that was there at the start, if there was one, and one for each `put` and each `restore` of that
-- id. So of simultaneous calls for one stored object one at most gets it.
pub wins-le-stores :
    (id : Str) (s : Store) (ops : List Op)
    → length (wins id s ops) ≤ occupied (Dict.get s.objects id) + stores id ops
unfolding wins stores
wins-le-stores id s [] = omega arith
wins-le-stores id s (take_op j now ∷ ops) =
    let later = wins-le-stores id (apply s (take_op j now)) ops in
    elim (Bool-cases (j == id)) [
      | inl p ↦ omega (arith, wins_own id j s now ops ((str_eq.test_iff j id).0 p) later)
      | inr p ↦ omega (
        arith,
        later,
        ap length (wins_other id j s now ops p),
        occupied-apply id s (take_op j now),
      )
    ]
wins-le-stores id s (put_op j bytes ttl now now' ∷ ops) = omega (
  arith,
  wins-le-stores id (apply s (put_op j bytes ttl now now')) ops,
  occupied-apply id s (put_op j bytes ttl now now'),
)
wins-le-stores id s (restore_op j bytes e now ∷ ops) = omega (
  arith,
  wins-le-stores id (apply s (restore_op j bytes e now)) ops,
  occupied-apply id s (restore_op j bytes e now),
)
wins-le-stores id s (remove_op j ∷ ops) =
    omega (arith, wins-le-stores id (apply s (remove_op j)) ops, occupied-apply id s (remove_op j))
wins-le-stores id s (sweep_op now ∷ ops) =
    omega
      (arith, wins-le-stores id (apply s (sweep_op now)) ops, occupied-apply id s (sweep_op now))
