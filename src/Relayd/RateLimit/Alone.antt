-- ===== src/Relayd/RateLimit/Alone.antt =====
-- One address alone, with a counter that cannot overflow and no table: what the limiter promises to
-- each address whatever the others do.
use clift.Base.{
  ℕ, zero, suc, ◌+◌, ◌-◌, ◌^◌, ◌≤◌, ◌<◌, ◌≡◌, inl, inr, refl, ap, Bool, true, false, Option, none,
  some,
}
use clift.Base.{List, [], ◌∷◌, arith, eqb, ltb, leb, ◌==◌, if◌then◌else◌, length, Bool-cases}
use clift.Base.Dict.{Dict, get, insert, IsMap}
use clift.Base.Dict.Laws.{get-insert, get-retain, retain-IsMap, insert-IsMap, kept}
use clift.Relayd.Address.{IpAddr, ip_eq, Instant}
use clift.Relayd.RateLimit.{
  window_length, Window, RateLimiter, new, live, sweep, entry, counted, allow, run,
}

-- The window that a request belongs to, and how many requests it has had, this one included.
pub record Tally : Type 0 where
  pub since : Instant
  pub asked : ℕ

unfoldable pub next : Option Tally → Instant → Tally
next none now = record { since = now; asked = 1 }
next (some t) now =
    if ltb (now - t.since) window_length
    then record t { asked = t.asked + 1 }
    else record { since = now; asked = 1 }

unfoldable pub alone : ℕ → Option Tally → List Instant → List Bool
alone limit t [] = []
alone limit t (now ∷ rest) = let t' = next t now in leb t'.asked limit ∷ alone limit (some t') rest

-- The requests and the answers of one address.
unfoldable pub times_of : IpAddr → List (IpAddr × Instant) → List Instant
times_of a [] = []
times_of a ((b, now) ∷ rest) = let tail = times_of a rest in if b == a then now ∷ tail else tail

unfoldable pub answers_of : IpAddr → List (IpAddr × Bool) → List Bool
answers_of a [] = []
answers_of a ((b, answer) ∷ rest) =
    let tail = answers_of a rest in if b == a then answer ∷ tail else tail

-- The clock never goes back.
abbrev pub Ordered : Instant → List (IpAddr × Instant) → Type 0
Ordered from [] = Unit
Ordered from ((a, now) ∷ rest) = (from ≤ now) × Ordered now rest

-- A window of the table stands for a tally: it is the same, or it was swept after it had run out.
abbrev Stands : Instant → ℕ → Option Window → Option Tally → Type 0
Stands now n none none = Unit
Stands now n none (some t) = t.since + window_length ≤ now
Stands now n (some w) none = ⊥
Stands now n (some w) (some t) = (w.started ≡ t.since) × (w.count ≡ t.asked) × (t.asked ≤ n)

Stands-later :
    (from now n k : ℕ) (w : Option Window) (t : Option Tally)
    → from ≤ now
    → n ≤ k
    → Stands from n w t
    → Stands now k w t
Stands-later from now n k none none le more h = tt
Stands-later from now n k none (some t) le more h = omega arith
Stands-later from now n k (some w) none le more h = h
Stands-later from now n k (some w) (some t) le more h = omega arith

Stands-kept :
    (now n : ℕ) (w : Option Window) (t : Option Tally)
    → Stands now n w t
    → Stands now n (kept (live now) w) t
Stands-kept now n none none h = h
Stands-kept now n none (some t) h = h
Stands-kept now n (some w) none h = absurd h
Stands-kept now n (some w) (some t) h = elim (Bool-cases (live now w)) [
  | inl p ↦ rw p h
  | inr p ↦ rw p (ground arith)
]

sweep-Stands :
    (now n : ℕ) (a : IpAddr) (m : Dict IpAddr Window) (t : Option Tally)
    → IsMap m
    → Stands now n (get m a) t
    → Stands now n (get (sweep now m) a) t
unfolding sweep
sweep-Stands now n a m t valid h = elim (Bool-cases (ltb 10000 (length m))) [
  | inl p ↦ rw (p, get-retain (live now) a m valid) (Stands-kept now n (get m a) t h)
  | inr p ↦ rw p h
]

sweep-IsMap : (now : Instant) (m : Dict IpAddr Window) → IsMap m → IsMap (sweep now m)
unfolding sweep
sweep-IsMap now m h = elim (Bool-cases (ltb 10000 (length m))) [
  | inl p ↦ rw p (retain-IsMap (live now) m h)
  | inr p ↦ rw p h
]

-- A request of the address itself: the table's window goes on as the tally does.
counted-next :
    (now n : ℕ) (w : Option Window) (t : Option Tally)
    → n + 1 < 2 ^ 32
    → Stands now n w t
    → Stands now (suc n) (some (counted now (entry now w))) (some (next t now))
unfolding counted entry next
counted-next now n none none fits h = ground arith
counted-next now n none (some t) fits h = ground arith
counted-next now n (some w) none fits h = absurd h
counted-next now n (some w) (some t) fits h = ground arith

-- The window that a request of `b` leaves behind.
abbrev window_after : RateLimiter → IpAddr → Instant → Window
window_after r b now = counted now (entry now (get (sweep now r.windows) b))

abbrev limiter_after : RateLimiter → IpAddr → Instant → RateLimiter
limiter_after r b now = record r { windows = insert b (window_after r b now) (sweep now r.windows) }

allow_step :
    (r : RateLimiter) (b : IpAddr) (now : Instant)
    → 0 < r.per_minute
    → allow r b now ≡ (limiter_after r b now, leb (window_after r b now).count r.per_minute)
unfolding allow
allow_step r b now h = let e : eqb r.per_minute 0 ≡ false = ground arith in rw e

-- The table after a request still stands for the tally, whoever asked.
abbrev tally_after : IpAddr → IpAddr → Option Tally → Instant → Option Tally
tally_after a b t now = if b == a then some (next t now) else t

after-Stands :
    (r : RateLimiter) (a b : IpAddr) (from now n : ℕ) (t : Option Tally)
    → IsMap r.windows
    → from ≤ now
    → n + 1 < 2 ^ 32
    → Stands from n (get r.windows a) t
    → Stands now (suc n) (get (limiter_after r b now).windows a) (tally_after a b t now)
after-Stands r a b from now n t valid le fits h = elim (Bool-cases (b == a)) [
  | inl p ↦
      let same : b ≡ a = (ip_eq.test_iff b a).0 p in
      rw (get-insert b a) (rw p (rw same (counted-next now n _ t fits swept)))
  | inr p ↦
      rw (get-insert b a)
        (rw p (Stands-later now now n (suc n) _ t (omega arith) (omega arith) swept))
]
  where
    swept : Stands now n (get (sweep now r.windows) a) t
    swept =
        sweep-Stands now n a r.windows t valid (Stands-later from now n n _ t le (omega arith) h)

-- The answer to the address itself is the answer to it alone.
answer-Stands :
    (r : RateLimiter) (a b : IpAddr) (from now n : ℕ) (t : Option Tally)
    → (b == a) ≡ true
    → IsMap r.windows
    → from ≤ now
    → n + 1 < 2 ^ 32
    → Stands from n (get r.windows a) t
    → leb (window_after r b now).count r.per_minute ≡ leb (next t now).asked r.per_minute
answer-Stands r a b from now n t p valid le fits h =
    let same : b ≡ a = (ip_eq.test_iff b a).0 p in
    let stands = (rw (get-insert b a, p) at (after-Stands r a b from now n t valid le fits h)) in
    ap (λ (k : ℕ). leb k r.per_minute) stands.1

run_cons :
    (a b : IpAddr) (r : RateLimiter) (now : ℕ) (rest : List (IpAddr × Instant)) (t : Option Tally)
    → 0 < r.per_minute
    → ((b == a) ≡ true
        → leb (window_after r b now).count r.per_minute ≡ leb (next t now).asked r.per_minute)
    → answers_of a (run (limiter_after r b now) rest)
      ≡ alone r.per_minute (tally_after a b t now) (times_of a rest)
    → answers_of a (run r ((b, now) ∷ rest)) ≡ alone r.per_minute t (times_of a ((b, now) ∷ rest))
unfolding run answers_of times_of
run_cons a b r now rest t pos answer later = elim (Bool-cases (b == a)) [
  | inl p ↦ rw (allow_step r b now pos, p) (unfold alone in cc ((rw p at later), answer p))
  | inr p ↦ rw (allow_step r b now pos, p) (rw p at later)
]

run-Stands :
    (a : IpAddr) (r : RateLimiter) (from n : ℕ) (requests : List (IpAddr × Instant))
    (t : Option Tally)
    → 0 < r.per_minute
    → IsMap r.windows
    → Ordered from requests
    → n + length requests < 2 ^ 32
    → Stands from n (get r.windows a) t
    → answers_of a (run r requests) ≡ alone r.per_minute t (times_of a requests)
run-Stands a r from n [] t pos valid order fits h = unfold alone run answers_of times_of in refl
run-Stands a r from n ((b, now) ∷ rest) t pos valid order fits h =
    run_cons a b r now rest t pos
      (λ p. answer-Stands r a b from now n t p valid order.0 (omega arith) h)
      (run-Stands a (limiter_after r b now) now (suc n) rest (tally_after a b t now) pos
        (insert-IsMap b (window_after r b now) (sweep now r.windows)
          (sweep-IsMap now r.windows valid))
        order.1 (omega arith) (after-Stands r a b from now n t valid order.0 (omega arith) h))

-- A limit of zero is no limit.
unfoldable pub all_allowed : List Instant → List Bool
all_allowed [] = []
all_allowed (now ∷ rest) = true ∷ all_allowed rest

unfoldable pub alone_or_all : ℕ → List Instant → List Bool
alone_or_all zero times = all_allowed times
alone_or_all (suc limit) times = alone (suc limit) none times

allow_off :
    (r : RateLimiter) (b : IpAddr) (now : Instant) → r.per_minute ≡ 0 → allow r b now ≡ (r, true)
unfolding allow
allow_off r b now h = rw h refl

run_off :
    (a : IpAddr) (r : RateLimiter) (requests : List (IpAddr × Instant))
    → r.per_minute ≡ 0
    → answers_of a (run r requests) ≡ all_allowed (times_of a requests)
unfolding run answers_of times_of all_allowed
run_off a r [] h = refl
run_off a r ((b, now) ∷ rest) h = elim (Bool-cases (b == a)) [
  | inl p ↦ rw (allow_off r b now h, p) (rw (run_off a r rest h) refl)
  | inr p ↦ rw (allow_off r b now h, p) (run_off a r rest h)
]

pub run-alone :
    (a : IpAddr) (limit : ℕ) (requests : List (IpAddr × Instant))
    → 0 < limit
    → Ordered 0 requests
    → length requests < 2 ^ 32
    → answers_of a (run (new limit) requests) ≡ alone limit none (times_of a requests)
unfolding new
run-alone a limit requests pos order fits =
    run-Stands a (record { windows = []; per_minute = limit }) 0 0 requests none pos tt order
      (omega arith) (unfold get in tt)

-- Whatever the other addresses do, and whenever the table is swept, the requests of an address get the answers that it would
-- get alone, from a counter that never overflows (every request is allowed if the limit is zero), if there are fewer
-- than 2 ^ 32 requests in all and the readings of the clock do not go back in the order in which the requests
-- obtain the lock. (The program reads the clock before it locks, so requests that arrive together may break that order.)
pub run-refines-alone :
    (a : IpAddr) (limit : ℕ) (requests : List (IpAddr × Instant))
    → Ordered 0 requests
    → length requests < 2 ^ 32
    → answers_of a (run (new limit) requests) ≡ alone_or_all limit (times_of a requests)
unfolding new alone_or_all
run-refines-alone a zero requests order fits =
    run_off a (record { windows = []; per_minute = 0 }) requests refl
run-refines-alone a (suc limit) requests order fits =
    unfold new in run-alone a (suc limit) requests (omega arith) order fits
