-- ===== src/Relayd/RateLimit/Quota.antt =====
-- How many requests of one address the limiter of ratelimit.rs lets through within one window.
use clift.Base.{
  ℕ, ◌+◌, ◌-◌, ◌^◌, ◌<◌, min, ◌≡◌, ◌∙◌, Bool, true, false, none, some, List, [], ◌∷◌, arith, length,
  All, ap,
}
use clift.Relayd.Address.{IpAddr, Instant}
use clift.Relayd.RateLimit.{window_length, new, run}
use clift.Relayd.RateLimit.Alone.{next, alone, times_of, answers_of, Ordered, run-alone}

-- How many of the answers let a request through.
unfoldable pub granted : List Bool → ℕ
granted [] = 0
granted (true ∷ rest) = granted rest + 1
granted (false ∷ rest) = granted rest

-- All requests fall into the window that the first of them opens.
abbrev pub OneWindow : List Instant → Type 0
OneWindow [] = Unit
OneWindow (first ∷ rest) = All (λ (now : Instant). now - first < window_length) rest

granted-alone :
    (limit first k : ℕ) (times : List Instant)
    → All (λ (now : Instant). now - first < window_length) times
    → granted (alone limit (some (record { since = first; asked = k })) times)
      ≡ min (limit - k) (length times)
unfolding granted alone next
granted-alone limit first k [] h = omega arith
granted-alone limit first k (now ∷ rest) h =
    ground (arith, granted-alone limit first (k + 1) rest h.1)

granted_fresh :
    (limit : ℕ) (times : List Instant)
    → OneWindow times
    → granted (alone limit none times) ≡ min limit (length times)
unfolding granted alone next
granted_fresh limit [] h = omega arith
granted_fresh limit (first ∷ rest) h = ground (arith, granted-alone limit first 1 rest h)

-- Of the requests of an address that all fall within a minute of its first one, exactly as many are
-- let through as the limit allows, and all of them if they are fewer; the other addresses' requests
-- make no difference. The limit is not zero, the clock does not go back, and there are fewer than
-- 2 ^ 32 requests in all.
pub granted-run :
    (a : IpAddr) (limit : ℕ) (requests : List (IpAddr × Instant))
    → 0 < limit
    → Ordered 0 requests
    → length requests < 2 ^ 32
    → OneWindow (times_of a requests)
    → granted (answers_of a (run (new limit) requests)) ≡ min limit (length (times_of a requests))
granted-run a limit requests pos order fits one =
    ap granted (run-alone a limit requests pos order fits)
    ∙ granted_fresh limit (times_of a requests) one
