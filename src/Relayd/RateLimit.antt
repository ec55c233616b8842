-- ===== src/Relayd/RateLimit.antt =====
-- crates/clift-relayd/src/ratelimit.rs: the fixed-window request counter. A call gets the reading of
-- the clock as an argument, and a run is the order in which the calls obtain the lock; since the program reads the clock before
-- it locks, that order need not be the order of the readings.
pub mod Alone
pub mod Quota
use clift.Base.{ℕ, ◌+◌, ◌-◌, ◌%◌, ◌^◌, Bool, true, Option, none, some, List, [], ◌∷◌}
use clift.Base.{ltb, leb, eqb, if◌then◌else◌, length}
use clift.Base.Dict.{Dict, get, insert, retain}
use clift.Relayd.Address.{IpAddr, ip_eq, Instant, Duration, from_secs}

-- `WINDOW`
abbrev pub window_length : Duration
window_length = from_secs 60

pub record Window : Type 0 where
  pub started : Instant
  pub count : ℕ

pub record RateLimiter : Type 0 where
  pub windows : Dict IpAddr Window
  pub per_minute : ℕ

unfoldable pub new : ℕ → RateLimiter
new per_minute = record { windows = []; per_minute = per_minute }

-- `now.duration_since(window.started) < WINDOW`; `duration_since` stops at zero.
abbrev pub live : Instant → Window → Bool
live now w = ltb (now - w.started) window_length

unfoldable pub sweep : Instant → Dict IpAddr Window → Dict IpAddr Window
sweep now windows = if ltb 10000 (length windows) then retain (live now) windows else windows

-- `windows.entry(address).or_insert(…)`
unfoldable pub entry : Instant → Option Window → Window
entry now none = record { started = now; count = 0 }
entry now (some w) = w

-- The counter is a `u32`, which wraps around in a release build.
unfoldable pub counted : Instant → Window → Window
counted now w =
    let current : Window =
      if leb window_length (now - w.started) then record { started = now; count = 0 } else w in
    record current { count = (current.count + 1) % 2 ^ 32 }

unfoldable pub allow : RateLimiter → IpAddr → Instant → RateLimiter × Bool
unfolding sweep entry counted
allow r address now =
    let windows = sweep now r.windows in
    let w = counted now (entry now (get windows address)) in
    if eqb r.per_minute 0
    then (r, true)
    else (record r { windows = insert address w windows }, leb w.count r.per_minute)

-- The answers to a sequence of requests, each with the address that asked.
unfoldable pub run : RateLimiter → List (IpAddr × Instant) → List (IpAddr × Bool)
run r [] = []
run r ((address, now) ∷ rest) =
    let (r', answer) = allow r address now in (address, answer) ∷ run r' rest
