-- ===== src/Relayd/Address.antt =====
-- `std::net::IpAddr`, with the four or sixteen octets of an address packed into one number, and
-- `std::time::Instant` and `Duration` as nanoseconds.
use clift.Base.{ℕ, ◌*◌, ◌^◌, ◌≡◌, ◌↔◌, Bool, false, arith, eqb, Key}

pub data IpAddr : Type 0 where
  v4 v6 : ℕ → IpAddr

abbrev pub ip_beq : IpAddr → IpAddr → Bool
ip_beq (v4 a) (v4 b) = eqb a b
ip_beq (v6 a) (v6 b) = eqb a b
ip_beq _ _ = false

pub ip_beq_iff : (a b : IpAddr) → (ip_beq a b ≡ Bool.true) ↔ (a ≡ b)
ip_beq_iff a b = ground arith

instance abbrev pub ip_eq : Key IpAddr
ip_eq = record { test = ip_beq; test_iff = ip_beq_iff }

abbrev pub Instant : Type 0
Instant = ℕ

abbrev pub Duration : Type 0
Duration = ℕ

-- `Duration::from_secs`
abbrev pub from_secs : ℕ → Duration
from_secs n = n * 10 ^ 9
