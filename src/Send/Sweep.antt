-- ===== src/Send/Sweep.antt =====
-- How often a send is followed by a sweep.
use clift.Base.{
  ℕ, ◌+◌, ◌*◌, ◌/◌, ◌%◌, ◌<◌, ◌≡◌, refl, subst, false, some, none, ◌≤◌, lt→ltb, List, ◌∷◌, arith,
}
use clift.Base.{ltb, eqb, Str, ok}
use clift.Base.Bytes.{IsByte}
use clift.Domain.BatchId.{hex_digit, hex_text, from_random_bytes}
use clift.Calendar.{SystemTime}
use clift.Relayd.Address.{Duration}
use clift.Remote.{Transport}
use clift.Send.{radix_digit, should_sweep, SendOutcome, tidy_after, note_of}
use clift.Staging.Clean.{Action, clean, older_than}

radix_digit-hex_digit : (d : ℕ) → d < 16 → radix_digit (hex_digit d) ≡ some d
radix_digit-hex_digit d h = ground arith

hex_digit-ne-plus : (d : ℕ) → d < 16 → eqb (hex_digit d) b'+' ≡ false
hex_digit-ne-plus d h = ground arith

should_sweep-hex_text :
    (b : ℕ) (bytes : List ℕ) → IsByte b → should_sweep (hex_text (b ∷ bytes)) ≡ ltb b 31
unfolding should_sweep
should_sweep-hex_text b bytes h =
    let whole : b / 16 * 16 + b % 16 ≡ b = omega arith in
    rw
      (
        hex_digit-ne-plus (b / 16) (omega (arith, h)),
        radix_digit-hex_digit (b / 16) (omega (arith, h)),
        radix_digit-hex_digit (b % 16) (omega arith),
        whole,
      )
      refl

drawn-hex_text : (bytes : List ℕ) (id : Str) → from_random_bytes bytes ≡ ok id → hex_text bytes ≡ id
unfolding from_random_bytes
drawn-hex_text bytes id h = ground arith

should_sweep-from_random_bytes :
    (b : ℕ) (bytes : List ℕ) (id : Str)
    → IsByte b
    → from_random_bytes (b ∷ bytes) ≡ ok id
    → should_sweep id ≡ ltb b 31
should_sweep-from_random_bytes b bytes id h e =
    subst (λ id. should_sweep id ≡ ltb b 31) (drawn-hex_text (b ∷ bytes) id e)
      (should_sweep-hex_text b bytes h)

-- What follows a send whose identifier was made from some random bytes: without a retention nothing is asked of the host; with
-- one, the inbox that the send used is cleaned of the batches older than it, exactly if the first byte is below 31 (31 of 256,
-- not one in 8), and otherwise nothing is asked of the host; whatever the cleaning answers becomes at most a note.
pub tidy_after_lem :
    (remote : Transport) (outcome : SendOutcome) (now : SystemTime) (b : ℕ) (bytes : List ℕ)
    (s : remote.State)
    → IsByte b
    → from_random_bytes (b ∷ bytes) ≡ ok outcome.batch_id
    → (tidy_after remote outcome none now s ≡ (s, none))
      × ((retention : Duration)
          → (b < 31
              → let (s', answer) =
                  clean remote outcome.inbox_root Action.remove (older_than retention) now s in
                tidy_after remote outcome (some retention) now s ≡ (s', note_of answer))
            × (31 ≤ b → tidy_after remote outcome (some retention) now s ≡ (s, none)))
unfolding tidy_after
tidy_after_lem remote outcome now b bytes s h e =
    let rolled = should_sweep-from_random_bytes b bytes outcome.batch_id h e in
    (
      refl,
      λ retention. (
        (λ small. rw (rolled, lt→ltb b 31 small) refl),
        λ large. let p : ltb b 31 ≡ false = ground (arith, large) in rw (rolled, p) refl,
      ),
    )
