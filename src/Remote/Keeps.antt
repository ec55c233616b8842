-- ===== src/Remote/Keeps.antt =====
-- What a sequence of calls does to an invariant of the host.
use clift.Base.{◌≡◌, refl, ap, Result, ok, err}
use clift.Base.Fallible.{map_err, ok-injective}
use clift.Remote.{Runs, ◌>>=◌, ◌>>◌, run_map_err}

module _ {S : Type 0} (P : S → Type 0) where
  -- A run that keeps an invariant, whatever its answer is.
  abbrev pub Keeps : {A E : Type 0} → Runs S A E → Type 0
  Keeps run = (s : S) → P s → P (run s).0

  -- The second of two runs has to keep the invariant for an answer of the first alone.
  pub >>=-Keeps :
      {A B E : Type 0} (run : Runs S A E) (next : A → Runs S B E)
      → Keeps run
      → ((s : S) (a : A) → (run s).1 ≡ ok a → Keeps (next a))
      → Keeps (run >>= next)
  >>=-Keeps {A} {B} {E} run next first later s p = go (run s).0 (run s).1 refl (first s p)
    where
      go :
          (s' : S) (r : Result A E)
          → (run s).1 ≡ r
          → P s'
          → P (elim r as (λ _. S × Result B E) [ ok a ↦ next a s' | err e ↦ (s', err e) ]).0
      go s' (ok a) e q = later s a e s' q
      go s' (err e) k q = q

  pub >>-Keeps :
      {B E : Type 0} (first : Runs S (Unit {0}) E) (next : Runs S B E)
      → Keeps first
      → Keeps next
      → Keeps (first >> next)
  >>-Keeps first next h k = >>=-Keeps first (λ _. next) h (λ s a e. k)

-- The two answers behind the answer of a sequence.
pub >>=-eq-ok :
    {S A B E : Type 0} (run : Runs S A E) (next : A → Runs S B E) (s : S) {b : B}
    → ((run >>= next) s).1 ≡ ok b
    → (a : A) × ((run s).1 ≡ ok a) × ((next a (run s).0).1 ≡ ok b)
>>=-eq-ok {S} {A} {B} {E} run next s {b} h = go (run s).0 (run s).1 h
  where
    go :
        (s' : S) (r : Result A E)
        → (elim r as (λ _. S × Result B E) [ ok a ↦ next a s' | err e ↦ (s', err e) ]).1 ≡ ok b
        → (a : A) × (r ≡ ok a) × ((next a s').1 ≡ ok b)
    go s' (ok a) h = (a, refl, h)
    go s' (err e) h = cc h

-- The two runs behind a run of a sequence that ends well, with the states between them.
pub >>=-eq-pair :
    {S A B E : Type 0} (run : Runs S A E) (next : A → Runs S B E) (s s' : S) {b : B}
    → (run >>= next) s ≡ (s', ok b)
    → (a : A) × (t : S) × (run s ≡ (t, ok a)) × (next a t ≡ (s', ok b))
>>=-eq-pair {S} {A} {B} {E} run next s s' {b} h = go (run s).0 (run s).1 refl h
  where
    go :
        (t : S) (r : Result A E)
        → run s ≡ (t, r)
        → (elim r as (λ _. S × Result B E) [ ok a ↦ next a t | err e ↦ (t, err e) ]) ≡ (s', ok b)
        → (a : A) × (t : S) × (run s ≡ (t, ok a)) × (next a t ≡ (s', ok b))
    go t (ok a) e h = (a, t, e, h)
    go t (err q) e h = cc (ap (λ r. r.1) h)

-- An answer whose error alone was renamed.
pub run_map_err-eq-ok :
    {S A E F : Type 0} (f : E → F) (run : Runs S A E) (s s' : S) {a : A}
    → run_map_err f run s ≡ (s', ok a)
    → run s ≡ (s', ok a)
run_map_err-eq-ok {S} {A} {E} {F} f run s s' {a} h = go (run s).0 (run s).1 refl h
  where
    go :
        (t : S) (r : Result A E)
        → run s ≡ (t, r)
        → ◌≡◌ {A = S × Result A F} (t, map_err f r) (s', ok a)
        → run s ≡ (s', ok a)
    go t (ok a') e h = cc (e, ap (λ r. r.0) h, ok-injective (ap (λ r. r.1) h))
    go t (err q) e h = cc (ap (λ r. r.1) h)
