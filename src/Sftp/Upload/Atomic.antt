-- ===== src/Sftp/Upload/Atomic.antt =====
-- What is on the host after an upload.
use clift.Base.{
  ℕ, ◌≡◌, ◌≢◌, ◌⊎◌, refl, sym, ap, subst, ◌∙◌, arith, bit_and, Option, none, some, inl, inr,
}
use clift.Base.{Bool-cases, eqb, eqb_iff, Str, Result, ok, err}
use clift.Error.{CliftError}
use clift.Sftp.Upload.{
  Failure, refused, broken, local, not_started, Session, file_mode, verify, verify_size,
  verify_mode, tidied, renamed, verified, uploaded, put_in_place,
}
use clift.Sftp.Wire.{Attrs}

-- Which paths are on a server: an upload makes its own path at most, a removal nothing, and a rename the new path at most, and
-- not even that if it is refused.
pub record Serves (session : Session) (Has : Str → session.State → Type 0) : Type 0 where
  pub uploads :
      (made path : Str) (mode : ℕ) (s : session.State)
      → path ≢ made
      → Has path (session.upload made mode s).0
      → Has path s
  pub removes :
      (gone path : Str) (s : session.State) → Has path (session.remove gone s).0 → Has path s
  pub renames :
      (from to path : Str) (s : session.State)
      → Has path (session.rename from to s).0
      → (path ≡ to) ⊎ Has path s
  pub refuses :
      (from to path : Str) (s : session.State) (f : Failure)
      → f ≢ broken
      → (session.rename from to s).1 ≡ err f
      → Has path (session.rename from to s).0
      → Has path s

-- The size and the mode that were asked for.
pub record IsExpected (expected : ℕ) (attrs : Attrs) : Type 0 where
  pub size : attrs.size ≡ some expected
  pub mode : (bits : ℕ) × (attrs.permissions ≡ some bits) × (bit_and bits 511 ≡ file_mode)

verify_mode-some :
    (permissions : Option ℕ)
    → verify_mode permissions ≡ ok tt
    → (bits : ℕ) × (permissions ≡ some bits) × (bit_and bits 511 ≡ file_mode)
verify_mode-some none h = cc h
verify_mode-some (some bits) h = (bits, refl, ground arith)

verify_size-some :
    (expected : ℕ) (attrs : Attrs) (size : Option ℕ)
    → verify_size expected attrs size ≡ ok tt
    → (size ≡ some expected) × (verify_mode attrs.permissions ≡ ok tt)
verify_size-some expected attrs none h = cc h
verify_size-some expected attrs (some reported) h = elim (Bool-cases (eqb reported expected)) [
  | inl p ↦ (ap some ((eqb_iff reported expected).0 p), rw p at h)
  | inr p ↦ cc (rw p at h)
]

verify-IsExpected :
    (expected : ℕ) (attrs : Attrs) → verify expected attrs ≡ ok tt → IsExpected expected attrs
verify-IsExpected expected attrs h =
    let (size, mode) = verify_size-some expected attrs attrs.size h in
    record { size = size; mode = verify_mode-some attrs.permissions mode }

module _ (session : Session) (Has : Str → session.State → Type 0) (serves : Serves session Has)
    (expected : ℕ) (temporary destination : Str) where
  open session use {State, upload, remove, rename}

  -- Nothing is there that was not, but for the temporary file.
  abbrev Unchanged : State → State → Type 0
  Unchanged s s' = (path : Str) → path ≢ temporary → Has path s' → Has path s

  pub record Placed (s : State) : Type 0 where
    pub attrs : Attrs
    pub answered : (upload temporary file_mode s).1 ≡ ok attrs
    pub as_expected : IsExpected expected attrs
    pub moved : (rename temporary destination (upload temporary file_mode s).0).1 ≡ ok tt

  -- What each outcome says of the host.
  abbrev pub Outcome : State → State × Result (Result ℕ CliftError) Failure → Type 0
  Outcome s (s', ok (ok size)) = (size ≡ expected) × Placed s
  Outcome s (s', ok (err e)) = Unchanged s s'
  Outcome s (s', err broken) =
      (path : Str) → path ≢ temporary → Has path s' → (path ≡ destination) ⊎ Has path s
  Outcome s (s', err (refused code)) = Unchanged s s'
  Outcome s (s', err local) = Unchanged s s'
  Outcome s (s', err not_started) = Unchanged s s'

  tidied-Unchanged :
      (s s' : State)
      → Unchanged s s'
      → Unchanged s (tidied session expected temporary destination s')
  tidied-Unchanged s s' u path other h = u path other (serves.removes temporary path s' h)

  -- A rename that is refused, or was never sent, changes nothing.
  refused-Unchanged :
      (s t s' : State) (f : Failure)
      → f ≢ broken
      → rename temporary destination t ≡ (s', err f)
      → Unchanged s t
      → Unchanged s s'
  refused-Unchanged s t s' f other e u path apart h = u path apart (
      serves.refuses temporary destination path t f other (ap (λ r. r.1) e)
        (subst (λ r. Has path r.0) (sym e) h))

  renamed-Outcome :
      (s t : State) (attrs : Attrs)
      → upload temporary file_mode s ≡ (t, ok attrs)
      → IsExpected expected attrs
      → Unchanged s t
      → (r : State × Result (Unit {0}) Failure) → rename temporary destination t ≡ r
      → Outcome s (renamed session expected temporary destination r)
  renamed-Outcome s t attrs a as_expected u (s', ok done) e = (
    refl,
    record {
      attrs = attrs;
      answered = ap (λ r. r.1) a;
      as_expected = as_expected;
      moved = ap (λ r. (rename temporary destination r.0).1) a ∙ ap (λ r. r.1) e;
    },
  )
  renamed-Outcome s t attrs a as_expected u (s', err (refused code)) e =
      tidied-Unchanged s s' (refused-Unchanged s t s' (refused code) (λ q. cc q) e u)
  renamed-Outcome s t attrs a as_expected u (s', err broken) e = λ path apart h.
      elim (serves.renames temporary destination path t (subst (λ r. Has path r.0) (sym e) h)) [
        | inl q ↦ inl q
        | inr q ↦ inr (u path apart q)
      ]
  renamed-Outcome s t attrs a as_expected u (s', err local) e =
      refused-Unchanged s t s' local (λ q. cc q) e u
  renamed-Outcome s t attrs a as_expected u (s', err not_started) e =
      refused-Unchanged s t s' not_started (λ q. cc q) e u

  verified-Outcome :
      (s t : State) (attrs : Attrs)
      → upload temporary file_mode s ≡ (t, ok attrs)
      → Unchanged s t
      → (r : Result (Unit {0}) CliftError) → verify expected attrs ≡ r
      → Outcome s (verified session expected temporary destination r t)
  verified-Outcome s t attrs a u (err wrong) e = tidied-Unchanged s t u
  verified-Outcome s t attrs a u (ok done) e =
      renamed-Outcome s t attrs a (verify-IsExpected expected attrs e) u
        (rename temporary destination t) refl

  uploaded-Outcome :
      (s : State) (r : State × Result Attrs Failure)
      → upload temporary file_mode s ≡ r
      → Outcome s (uploaded session expected temporary destination r)
  uploaded-Outcome s (t, r) e = go r e
    where
      u : Unchanged s t
      u path apart h =
          serves.uploads temporary path file_mode s apart (subst (λ r. Has path r.0) (sym e) h)

      go :
          (r : Result Attrs Failure)
          → upload temporary file_mode s ≡ (t, r)
          → Outcome s (uploaded session expected temporary destination (t, r))
      go (ok attrs) e = verified-Outcome s t attrs e u (verify expected attrs) refl
      go (err broken) e = λ path apart h. inr (u path apart h)
      go (err (refused code)) e = tidied-Unchanged s t u
      go (err local) e = tidied-Unchanged s t u
      go (err not_started) e = tidied-Unchanged s t u

-- On a server that keeps its promises: an upload that succeeds returns the expected size, after the server reported that size and
-- the private mode for the temporary file and carried out the rename; one that fails leaves no path that was not there, but for the
-- temporary file; and after a broken connection only the destination may be there besides.
pub put_in_place-Outcome :
    (session : Session) (Has : Str → session.State → Type 0) (serves : Serves session Has)
    (expected : ℕ) (temporary destination : Str) (s : session.State)
    → Outcome session Has serves expected temporary destination s
        (put_in_place session expected temporary destination s)
unfolding put_in_place
put_in_place-Outcome session Has serves expected temporary destination s =
    uploaded-Outcome session Has serves expected temporary destination s
      (session.upload temporary file_mode s) refl
