-- ===== src/Staging/Atomic/Inside.antt =====
-- What the upload of a batch may do to the host.
use clift.Base.{ℕ, ◌≡◌, refl, sym, ap, subst, true, Option, none, some, List, [], ◌∷◌, ◌++◌}
use clift.Base.{Str, Result, ok, err, All, All-append}
use clift.Base.Fallible.{ok-injective}
use clift.Domain.BatchNames.{BatchNames, assign}
use clift.Domain.Limits.{LocalAttachment}
use clift.Domain.RemotePath.{IsRemotePath}
use clift.Domain.SafeName.{IsSafe}
use clift.Error.{CliftError}
use clift.Remote.{Transport, pure}
use clift.Remote.Keeps.{Keeps, >>=-Keeps}
use clift.Staging.Atomic.{
  StagedFile, no_names, discard, settle, stage_one, stage_files, stage_batch,
}
use clift.Staging.Batch.{BatchPlan, file}
use clift.Staging.Batch.Below.{IsBelow, join-IsBelow, assign-IsSafe}
use clift.Staging.Clean.{within}

-- An invariant of the host that uploads to places strictly inside a directory keep, and removals there.
pub record Guarded (remote : Transport) (root : Str) (P : remote.State → Type 0) : Type 0 where
  pub uploads :
      (local path : Str) → within path root ≡ true → Keeps P (remote.upload_atomic local path)
  pub removes : (path : Str) → within path root ≡ true → Keeps P (remote.remove path)

module _ (remote : Transport) (root : Str) (P : remote.State → Type 0)
    (guarded : Guarded remote root P) (plan : BatchPlan) (valid : IsRemotePath root)
    (below : IsBelow root plan.directory) where
  open remote use {State, upload_atomic}

  abbrev Lies : StagedFile → Type 0
  Lies f = within f.path root ≡ true

  discard-Guarded :
      (staged : List StagedFile)
      → All Lies staged
      → (s : State) → P s
      → P (discard remote plan staged s)
  unfolding discard
  discard-Guarded [] h s p = guarded.removes plan.directory below.inside s p
  discard-Guarded (f ∷ staged) (lies, h) s p =
      discard-Guarded staged h (remote.remove f.path s).0 (guarded.removes f.path lies s p)

  settle-Guarded :
      (staged : List StagedFile) (name : Str) (r : State × Result ℕ CliftError)
      → All Lies staged
      → P r.0
      → P (settle remote plan staged name r).0
  settle-Guarded staged name (s, ok size) h p = p
  settle-Guarded staged name (s, err e) h p = discard-Guarded staged h s p

  settle-path :
      (staged : List StagedFile) (name : Str) (r : State × Result ℕ CliftError) (f : StagedFile)
      → (settle remote plan staged name r).1 ≡ ok f
      → f.path ≡ file plan name
  settle-path staged name (s, ok size) f e = ap (λ f. f.path) (sym (ok-injective e))
  settle-path staged name (s, err q) f e = cc e

  name_Lies : (name : Str) → IsSafe name → within (file plan name) root ≡ true
  name_Lies name safe = (join-IsBelow root plan.directory name valid below safe).inside

  module _ (to_lowercase : Str → Str) where
    -- A name that the batch has given out, if any.
    abbrev AllSafe : Option Str → Type 0
    AllSafe none = Unit {0}
    AllSafe (some name) = IsSafe name

    stage_one-Guarded :
        (staged : List StagedFile) (a : LocalAttachment) (assigned : Option Str)
        → All Lies staged
        → AllSafe assigned
        → Keeps P (stage_one remote plan staged a assigned)
    unfolding stage_one
    stage_one-Guarded staged a none h safe s p = p
    stage_one-Guarded staged a (some name) h safe s p =
        settle-Guarded staged name _ h
          (guarded.uploads a.path (file plan name) (name_Lies name safe) s p)

    stage_one-Lies :
        (staged : List StagedFile) (a : LocalAttachment) (assigned : Option Str) (s : State)
        (f : StagedFile)
        → AllSafe assigned
        → (stage_one remote plan staged a assigned s).1 ≡ ok f
        → Lies f
    unfolding stage_one
    stage_one-Lies staged a none s f safe e = cc e
    stage_one-Lies staged a (some name) s f safe e =
        subst (λ path. within path root ≡ true) (sym (settle-path staged name _ f e))
          (name_Lies name safe)

    assigned-AllSafe :
        (names : BatchNames) (value : Str) (r : BatchNames × Option Str)
        → assign to_lowercase names value ≡ r
        → AllSafe r.1
    assigned-AllSafe names value (names', none) e = tt
    assigned-AllSafe names value (names', some name) e =
        assign-IsSafe to_lowercase names names' value name e

    stage_files-Guarded :
        (names : BatchNames) (staged : List StagedFile) (attachments : List LocalAttachment)
        → All Lies staged
        → Keeps P (stage_files remote plan to_lowercase names staged attachments)
    unfolding stage_files
    stage_files-Guarded names staged [] h = λ s p. p
    stage_files-Guarded names staged (a ∷ attachments) h =
        let assigned = assign to_lowercase names a.name in
        let safe = assigned-AllSafe names a.name assigned refl in
        >>=-Keeps P (stage_one remote plan staged a assigned.1)
          (λ f. stage_files remote plan to_lowercase assigned.0 (staged ++ f ∷ []) attachments)
          (stage_one-Guarded staged a assigned.1 h safe)
          (λ s f e.
            stage_files-Guarded assigned.0 (staged ++ f ∷ []) attachments (
              All-append Lies staged (f ∷ []) h
                (stage_one-Lies staged a assigned.1 s f safe e, tt)))

    pub stage_batch-Guarded :
        (attachments : List LocalAttachment)
        → Keeps P (stage_batch remote plan to_lowercase attachments)
    unfolding stage_batch
    stage_batch-Guarded attachments =
        >>=-Keeps P (stage_files remote plan to_lowercase no_names [] attachments)
          (λ files. pure (record { directory = plan.directory; files = files }))
          (stage_files-Guarded no_names [] attachments tt) (λ s files e t q. q)
