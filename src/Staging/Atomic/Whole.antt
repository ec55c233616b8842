-- ===== src/Staging/Atomic/Whole.antt =====
-- What an upload of a batch leaves on the host: all of it, or nothing.
use clift.Base.{◌≡◌, ◌≢◌, ◌⊎◌, List, [], ◌∷◌, ◌++◌}
use clift.Base.{Str, Result, ok, err, All}
use clift.Domain.BatchNames.{BatchNames}
use clift.Error.{CliftError}
use clift.Remote.{Transport}
use clift.Staging.Atomic.{Failure, failed, overflow, StagedFile}
use clift.Staging.Batch.{BatchPlan, file}

-- Which paths are on a host, as far as uploads and removals tell: an upload that succeeds puts its destination there alone; one
-- that fails may leave some path of its own (`Stray dest`: a temporary file, or the destination itself); what is removed has
-- gone.
pub record Holds (remote : Transport) (Has : Str → remote.State → Type 0)
    (Stray : Str → Str → Type 0) : Type 0 where
  pub refused :
      (local dest path : Str) (s : remote.State) (e : CliftError)
      → (remote.upload_atomic local dest s).1 ≡ err e
      → Has path (remote.upload_atomic local dest s).0
      → Stray dest path ⊎ Has path s
  pub placed :
      (local dest path : Str) (s : remote.State)
      → Has path (remote.upload_atomic local dest s).0
      → (path ≡ dest) ⊎ Has path s
  pub removed :
      (dest path : Str) (s : remote.State)
      → Has path (remote.remove dest s).0
      → (path ≢ dest) × Has path s

module _ (remote : Transport) (Has : Str → remote.State → Type 0) (Stray : Str → Str → Type 0)
    (holds : Holds remote Has Stray) (plan : BatchPlan) (path : Str) (before : Type 0)
    (stray : (name : Str) → Stray (file plan name) path → before) where
  open remote use {State, upload_atomic}

  abbrev Misses : StagedFile → Type 0
  Misses f = path ≢ f.path

  -- What is on the host during the upload: a staged file, or what was there before.
  abbrev Known : List StagedFile → State → Type 0
  Known staged s = Has path s → All Misses staged → before

  -- Nothing is left of a batch that failed; one file more is known to be there when a round is done.
  abbrev Settled : List StagedFile → State × Result StagedFile Failure → Type 0
  Settled staged (s, ok f) = Known (staged ++ f ∷ []) s
  Settled staged (s, err (failed e)) = Has path s → before
  Settled staged (s, err overflow) = Unit {0}

  -- What a run that may end with a failed batch leaves.
  abbrev Leaves : {A : Type 0} → State × Result A Failure → Type 0
  Leaves (s, ok a) = Unit {0}
  Leaves (s, err (failed e)) = Has path s → before
  Leaves (s, err overflow) = Unit {0}
