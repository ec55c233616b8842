-- ===== src/Staging/Atomic.antt =====
-- crates/clift-core/src/staging/atomic.rs: the uploads of a batch, all of them or none.
pub mod Arrived
pub mod Inside
pub mod Whole
mod Tests
use clift.Base.{ℕ, Option, none, some, List, [], ◌∷◌, ◌++◌, Str, Result, ok, err}
use clift.Domain.BatchNames.{BatchNames, assign}
use clift.Domain.Limits.{LocalAttachment}
use clift.Domain.RemotePath.{join}
use clift.Error.{CliftError}
use clift.Remote.{Transport, Runs, ◌>>=◌, pure}
use clift.Staging.Batch.{BatchPlan, file}

pub record StagedFile : Type 0 where
  pub name : Str
  pub path : Str
  pub size : ℕ

pub record StagedBatch : Type 0 where
  pub directory : Str
  pub files : List StagedFile

-- An error, or the panic of a counter of `BatchNames` that overflows.
pub data Failure : Type 0 where
  failed : CliftError → Failure
  overflow : Failure

-- `BatchNames::new`
abbrev pub no_names : BatchNames
no_names = record { taken = [] }

module _ (remote : Transport) (plan : BatchPlan) where
  open remote use {State, remove, upload_atomic}

  unfoldable pub discard : List StagedFile → State → State
  discard [] s = (remove plan.directory s).0
  discard (f ∷ staged) s = discard staged (remove f.path s).0

  -- What is made of the answer to an upload.
  abbrev pub settle :
      List StagedFile → Str → State × Result ℕ CliftError → State × Result StagedFile Failure
  settle staged name (s, ok size) =
      (s, ok (record { name = name; path = file plan name; size = size }))
  settle staged name (s, err e) = (discard staged s, err (failed e))

  -- One round of the loop over the attachments.
  unfoldable pub stage_one :
      List StagedFile → LocalAttachment → Option Str → Runs State StagedFile Failure
  unfolding discard join
  stage_one staged a none s = (s, err overflow)
  stage_one staged a (some name) s = settle staged name (upload_atomic a.path (file plan name) s)

  module _ (to_lowercase : Str → Str) where
    unfoldable pub stage_files :
        BatchNames → List StagedFile → List LocalAttachment → Runs State (List StagedFile) Failure
    unfolding assign stage_one
    stage_files names staged [] = pure staged
    stage_files names staged (a ∷ attachments) =
        let (names', assigned) = assign to_lowercase names a.name in
        stage_one staged a assigned >>= λ f. stage_files names' (staged ++ f ∷ []) attachments

    unfoldable pub stage_batch : List LocalAttachment → Runs State StagedBatch Failure
    unfolding stage_files
    stage_batch attachments = stage_files no_names [] attachments >>= λ files.
        pure (record { directory = plan.directory; files = files })
