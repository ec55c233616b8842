-- ===== src/Staging/Atomic/Tests.antt =====
-- Runs of the model of the upload of a batch at a concrete host, and its theorem applied to one.
use clift.Base.{◌≡◌, refl, true, List, [], ◌∷◌, ◌++◌, codes, Str, ok}
use clift.Base.{str_eq}
use clift.Base.Utf8.{len}
use clift.Domain.BatchNames.{contains}
use clift.Domain.Limits.{LocalAttachment}
use clift.Domain.SafeName.{new, sanitize, repair, last_part, without_control, strip_edges, truncate}
use clift.Error.{CliftError, Stage, ErrorKind}
use clift.Remote.Samples.{host}
use clift.Staging.Atomic.{StagedBatch, stage_batch}
use clift.Staging.Batch.{BatchPlan}

abbrev plan : BatchPlan
plan = record {
  date = codes "2026-08-30";
  id = codes "ab";
  directory = codes "/inbox/2026-08-30/ab";
}

abbrev shot : LocalAttachment
shot = record { path = codes "/home/me/shot.png"; name = codes "shot.png"; size = 7 }

abbrev gone : LocalAttachment
gone = record { path = codes "/gone"; name = codes "gone.png"; size = 7 }

abbrev transfer_failed : CliftError
transfer_failed = record { stage = Stage.transfer; kind = ErrorKind.transfer }

-- Two attachments of one name get two paths.
abbrev both : StagedBatch
both = record {
  directory = codes "/inbox/2026-08-30/ab";
  files =
      record { name = codes "shot.png"; path = codes "/inbox/2026-08-30/ab/shot.png"; size = 7 }
      ∷ record {
        name = codes "shot-2.png";
        path = codes "/inbox/2026-08-30/ab/shot-2.png";
        size = 7;
      }
      ∷ [];
}

names_told_apart : stage_batch host plan (λ s. s) (shot ∷ shot ∷ []) [] ≡ (
  codes "/inbox/2026-08-30/ab/shot-2.png" ∷ codes "/inbox/2026-08-30/ab/shot.png" ∷ [],
  ok both,
)
unfolding stage_batch sanitize new repair last_part without_control strip_edges truncate len
names_told_apart = refl

abbrev Has : Str → List Str → Type 0
Has path s = contains s path ≡ true

-- The temporary file of an upload.
abbrev Stray : Str → Str → Type 0
Stray dest path = path ≡ dest ++ codes ".part"
