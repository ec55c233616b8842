-- ===== src/Staging/Atomic/Arrived.antt =====
-- What a batch that arrived consists of.
use clift.Base.{
  ℕ, ◌≡◌, refl, sym, ap, subst, ◌∙◌, Option, none, some, List, [], ◌∷◌, ◌++◌, append_assoc,
  append-nil,
}
use clift.Base.{Str, Result, ok, err}
use clift.Base.Fallible.{ok-injective}
use clift.Domain.BatchNames.{BatchNames, assign}
use clift.Domain.Limits.{LocalAttachment}
use clift.Domain.RemotePath.{join}
use clift.Domain.SafeName.{IsSafe}
use clift.Error.{CliftError}
use clift.Remote.{Transport, pure}
use clift.Remote.Keeps.{>>=-eq-pair}
use clift.Staging.Atomic.{
  StagedFile, StagedBatch, no_names, settle, stage_one, stage_files, stage_batch,
}
use clift.Staging.Batch.{BatchPlan, file}
use clift.Staging.Batch.Below.{assign-IsSafe}

module _ (remote : Transport) (plan : BatchPlan) where
  open remote use {State, upload_atomic}

  -- The step from one state of the host to the next by the upload of one attachment: to a place below the batch under a safe
  -- name, answered with the size.
  pub record Arrived (s s' : State) (a : LocalAttachment) (f : StagedFile) : Type 0 where
    pub safe : IsSafe f.name
    pub path : f.path ≡ join plan.directory f.name
    pub stored : upload_atomic a.path f.path s ≡ (s', ok f.size)

  -- The uploads of all attachments, in order, from one state of the host to another, and nothing between them.
  pub data AllArrived : State → State → List LocalAttachment → List StagedFile → Type 0 where
    nothing : {s : State} → AllArrived s s [] []
    next :
        {s t s' : State} {a : LocalAttachment} {f : StagedFile} {attachments : List LocalAttachment}
        {files : List StagedFile}
        → Arrived s t a f
        → AllArrived t s' attachments files
        → AllArrived s s' (a ∷ attachments) (f ∷ files)

  settle-eq-ok :
      (staged : List StagedFile) (a : LocalAttachment) (name : Str) (s t : State)
      (r : State × Result ℕ CliftError) (f : StagedFile)
      → IsSafe name
      → upload_atomic a.path (file plan name) s ≡ r
      → settle remote plan staged name r ≡ (t, ok f)
      → Arrived s t a f
  settle-eq-ok staged a name s t (s', ok size) f safe e h =
      let same : s' ≡ t = ap (λ r. r.0) h in
      subst (Arrived s t a) (ok-injective (ap (λ r. r.1) h))
        (record { safe = safe; path = refl; stored = rw same at e })
  settle-eq-ok staged a name s t (s', err q) f safe e h = cc (ap (λ r. r.1) h)

  module _ (to_lowercase : Str → Str) where
    stage_one-Arrived :
        (names : BatchNames) (staged : List StagedFile) (a : LocalAttachment) (s t : State)
        (r : BatchNames × Option Str) (f : StagedFile)
        → assign to_lowercase names a.name ≡ r
        → stage_one remote plan staged a r.1 s ≡ (t, ok f)
        → Arrived s t a f
    unfolding stage_one
    stage_one-Arrived names staged a s t (names', none) f e h = cc (ap (λ r. r.1) h)
    stage_one-Arrived names staged a s t (names', some name) f e h =
        settle-eq-ok staged a name s t _ f (assign-IsSafe to_lowercase names names' a.name name e)
          refl h

    stage_files-eq-ok :
        (names : BatchNames) (staged : List StagedFile) (attachments : List LocalAttachment)
        (s s' : State) (files : List StagedFile)
        → stage_files remote plan to_lowercase names staged attachments s ≡ (s', ok files)
        → (new : List StagedFile) × (files ≡ staged ++ new) × AllArrived s s' attachments new
    unfolding stage_files
    stage_files-eq-ok names staged [] s s' files h = (
      [],
      sym (ok-injective (ap (λ r. r.1) h)) ∙ sym (append-nil staged),
      subst (λ s'. AllArrived s s' [] []) (ap (λ r. r.0) h) nothing,
    )
    stage_files-eq-ok names staged (a ∷ attachments) s s' files h =
        let r = assign to_lowercase names a.name in
        let (f, t, first, later) =
          >>=-eq-pair (stage_one remote plan staged a r.1)
            (λ f. stage_files remote plan to_lowercase r.0 (staged ++ f ∷ []) attachments) s s' h in
        let arrived = stage_one-Arrived names staged a s t r f refl first in
        let (new, whole, all) =
          stage_files-eq-ok r.0 (staged ++ f ∷ []) attachments t s' files later in
        (f ∷ new, whole ∙ append_assoc staged (f ∷ []) new, next arrived all)

    pub stage_batch-AllArrived :
        (attachments : List LocalAttachment) (s s' : State) (batch : StagedBatch)
        → stage_batch remote plan to_lowercase attachments s ≡ (s', ok batch)
        → (batch.directory ≡ plan.directory) × AllArrived s s' attachments batch.files
    unfolding stage_batch
    stage_batch-AllArrived attachments s s' batch h =
        let (files, t, staged, made) =
          >>=-eq-pair (stage_files remote plan to_lowercase no_names [] attachments)
            (λ files. pure (record { directory = plan.directory; files = files })) s s' h in
        let (new, whole, all) = stage_files-eq-ok no_names [] attachments s t files staged in
        let all' = subst (AllArrived s t attachments) (sym whole) all in
        subst
          (λ batch. (batch.directory ≡ plan.directory) × AllArrived s s' attachments batch.files)
          (ok-injective (ap (λ r. r.1) made))
          (refl, subst (λ s'. AllArrived s s' attachments files) (ap (λ r. r.0) made) all')
