-- ===== src/Send/Inside.antt =====
-- What a send may do to the host.
use clift.Base.{◌≡◌, ◌<◌, ◌-◌, ◌^◌, ◌≢◌, refl, true, List, [], ◌∷◌, Str, Result, ok, err}
use clift.Base.Fallible.{map_err, map_err-eq-ok}
use clift.Domain.Limits.{Limits, LocalAttachment, BatchError, check}
use clift.Domain.Limits.Laws.{Within, check-Within}
use clift.Domain.RemotePath.{IsRemotePath}
use clift.Error.{CliftError, ErrorKind}
use clift.Calendar.{SystemTime}
use clift.Remote.{Transport, Acts, Runs, ◌>>=◌, ◌>>◌, pure, lift, run_map_err}
use clift.Remote.Keeps.{Keeps, >>=-Keeps, >>-Keeps}
use clift.Send.{SendPolicy, outcome_of, check_limits, deliver, perform}
use clift.Staging.Atomic.{Failure, failed, stage_batch}
use clift.Staging.Atomic.Inside.{Guarded, stage_batch-Guarded}
use clift.Staging.Batch.{plan_batch, create_batch_in}
use clift.Staging.Batch.Below.{plan_batch-Planned, Planned-IsBelow}
use clift.Staging.Clean.{within}
use clift.Staging.Inbox.{InboxLocation, inbox_mode, staging_error}
use clift.Staging.Locate.{locate_inbox_from}

-- An invariant of the host that is kept by any request for the creation, with the inbox's mode, of the inbox and a directory
-- strictly inside it, and by uploads and removals strictly inside it.
pub record Confined (remote : Transport) (root : Str) (P : remote.State → Type 0) : Type 0 where
  pub guarded : Guarded remote root P
  pub makes :
      (directory : Str)
      → within directory root ≡ true
      → Keeps P (remote.ensure_dirs (root ∷ directory ∷ []) inbox_mode)

module _ (remote : Transport) (to_lowercase : Str → Str) (attachments : List LocalAttachment)
    (now : SystemTime) (drawn : Result Str CliftError) where
  open remote use {State}

  run_map_err-Keeps :
      {A E F : Type 0} (P : State → Type 0) (f : E → F) (run : Runs State A E)
      → Keeps P run
      → Keeps P (run_map_err f run)
  run_map_err-Keeps P f run h s p = h s p

  deliver-Keeps :
      (inbox : InboxLocation) (P : State → Type 0)
      → IsRemotePath inbox.root
      → Confined remote inbox.root P
      → Keeps P (deliver remote to_lowercase attachments now drawn inbox)
  unfolding deliver
  deliver-Keeps inbox P valid confined =
      >>=-Keeps P (run_map_err failed (lift (plan_batch inbox now drawn)))
        (λ plan.
          run_map_err failed (create_batch_in remote inbox plan)
          >> stage_batch remote plan to_lowercase attachments
          >>= λ batch. pure (outcome_of inbox plan batch))
        (λ s p. p)
        (λ s plan made.
          let (planned, _) =
            plan_batch-Planned inbox now drawn plan (map_err-eq-ok failed _ made) in
          let below = Planned-IsBelow inbox now plan valid planned in
          >>=-Keeps P
            (run_map_err failed (create_batch_in remote inbox plan)
              >> stage_batch remote plan to_lowercase attachments)
            (λ batch. pure (outcome_of inbox plan batch))
            (>>-Keeps P (run_map_err failed (create_batch_in remote inbox plan))
              (stage_batch remote plan to_lowercase attachments)
              (run_map_err-Keeps P failed (create_batch_in remote inbox plan)
                (confined.makes plan.directory below.inside))
              (stage_batch-Guarded remote inbox.root P confined.guarded plan valid below
                to_lowercase attachments))
            (λ s batch e t p. p))

  located-Keeps :
      {A : Type 0} (P : State → Type 0) (locate : Acts State InboxLocation)
      (next : InboxLocation → Runs State A Failure) (s : State)
      → P (locate s).0
      → ((inbox : InboxLocation) → (locate s).1 ≡ ok inbox → Keeps P (next inbox))
      → P ((run_map_err failed locate >>= next) s).0
  located-Keeps {A} P locate next s p h = go (locate s).1 refl
    where
      go :
          (r : Result InboxLocation CliftError)
          → (locate s).1 ≡ r
          → P
              (elim (map_err failed r) as (λ _. State × Result A Failure) [
                | ok inbox ↦ next inbox (locate s).0
                | err e ↦ ((locate s).0, err e)
              ]).0
      go (ok inbox) e = h inbox e (locate s).0 p
      go (err q) e = p

-- For a batch within the limits and a valid inbox: an invariant of the host that holds once the inbox is located, and that is
-- kept by any request to create the inbox and a directory strictly inside it (with the parents that such a request creates)
-- and by any upload to and removal of a path strictly inside it, holds after the send, whether it succeeds or fails.
pub perform-Confined :
    (remote : Transport) (to_lowercase : Str → Str) (attachments : List LocalAttachment)
    (policy : SendPolicy) (now : SystemTime) (drawn : Result Str CliftError) (s : remote.State)
    (P : remote.State → Type 0)
    → check policy.limits attachments ≡ ok tt
    → P (locate_inbox_from remote policy.remote_home policy.remote_cache_home policy.remote_dir s).0
    → ((inbox : InboxLocation)
        → (locate_inbox_from remote policy.remote_home policy.remote_cache_home policy.remote_dir
            s).1
          ≡ ok inbox
        → IsRemotePath inbox.root × Confined remote inbox.root P)
    → P (perform remote to_lowercase attachments policy now drawn s).0
unfolding perform check_limits
perform-Confined remote to_lowercase attachments policy now drawn s P fits p h = rw fits (
    located-Keeps remote to_lowercase attachments now drawn P
      (locate_inbox_from remote policy.remote_home policy.remote_cache_home policy.remote_dir)
      (deliver remote to_lowercase attachments now drawn) s p
      (λ inbox e.
        let (valid, confined) = h inbox e in
        deliver-Keeps remote to_lowercase attachments now drawn inbox P valid confined))

refused-error :
    (limits : Limits) (attachments : List LocalAttachment) (r : Result (Unit {0}) BatchError)
    → check limits attachments ≡ r
    → check limits attachments ≢ ok tt
    → map_err (λ e. staging_error ErrorKind.limit_exceeded) r
      ≡ err (staging_error ErrorKind.limit_exceeded)
refused-error limits attachments (ok u) e other = absurd (other e)
refused-error limits attachments (err b) e other = refl

-- With a ceiling of the batch below 2 ^ 64 - 1, a batch that is above a limit is refused before anything is asked of the host, which stays as it is.
pub perform-not_Within :
    (remote : Transport) (to_lowercase : Str → Str) (attachments : List LocalAttachment)
    (policy : SendPolicy) (now : SystemTime) (drawn : Result Str CliftError) (s : remote.State)
    → policy.limits.max_batch_size < 2 ^ 64 - 1
    → ¬ Within policy.limits attachments
    → perform remote to_lowercase attachments policy now drawn s
      ≡ (s, err (failed (staging_error ErrorKind.limit_exceeded)))
unfolding perform check_limits
perform-not_Within remote to_lowercase attachments policy now drawn s small other =
    rw
      (refused-error policy.limits attachments (check policy.limits attachments) refl
        (λ e. other ((check-Within policy.limits attachments small).0 e)))
      refl
