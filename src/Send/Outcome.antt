-- ===== src/Send/Outcome.antt =====
-- What a send that succeeds has done, and what its text says.
use clift.Base.{◌≡◌, ◌∙◌, ap, refl, subst, some, List, Str, Result, ok}
use clift.Base.Fallible.{ok-injective, map_err-eq-ok}
use clift.Domain.Limits.{LocalAttachment, check}
use clift.Error.{CliftError, ErrorKind}
use clift.Format.Instruction.Reader.{read_paths, read_paths-render}
use clift.Calendar.{SystemTime}
use clift.Remote.{Transport, ◌>>=◌, ◌>>◌, pure, lift, run_map_err}
use clift.Remote.Keeps.{>>=-eq-pair, run_map_err-eq-ok}
use clift.Send.{SendOutcome, SendPolicy, paths_of, outcome_of, check_limits, deliver, perform}
use clift.Staging.Atomic.{failed, stage_batch}
use clift.Staging.Atomic.Arrived.{AllArrived, stage_batch-AllArrived}
use clift.Staging.Batch.{BatchPlan, plan_batch, create_batch_in}
use clift.Staging.Batch.Below.{Planned, plan_batch-Planned}
use clift.Staging.Inbox.{InboxLocation, staging_error}
use clift.Staging.Locate.{locate_inbox_from}

module _ (remote : Transport) (to_lowercase : Str → Str) (attachments : List LocalAttachment) where
  open remote use {State}

  -- What was delivered to an inbox between two states of the host.
  pub record Delivered (now : SystemTime) (drawn : Result Str CliftError) (inbox : InboxLocation)
      (s s' : State) (outcome : SendOutcome) : Type 0 where
    pub plan : BatchPlan
    pub planned : Planned inbox now plan
    pub drew : drawn ≡ ok plan.id
    pub directory : outcome.batch.directory ≡ plan.directory
    pub id : outcome.batch_id ≡ plan.id
    pub root : outcome.inbox_root ≡ inbox.root
    pub created : State
    pub creation : create_batch_in remote inbox plan s ≡ (created, ok tt)
    pub arrived : AllArrived remote plan created s' attachments outcome.batch.files
    pub text : read_paths outcome.insertion_text ≡ some (paths_of outcome.batch.files)

  deliver-Delivered :
      (now : SystemTime) (drawn : Result Str CliftError) (inbox : InboxLocation) (s s' : State)
      (outcome : SendOutcome)
      → deliver remote to_lowercase attachments now drawn inbox s ≡ (s', ok outcome)
      → Delivered now drawn inbox s s' outcome
  unfolding deliver outcome_of
  deliver-Delivered now drawn inbox s s' outcome h =
      let (plan, s1, made, h) =
        >>=-eq-pair (run_map_err failed (lift (plan_batch inbox now drawn)))
          (λ plan.
            run_map_err failed (create_batch_in remote inbox plan)
            >> stage_batch remote plan to_lowercase attachments
            >>= λ batch. pure (outcome_of inbox plan batch))
          s s' h in
      let (batch, s3, h, k) =
        >>=-eq-pair
          (run_map_err failed (create_batch_in remote inbox plan)
            >> stage_batch remote plan to_lowercase attachments)
          (λ batch. pure (outcome_of inbox plan batch)) s1 s' h in
      let (_, s2, created, staged) =
        >>=-eq-pair (run_map_err failed (create_batch_in remote inbox plan))
          (λ _. stage_batch remote plan to_lowercase attachments) s1 s3 h in
      let planning = run_map_err-eq-ok failed (lift (plan_batch inbox now drawn)) s s1 made in
      let (planned, drew) = plan_batch-Planned inbox now drawn plan (ap (λ r. r.1) planning) in
      let creation = run_map_err-eq-ok failed (create_batch_in remote inbox plan) s1 s2 created in
      let (directory, arrived) =
        stage_batch-AllArrived remote plan to_lowercase attachments s2 s3 batch staged in
      let first : s ≡ s1 = ap (λ r. r.0) planning in
      let last : s3 ≡ s' = ap (λ r. r.0) k in
      subst (Delivered now drawn inbox s s') (ok-injective (ap (λ r. r.1) k)) (record {
        plan = plan;
        planned = planned;
        drew = drew;
        directory = directory;
        id = refl;
        root = refl;
        created = s2;
        creation = ap (create_batch_in remote inbox plan) first ∙ creation;
        arrived = subst (λ s'. AllArrived remote plan s2 s' attachments batch.files) last arrived;
        text = read_paths-render (paths_of batch.files);
      })

  pub record Sent (policy : SendPolicy) (now : SystemTime) (drawn : Result Str CliftError)
      (s s' : State) (outcome : SendOutcome) : Type 0 where
    pub fits : check policy.limits attachments ≡ ok tt
    pub inbox : InboxLocation
    pub between : State
    pub located :
        locate_inbox_from remote policy.remote_home policy.remote_cache_home policy.remote_dir s
        ≡ (between, ok inbox)
    pub delivered : Delivered now drawn inbox between s' outcome

-- A send that succeeds was within the limits, and what it did to the host is the location of the inbox, the creation of the
-- batch's directory, and one upload for each attachment, in order, each answered with the size of its file, with nothing
-- before, between or after them; each went to a safe name in the batch's directory, which is the drawn identifier below the day's
-- directory below the inbox (two of them may share a name); and the text, read the way a shell reads words,
-- names the paths of these files and nothing else.
pub perform-Sent :
    (remote : Transport) (to_lowercase : Str → Str) (attachments : List LocalAttachment)
    (policy : SendPolicy) (now : SystemTime) (drawn : Result Str CliftError) (s s' : remote.State)
    (outcome : SendOutcome)
    → perform remote to_lowercase attachments policy now drawn s ≡ (s', ok outcome)
    → Sent remote to_lowercase attachments policy now drawn s s' outcome
unfolding perform check_limits
perform-Sent remote to_lowercase attachments policy now drawn s s' outcome h =
    let locate =
      locate_inbox_from remote policy.remote_home policy.remote_cache_home policy.remote_dir in
    let (inbox, t, h, k) =
      >>=-eq-pair (run_map_err failed (lift (check_limits policy.limits attachments) >> locate))
        (deliver remote to_lowercase attachments now drawn) s s' h in
    let (_, s1, checked, located) =
      >>=-eq-pair (lift (check_limits policy.limits attachments)) (λ _. locate) s t
        (run_map_err-eq-ok failed (lift (check_limits policy.limits attachments) >> locate) s t
          h) in
    let same : s ≡ s1 = ap (λ r. r.0) checked in
    record {
      fits = map_err-eq-ok (λ e. staging_error ErrorKind.limit_exceeded) _ (ap (λ r. r.1) checked);
      inbox = inbox;
      between = t;
      located = ap locate same ∙ located;
      delivered = deliver-Delivered remote to_lowercase attachments now drawn inbox t s' outcome k;
    }
