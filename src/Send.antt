-- ===== src/Send.antt =====
-- crates/clift-core/src/usecase/send.rs: one batch of attachments, from the limits to the text that the user pastes. The
-- reading of the clock and the identifier that is drawn are arguments; a note is a value, without its text.
pub mod Inside
pub mod Outcome
pub mod Sweep
mod Tests
use clift.Base.{ℕ, ◌+◌, ◌-◌, ◌*◌, ◌/◌, ◌&&◌, Bool, false, Option, none, some, List, [], ◌∷◌}
use clift.Base.{ltb, leb, eqb, if◌then◌else◌, Str, Result, ok, err}
use clift.Base.Fallible.{map_err}
use clift.Calendar.{SystemTime}
use clift.Domain.Limits.{Limits, LocalAttachment, check}
use clift.Error.{CliftError, ErrorKind}
use clift.Format.Instruction.{render}
use clift.Relayd.Address.{Duration}
use clift.Remote.{Transport, Acts, Runs, ◌>>=◌, ◌>>◌, pure, lift, run_map_err}
use clift.Staging.Atomic.{Failure, failed, StagedFile, StagedBatch, stage_batch}
use clift.Staging.Batch.{BatchPlan, plan_batch, create_batch, create_batch_in}
use clift.Staging.Clean.{CleanReport, older_than, Action, clean}
use clift.Staging.Inbox.{InboxLocation, staging_error, warning}
use clift.Staging.Locate.{locate_inbox_from}

-- `limits.check(attachments).map_err(..)`
unfoldable pub check_limits : Limits → List LocalAttachment → Result (Unit {0}) CliftError
unfolding check
check_limits limits attachments =
    map_err (λ e. staging_error ErrorKind.limit_exceeded) (check limits attachments)

pub record SendOutcome : Type 0 where
  pub batch : StagedBatch
  pub insertion_text : Str
  pub inbox_warning : Option Str
  pub batch_id : Str
  pub inbox_root : Str

pub record SendPolicy : Type 0 where
  pub limits : Limits
  pub remote_dir : Option Str
  pub remote_home : Option Str
  pub remote_cache_home : Option Str

abbrev pub paths_of : List StagedFile → List Str
paths_of [] = []
paths_of (f ∷ files) = f.path ∷ paths_of files

unfoldable pub outcome_of : InboxLocation → BatchPlan → StagedBatch → SendOutcome
unfolding render
outcome_of inbox plan batch = record {
  batch = batch;
  insertion_text = render (paths_of batch.files);
  inbox_warning = warning inbox;
  batch_id = plan.id;
  inbox_root = inbox.root;
}

module _ (remote : Transport) (to_lowercase : Str → Str) where
  open remote use {State}

  unfoldable pub stage_attachments :
      BatchPlan → Limits → List LocalAttachment → Runs State StagedBatch Failure
  unfolding check_limits stage_batch
  stage_attachments plan limits attachments =
      run_map_err failed (lift (check_limits limits attachments) >> create_batch remote plan)
      >> stage_batch remote plan to_lowercase attachments

  -- The part of `perform` that knows the inbox.
  unfoldable pub deliver :
      List LocalAttachment
      → SystemTime
      → Result Str CliftError
      → InboxLocation
      → Runs State SendOutcome Failure
  unfolding plan_batch stage_batch outcome_of
  deliver attachments now drawn inbox =
      run_map_err failed (lift (plan_batch inbox now drawn)) >>= λ plan.
      run_map_err failed (create_batch_in remote inbox plan)
      >> stage_batch remote plan to_lowercase attachments
      >>= λ batch. pure (outcome_of inbox plan batch)

  unfoldable pub perform :
      List LocalAttachment
      → SendPolicy
      → SystemTime
      → Result Str CliftError
      → Runs State SendOutcome Failure
  unfolding check_limits locate_inbox_from deliver
  perform attachments policy now drawn =
      run_map_err failed (
        lift (check_limits policy.limits attachments)
        >> locate_inbox_from remote policy.remote_home policy.remote_cache_home policy.remote_dir)
      >>= λ inbox. deliver attachments now drawn inbox

-- `SWEEP_ONE_IN`
abbrev pub sweep_one_in : ℕ
sweep_one_in = 8

-- A digit of `u8::from_str_radix(.., 16)`.
abbrev pub radix_digit : ℕ → Option ℕ
radix_digit c =
    if leb b'0' c && leb c b'9'
    then some (c - b'0')
    else if leb b'a' c && leb c b'f'
    then some (c - b'W')
    else if leb b'A' c && leb c b'F'
    then some (c - b'7')
    else none

abbrev pub pair_value : Option ℕ → Option ℕ → Option ℕ
pair_value (some h) (some l) = some (h * 16 + l)
pair_value (some h) none = none
pair_value none o = none

-- `u8::from_str_radix(pair, 16)`, for the first two bytes of a text; a sign `+` may stand in front of one digit.
abbrev pub first_pair : Str → Option ℕ
first_pair [] = none
first_pair (c ∷ []) = none
first_pair (c ∷ d ∷ s) =
    if eqb c b'+' then radix_digit d else pair_value (radix_digit c) (radix_digit d)

abbrev pub below_die : Option ℕ → Bool
below_die none = false
below_die (some first) = ltb first (255 / sweep_one_in)

unfoldable pub should_sweep : Str → Bool
should_sweep batch_id = below_die (first_pair batch_id)

pub data SweepNote : Type 0 where
  also_removed : ℕ → SweepNote
  could_not_tidy : CliftError → SweepNote

abbrev pub note_of : Result CleanReport CliftError → Option SweepNote
note_of (ok report) = if ltb 0 report.batches then some (also_removed report.batches) else none
note_of (err e) = some (could_not_tidy e)

module _ (remote : Transport) where
  open remote use {State}

  abbrev pub sweep_old : Str → Duration → SystemTime → State → State × Option SweepNote
  sweep_old inbox retention now s =
      let (s', answer) = clean remote inbox Action.remove (older_than retention) now s in
      (s', note_of answer)

  unfoldable pub sweep_after :
      Str → Option Duration → Str → SystemTime → State → State × Option SweepNote
  unfolding should_sweep clean
  sweep_after batch_id none inbox now s = (s, none)
  sweep_after batch_id (some retention) inbox now s =
      let swept = sweep_old inbox retention now s in
      if should_sweep batch_id then swept else (s, none)

  unfoldable pub tidy_after :
      SendOutcome → Option Duration → SystemTime → State → State × Option SweepNote
  unfolding sweep_after
  tidy_after outcome retention now = sweep_after outcome.batch_id retention outcome.inbox_root now
