-- ===== src/Staging/Batch.antt =====
-- crates/clift-core/src/staging/batch.rs: the directory of one batch. The time and the identifier that is drawn are
-- arguments.
pub mod Below
use clift.Base.{ℕ, List, [], ◌∷◌, Str, Result, ok}
use clift.Base.Fallible.{◌>>=◌}
use clift.Calendar.{SystemTime, format_date}
use clift.Domain.RemotePath.{join}
use clift.Error.{CliftError}
use clift.Remote.{Transport, Acts}
use clift.Staging.Inbox.{InboxLocation, component, inbox_mode}

pub record BatchPlan : Type 0 where
  pub date : Str
  pub id : Str
  pub directory : Str

-- `BatchPlan::file`
abbrev pub file : BatchPlan → Str → Str
file plan name = join plan.directory name

unfoldable pub plan_batch :
    InboxLocation → SystemTime → Result Str CliftError → Result BatchPlan CliftError
unfolding format_date component join
plan_batch inbox now drawn = drawn >>= λ id. component (format_date now) >>= λ date_component.
    component id >>= λ id_component. ok (record {
      date = format_date now;
      id = id;
      directory = join (join inbox.root date_component) id_component;
    })

module _ (remote : Transport) where
  abbrev pub create_batch : BatchPlan → Acts remote.State (Unit {0})
  create_batch plan = remote.ensure_dir plan.directory inbox_mode

  abbrev pub create_batch_in : InboxLocation → BatchPlan → Acts remote.State (Unit {0})
  create_batch_in inbox plan = remote.ensure_dirs (inbox.root ∷ plan.directory ∷ []) inbox_mode
