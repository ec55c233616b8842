-- ===== src/Remote.antt =====
-- `RemoteFs` and `RemoteUpload` of crates/clift-core/src/ports.rs: what the use cases do to a remote host. The host is a
-- state that each call may change; the target of a call is part of it.
-- The probe of setup is left out. `ensure_dir` and `ensure_dirs` also create the parents that are missing: what they do is part
-- of the state that they return.
pub mod Keeps
pub mod Samples
use clift.Base.{ℕ, Option, List, Str, Result, ok, err}
use clift.Base.Fallible.{map_err}
use clift.Error.{CliftError}
use clift.Calendar.{SystemTime}

pub data RemoteEntryKind : Type 0 where
  file directory symlink other : RemoteEntryKind

pub record RemoteEntry : Type 0 where
  pub name : Str
  pub kind : RemoteEntryKind
  pub size : ℕ
  pub mode : Option ℕ
  pub modified : Option SystemTime

-- A call: the state of the host before it, the state after it, and the answer.
abbrev pub Runs : Type 0 → Type 0 → Type 0 → Type 0
Runs S A E = S → S × Result A E

abbrev pub Acts : Type 0 → Type 0 → Type 0
Acts S A = Runs S A CliftError

module _ {S A E : Type 0} where
  abbrev pub pure : A → Runs S A E
  pure a s = (s, ok a)

  -- A result found without asking the host.
  abbrev pub lift : Result A E → Runs S A E
  lift r s = (s, r)

  abbrev pub run_map_err : {F : Type 0} → (E → F) → Runs S A E → Runs S A F
  run_map_err f run s = let (s', r) = run s in (s', map_err f r)

infixl 5 ◌>>=◌ ◌>>◌
abbrev pub ◌>>=◌ : {S A B E : Type 0} → Runs S A E → (A → Runs S B E) → Runs S B E
◌>>=◌ run next s = let (s', r) = run s in elim r [ ok a ↦ next a s' | err e ↦ (s', err e) ]

abbrev pub ◌>>◌ : {S B E : Type 0} → Runs S (Unit {0}) E → Runs S B E → Runs S B E
◌>>◌ first next = first >>= λ _. next

pub record Transport : Type 1 where
  pub State : Type 0
  pub resolve_home : Acts State Str
  pub resolve_cache_home : Acts State (Option Str)
  pub ensure_dir : Str → ℕ → Acts State (Unit {0})
  pub ensure_dirs : List Str → ℕ → Acts State (Unit {0})
  pub stat : Str → Acts State (Option RemoteEntry)
  pub list_dir : Str → Acts State (List RemoteEntry)
  pub remove : Str → Acts State (Unit {0})
  pub upload_atomic : Str → Str → Acts State ℕ
