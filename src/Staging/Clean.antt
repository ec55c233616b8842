-- ===== src/Staging/Clean.antt =====
-- crates/clift-core/src/staging/clean.rs: removing old batches, and nothing else. A reason to skip is a value, without
-- its text.
pub mod Inside
mod Tests
use clift.Base.{
  ℕ, ◌+◌, ◌-◌, ◌%◌, ◌^◌, Bool, true, false, not, ◌&&◌, Option, none, some, List, [], ◌∷◌, ◌++◌,
}
use clift.Base.{leb, eqb, ◌==◌, if◌then◌else◌, length, Str, str_eq, Result, ok, err}
use clift.Domain.RemotePath.{join, is_within}
use clift.Error.{CliftError}
use clift.Calendar.{SystemTime, duration_since}
use clift.Relayd.Address.{Duration}
use clift.Remote.{Transport, RemoteEntry, RemoteEntryKind, Acts}

pub data Retention : Type 0 where
  older_than : Duration → Retention
  everything : Retention

pub data Action : Type 0 where
  remove report : Action

pub data SkipReason : Type 0 where
  outside_inbox not_date_directory symbolic_link not_batch_directory no_modification_time :
      SkipReason
  contains_directory directory_not_removed : SkipReason
  not_listed : CliftError → SkipReason
  file_outside file_not_removed : Str → SkipReason

pub record CleanReport : Type 0 where
  pub batches : ℕ
  pub files : ℕ
  pub bytes : ℕ
  pub skipped : List (Str × SkipReason)

abbrev pub empty_report : CleanReport
empty_report = record { batches = 0; files = 0; bytes = 0; skipped = [] }

abbrev pub skip : CleanReport → Str → SkipReason → CleanReport
skip r path reason = record r { skipped = r.skipped ++ (path, reason) ∷ [] }

pub data Removal : Type 0 where
  removed : ℕ → ℕ → Removal
  kept : Removal
  skipped : SkipReason → Removal

-- The addition of bytes, which wraps.
abbrev pub add_bytes : ℕ → ℕ → ℕ
add_bytes a b = (a + b) % 2 ^ 64

unfoldable pub within : Str → Str → Bool
within path root = not (path == root) && is_within path root

abbrev pub is_directory : RemoteEntryKind → Bool
is_directory RemoteEntryKind.directory = true
is_directory _ = false

abbrev pub is_symlink : RemoteEntryKind → Bool
is_symlink RemoteEntryKind.symlink = true
is_symlink _ = false

-- What the retention says of a modification time; one in the future has no age.
pub data Age : Type 0 where
  old young unknown : Age

abbrev aged : Duration → Option Duration → Age
aged age none = young
aged age (some elapsed) = if leb age elapsed then old else young

unfoldable pub age_of : Retention → Option SystemTime → SystemTime → Age
age_of everything modified now = old
age_of (older_than age) none now = unknown
age_of (older_than age) (some modified) now = aged age (duration_since now modified)

module _ (remote : Transport) (root : Str) (action : Action) where
  open remote use {State, list_dir}

  -- A removal that a report leaves out.
  unfoldable pub delete : Str → Acts State (Unit {0})
  delete path s = elim action [ Action.remove ↦ remote.remove path s | report ↦ (s, ok tt) ]

  -- The loop over the files of a batch.
  unfoldable pub remove_files :
      Str → List RemoteEntry → ℕ → ℕ → State → State × Result (ℕ × ℕ) SkipReason
  unfolding delete within
  remove_files path [] count bytes s = (s, ok (count, bytes))
  remove_files path (file ∷ files) count bytes s =
      let file_path = join path file.name in
      let (s', answer) = delete file_path s in
      let deleted : State × Result (ℕ × ℕ) SkipReason = elim answer [
        | ok done ↦ remove_files path files (count + 1) (add_bytes bytes file.size) s'
        | err e ↦ (s', err (file_not_removed file_path))
      ] in
      if not (within file_path root)
      then (s, err (file_outside file_path))
      else if is_directory file.kind
      then (s, err contains_directory)
      else deleted

  -- The removal of the directory, after its files.
  abbrev pub close_batch : Str → State × Result (ℕ × ℕ) SkipReason → State × Removal
  close_batch path (s, err reason) = (s, skipped reason)
  close_batch path (s, ok (count, bytes)) =
      let (s', answer) = delete path s in
      elim answer [
        | ok done ↦ (s', removed count bytes)
        | err e ↦ (s', skipped directory_not_removed)
      ]

  abbrev pub empty_batch : Str → State × Result (List RemoteEntry) CliftError → State × Removal
  empty_batch path (s, err e) = (s, skipped (not_listed e))
  empty_batch path (s, ok files) = close_batch path (remove_files path files 0 0 s)

  abbrev pub remove_aged : Age → Str → State → State × Removal
  remove_aged unknown path s = (s, skipped no_modification_time)
  remove_aged young path s = (s, kept)
  remove_aged old path s = empty_batch path (list_dir path s)

  unfoldable pub remove_batch : Str → RemoteEntry → Retention → SystemTime → State → State × Removal
  unfolding remove_files age_of delete within
  remove_batch path entry retention now s =
      if not (within path root)
      then (s, skipped outside_inbox)
      else if is_symlink entry.kind
      then (s, skipped symbolic_link)
      else if not (is_directory entry.kind)
      then (s, skipped not_batch_directory)
      else remove_aged (age_of retention entry.modified now) path s

  abbrev pub count_removal : CleanReport → ℕ → Str → Removal → CleanReport × ℕ
  count_removal r emptied path (removed files bytes) = (
    record r { batches = r.batches + 1; files = r.files + files; bytes = add_bytes r.bytes bytes },
    emptied + 1,
  )
  count_removal r emptied path kept = (r, emptied)
  count_removal r emptied path (skipped reason) = (skip r path reason, emptied)

  -- The loop over the batches of a date.
  unfoldable pub clean_batches :
      Str
      → List RemoteEntry
      → Retention
      → SystemTime
      → CleanReport
      → ℕ
      → State
      → State × CleanReport × ℕ
  unfolding remove_batch
  clean_batches path [] retention now r emptied s = (s, r, emptied)
  clean_batches path (batch ∷ batches) retention now r emptied s =
      let batch_path = join path batch.name in
      let (s', removal) = remove_batch batch_path batch retention now s in
      let (r', emptied') = count_removal r emptied batch_path removal in
      clean_batches path batches retention now r' emptied' s'

  abbrev pub is_empty_list : List RemoteEntry → Bool
  is_empty_list [] = true
  is_empty_list (e ∷ entries) = false

  -- A date directory goes once everything in it has gone; a failure to remove it is ignored.
  abbrev pub close_date : Str → List RemoteEntry → State × CleanReport × ℕ → State × CleanReport
  close_date path batches (s, r, emptied) =
      if eqb emptied (length batches) && not (is_empty_list batches) && within path root
      then ((delete path s).0, r)
      else (s, r)

  abbrev pub clean_listed :
      Str
      → Retention
      → SystemTime
      → CleanReport
      → State × Result (List RemoteEntry) CliftError
      → State × CleanReport
  clean_listed path retention now r (s, err e) = (s, skip r path (not_listed e))
  clean_listed path retention now r (s, ok batches) =
      close_date path batches (clean_batches path batches retention now r 0 s)

  unfoldable pub clean_date :
      RemoteEntry → Retention → SystemTime → CleanReport → State → State × CleanReport
  unfolding clean_batches delete within
  clean_date date retention now r s =
      let path = join root date.name in
      if not (within path root)
      then (s, skip r path outside_inbox)
      else if not (is_directory date.kind)
      then (s, skip r path not_date_directory)
      else clean_listed path retention now r (list_dir path s)

  unfoldable pub clean_dates :
      List RemoteEntry → Retention → SystemTime → CleanReport → State → State × CleanReport
  unfolding clean_date
  clean_dates [] retention now r s = (s, r)
  clean_dates (date ∷ dates) retention now r s =
      let (s', r') = clean_date date retention now r s in clean_dates dates retention now r' s'

  abbrev pub clean_root :
      Retention
      → SystemTime
      → State × Result (List RemoteEntry) CliftError
      → State × Result CleanReport CliftError
  clean_root retention now (s, err e) = (s, err e)
  clean_root retention now (s, ok dates) =
      let (s', r) = clean_dates dates retention now empty_report s in (s', ok r)

  unfoldable pub clean : Retention → SystemTime → Acts State CleanReport
  unfolding clean_dates
  clean retention now s = clean_root retention now (list_dir root s)
