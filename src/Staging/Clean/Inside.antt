-- ===== src/Staging/Clean/Inside.antt =====
-- What a run of `clean` may do to the host.
use clift.Base.{ℕ, ◌≡◌, ◌⊎◌, refl, sym, Bool, true, false, not, List, [], ◌∷◌, inl, inr}
use clift.Base.{Str, str_eq, Result, ok, err, if_lem, ◌+◌}
use clift.Base.Fallible.{result_lem}
use clift.Domain.RemotePath.{join}
use clift.Error.{CliftError}
use clift.Calendar.{SystemTime}
use clift.Remote.{Transport, RemoteEntry}
use clift.Staging.Clean.{
  Retention, Action, remove, report, SkipReason, file_not_removed, Removal, removed, skipped,
  directory_not_removed, CleanReport, Age, old, young, unknown, add_bytes, within, is_directory,
  is_symlink, delete, remove_files, close_batch, empty_batch, remove_aged, age_of, remove_batch,
  clean_batches, close_date, clean_listed, clean_date, clean_dates, clean_root, clean, empty_report,
}

-- An invariant of the host that listings inside the inbox keep, and removals strictly inside it where
-- there are any.
pub record Kept (remote : Transport) (root : Str) (action : Action) (P : remote.State → Type 0)
    : Type 0 where
  pub lists :
      (path : Str) (s : remote.State)
      → (path ≡ root) ⊎ (within path root ≡ true)
      → P s
      → P (remote.list_dir path s).0
  pub removes :
      (path : Str) (s : remote.State)
      → action ≡ remove
      → within path root ≡ true
      → P s
      → P (remote.remove path s).0

not-false : {b : Bool} → not b ≡ false → b ≡ true
not-false {b = true} h = refl
not-false {b = false} h = sym h

module _ (remote : Transport) (root : Str) (action : Action) (P : remote.State → Type 0)
    (kept : Kept remote root action P) where
  open remote use {State, list_dir}

  delete-Kept :
      (path : Str) (s : State)
      → within path root ≡ true
      → P s
      → P (delete remote root action path s).0
  unfolding delete
  delete-Kept path s h p = go action refl
    where
      go : (a : Action) → action ≡ a → P (delete remote root a path s).0
      go remove e = kept.removes path s e h p
      go report e = p

  remove_files-Kept :
      (path : Str) (files : List RemoteEntry) (count bytes : ℕ) (s : State)
      → P s
      → P (remove_files remote root action path files count bytes s).0
  unfolding remove_files
  remove_files-Kept path [] count bytes s p = p
  remove_files-Kept path (file ∷ files) count bytes s p =
      let file_path = join path file.name in
      let step = delete remote root action file_path s in
      if_lem (λ (r : State × Result (ℕ × ℕ) SkipReason). P r.0) (not (within file_path root)) _ _
        (λ _. p)
        (λ inside.
          if_lem (λ (r : State × Result (ℕ × ℕ) SkipReason). P r.0) (is_directory file.kind) _ _
            (λ _. p)
            (λ _.
              let q = delete-Kept file_path s (not-false inside) p in
              result_lem (λ (r : State × Result (ℕ × ℕ) SkipReason). P r.0) step.1
                (λ done.
                  remove_files remote root action path files (count + 1) (add_bytes bytes file.size)
                    step.0)
                (λ e. (step.0, err (file_not_removed file_path)))
                (λ done.
                  remove_files-Kept path files (count + 1) (add_bytes bytes file.size) step.0 q)
                (λ e. q)))

  close_batch-Kept :
      (path : Str) (r : State × Result (ℕ × ℕ) SkipReason)
      → within path root ≡ true
      → P r.0
      → P (close_batch remote root action path r).0
  close_batch-Kept path (s, err reason) h p = p
  close_batch-Kept path (s, ok (count, bytes)) h p =
      let step = delete remote root action path s in
      let q = delete-Kept path s h p in
      result_lem (λ (r : State × Removal). P r.0) step.1 (λ done. (step.0, removed count bytes))
        (λ e. (step.0, skipped directory_not_removed)) (λ done. q) (λ e. q)

  empty_batch-Kept :
      (path : Str) (r : State × Result (List RemoteEntry) CliftError)
      → within path root ≡ true
      → P r.0
      → P (empty_batch remote root action path r).0
  empty_batch-Kept path (s, err e) h p = p
  empty_batch-Kept path (s, ok files) h p =
      close_batch-Kept path (remove_files remote root action path files 0 0 s) h
        (remove_files-Kept path files 0 0 s p)

  remove_aged-Kept :
      (age : Age) (path : Str) (s : State)
      → within path root ≡ true
      → P s
      → P (remove_aged remote root action age path s).0
  remove_aged-Kept unknown path s h p = p
  remove_aged-Kept young path s h p = p
  remove_aged-Kept old path s h p =
      empty_batch-Kept path (list_dir path s) h (kept.lists path s (inr h) p)

  remove_batch-Kept :
      (path : Str) (entry : RemoteEntry) (retention : Retention) (now : SystemTime) (s : State)
      → P s
      → P (remove_batch remote root action path entry retention now s).0
  unfolding remove_batch
  remove_batch-Kept path entry retention now s p =
      if_lem (λ (r : State × Removal). P r.0) (not (within path root)) _ _ (λ _. p)
        (λ inside.
          if_lem (λ (r : State × Removal). P r.0) (is_symlink entry.kind) _ _ (λ _. p)
            (λ _.
              if_lem (λ (r : State × Removal). P r.0) (not (is_directory entry.kind)) _ _ (λ _. p)
                (λ _.
                  remove_aged-Kept (age_of retention entry.modified now) path s (not-false inside)
                    p)))

  clean_batches-Kept :
      (path : Str) (batches : List RemoteEntry) (retention : Retention) (now : SystemTime)
      (r : CleanReport) (emptied : ℕ) (s : State)
      → P s
      → P (clean_batches remote root action path batches retention now r emptied s).0
  unfolding clean_batches
  clean_batches-Kept path [] retention now r emptied s p = p
  clean_batches-Kept path (batch ∷ batches) retention now r emptied s p =
      clean_batches-Kept path batches retention now _ _ _
        (remove_batch-Kept (join path batch.name) batch retention now s p)

  close_date-Kept :
      (path : Str) (batches : List RemoteEntry) (r : State × CleanReport × ℕ)
      → within path root ≡ true
      → P r.0
      → P (close_date remote root action path batches r).0
  close_date-Kept path batches (s, r, emptied) h p =
      if_lem (λ (r : State × CleanReport). P r.0) _ _ _ (λ _. delete-Kept path s h p) (λ _. p)

  clean_listed-Kept :
      (path : Str) (retention : Retention) (now : SystemTime) (r : CleanReport)
      (answer : State × Result (List RemoteEntry) CliftError)
      → within path root ≡ true
      → P answer.0
      → P (clean_listed remote root action path retention now r answer).0
  clean_listed-Kept path retention now r (s, err e) h p = p
  clean_listed-Kept path retention now r (s, ok batches) h p =
      close_date-Kept path batches
        (clean_batches remote root action path batches retention now r 0 s) h
        (clean_batches-Kept path batches retention now r 0 s p)

  clean_date-Kept :
      (date : RemoteEntry) (retention : Retention) (now : SystemTime) (r : CleanReport) (s : State)
      → P s
      → P (clean_date remote root action date retention now r s).0
  unfolding clean_date
  clean_date-Kept date retention now r s p =
      let path = join root date.name in
      if_lem (λ (r : State × CleanReport). P r.0) (not (within path root)) _ _ (λ _. p)
        (λ inside.
          if_lem (λ (r : State × CleanReport). P r.0) (not (is_directory date.kind)) _ _ (λ _. p)
            (λ _.
              clean_listed-Kept path retention now r (list_dir path s) (not-false inside)
                (kept.lists path s (inr (not-false inside)) p)))

  clean_dates-Kept :
      (dates : List RemoteEntry) (retention : Retention) (now : SystemTime) (r : CleanReport)
      (s : State)
      → P s
      → P (clean_dates remote root action dates retention now r s).0
  unfolding clean_dates
  clean_dates-Kept [] retention now r s p = p
  clean_dates-Kept (date ∷ dates) retention now r s p =
      clean_dates-Kept dates retention now _ _ (clean_date-Kept date retention now r s p)

  clean_root-Kept :
      (retention : Retention) (now : SystemTime)
      (answer : State × Result (List RemoteEntry) CliftError)
      → P answer.0
      → P (clean_root remote root action retention now answer).0
  clean_root-Kept retention now (s, err e) p = p
  clean_root-Kept retention now (s, ok dates) p =
      clean_dates-Kept dates retention now empty_report s p

-- A run of `clean` keeps every invariant of the host that is kept by a listing of the inbox, by a listing of a path
-- strictly inside it, and, if the action is a removal, by the removal of a path strictly inside it.
pub clean-Kept :
    (remote : Transport) (root : Str) (action : Action) (P : remote.State → Type 0)
    → Kept remote root action P
    → (retention : Retention) (now : SystemTime) (s : remote.State) → P s
    → P (clean remote root action retention now s).0
unfolding clean
clean-Kept remote root action P kept retention now s p =
    clean_root-Kept remote root action P kept retention now (remote.list_dir root s)
      (kept.lists root s (inl refl) p)
