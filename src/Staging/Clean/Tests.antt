-- ===== src/Staging/Clean/Tests.antt =====
-- Runs of the model of the cleaning at a concrete host, and its theorem applied to one.
use clift.Base.{◌≡◌, ◌≢◌, refl, true, [], ◌∷◌, codes, Str, ok}
use clift.Domain.RemotePath.{join, is_within}
use clift.Base.Int.{pos}
use clift.Relayd.Address.{from_secs}
use clift.Remote.Samples.{host, inbox_root, keepsake, Stays, removal-Stays}
use clift.Staging.Clean.{
  Action, everything, older_than, CleanReport, not_date_directory, within, clean,
}
use clift.Staging.Clean.Inside.{Kept, clean-Kept}

abbrev shot : Str
shot = codes "/home/dev/.cache/clift/inbox/2026-08-30/ab/shot.png"

abbrev cleaned : CleanReport
cleaned = record {
  batches = 1;
  files = 1;
  bytes = 7;
  skipped = (codes "/home/dev/.cache/clift/inbox/notes", not_date_directory) ∷ [];
}

-- The file of the batch goes, and the one outside the inbox stays.
batch_cleaned :
    clean host inbox_root Action.remove everything (pos (from_secs 2000)) (shot ∷ keepsake ∷ [])
    ≡ (keepsake ∷ [], ok cleaned)
unfolding clean join is_within
batch_cleaned = refl

-- A report counts the same and removes nothing.
batch_reported :
    clean host inbox_root Action.report everything (pos (from_secs 2000)) (shot ∷ keepsake ∷ [])
    ≡ (shot ∷ keepsake ∷ [], ok cleaned)
unfolding clean join is_within
batch_reported = refl

-- A batch of exactly the age goes.
aged_cleaned :
    clean host inbox_root Action.remove
      (older_than (from_secs 1000))
      (pos (from_secs 2000))
      (shot ∷ [])
    ≡ ([], ok cleaned)
unfolding clean join is_within
aged_cleaned = refl

within-ne-keepsake : (path : Str) → within path inbox_root ≡ true → path ≢ keepsake
unfolding within is_within
within-ne-keepsake path h e = cc (rw e at h)

host-Kept : Kept host inbox_root Action.remove Stays
host-Kept = record {
  lists = λ path s h p. p;
  removes = λ path s e h p. removal-Stays path s (within-ne-keepsake path h) p;
}

clean-Kept_example :
    Stays
      (clean host inbox_root Action.remove everything
        (pos (from_secs 2000))
        (shot ∷ keepsake ∷ [])).0
clean-Kept_example =
    clean-Kept host inbox_root Action.remove Stays host-Kept everything (pos (from_secs 2000))
      (shot ∷ keepsake ∷ []) refl
