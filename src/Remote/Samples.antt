-- ===== src/Remote/Samples.antt =====
-- A small host for the runs of the models: the paths of its files, of which every upload but one puts one more there.
use clift.Base.{ℕ, ◌≡◌, ◌≢◌, refl, true, false, none, some, List, [], ◌∷◌, inl, inr, Bool-cases}
use clift.Base.{◌==◌, if◌then◌else◌, Str, str_eq, str_beq_iff, codes, ok, err}
use clift.Domain.BatchNames.{contains}
use clift.Base.Int.{pos}
use clift.Error.{CliftError, Stage, ErrorKind}
use clift.Relayd.Address.{from_secs}
use clift.Remote.{Transport, RemoteEntry, RemoteEntryKind, Acts}

abbrev pub without : Str → List Str → List Str
without path [] = []
without path (p ∷ paths) = let rest = without path paths in if p == path then rest else p ∷ rest

contains-without :
    (kept path : Str) (paths : List Str)
    → path ≢ kept
    → contains paths kept ≡ true
    → contains (without path paths) kept ≡ true
contains-without kept path [] other h = h
contains-without kept path (p ∷ paths) other h = elim (Bool-cases (p == path)) [
  | inl e ↦
      let same = (str_beq_iff p path).0 e in
      let differs : (p == kept) ≡ false = elim (Bool-cases (p == kept)) [
        | inl k ↦ absurd (other (cc (same, (str_beq_iff p kept).0 k)))
        | inr k ↦ k
      ] in
      rw e (contains-without kept path paths other (rw differs at h))
  | inr e ↦ rw e (elim (Bool-cases (p == kept)) [
    | inl k ↦ rw k refl
    | inr k ↦ rw k (contains-without kept path paths other (rw k at h))
  ])
]

abbrev listed : Str → RemoteEntryKind → RemoteEntry
listed name kind = record {
  name = name;
  kind = kind;
  size = 7;
  mode = none;
  modified = some (pos (from_secs 1000));
}

abbrev pub inbox_root : Str
inbox_root = codes "/home/dev/.cache/clift/inbox"

-- One day with one batch of one file.
abbrev pub listing : Str → List RemoteEntry
listing path =
    if path == inbox_root
    then listed (codes "2026-08-30") RemoteEntryKind.directory
      ∷ listed (codes "notes") RemoteEntryKind.file
      ∷ []
    else if path == codes "/home/dev/.cache/clift/inbox/2026-08-30"
    then listed (codes "ab") RemoteEntryKind.directory ∷ []
    else listed (codes "shot.png") RemoteEntryKind.file ∷ []

abbrev transfer_failed : CliftError
transfer_failed = record { stage = Stage.transfer; kind = ErrorKind.transfer }

abbrev store : Str → Str → Acts (List Str) ℕ
store local dest s = if local == codes "/gone" then (s, err transfer_failed) else (dest ∷ s, ok 7)

abbrev pub host : Transport
host = record {
  State = List Str;
  resolve_home = λ s. (s, ok (codes "/home/dev"));
  resolve_cache_home = λ s. (s, ok none);
  ensure_dir = λ path mode s. (s, ok tt);
  ensure_dirs = λ paths mode s. (s, ok tt);
  stat = λ path s. (s, ok none);
  list_dir = λ path s. (s, ok (listing path));
  remove = λ path s. (without path s, ok tt);
  upload_atomic = store;
}

-- A file outside the inbox, which is there and stays there.
abbrev pub keepsake : Str
keepsake = codes "/home/dev/keepsake"

abbrev pub Stays : List Str → Type 0
Stays s = contains s keepsake ≡ true

pub removal-Stays : (path : Str) (s : List Str) → path ≢ keepsake → Stays s → Stays (without path s)
removal-Stays path s other h = contains-without keepsake path s other h

pub upload-Stays : (local dest : Str) (s : List Str) → Stays s → Stays (store local dest s).0
upload-Stays local dest s h = elim (Bool-cases (local == codes "/gone")) [
  | inl e ↦ rw e h
  | inr e ↦ rw e (elim (Bool-cases (dest == keepsake)) [ inl k ↦ rw k refl | inr k ↦ rw k h ])
]
