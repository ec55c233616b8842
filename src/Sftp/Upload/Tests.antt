-- ===== src/Sftp/Upload/Tests.antt =====
-- Runs of the model of upload.rs at a concrete server, and its theorem applied to one.
use clift.Base.{
  ◌≡◌, ◌≢◌, ◌⊎◌, refl, true, none, some, List, [], ◌∷◌, codes, Str, ok, err, inl, inr, Bool-cases,
}
use clift.Base.{◌==◌, str_eq, str_beq_iff, if◌then◌else◌}
use clift.Domain.BatchNames.{contains}
use clift.Domain.RemotePath
use clift.Error.{ErrorKind}
use clift.Remote.{Runs}
use clift.Sftp.Errors.{remote_permission_denied, authentication_rejected, classify}
use clift.Sftp.Upload.{Failure, broken, Session, transfer_error, temporary_path, put_in_place}
use clift.Sftp.Upload.Atomic.{Serves, Outcome, put_in_place-Outcome}
use clift.Sftp.Wire.{Attrs}

write_refusal :
    classify (λ s. s) (codes "remote mkdir \"/root\": permission denied") ≡ remote_permission_denied
unfolding classify
write_refusal = refl

login_refusal :
    classify (λ s. s) (codes "dev@host: permission denied (publickey).") ≡ authentication_rejected
unfolding classify
login_refusal = refl

hidden_neighbour :
    temporary_path (10 ∷ 255 ∷ []) (codes "/in/ab/shot.png") ≡ ok (codes "/in/ab/.0aff.part")
unfolding temporary_path RemotePath.new
hidden_neighbour = refl

-- A server that reports one size for everything, and on which the connection breaks after a rename to "/lost".
abbrev reported : Attrs
reported = record { size = some 5; permissions = some 33152; mtime = none }

abbrev renames_to : Str → Runs (List Str) (Unit {0}) Failure
renames_to to s = (to ∷ s, if to == codes "/lost" then err broken else ok tt)

abbrev server : Session
server = record {
  State = List Str;
  upload = λ path mode s. (path ∷ s, ok reported);
  remove = λ path s. (s, ok tt);
  rename = λ from to s. renames_to to s;
}

short_refused :
    (put_in_place server 6 (codes "/in/.t.part") (codes "/in/a") []).1
    ≡ ok (err (transfer_error ErrorKind.transfer))
unfolding put_in_place
short_refused = refl

-- The connection broke, and the destination is there.
lost_answer :
    put_in_place server 5 (codes "/.t.part") (codes "/lost") []
    ≡ (codes "/lost" ∷ codes "/.t.part" ∷ [], err broken)
unfolding put_in_place
lost_answer = refl

abbrev Has : Str → List Str → Type 0
Has path s = contains s path ≡ true

added : (path made : Str) (s : List Str) → Has path (made ∷ s) → (path ≡ made) ⊎ Has path s
added path made s h = elim (Bool-cases (made == path)) [
  | inl e ↦ inl (cc ((str_beq_iff made path).0 e))
  | inr e ↦ inr (rw e at h)
]

server-Serves : Serves server Has
server-Serves = record {
  uploads = λ made path mode s other h. elim (added path made s h) [
    | inl e ↦ absurd (other e)
    | inr k ↦ k
  ];
  removes = λ gone path s h. h;
  renames = λ from to path s h. added path to s h;
  refuses = λ from to path s f other e h. never from to path s f other e;
}
  where
    never :
        (from to path : Str) (s : List Str) (f : Failure)
        → f ≢ broken
        → (renames_to to s).1 ≡ err f
        → Has path s
    never from to path s f other e = elim (Bool-cases (to == codes "/lost")) [
      | inl p ↦ absurd (other (cc (rw p at e)))
      | inr p ↦ cc (rw p at e)
    ]

put_in_place-Outcome_example :
    Outcome server Has server-Serves 5
      (codes "/in/.t.part")
      (codes "/in/a")
      []
      (put_in_place server 5 (codes "/in/.t.part") (codes "/in/a") [])
put_in_place-Outcome_example =
    put_in_place-Outcome server Has server-Serves 5 (codes "/in/.t.part") (codes "/in/a") []
