-- ===== src/Staging/Batch/Below.antt =====
-- Where the paths of a batch lie: strictly inside the inbox.
use clift.Base.{
  ℕ, zero, suc, ◌≤◌, ◌<◌, ◌≡◌, ◌≢◌, refl, ap, ◌∙◌, subst, arith, true, false, some, [], ◌∷◌, ◌++◌,
}
use clift.Base.{
  ◌==◌, length, length-append, Str, str_eq, str_beq_iff, Result, ok, Bool-cases, inl, inr, if_lem,
}
use clift.Base.Fallible.{>>=-eq-ok, map_err-eq-ok, ok-injective}
use clift.Base.Text.Pieces.{strip_prefix-eq-some}
use clift.Calendar.{SystemTime, format_date}
use clift.Domain.BatchNames.{BatchNames, assign}
use clift.Domain.BatchNames.Fresh.{Assigned, assign_cases, handed_out}
use clift.Domain.RemotePath.{IsRemotePath, join, is_within, below}
use clift.Domain.RemotePath.Join.{join_within, within_cases, is_within_self, join-below}
use clift.Domain.SafeName
use clift.Domain.SafeName.{IsSafe, sanitize}
use clift.Domain.SafeName.Repair.{sanitize-IsSafe, new-eq-ok}
use clift.Error.{CliftError, ErrorKind}
use clift.Staging.Batch.{BatchPlan, plan_batch}
use clift.Staging.Clean.{within}
use clift.Staging.Inbox.{InboxLocation, component, staging_error}

below-length : (root : Str) → length root ≤ length (below root)
unfolding below
below-length root =
    if_lem (λ s. length root ≤ length s) _ root (root ++ b'/' ∷ []) (λ _. omega arith)
      (λ _. omega (arith, length-append root (b'/' ∷ [])))

join-length :
    (path component : Str)
    → IsRemotePath path
    → component ≢ []
    → length path < length (join path component)
join-length path [] k other = absurd (other refl)
join-length path (c ∷ name) k other =
    rw (join-below path (c ∷ name) k)
      (omega (arith, length-append (below path) (c ∷ name), below-length path))

is_within-length : (path root : Str) → is_within path root ≡ true → length root ≤ length path
is_within-length path root h = elim (within_cases path root h) [
  | inl e ↦ omega (arith, ap length e)
  | inr (rest, e) ↦
      let whole = strip_prefix-eq-some (below root) path rest e in
      omega (arith, ap length whole, length-append (below root) rest, below-length root)
]

-- A valid path strictly inside a directory.
pub record IsBelow (root path : Str) : Type 0 where
  pub valid : IsRemotePath path
  pub inside : within path root ≡ true

IsSafe-nonempty : (name : Str) → IsSafe name → name ≢ []
unfolding SafeName.new
IsSafe-nonempty name h e = cc (rw e at h)

join-Strict :
    (root path name : Str)
    → IsRemotePath root
    → IsRemotePath path
    → is_within path root ≡ true
    → IsSafe name
    → IsBelow root (join path name)
unfolding within
join-Strict root path name h k lies safe =
    let (valid, inside) = join_within root path name h k lies safe in
    let longer = join-length path name k (IsSafe-nonempty name safe) in
    let other : (join path name == root) ≡ false = elim (Bool-cases (join path name == root)) [
      | inl p ↦ absurd (
          omega (
            arith,
            longer,
            is_within-length path root lies,
            ap length ((str_beq_iff (join path name) root).0 p),
          ))
      | inr p ↦ p
    ] in
    record { valid = valid; inside = rw (other, inside) refl }

within-is_within : (path root : Str) → within path root ≡ true → is_within path root ≡ true
unfolding within
within-is_within path root h = ground arith

pub join-IsBelow :
    (root path name : Str)
    → IsRemotePath root
    → IsBelow root path
    → IsSafe name
    → IsBelow root (join path name)
join-IsBelow root path name h b safe =
    join-Strict root path name h b.valid (within-is_within path root b.inside) safe

component-eq-ok : (name c : Str) → component name ≡ ok c → (c ≡ name) × IsSafe c
unfolding component
component-eq-ok name c h =
    let accepted = map_err-eq-ok (λ e. staging_error ErrorKind.internal) (SafeName.new name) h in
    let same = new-eq-ok name c accepted in (same, rw (← same) at accepted)

-- What `plan_batch` decided: one directory for the date and one for the identifier in it.
pub record Planned (inbox : InboxLocation) (now : SystemTime) (plan : BatchPlan) : Type 0 where
  pub date : plan.date ≡ format_date now
  pub directory : plan.directory ≡ join (join inbox.root plan.date) plan.id
  pub date_safe : IsSafe plan.date
  pub id_safe : IsSafe plan.id

pub plan_batch-Planned :
    (inbox : InboxLocation) (now : SystemTime) (drawn : Result Str CliftError) (plan : BatchPlan)
    → plan_batch inbox now drawn ≡ ok plan
    → Planned inbox now plan × (drawn ≡ ok plan.id)
unfolding plan_batch
plan_batch-Planned inbox now drawn plan h =
    let (id, drew, h) = >>=-eq-ok drawn _ h in
    let (date, dated, h) = >>=-eq-ok (component (format_date now)) _ h in
    let (name, named, h) = >>=-eq-ok (component id) _ h in
    let (date_same, date_safe) = component-eq-ok (format_date now) date dated in
    let (id_same, id_safe) = component-eq-ok id name named in
    subst (λ plan. Planned inbox now plan × (drawn ≡ ok plan.id)) (ok-injective h)
      (
        record {
          date = refl;
          directory =
              ap (λ d. join (join inbox.root d) name) date_same
              ∙ ap (join (join inbox.root (format_date now))) id_same;
          date_safe = subst IsSafe date_same date_safe;
          id_safe = subst IsSafe id_same id_safe;
        },
        drew,
      )

pub Planned-IsBelow :
    (inbox : InboxLocation) (now : SystemTime) (plan : BatchPlan)
    → IsRemotePath inbox.root
    → Planned inbox now plan
    → IsBelow inbox.root plan.directory
Planned-IsBelow inbox now plan h p = rw (p.directory) (
    join-IsBelow inbox.root (join inbox.root plan.date) plan.id h
      (join-Strict inbox.root inbox.root plan.date h h (is_within_self inbox.root inbox.root refl)
        p.date_safe)
      p.id_safe)

handed_out-IsSafe : (value : Str) (attempt : ℕ) → IsSafe (handed_out value attempt)
handed_out-IsSafe value zero = sanitize-IsSafe value
handed_out-IsSafe value (suc n) = sanitize-IsSafe _

-- Every name that is handed out for a batch is safe.
pub assign-IsSafe :
    (to_lowercase : Str → Str) (names names' : BatchNames) (value name : Str)
    → assign to_lowercase names value ≡ (names', some name)
    → IsSafe name
assign-IsSafe to_lowercase names names' value name h =
    elim (assign_cases to_lowercase names value) [
      | inl a ↦ subst IsSafe (same a) (handed_out-IsSafe value a.attempt)
      | inr (all, e) ↦ cc (e, h)
    ]
  where
    same :
        (a : Assigned to_lowercase names value (assign to_lowercase names value))
        → handed_out value a.attempt ≡ name
    same a = cc (a.outcome, h)
