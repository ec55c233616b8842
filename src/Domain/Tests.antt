-- ===== src/Domain/Tests.antt =====
-- Runs of the model of safe_name.rs at concrete names, and its theorems applied to them.
use clift.Base.{false, zero, suc}
use clift.Domain.BatchNames.{BatchNames, candidate, assign, rounds}
use clift.Domain.BatchNames.Fresh.{Assigned, IsTaken, nth, assign_cases}
use clift.Base.{◌+◌, ◌≤◌, ◌<◌, ◌≡◌, ◌⊎◌, refl, [], ◌∷◌, ◌++◌, arith, none, some}
use clift.Base.{Str, codes, err}
use clift.Base.Utf8.{len}
use clift.Base.{ℕ, true, ◌↔◌, List, ok}
use clift.Domain.Limits.{LocalAttachment, Limits, batch_too_large, check, key_for}
use clift.Domain.Limits.Laws.{Within, check-Within, key_of, key_for-check}
use clift.Domain.RemotePath
use clift.Domain.RemotePath.{IsRemotePath, join, is_within}
use clift.Domain.RemotePath.Join.{join_within}
use clift.Domain.RemotePath.Within.{components, is_within-components}
use clift.Domain.SafeName.{
  NameError, new, IsSafe, sanitize, repair, truncate, cut_to, stem_and_extension, extension,
  starts_with_dash, max_len, fallback, last_part, without_control, strip_edges,
}
use clift.Domain.SafeName.Cut.{cut_to_longest, truncate_lem, left_out, next_len}
use clift.Domain.SafeName.Repair.{sanitize_id, sanitize_dashes}
use clift.Domain.SafeName.Sanitized.{Repaired, sanitize-repair}

path_is_cut : sanitize (codes "../../etc/pass wd ") ≡ codes "pass wd"
unfolding sanitize new repair last_part without_control strip_edges truncate len
path_is_cut = refl

extension_kept : extension (codes "shot.tar.gz") ≡ some (codes ".gz")
unfolding extension
extension_kept = refl

hidden_file : extension (codes ".bashrc") ≡ none
unfolding extension
hidden_file = refl

sanitize-repair_example :
    Repaired (repair (codes "../-rf"))
    × IsSafe (sanitize (codes "../-rf"))
    × (starts_with_dash (repair (codes "../-rf")) ≡ false
        → sanitize (codes "../-rf") ≡ repair (codes "../-rf"))
    × (starts_with_dash (repair (codes "../-rf")) ≡ true → sanitize (codes "../-rf") ≡ fallback)
sanitize-repair_example = sanitize-repair (codes "../-rf")

sanitize_id_example : sanitize (codes "a b.png") ≡ codes "a b.png"
unfolding new len
sanitize_id_example = sanitize_id (codes "a b.png") refl refl refl

-- Two characters of three bytes do not fit in five.
abbrev wide : Str
wide = 0x622a ∷ 0x56fe ∷ []

cut_to_longest_example :
    (cut_to wide 5 ++ left_out wide 5 ≡ wide)
    × (len (cut_to wide 5) ≤ 5)
    × ((left_out wide 5 ≡ []) ⊎ (5 < len (cut_to wide 5) + next_len (left_out wide 5)))
cut_to_longest_example = cut_to_longest wide 5

truncate_lem_example :
    (len (truncate (codes "shot.png")) ≤ max_len)
    × (len (codes "shot.png") ≤ max_len → truncate (codes "shot.png") ≡ codes "shot.png")
    × (len (stem_and_extension (codes "shot.png")).1 < max_len
        → (stem : Str) × (truncate (codes "shot.png")
            ≡ stem ++ (stem_and_extension (codes "shot.png")).1))
truncate_lem_example = truncate_lem (codes "shot.png")

sanitize_dashes_example :
    (new (repair (b'-' ∷ b' ' ∷ b'-' ∷ codes "x")) ≡ err NameError.leading_dash)
    × (sanitize (b'-' ∷ b' ' ∷ b'-' ∷ codes "x") ≡ fallback)
unfolding len
sanitize_dashes_example = sanitize_dashes (codes "x") refl refl refl (omega arith)

abbrev limits : Limits
limits = record { max_file_size = 5; max_batch_size = 8; max_files = 2 }

abbrev file : ℕ → LocalAttachment
file size = record { path = codes "/a.png"; name = codes "a.png"; size = size }

check-Within_example :
    (check limits (file 5 ∷ file 4 ∷ []) ≡ ok tt) ↔ Within limits (file 5 ∷ file 4 ∷ [])
check-Within_example = check-Within limits (file 5 ∷ file 4 ∷ []) (omega arith)

batch_refused : check limits (file 5 ∷ file 4 ∷ []) ≡ err (batch_too_large 9)
unfolding check
batch_refused = refl

key_for-check_example : key_for limits (file 5 ∷ file 4 ∷ []) ≡ key_of (batch_too_large 9)
key_for-check_example =
    key_for-check limits (file 5 ∷ file 4 ∷ []) (batch_too_large 9) batch_refused

home_valid : IsRemotePath (codes "/home/dev")
unfolding RemotePath.new
home_valid = refl

inbox_valid : IsRemotePath (codes "/home/dev/inbox")
unfolding RemotePath.new
inbox_valid = refl

join_within_example :
    IsRemotePath (join (codes "/home/dev/inbox") (codes "a.png"))
    × (is_within (join (codes "/home/dev/inbox") (codes "a.png")) (codes "/home/dev") ≡ true)
unfolding is_within new len
join_within_example =
    join_within (codes "/home/dev") (codes "/home/dev/inbox") (codes "a.png") home_valid inbox_valid
      refl refl

is_within-components_example : (is_within (codes "/home/dev-old") (codes "/home/dev") ≡ true) ↔ (
    (parts : List Str) × (components (codes "/home/dev-old")
      ≡ components (codes "/home/dev") ++ parts))
is_within-components_example =
    is_within-components (codes "/home/dev-old") (codes "/home/dev") home_valid (λ e. cc e)

abbrev nothing_taken : BatchNames
nothing_taken = record { taken = [] }

second_name : candidate (codes "a.png") 2 ≡ codes "a-2.png"
unfolding candidate
second_name = refl

abbrev same : Str → Str
same s = s

assigned_twice :
    (assign same (assign same nothing_taken (codes "a.png")).0 (codes "a.png")).1
    ≡ some (codes "a-2.png")
unfolding assign sanitize new repair last_part without_control strip_edges truncate len
assigned_twice = refl

abbrev xs : ℕ → Str
xs zero = []
xs (suc n) = b'x' ∷ xs n

-- The third file is handed the name that the second one was handed.
handed_twice :
    let first = (assign same nothing_taken (codes "a." ++ xs 253)).0 in
    let second = (assign same first (codes "a." ++ xs 253)).0 in
    ((assign same first (codes "a." ++ xs 253)).1 ≡ some (codes "2." ++ xs 253))
    × ((assign same second (codes "2." ++ xs 253)).1 ≡ some (codes "2." ++ xs 253))
unfolding assign sanitize new repair last_part without_control strip_edges truncate len
handed_twice = (refl, refl)

assign_cases_example :
    Assigned same nothing_taken (codes "a.png") (assign same nothing_taken (codes "a.png"))
    ⊎ (((n : ℕ) → n < suc rounds → IsTaken same nothing_taken (nth (codes "a.png") n))
        × (assign same nothing_taken (codes "a.png") ≡ (nothing_taken, none)))
assign_cases_example = assign_cases same nothing_taken (codes "a.png")
