-- ===== src/Domain/BatchNames.antt =====
-- `BatchNames` of crates/clift-core/src/domain/safe_name.rs. `to_lowercase`, which knows the letters of
-- Unicode, is the standard library's and an argument.
pub mod Fresh
use clift.Base.{
  ℕ, zero, suc, ◌+◌, ◌-◌, ◌^◌, Bool, true, false, ◌||◌, Option, none, some, List, [], ◌∷◌, ◌++◌,
}
use clift.Base.{◌==◌, if◌then◌else◌, Str, str_eq}
use clift.Base.Decimal.{to_string}
use clift.Base.Utf8.{len}
use clift.Domain.SafeName.{sanitize, extension, prefix, cut_to, max_len}

pub record BatchNames : Type 0 where
  pub taken : List Str

abbrev pub contains : List Str → Str → Bool
contains [] s = false
contains (t ∷ taken) s = t == s || contains taken s

abbrev or_empty : Option Str → Str
or_empty none = []
or_empty (some s) = s

-- The candidate of one round of the loop, with the slice that is the stem.
unfoldable pub candidate : Str → ℕ → Str
unfolding extension prefix cut_to to_string len
candidate base counter =
    let extension = or_empty (extension base) in
    let stem = prefix base (len base - len extension) in
    let suffix = b'-' ∷ to_string counter in
    let room = max_len - (len extension + len suffix) in cut_to stem room ++ (suffix ++ extension)

-- The counters from 2 to 2 ^ 32 - 2: at the next one the range overflows.
abbrev pub rounds : ℕ
rounds = 2 ^ 32 - 3

module _ (to_lowercase : Str → Str) where
  unfoldable pub claim : BatchNames → Str → BatchNames × Bool
  claim names candidate =
      let folded = to_lowercase candidate in
      if contains names.taken folded
      then (names, false)
      else (record { taken = names.taken ++ folded ∷ [] }, true)

  -- The loop; `none` stands for a counter that overflows: a panic in a build with overflow checks. A release build wraps around
  -- and goes on; no batch has so many files.
  unfoldable pub search : ℕ → BatchNames → Str → ℕ → BatchNames × Option Str
  unfolding claim candidate
  search zero names base counter = (names, none)
  search (suc rounds) names base counter =
      let (claimed, free) = claim names (candidate base counter) in
      elim free [
        | true ↦ (claimed, some (sanitize (candidate base counter)))
        | false ↦ search rounds claimed base (suc counter)
      ]

  unfoldable pub assign : BatchNames → Str → BatchNames × Option Str
  unfolding search
  assign names value =
      let base = sanitize value in
      let (claimed, free) = claim names base in
      elim free [ true ↦ (claimed, some base) | false ↦ search rounds claimed base 2 ]
