-- ===== src/Domain/Limits/Laws.antt =====
-- Which batches `check` of limits.rs lets through.
use clift.Base.{
  ℕ, ◌+◌, ◌-◌, ◌^◌, ◌≤◌, ◌<◌, min, ◌≡◌, ◌↔◌, refl, true, false, Option, none, some, List, [], ◌∷◌,
  arith, Bool-cases, inl, inr,
}
use clift.Base.{le→not_ltb, ltb, length, Str, codes, ok, err, All}
use clift.Domain.Limits.{
  LocalAttachment, Limits, BatchError, too_many_files, file_too_large, batch_too_large,
  saturating_add, total, first_above, check_total, check, any_above, key_for,
}

-- The sum of the sizes, without a ceiling.
abbrev pub sum : List LocalAttachment → ℕ
sum [] = 0
sum (a ∷ attachments) = a.size + sum attachments

abbrev pub Fits : ℕ → LocalAttachment → Type 0
Fits limit a = a.size ≤ limit

-- What the ceilings ask for.
pub record Within (limits : Limits) (attachments : List LocalAttachment) : Type 0 where
  pub count : length attachments ≤ limits.max_files
  pub each : All (Fits limits.max_file_size) attachments
  pub whole : sum attachments ≤ limits.max_batch_size

total-min :
    (n : ℕ) (attachments : List LocalAttachment)
    → n ≤ 2 ^ 64 - 1
    → total n attachments ≡ min (n + sum attachments) (2 ^ 64 - 1)
unfolding total
total-min n [] h = omega arith
total-min n (a ∷ attachments) h =
    omega (arith, total-min (saturating_add n a.size) attachments (omega arith))

first_above-none :
    (limit : ℕ) (attachments : List LocalAttachment)
    → first_above limit attachments ≡ none
    → All (Fits limit) attachments × (any_above limit attachments ≡ false)
unfolding first_above
first_above-none limit [] h = (tt, refl)
first_above-none limit (a ∷ attachments) h = ground (arith, first_above-none limit attachments)

first_above-All :
    (limit : ℕ) (attachments : List LocalAttachment)
    → All (Fits limit) attachments
    → first_above limit attachments ≡ none
unfolding first_above
first_above-All limit [] h = refl
first_above-All limit (a ∷ attachments) (p, h) = ground (arith, first_above-All limit attachments h)

first_above-some :
    (limit : ℕ) (attachments : List LocalAttachment) (a : LocalAttachment)
    → first_above limit attachments ≡ some a
    → any_above limit attachments ≡ true
unfolding first_above
first_above-some limit [] a h = cc
first_above-some limit (b ∷ attachments) a h = ground (arith, first_above-some limit attachments a)

-- The configuration key of the ceiling that an error names.
abbrev pub key_of : BatchError → Str
key_of (too_many_files count) = codes "defaults.max_files"
key_of (file_too_large a) = codes "defaults.max_file_size"
key_of (batch_too_large size) = codes "defaults.max_batch_size"

check_total-ok :
    (limits : Limits) (attachments : List LocalAttachment) (o : Option LocalAttachment)
    → check_total limits attachments o ≡ ok tt
    → (o ≡ none) × (total 0 attachments ≤ limits.max_batch_size)
check_total-ok limits attachments none h = (refl, ground arith)
check_total-ok limits attachments (some a) h = cc

-- With a ceiling of the batch below 2 ^ 64 - 1, a batch passes exactly if it has no more files than are
-- allowed, none of them is larger than one may be, and the sum of their sizes, which does not
-- overflow, is no more than the whole may be.
pub check-Within :
    (limits : Limits) (attachments : List LocalAttachment)
    → limits.max_batch_size < 2 ^ 64 - 1
    → (check limits attachments ≡ ok tt) ↔ Within limits attachments
unfolding check
check-Within limits attachments small = (forth, back)
  where
    whole : total 0 attachments ≡ min (sum attachments) (2 ^ 64 - 1)
    whole = omega (arith, total-min 0 attachments (omega arith))

    forth : check limits attachments ≡ ok tt → Within limits attachments
    forth h = elim (Bool-cases (ltb limits.max_files (length attachments))) [
      | inl p ↦ cc (rw p at h)
      | inr p ↦
          let (none_above, size) = check_total-ok limits attachments _ (rw p at h) in
          record {
            count = ground arith;
            each = (first_above-none limits.max_file_size attachments none_above).0;
            whole = omega (arith, whole, size);
          }
    ]

    back : Within limits attachments → check limits attachments ≡ ok tt
    back w =
        let total_fits : total 0 attachments ≤ limits.max_batch_size =
          omega (arith, whole, w.whole) in
        rw (
          le→not_ltb limits.max_files (length attachments) w.count,
          first_above-All limits.max_file_size attachments w.each,
          le→not_ltb limits.max_batch_size (total 0 attachments) total_fits,
        )

key_for-found :
    (limits : Limits) (attachments : List LocalAttachment) (o : Option LocalAttachment)
    (e : BatchError)
    → ltb limits.max_files (length attachments) ≡ false
    → first_above limits.max_file_size attachments ≡ o
    → check_total limits attachments o ≡ err e
    → key_for limits attachments ≡ key_of e
unfolding key_for
key_for-found limits attachments none e p found h =
    ground (arith, first_above-none limits.max_file_size attachments found)
key_for-found limits attachments (some a) e p found h =
    ground (arith, first_above-some limits.max_file_size attachments a found)

-- The key that is offered for a refused batch is the one of the ceiling that `check` names.
pub key_for-check :
    (limits : Limits) (attachments : List LocalAttachment) (e : BatchError)
    → check limits attachments ≡ err e
    → key_for limits attachments ≡ key_of e
unfolding check key_for
key_for-check limits attachments e h =
    elim (Bool-cases (ltb limits.max_files (length attachments))) [
      | inl p ↦ ground arith
      | inr p ↦ key_for-found limits attachments _ e p refl (rw p at h)
    ]
