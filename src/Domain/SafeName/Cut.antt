-- ===== src/Domain/SafeName/Cut.antt =====
-- Cutting a text to a number of bytes: `cut_to` and `truncate` of safe_name.rs.
use clift.Base.{
  ℕ, zero, suc, ◌+◌, ◌-◌, ◌≤◌, ◌<◌, ◌≡◌, refl, true, false, some, [], ◌∷◌, ◌++◌, arith,
}
use clift.Base.{
  ltb, leb, if◌then◌else◌, Str, Bool-cases, ◌⊎◌, inl, inr, append-nil, Option-cases, sym,
}
use clift.Base.Utf8.{len, char_len}
use clift.Domain.SafeName.{
  is_char_boundary, step_back, prefix, cut_to, truncate, stem_and_extension, last_dot, max_len,
}

boundary_zero : (s : Str) → is_char_boundary s 0 ≡ true
unfolding is_char_boundary
boundary_zero [] = refl
boundary_zero (c ∷ s) = ground arith

-- No character ends at a position that is no boundary.
prefix-step :
    (s : Str) (at : ℕ) → is_char_boundary s (suc at) ≡ false → prefix s (suc at) ≡ prefix s at
unfolding is_char_boundary prefix
prefix-step [] at h = refl
prefix-step (c ∷ s) at h = elim (Bool-cases (ltb (suc at) (char_len c))) [
  | inl p ↦ ground arith
  | inr p ↦ ground (arith, boundary_zero s, prefix-step s (at - char_len c))
]

prefix-step_back : (s : Str) (at : ℕ) → prefix s (step_back s at) ≡ prefix s at
unfolding step_back
prefix-step_back s zero = refl
prefix-step_back s (suc at) = elim (Bool-cases (is_char_boundary s (suc at))) [
  | inl p ↦ rw p
  | inr p ↦ rw (p, prefix-step s at p) (prefix-step_back s at)
]

prefix-len : (s : Str) (at : ℕ) → len s ≤ at → prefix s at ≡ s
unfolding prefix len
prefix-len [] at h = refl
prefix-len (c ∷ s) at h = ground (arith, prefix-len s (at - char_len c))

pub cut_to-prefix : (s : Str) (limit : ℕ) → cut_to s limit ≡ prefix s limit
unfolding cut_to
cut_to-prefix s limit = ground (arith, prefix-len s limit, prefix-step_back s limit)

pub len-prefix-le : (s : Str) (at : ℕ) → len (prefix s at) ≤ at
unfolding prefix len
len-prefix-le [] at = omega arith
len-prefix-le (c ∷ s) at = ground (arith, len-prefix-le s (at - char_len c))

-- What the cut leaves out.
unfoldable pub left_out : Str → ℕ → Str
left_out [] at = []
left_out (c ∷ s) at =
    let rest = left_out s (at - char_len c) in if leb (char_len c) at then rest else c ∷ s

abbrev pub next_len : Str → ℕ
next_len [] = 0
next_len (c ∷ s) = char_len c

prefix-append-left_out : (s : Str) (at : ℕ) → prefix s at ++ left_out s at ≡ s
unfolding prefix left_out
prefix-append-left_out [] at = refl
prefix-append-left_out (c ∷ s) at = ground (arith, prefix-append-left_out s (at - char_len c))

prefix_maximal :
    (s : Str) (at : ℕ) → (left_out s at ≡ []) ⊎ (at < len (prefix s at) + next_len (left_out s at))
unfolding prefix left_out len
prefix_maximal [] at = inl refl
prefix_maximal (c ∷ s) at = ground (arith, prefix_maximal s (at - char_len c))

-- `cut_to` returns the longest beginning of the text that fits: it and what is left out are the
-- text, it has at most `limit` bytes, and the next character, if there is one, would not fit.
pub cut_to_longest :
    (s : Str) (limit : ℕ)
    → (cut_to s limit ++ left_out s limit ≡ s)
      × (len (cut_to s limit) ≤ limit)
      × ((left_out s limit ≡ []) ⊎ (limit < len (cut_to s limit) + next_len (left_out s limit)))
cut_to_longest s limit =
    rw (cut_to-prefix s limit)
      (prefix-append-left_out s limit, len-prefix-le s limit, prefix_maximal s limit)

pub len-append : (s t : Str) → len (s ++ t) ≡ len s + len t
unfolding len
len-append [] t = omega arith
len-append (c ∷ s) t = omega (arith, len-append s t)

last_dot-append : (s : Str) (front back : Str) → last_dot s ≡ some (front, back) → front ++ back ≡ s
unfolding last_dot
last_dot-append [] front back h = cc
last_dot-append (c ∷ s) front back h = elim (Option-cases (last_dot s)) [
  | inl e ↦ ground (arith, e)
  | inr ((f, b), e) ↦ ground (arith, e, last_dot-append s f b e)
]

pub stem-append-extension : (s : Str) → (stem_and_extension s).0 ++ (stem_and_extension s).1 ≡ s
unfolding stem_and_extension
stem-append-extension s = elim (Option-cases (last_dot s)) [
  | inl e ↦ ground (arith, e, append-nil s)
  | inr ((f, b), e) ↦ ground (arith, e, last_dot-append s f b e, append-nil s)
]

-- A shortened name has at most 255 bytes, and it ends in the name's extension wherever that has
-- fewer than 255 bytes; a name that is short enough stays as it is.
pub truncate_lem :
    (name : Str)
    → (len (truncate name) ≤ max_len)
      × (len name ≤ max_len → truncate name ≡ name)
      × (len (stem_and_extension name).1 < max_len
          → (stem : Str) × (truncate name ≡ stem ++ (stem_and_extension name).1))
unfolding truncate
truncate_lem name =
    let stem = (stem_and_extension name).0 in
    let extension = (stem_and_extension name).1 in
    let whole = stem-append-extension name in
    let cut = cut_to stem (max_len - len extension) in
    let fits = len-append cut extension in
    let short = (cut_to_longest stem (max_len - len extension)).1 in
    let all = (cut_to_longest name max_len).1 in
    (
      ground (arith, fits, short, all),
      (λ h. ground arith),
      λ h. elim (Bool-cases (leb (len name) max_len)) [
        | inl p ↦ (stem, rw p (sym whole))
        | inr p ↦ (cut, ground (arith, p))
      ],
    )
