-- ===== src/Domain/SafeName/Sanitized.antt =====
-- What `repair` of safe_name.rs returns, and so when `sanitize` takes it and when it falls back.
use clift.Base.{
  ℕ, ◌+◌, ◌-◌, ◌≤◌, ◌<◌, ◌≡◌, refl, ap, Bool, true, false, ◌||◌, [], ◌∷◌, ◌++◌, arith, inl, inr,
  Bool-cases,
}
use clift.Base.{if◌then◌else◌, ltb, leb, Str, ok, err}
use clift.Base.Text.{is_control, is_whitespace, trim, trim_start_by, trim_end_by}
use clift.Base.Utf8.{len, char_len}
use clift.Domain.SafeName.{
  new, NameError, IsSafe, any, is_empty, is_traversal, is_separator, starts_with_dash, is_dash,
  prefix, cut_to, truncate, stem_and_extension, repair, sanitize, last_part, without_control,
  strip_edges, max_len, fallback,
}
use clift.Domain.SafeName.Repair.{sanitize-IsSafe}
use clift.Domain.SafeName.Cut.{
  cut_to-prefix, cut_to_longest, left_out, next_len, len-append, stem-append-extension,
  truncate_lem,
}

-- No character of the text passes the test.
abbrev pub Free : (ℕ → Bool) → Str → Type 0
Free p s = any p s ≡ false

module _ (p : ℕ → Bool) where
  Free-append : (s t : Str) → Free p s → Free p t → Free p (s ++ t)
  Free-append [] t h k = k
  Free-append (c ∷ s) t h k = ground (arith, Free-append s t)

  Free-parts : (s t : Str) → Free p (s ++ t) → Free p s × Free p t
  Free-parts [] t h = (refl, h)
  Free-parts (c ∷ s) t h = ground (arith, Free-parts s t)

  Free-prefix : (s : Str) (at : ℕ) → Free p s → Free p (prefix s at)
  unfolding prefix
  Free-prefix [] at h = refl
  Free-prefix (c ∷ s) at h = ground (arith, Free-prefix s (at - char_len c))

  Free-cut_to : (s : Str) (at : ℕ) → Free p s → Free p (cut_to s at)
  Free-cut_to s at h = rw (cut_to-prefix s at) (Free-prefix s at h)

  Free-truncate : (s : Str) → Free p s → Free p (truncate s)
  unfolding truncate
  Free-truncate s h =
      let stem = (stem_and_extension s).0 in
      let extension = (stem_and_extension s).1 in
      let (first, last) = Free-parts stem extension (rw (stem-append-extension s) h) in
      let cut = Free-cut_to stem (max_len - len extension) first in
      ground (
        arith,
        h,
        Free-cut_to s max_len h,
        Free-append (cut_to stem (max_len - len extension)) extension cut last,
      )

  Free-without_control : (s : Str) → Free p s → Free p (without_control s)
  unfolding without_control
  Free-without_control [] h = refl
  Free-without_control (c ∷ s) h = ground (arith, Free-without_control s)

  module _ (q : ℕ → Bool) where
    Free-trim_start_by : (s : Str) → Free p s → Free p (trim_start_by q s)
    unfolding trim_start_by
    Free-trim_start_by [] h = refl
    Free-trim_start_by (c ∷ s) h = ground (arith, Free-trim_start_by s)

    Free-trim_end_by : (s : Str) → Free p s → Free p (trim_end_by q s)
    unfolding trim_end_by
    Free-trim_end_by [] h = refl
    Free-trim_end_by (c ∷ s) h = ground (arith, Free-trim_end_by s)

  Free-strip_edges : (s : Str) → Free p s → Free p (strip_edges s)
  unfolding strip_edges trim
  Free-strip_edges s h = Free-trim_start_by is_whitespace _ (
      Free-trim_start_by is_dash _
        (Free-trim_end_by is_whitespace _ (Free-trim_start_by is_whitespace s h)))

last_part-Free : (s : Str) → Free is_separator (last_part s)
unfolding last_part
last_part-Free [] = refl
last_part-Free (c ∷ s) = ground (arith, last_part-Free s)

without_control-Free : (s : Str) → Free is_control (without_control s)
unfolding without_control
without_control-Free [] = refl
without_control-Free (c ∷ s) = ground (arith, without_control-Free s)

len_nil : len [] ≡ 0
unfolding len
len_nil = refl

-- A cut that is needed leaves out at most three bytes more than it has to.
cut_to-long : (s : Str) (limit : ℕ) → limit ≤ len s → limit ≤ len (cut_to s limit) + 3
cut_to-long s limit h =
    let (whole, short, maximal) = cut_to_longest s limit in
    let sum = len-append (cut_to s limit) (left_out s limit) in
    elim maximal [
      | inl e ↦ omega (arith, h, sum, ap len whole, ap len e, len_nil)
      | inr more ↦ omega (arith, more, next_len-le (left_out s limit))
    ]
  where
    next_len-le : (s : Str) → next_len s ≤ 4
    next_len-le [] = omega arith
    next_len-le (c ∷ s) = ground arith

truncate-long : (s : Str) → max_len < len s → 252 ≤ len (truncate s)
unfolding truncate
truncate-long s h =
    let stem = (stem_and_extension s).0 in
    let extension = (stem_and_extension s).1 in
    let room = max_len - len extension in
    let whole = ap len (stem-append-extension s) in
    ground (
      arith,
      cut_to-long s max_len,
      cut_to-long stem room,
      len-append stem extension,
      len-append (cut_to stem room) extension,
      whole,
    )

-- Neither empty nor a name of a directory that is always there.
abbrev Proper : Str → Type 0
Proper s = (is_empty s ≡ false) × (is_traversal s ≡ false)

len-Proper : (s : Str) → 9 ≤ len s → Proper s
unfolding len
len-Proper [] h = absurd (omega arith)
len-Proper (c ∷ []) h = (refl, ground arith)
len-Proper (c ∷ d ∷ []) h = (refl, ground arith)
len-Proper (c ∷ d ∷ e ∷ s) h = (refl, ground arith)

truncate-Proper : (s : Str) → Proper s → Proper (truncate s)
truncate-Proper s h = elim (Bool-cases (leb (len s) max_len)) [
  | inl p ↦ rw ((truncate_lem s).1 (ground arith)) h
  | inr p ↦ len-Proper (truncate s) (omega (arith, truncate-long s (ground arith)))
]

-- What every repaired text is.
pub record Repaired (s : Str) : Type 0 where
  pub printable : Free is_control s
  pub flat : Free is_separator s
  pub proper : (is_empty s ≡ false) × (is_traversal s ≡ false)
  pub short : len s ≤ max_len

-- `repair` behind the removal of what the edges hold.
finish_repair :
    (s : Str)
    → Free is_control s
    → Free is_separator s
    → (b : Bool) → (is_empty s || is_traversal s) ≡ b
    → Repaired (if is_empty s || is_traversal s then fallback else truncate s)
finish_repair s printable flat true e = rw e (record {
  printable = refl;
  flat = refl;
  proper = (refl, refl);
  short = unfold len in omega arith;
})
finish_repair s printable flat false e =
    let proper : Proper s = (ground arith, ground arith) in
    rw e (record {
      printable = Free-truncate is_control s printable;
      flat = Free-truncate is_separator s flat;
      proper = truncate-Proper s proper;
      short = (truncate_lem s).0;
    })

repair-Repaired : (value : Str) → Repaired (repair value)
unfolding repair
repair-Repaired value =
    let part = last_part value in
    finish_repair (strip_edges (without_control part))
      (Free-strip_edges is_control (without_control part) (without_control-Free part))
      (Free-strip_edges is_separator (without_control part)
        (Free-without_control is_separator part (last_part-Free value)))
      _ refl

-- A repaired text can be refused for its first character alone.
new-Repaired :
    (s : Str)
    → Repaired s
    → (starts_with_dash s ≡ false → new s ≡ ok s)
      × (starts_with_dash s ≡ true → new s ≡ err NameError.leading_dash)
unfolding new
new-Repaired s r =
    let short : ltb max_len (len s) ≡ false = ground (arith, r.short) in
    (
      (λ h. rw (r.proper.0, r.printable, r.flat, r.proper.1, h, short) refl),
      λ h. rw (r.proper.0, r.printable, r.flat, r.proper.1, h) refl,
    )

-- Whatever text `sanitize` is given, what it is repaired to has no control character and no separator, is not empty, not a
-- directory that is always there, and has at most 255 bytes; if it does not begin with a dash, it is a name that
-- `SafeFileName::new` accepts and `sanitize` returns it, and if it does, `sanitize` returns the constant name,
-- which `SafeFileName::new` accepts as well.
pub sanitize-repair :
    (value : Str)
    → Repaired (repair value)
      × IsSafe (sanitize value)
      × (starts_with_dash (repair value) ≡ false → sanitize value ≡ repair value)
      × (starts_with_dash (repair value) ≡ true → sanitize value ≡ fallback)
unfolding sanitize
sanitize-repair value =
    let repaired = repair-Repaired value in
    let (kept, refused) = new-Repaired (repair value) repaired in
    (
      repaired,
      (unfold sanitize in sanitize-IsSafe value),
      (λ h. rw (kept h) refl),
      λ h. rw (refused h) refl,
    )
