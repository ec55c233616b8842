-- ===== src/Domain/SafeName/Repair.antt =====
-- What `sanitize` of safe_name.rs returns.
use clift.Base.{ℕ, ◌≤◌, ◌<◌, ◌≡◌, refl, Bool, false, [], ◌∷◌, arith}
use clift.Base.{Str, str_eq, Result, ok, err}
use clift.Base.Text.{is_control, is_whitespace, trim, trim_start_by, trim_end_by}
use clift.Base.Utf8.{len}
use clift.Domain.SafeName.{
  new, NameError, IsSafe, any, is_empty, is_traversal, is_separator, starts_with_dash, is_dash,
  begins_in, repair, or_fallback, sanitize, last_part, without_control, strip_edges, max_len,
  fallback,
}
use clift.Domain.SafeName.Cut.{truncate_lem}

pub new-eq-ok : (s t : Str) → new s ≡ ok t → t ≡ s
unfolding new
new-eq-ok s t h = ground arith

fallback-IsSafe : IsSafe fallback
unfolding new len
fallback-IsSafe = refl

or_fallback-IsSafe :
    (r : Result Str NameError) → ((name : Str) → r ≡ ok name → IsSafe name) → IsSafe (or_fallback r)
or_fallback-IsSafe (ok name) h = h name refl
or_fallback-IsSafe (err e) h = fallback-IsSafe

-- Whatever text it is given, `sanitize` returns a name that `SafeFileName::new` accepts.
pub sanitize-IsSafe : (value : Str) → IsSafe (sanitize value)
unfolding sanitize
sanitize-IsSafe value = or_fallback-IsSafe (new (repair value)) (λ name h.
    let same : name ≡ repair value = new-eq-ok (repair value) name h in rw same (rw same at h))

-- Whether the last character passes a test.
abbrev pub ends_in : (ℕ → Bool) → Str → Bool
ends_in p [] = false
ends_in p (c ∷ []) = p c
ends_in p (c ∷ d ∷ s) = ends_in p (d ∷ s)

pub trim_end_id : (p : ℕ → Bool) (s : Str) → ends_in p s ≡ false → trim_end_by p s ≡ s
unfolding trim_end_by
trim_end_id p [] h = refl
trim_end_id p (c ∷ []) h = rw h
trim_end_id p (c ∷ d ∷ s) h = rw (trim_end_id p (d ∷ s) h)

trim_start_id : (p : ℕ → Bool) (s : Str) → begins_in p s ≡ false → trim_start_by p s ≡ s
unfolding trim_start_by
trim_start_id p [] h = refl
trim_start_id p (c ∷ s) h = rw h

pub trim_id :
    (s : Str) → begins_in is_whitespace s ≡ false → ends_in is_whitespace s ≡ false → trim s ≡ s
unfolding trim
trim_id s h k = rw (trim_start_id is_whitespace s h) (trim_end_id is_whitespace s k)

last_part_id : (s : Str) → any is_separator s ≡ false → last_part s ≡ s
unfolding last_part
last_part_id [] h = refl
last_part_id (c ∷ s) h = ground arith

without_control_id : (s : Str) → any is_control s ≡ false → without_control s ≡ s
unfolding without_control
without_control_id [] h = refl
without_control_id (c ∷ s) h = ground (arith, without_control_id s)

-- What `new` has found out about a name that it accepts.
pub record Facts (s : Str) : Type 0 where
  pub nonempty : is_empty s ≡ false
  pub printable : any is_control s ≡ false
  pub flat : any is_separator s ≡ false
  pub stays : is_traversal s ≡ false
  pub plain : starts_with_dash s ≡ false
  pub short : len s ≤ max_len

pub facts : (s : Str) → IsSafe s → Facts s
unfolding new
facts s h = ground arith

strip_edges_id :
    (s : Str)
    → begins_in is_whitespace s ≡ false
    → ends_in is_whitespace s ≡ false
    → starts_with_dash s ≡ false
    → strip_edges s ≡ s
unfolding strip_edges
strip_edges_id s h k d =
    rw (trim_id s h k, trim_start_id is_dash s d) (trim_start_id is_whitespace s h)

-- A name that `new` accepts and that neither begins nor ends with white space is left as it is.
pub sanitize_id :
    (s : Str)
    → IsSafe s
    → begins_in is_whitespace s ≡ false
    → ends_in is_whitespace s ≡ false
    → sanitize s ≡ s
unfolding sanitize repair
sanitize_id s safe h k =
    let f = facts s safe in
    rw (
      last_part_id s f.flat,
      without_control_id s f.printable,
      strip_edges_id s h k f.plain,
      f.nonempty,
      f.stays,
      (truncate_lem s).1 f.short,
      safe,
    )

strip_edges_dashes :
    (t : Str)
    → ends_in is_whitespace (b'-' ∷ t) ≡ false
    → strip_edges (b'-' ∷ b' ' ∷ b'-' ∷ t) ≡ b'-' ∷ t
unfolding strip_edges
strip_edges_dashes t edge = rw (trim_id (b'-' ∷ b' ' ∷ b'-' ∷ t) refl edge)

-- The name "- -…": `repair` returns a text with a leading dash, which `new` refuses, so `sanitize` falls back
-- to its constant, for every rest that is otherwise acceptable.
pub sanitize_dashes :
    (t : Str)
    → any is_control t ≡ false
    → any is_separator t ≡ false
    → ends_in is_whitespace (b'-' ∷ t) ≡ false
    → len t < max_len
    → (new (repair (b'-' ∷ b' ' ∷ b'-' ∷ t)) ≡ err NameError.leading_dash)
      × (sanitize (b'-' ∷ b' ' ∷ b'-' ∷ t) ≡ fallback)
unfolding sanitize
sanitize_dashes t printable flat edge short = rw refused (refl, refl)
  where
    repaired : repair (b'-' ∷ b' ' ∷ b'-' ∷ t) ≡ b'-' ∷ t
    repaired =
        unfold repair in
        rw
          (
            last_part_id (b'-' ∷ b' ' ∷ b'-' ∷ t) flat,
            without_control_id (b'-' ∷ b' ' ∷ b'-' ∷ t) printable,
            strip_edges_dashes t edge,
          )
          ((truncate_lem (b'-' ∷ t)).1 (unfold len in omega arith))

    refused : new (repair (b'-' ∷ b' ' ∷ b'-' ∷ t)) ≡ err NameError.leading_dash
    refused = rw repaired (unfold new len in rw (printable, flat))
