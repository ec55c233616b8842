-- ===== src/Base/Text/Pieces.antt =====
-- `split` and `strip_prefix` of texts that were put together.
use Prim.Native.Nat.{ℕ}
use mathlib.Core.Path.{◌≡◌, refl, sym, ap, ◌∙◌}
use mathlib.Core.Logic.{inl, inr}
use mathlib.Core.Option.{some}
use mathlib.Core.List.{List, [], ◌∷◌, ◌++◌, append_assoc}
use native.Mathlib.Omega.{arith}
use clift.Base.Tests.{eqb, eqb_iff, Str, Bool-cases}
use clift.Base.Text.{split, strip_prefix}

pub split_nonempty :
    (separator : ℕ) (s : Str) → (head : Str) × (tail : List Str) × (split separator s ≡ head ∷ tail)
unfolding split
split_nonempty separator [] = ([], [], refl)
split_nonempty separator (c ∷ s) =
    let (head, tail, e) = split_nonempty separator s in
    elim (Bool-cases (eqb c separator)) [
      | inl p ↦ ([], split separator s, rw p)
      | inr p ↦ (c ∷ head, tail, rw (p, e))
    ]

pub split-append :
    (separator : ℕ) (s t : Str)
    → split separator (s ++ separator ∷ t) ≡ split separator s ++ split separator t
unfolding split
split-append separator [] t = rw ((eqb_iff separator separator).1 refl)
split-append separator (c ∷ s) t =
    let (head, tail, e) = split_nonempty separator s in
    elim (Bool-cases (eqb c separator)) [
      | inl p ↦ rw (p, split-append separator s t)
      | inr p ↦ rw (p, split-append separator s t, e)
    ]

pub strip_prefix_self : (s t : Str) → strip_prefix s (s ++ t) ≡ some t
unfolding strip_prefix
strip_prefix_self [] t = refl
strip_prefix_self (c ∷ s) t = ground (arith, strip_prefix_self s t)

pub strip_prefix-append :
    (p s t rest : Str) → strip_prefix p s ≡ some rest → strip_prefix p (s ++ t) ≡ some (rest ++ t)
unfolding strip_prefix
strip_prefix-append [] s t rest h = ground arith
strip_prefix-append (c ∷ p) [] t rest h = cc
strip_prefix-append (c ∷ p) (d ∷ s) t rest h = ground (arith, strip_prefix-append p s t rest)

pub strip_prefix-eq-some :
    (prefix text rest : Str) → strip_prefix prefix text ≡ some rest → prefix ++ rest ≡ text
unfolding strip_prefix
strip_prefix-eq-some [] text rest h = ground arith
strip_prefix-eq-some (p ∷ prefix) [] rest h = cc
strip_prefix-eq-some (p ∷ prefix) (c ∷ text) rest h =
    ground (arith, strip_prefix-eq-some prefix text rest)

-- The text of the pieces with the separator between them.
abbrev pub unsplit : ℕ → List Str → Str
unsplit separator [] = []
unsplit separator (piece ∷ []) = piece
unsplit separator (piece ∷ next ∷ pieces) = piece ++ separator ∷ unsplit separator (next ∷ pieces)

pub unsplit-append :
    (separator : ℕ) (p q : Str) (ps qs : List Str)
    → unsplit separator ((p ∷ ps) ++ q ∷ qs)
      ≡ unsplit separator (p ∷ ps) ++ separator ∷ unsplit separator (q ∷ qs)
unsplit-append separator p q [] qs = refl
unsplit-append separator p q (p' ∷ ps) qs =
    ap (λ t. p ++ separator ∷ t) (unsplit-append separator p' q ps qs)
    ∙ sym (
        append_assoc p (separator ∷ unsplit separator (p' ∷ ps))
          (separator ∷ unsplit separator (q ∷ qs)))

unsplit-onto :
    (separator c : ℕ) (head : Str) (tail : List Str)
    → unsplit separator ((c ∷ head) ∷ tail) ≡ c ∷ unsplit separator (head ∷ tail)
unsplit-onto separator c head [] = refl
unsplit-onto separator c head (next ∷ tail) = refl

pub unsplit-split : (separator : ℕ) (s : Str) → unsplit separator (split separator s) ≡ s
unfolding split
unsplit-split separator [] = refl
unsplit-split separator (c ∷ s) =
    let (head, tail, e) = split_nonempty separator s in
    let whole : unsplit separator (head ∷ tail) ≡ s =
      ap (unsplit separator) (sym e) ∙ unsplit-split separator s in
    elim (Bool-cases (eqb c separator)) [
      | inl p ↦
          rw (p, e)
            (ap (λ t. separator ∷ t) whole ∙ ap (λ x. x ∷ s) (sym ((eqb_iff c separator).0 p)))
      | inr p ↦ rw (p, e) (unsplit-onto separator c head tail ∙ ap (λ t. c ∷ t) whole)
    ]
