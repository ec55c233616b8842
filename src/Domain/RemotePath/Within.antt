-- ===== src/Domain/RemotePath/Within.antt =====
-- `is_within` of remote_path.rs, and the components of the two paths.
use clift.Base.{
  ◌≡◌, ◌≢◌, ◌⊎◌, ◌↔◌, sym, ap, ◌∙◌, true, List, [], ◌∷◌, ◌++◌, append_assoc, append-nil, inl, inr,
}
use clift.Base.{Str, codes}
use clift.Base.Text.{split, strip_prefix}
use clift.Base.Text.Pieces.{
  split_nonempty, split-append, strip_prefix-eq-some, strip_prefix_self, unsplit, unsplit-append,
  unsplit-split,
}
use clift.Domain.RemotePath.{IsRemotePath, is_within, below}
use clift.Domain.RemotePath.Join.{within_cases, within_below, is_within_self, below_front}

abbrev pub components : Str → List Str
components path = split b'/' path

below_components :
    (path root : Str) (parts : List Str)
    → components path ≡ components root ++ parts
    → (path ≡ root) ⊎ ((rest : Str) × (path ≡ (root ++ b'/' ∷ []) ++ rest))
below_components path root [] h = inl (
    sym (unsplit-split b'/' path)
    ∙ ap (unsplit b'/') (h ∙ append-nil (components root))
    ∙ unsplit-split b'/' root)
below_components path root (q ∷ parts) h =
    let (head, tail, e) = split_nonempty b'/' root in
    let whole : unsplit b'/' (head ∷ tail) ≡ root =
      ap (unsplit b'/') (sym e) ∙ unsplit-split b'/' root in
    let rest = unsplit b'/' (q ∷ parts) in
    inr (
      rest,
      sym (unsplit-split b'/' path)
          ∙ ap (unsplit b'/') (h ∙ ap (λ l. l ++ q ∷ parts) e)
          ∙ unsplit-append b'/' head q tail parts
          ∙ ap (λ t. t ++ b'/' ∷ rest) whole
          ∙ sym (append_assoc root (b'/' ∷ []) rest),
    )

-- A path is within a valid root other than "/" exactly if the root's components are the first ones of
-- the path's.
pub is_within-components :
    (path root : Str)
    → IsRemotePath root
    → root ≢ codes "/"
    → (is_within path root ≡ true)
      ↔ ((parts : List Str) × (components path ≡ components root ++ parts))
is_within-components path root valid other = (forth, back)
  where
    forth :
        is_within path root ≡ true
        → (parts : List Str) × (components path ≡ components root ++ parts)
    forth h = elim (within_cases path root h) [
      | inl e ↦ ([], ap components e ∙ sym (append-nil (components root)))
      | inr (rest, e) ↦ (
        components rest,
        ap components (
              sym (strip_prefix-eq-some (below root) path rest e)
              ∙ ap (λ t. t ++ rest) (below_front root valid other)
              ∙ append_assoc root (b'/' ∷ []) rest)
            ∙ split-append b'/' root rest,
      )
    ]

    back :
        ((parts : List Str) × (components path ≡ components root ++ parts))
        → is_within path root ≡ true
    back (parts, h) = elim (below_components path root parts h) [
      | inl e ↦ is_within_self path root e
      | inr (rest, e) ↦ within_below path root rest (
          ap (strip_prefix (below root))
            (e ∙ ap (λ t. t ++ rest) (sym (below_front root valid other)))
          ∙ strip_prefix_self (below root) rest)
    ]
