-- ===== src/Domain/RemotePath/Parent.antt =====
-- From a joined path of remote_path.rs back to the path that it was joined to.
use clift.Base.{◌≡◌, ◌≢◌, ◌⊎◌, refl, sym, ap, ◌∙◌, true, List, [], ◌∷◌, ◌++◌, append-nil, inl, inr}
use clift.Base.{Str, codes}
use clift.Base.Text.{split}
use clift.Base.Text.Pieces.{split-append, split_nonempty, unsplit-split, unsplit}
use clift.Domain.RemotePath.{IsRemotePath, join, is_within}
use clift.Domain.RemotePath.Join.{
  path_cases, join-front, join-root, front-ne-root, split_flat, facts,
}
use clift.Domain.RemotePath.Within.{components, is_within-components}
use clift.Domain.SafeName.{IsSafe}
use clift.Domain.SafeName.Repair as SafeNameFacts

snoc_behind :
    (l m ps : List Str) (x q : Str) → l ++ x ∷ [] ≡ m ++ q ∷ ps → (qs : List Str) × (l ≡ m ++ qs)
snoc_behind l [] ps x q h = (l, refl)
snoc_behind [] (a ∷ []) ps x q h = cc
snoc_behind [] (a ∷ b ∷ m) ps x q h = cc
snoc_behind (b ∷ l) (a ∷ m) ps x q h =
    let same : l ++ x ∷ [] ≡ m ++ q ∷ ps = cc h in
    let (qs, e) = snoc_behind l m ps x q same in (qs, cc (h, e))

-- The components of a joined path, in front of the last one.
parent_components :
    (path name : Str)
    → IsRemotePath path
    → IsSafe name
    → (init : List Str) × (components (join path name) ≡ init ++ name ∷ [])
      × ((init ≡ components path) ⊎ (init ≡ [] ∷ []))
unfolding split
parent_components path name k safe =
    let flat = split_flat name (SafeNameFacts.facts name safe).flat in
    elim (path_cases path k) [
      | inl e ↦ (
        [] ∷ [],
        ap components (ap (λ p. join p name) e ∙ join-root name)
            ∙ split-append b'/' [] name
            ∙ ap (λ l. [] ∷ l) flat,
        inr refl,
      )
      | inr front ↦ (
        components path,
        ap components (join-front path name (front-ne-root path front))
            ∙ split-append b'/' path name
            ∙ ap (λ l. components path ++ l) flat,
        inl refl,
      )
    ]

same_components : (path root : Str) → components path ≡ components root → path ≡ root
same_components path root h =
    sym (unsplit-split b'/' path) ∙ ap (unsplit b'/') h ∙ unsplit-split b'/' root

two_pieces :
    (head : Str) (tail qs : List Str) → (head ∷ tail) ++ qs ≡ [] ∷ [] → head ∷ tail ≡ [] ∷ []
two_pieces head [] qs h = cc h
two_pieces head (next ∷ tail) qs h = cc h

empty_root : (root : Str) (qs : List Str) → [] ∷ [] ≡ components root ++ qs → root ≡ []
unfolding split
empty_root root qs h =
    let (head, tail, e) = split_nonempty b'/' root in
    same_components root [] (e ∙ two_pieces head tail qs (ap (λ l. l ++ qs) (sym e) ∙ sym h))

behind_root :
    (path name root : Str) (parts : List Str)
    → IsRemotePath path
    → IsSafe name
    → IsRemotePath root
    → root ≢ codes "/"
    → join path name ≢ root
    → components (join path name) ≡ components root ++ parts
    → is_within path root ≡ true
behind_root path name root [] k safe valid other apart h =
    absurd (apart (same_components (join path name) root (h ∙ append-nil (components root))))
behind_root path name root (q ∷ ps) k safe valid other apart h =
    let (init, e, where_from) = parent_components path name k safe in
    let (qs, e') = snoc_behind init (components root) ps name q (sym e ∙ h) in
    elim where_from [
      | inl same ↦ (is_within-components path root valid other).1 (qs, sym same ∙ e')
      | inr nothing ↦
          let empty = empty_root root qs (sym nothing ∙ e') in
          cc (rw empty at ((facts root valid).nonempty))
    ]

-- A joined path that is within a root, and is not the root, was joined to a path within the root.
pub parent_within :
    (path name root : Str)
    → IsRemotePath path
    → IsSafe name
    → IsRemotePath root
    → root ≢ codes "/"
    → join path name ≢ root
    → is_within (join path name) root ≡ true
    → is_within path root ≡ true
parent_within path name root k safe valid other apart h =
    let (parts, e) = (is_within-components (join path name) root valid other).0 h in
    behind_root path name root parts k safe valid other apart e
