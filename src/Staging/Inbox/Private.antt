-- ===== src/Staging/Inbox/Private.antt =====
-- That the inbox of inbox.rs is a valid path, and not below a directory that everyone can write to.
use clift.Base.{
  subst, ℕ, ◌≡◌, ◌≢◌, refl, sym, ap, ◌∙◌, false, Option, none, some, List, [], ◌∷◌, ◌++◌, arith,
  Bool-cases, inl, inr,
}
use clift.Base.{Str, codes, Result, ok, err, All}
use clift.Base.Text.{strip_prefix}
use clift.Base.Fallible.{◌>>=◌, map_err}
use clift.Base.Utf8.{len}
use clift.Domain.RemotePath
use clift.Domain.RemotePath.{IsRemotePath, join, below, is_within}
use clift.Domain.RemotePath.Join.{join-below, join_valid, new-eq-ok}
use clift.Domain.RemotePath.Parent.{parent_within}
use clift.Domain.SafeName
use clift.Domain.SafeName.{IsSafe}
use clift.Error.{CliftError, ErrorKind}
use clift.Staging.Inbox.{
  InboxLocation, find_root, public_temp_root, public_temp_roots, expanded, refuse_public,
  configured_root, default_root, resolve, resolve_expanded, base_of, public_of, expandable,
  staging_error,
}

abbrev last_char : Str → ℕ
last_char [] = 0
last_char (c ∷ []) = c
last_char (c ∷ d ∷ s) = last_char (d ∷ s)

last_char-append : (s : Str) (c : ℕ) (t : Str) → last_char (s ++ c ∷ t) ≡ last_char (c ∷ t)
last_char-append [] c t = refl
last_char-append (a ∷ []) c t = refl
last_char-append (a ∷ b ∷ s) c t = last_char-append (b ∷ s) c t

-- A root that a name of a directory cannot end.
record IsApart (name root : Str) : Type 0 where
  valid : IsRemotePath root
  below_top : root ≢ codes "/"
  last : last_char name ≢ last_char root

joined_apart :
    (path root : Str) (c : ℕ) (name : Str)
    → IsRemotePath path
    → IsApart (c ∷ name) root
    → join path (c ∷ name) ≢ root
joined_apart path root c name k apart e = apart.last (
    sym (last_char-append (below path) c name)
    ∙ ap last_char (sym (join-below path (c ∷ name) k) ∙ e))

outside-join :
    (path root : Str) (c : ℕ) (name : Str)
    → IsRemotePath path
    → IsSafe (c ∷ name)
    → IsApart (c ∷ name) root
    → is_within path root ≡ false
    → is_within (join path (c ∷ name)) root ≡ false
outside-join path root c name k safe apart h =
    elim (Bool-cases (is_within (join path (c ∷ name)) root)) [
      | inr p ↦ p
      | inl p ↦
          let inside =
            parent_within path (c ∷ name) root k safe apart.valid apart.below_top
              (joined_apart path root c name k apart) p in
          cc (h, inside)
    ]

find_root-outside :
    (path root : Str) (roots : List Str)
    → IsRemotePath root
    → find_root path (root ∷ roots) ≡ none
    → (is_within path root ≡ false) × (find_root path roots ≡ none)
unfolding find_root
find_root-outside path root roots valid h =
    let h' = rw valid at h in
    elim (Bool-cases (is_within path root)) [ inl p ↦ cc (rw p at h') | inr p ↦ (p, rw p at h') ]

find_root-none :
    (path root : Str) (roots : List Str)
    → IsRemotePath root
    → is_within path root ≡ false
    → find_root path roots ≡ none
    → find_root path (root ∷ roots) ≡ none
unfolding find_root
find_root-none path root roots valid p h = rw (valid, p) h

find_root-join :
    (path : Str) (c : ℕ) (name : Str) (roots : List Str)
    → IsRemotePath path
    → IsSafe (c ∷ name)
    → All (IsApart (c ∷ name)) roots
    → find_root path roots ≡ none
    → find_root (join path (c ∷ name)) roots ≡ none
find_root-join path c name [] k safe h e = unfold find_root in refl
find_root-join path c name (root ∷ roots) k safe (apart, h) e =
    let (outside, later) = find_root-outside path root roots apart.valid e in
    find_root-none (join path (c ∷ name)) root roots apart.valid
      (outside-join path root c name k safe apart outside)
      (find_root-join path c name roots k safe h later)

-- A valid path outside the public directories.
pub record IsPrivate (path : Str) : Type 0 where
  pub valid : IsRemotePath path
  pub outside : public_temp_root path ≡ none

abbrev pub KnownPath : Option Str → Type 0
KnownPath none = Unit {0}
KnownPath (some path) = IsRemotePath path

ending-IsApart :
    (name : Str)
    → last_char name ≢ b'p'
    → last_char name ≢ b'm'
    → All (IsApart name) public_temp_roots
unfolding RemotePath.new
ending-IsApart name h k = (
  record { valid = refl; below_top = λ e. cc e; last = h },
  (
    record { valid = refl; below_top = λ e. cc e; last = h },
    (record { valid = refl; below_top = λ e. cc e; last = k }, tt),
  ),
)

join-IsPrivate :
    (path : Str) (c : ℕ) (name : Str)
    → IsPrivate path
    → IsSafe (c ∷ name)
    → All (IsApart (c ∷ name)) public_temp_roots
    → IsPrivate (join path (c ∷ name))
unfolding public_temp_root
join-IsPrivate path c name p safe apart = record {
  valid = join_valid path (c ∷ name) p.valid safe;
  outside = find_root-join path c name public_temp_roots p.valid safe apart p.outside;
}

refuse_public-IsPrivate :
    (home root : Str) (o : Option Str) (l : InboxLocation)
    → IsRemotePath root
    → public_temp_root root ≡ o
    → refuse_public home root o ≡ ok l
    → IsPrivate l.root
refuse_public-IsPrivate home root (some public) l k e h = cc h
refuse_public-IsPrivate home root none l k e h =
    let same : root ≡ l.root = ground arith in
    subst IsPrivate same (record { valid = k; outside = e })

new_again : (text root : Str) → RemotePath.new text ≡ ok root → IsRemotePath root
new_again text root k = let same = new-eq-ok text root k in rw same (rw same at k)

configured-IsPrivate :
    (home text : Str) (r : Result Str RemotePath.PathError) (l : InboxLocation)
    → RemotePath.new text ≡ r
    → (map_err (λ e. staging_error ErrorKind.config) r >>= λ root.
        refuse_public home root (public_temp_root root))
      ≡ ok l
    → IsPrivate l.root
configured-IsPrivate home text (err e) l k h = cc h
configured-IsPrivate home text (ok root) l k h =
    refuse_public-IsPrivate home root (public_temp_root root) l (new_again text root k) refl h

base-IsPrivate :
    (default_cache : Str) (cache public : Option Str)
    → IsPrivate default_cache
    → KnownPath cache
    → public_of cache ≡ public
    → IsPrivate (base_of default_cache cache public).0
base-IsPrivate default_cache none public p k e = p
base-IsPrivate default_cache (some cache) none p k e = record { valid = k; outside = e }
base-IsPrivate default_cache (some cache) (some public) p k e = p

cache-IsApart : All (IsApart (codes ".cache")) public_temp_roots
cache-IsApart = ending-IsApart (codes ".cache") (λ e. omega arith) (λ e. omega arith)

clift-IsApart : All (IsApart (codes "clift")) public_temp_roots
clift-IsApart = ending-IsApart (codes "clift") (λ e. omega arith) (λ e. omega arith)

inbox-IsApart : All (IsApart (codes "inbox")) public_temp_roots
inbox-IsApart = ending-IsApart (codes "inbox") (λ e. omega arith) (λ e. omega arith)

abbrev base_for : Str → Option Str → Str
base_for home cache = (base_of (join home (codes ".cache")) cache (public_of cache)).0

roots_equal :
    (m l : InboxLocation)
    → ◌≡◌ {A = Result InboxLocation CliftError} (ok m) (ok l)
    → m.root ≡ l.root
roots_equal m l h = ground arith

default_root-eq-ok :
    (home : Str) (cache : Option Str) (l : InboxLocation)
    → default_root home cache ≡ ok l
    → join (join (base_for home cache) (codes "clift")) (codes "inbox") ≡ l.root
unfolding default_root SafeName.new len
default_root-eq-ok home cache l h = roots_equal _ l h

directories-IsSafe : IsSafe (codes ".cache") × IsSafe (codes "clift") × IsSafe (codes "inbox")
unfolding SafeName.new len
directories-IsSafe = (refl, refl, refl)

below-IsPrivate :
    (base : Str) → IsPrivate base → IsPrivate (join (join base (codes "clift")) (codes "inbox"))
below-IsPrivate base p =
    let (_, clift_safe, inbox_safe) = directories-IsSafe in
    join-IsPrivate (join base (codes "clift")) b'i' (codes "nbox")
      (join-IsPrivate base b'c' (codes "lift") p clift_safe clift-IsApart) inbox_safe inbox-IsApart

default-IsPrivate :
    (home : Str) (cache : Option Str) (l : InboxLocation)
    → IsPrivate home
    → KnownPath cache
    → default_root home cache ≡ ok l
    → IsPrivate l.root
default-IsPrivate home cache l p k h =
    let at_default : IsPrivate (join home (codes ".cache")) =
      join-IsPrivate home b'.' (codes "cache") p directories-IsSafe.0 cache-IsApart in
    let at_base =
      base-IsPrivate (join home (codes ".cache")) cache (public_of cache) at_default k refl in
    subst IsPrivate (default_root-eq-ok home cache l h)
      (below-IsPrivate (base_for home cache) at_base)

resolved-IsPrivate :
    (home : Str) (cache value : Option Str) (l : InboxLocation)
    → IsPrivate home
    → KnownPath cache
    → resolve_expanded home cache value ≡ ok l
    → IsPrivate l.root
unfolding configured_root
resolved-IsPrivate home cache none l p k h = default-IsPrivate home cache l p k h
resolved-IsPrivate home cache (some value) l p k h =
    let text = expanded home value (strip_prefix (codes "~/") value) in
    configured-IsPrivate home text (RemotePath.new text) l refl h

-- From a valid home directory outside the public directories, and a cache directory that is unknown or
-- a valid path, every location that is resolved has a valid root outside the public directories,
-- whatever was configured.
pub resolve-IsPrivate :
    (home : Str) (cache value : Option Str) (l : InboxLocation)
    → IsPrivate home
    → KnownPath cache
    → resolve home cache value ≡ ok l
    → IsPrivate l.root
unfolding resolve
resolve-IsPrivate home cache value l p k h =
    resolved-IsPrivate home cache (expandable value) l p k h
