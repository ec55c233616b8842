-- ===== src/Domain/RemotePath/Join.antt =====
-- What `join` of remote_path.rs makes of a path and a file name.
use clift.Base.{
  ok, ℕ, ◌≡◌, ◌≢◌, ◌⊎◌, refl, sym, ap, ◌∙◌, Bool, true, false, ◌&&◌, ◌||◌, Option, none, some, List,
  [], ◌∷◌, ◌++◌, append_assoc, arith, Bool-cases, inl, inr,
}
use clift.Base.{ltb, ◌==◌, eqb_iff, str_beq_iff, Str, str_eq, codes}
use clift.Base.Text.{is_control, split, strip_prefix, is_some}
use clift.Base.Text.Pieces.{split-append, strip_prefix_self, strip_prefix-append}
use clift.Base.Utf8.{len}
use clift.Domain.SafeName.{any, begins_in, is_empty, is_separator, IsSafe}
use clift.Domain.SafeName.Repair as SafeNameFacts
use clift.Domain.RemotePath.{
  is_slash, any_traversal, double_slash, ends_with_slash, new, IsRemotePath, join, below, is_within,
}

pub any-append : (p : ℕ → Bool) (s t : Str) → any p (s ++ t) ≡ (any p s || any p t)
any-append p [] t = refl
any-append p (c ∷ s) t = ground (arith, any-append p s t)

any_traversal-append :
    (s t : List Str) → any_traversal (s ++ t) ≡ (any_traversal s || any_traversal t)
any_traversal-append [] t = refl
any_traversal-append (c ∷ s) t = ground (arith, any_traversal-append s t)

-- A name without a separator is one component.
pub split_flat : (c : Str) → any is_separator c ≡ false → split b'/' c ≡ c ∷ []
unfolding split
split_flat [] h = refl
split_flat (x ∷ c) h = ground (arith, split_flat c)

double_slash_flat : (x : ℕ) (c : Str) → any is_separator c ≡ false → double_slash (x ∷ c) ≡ false
unfolding double_slash
double_slash_flat x [] h = refl
double_slash_flat x (y ∷ c) h = ground (arith, double_slash_flat y c)

double_slash-append :
    (s c : Str)
    → double_slash s ≡ false
    → ends_with_slash s ≡ false
    → any is_separator c ≡ false
    → double_slash (s ++ b'/' ∷ c) ≡ false
unfolding double_slash ends_with_slash
double_slash-append [] c h k f = double_slash_flat b'/' c f
double_slash-append (a ∷ []) c h k f = ground (arith, double_slash_flat b'/' c f)
double_slash-append (a ∷ b ∷ s) c h k f = ground (arith, double_slash-append (b ∷ s) c)

ends_with_slash-append :
    (s : Str) (c : ℕ) (t : Str) → ends_with_slash (s ++ c ∷ t) ≡ ends_with_slash (c ∷ t)
unfolding ends_with_slash
ends_with_slash-append [] c t = refl
ends_with_slash-append (a ∷ []) c t = refl
ends_with_slash-append (a ∷ b ∷ s) c t = ends_with_slash-append (b ∷ s) c t

ends_flat : (c : Str) → any is_separator c ≡ false → ends_with_slash c ≡ false
unfolding ends_with_slash
ends_flat [] h = refl
ends_flat (x ∷ []) h = ground arith
ends_flat (x ∷ y ∷ c) h = ends_flat (y ∷ c) (ground arith)

pub new-eq-ok : (s t : Str) → new s ≡ ok t → t ≡ s
unfolding new
new-eq-ok s t h = ground arith

-- What `new` found out about a path that it accepted.
pub record Facts (s : Str) : Type 0 where
  pub nonempty : is_empty s ≡ false
  pub printable : any is_control s ≡ false
  pub absolute : begins_in is_slash s ≡ true
  pub stays : any_traversal (split b'/' s) ≡ false
  pub single : double_slash s ≡ false
  pub trailing : (ltb 1 (len s) && ends_with_slash s) ≡ false

pub facts : (s : Str) → IsRemotePath s → Facts s
unfolding new
facts s h = ground arith

-- What may stand in front of the separator that `join` writes: nothing, or a path but the root.
pub record IsFront (s : Str) : Type 0 where
  printable : any is_control s ≡ false
  absolute : (t : Str) → begins_in is_slash (s ++ b'/' ∷ t) ≡ true
  stays : any_traversal (split b'/' s) ≡ false
  single : double_slash s ≡ false
  open_end : ends_with_slash s ≡ false

nothing-IsFront : IsFront []
unfolding double_slash ends_with_slash split
nothing-IsFront = record {
  printable = refl;
  absolute = λ t. refl;
  stays = refl;
  single = refl;
  open_end = refl;
}

two_bytes : (c d : ℕ) (s : Str) → ltb 1 (len (c ∷ d ∷ s)) ≡ true
unfolding len
two_bytes c d s = ground arith

open_end_found : (s : Str) → Facts s → s ≢ codes "/" → ends_with_slash s ≡ false
unfolding ends_with_slash
open_end_found [] f other = refl
open_end_found (c ∷ []) f other =
    absurd (other (ap (λ (x : ℕ). x ∷ []) ((eqb_iff c b'/').0 f.absolute)))
open_end_found (c ∷ d ∷ s) f other = rw (two_bytes c d s) at f.trailing

begins-append : (s t : Str) → begins_in is_slash s ≡ true → begins_in is_slash (s ++ t) ≡ true
begins-append [] t h = cc
begins-append (c ∷ s) t h = h

path-IsFront : (s : Str) → IsRemotePath s → s ≢ codes "/" → IsFront s
path-IsFront s valid other =
    let f = facts s valid in
    record {
      printable = f.printable;
      absolute = λ t. begins-append s (b'/' ∷ t) f.absolute;
      stays = f.stays;
      single = f.single;
      open_end = open_end_found s f other;
    }

is_empty-append : (s t : Str) (c : ℕ) → is_empty (s ++ c ∷ t) ≡ false
is_empty-append [] t c = refl
is_empty-append (d ∷ s) t c = refl

ends_behind :
    (d : ℕ) (c : Str)
    → is_empty c ≡ false
    → any is_separator c ≡ false
    → ends_with_slash (d ∷ c) ≡ false
unfolding ends_with_slash
ends_behind d [] h k = cc
ends_behind d (x ∷ c) h k = ends_flat (x ∷ c) k

and_false : (b : Bool) → (b && false) ≡ false
and_false true = refl
and_false false = refl

front-IsRemotePath : (s c : Str) → IsFront s → IsSafe c → IsRemotePath (s ++ b'/' ∷ c)
unfolding new
front-IsRemotePath s c front safe =
    let f = SafeNameFacts.facts c safe in
    let printable : any is_control (s ++ b'/' ∷ c) ≡ false =
      any-append is_control s (b'/' ∷ c) ∙ rw front.printable f.printable in
    let components : split b'/' (s ++ b'/' ∷ c) ≡ split b'/' s ++ c ∷ [] =
      split-append b'/' s c ∙ ap (λ l. split b'/' s ++ l) (split_flat c f.flat) in
    let stays : any_traversal (split b'/' (s ++ b'/' ∷ c)) ≡ false =
      rw (components, any_traversal-append (split b'/' s) (c ∷ []), front.stays, f.stays) in
    let single = double_slash-append s c front.single front.open_end f.flat in
    let ends : ends_with_slash (s ++ b'/' ∷ c) ≡ false =
      ends_with_slash-append s b'/' c ∙ ends_behind b'/' c f.nonempty f.flat in
    rw (
      is_empty-append s c b'/',
      printable,
      front.absolute c,
      stays,
      single,
      ends,
      and_false (ltb 1 (len (s ++ b'/' ∷ c))),
    )

join-extends : (path component : Str) → (t : Str) × (join path component ≡ path ++ t)
unfolding join
join-extends path component = elim (Bool-cases (path == codes "/")) [
  | inl p ↦ (component, rw (p, (str_beq_iff path (codes "/")).0 p))
  | inr p ↦ (b'/' ∷ component, rw p)
]

pub path_cases : (path : Str) → IsRemotePath path → (path ≡ codes "/") ⊎ IsFront path
path_cases path k = elim (Bool-cases (path == codes "/")) [
  | inl p ↦ inl ((str_beq_iff path (codes "/")).0 p)
  | inr p ↦ inr (path-IsFront path k (λ e. cc (p, (str_beq_iff path (codes "/")).1 e)))
]

pub join-root : (component : Str) → join (codes "/") component ≡ b'/' ∷ component
unfolding join
join-root component = refl

pub join-front :
    (path component : Str) → path ≢ codes "/" → join path component ≡ path ++ b'/' ∷ component
unfolding join
join-front path component other = elim (Bool-cases (path == codes "/")) [
  | inl p ↦ absurd (other ((str_beq_iff path (codes "/")).0 p))
  | inr p ↦ rw p
]

pub front-ne-root : (path : Str) → IsFront path → path ≢ codes "/"
unfolding ends_with_slash
front-ne-root path front e = cc (rw e at front.open_end)

pub join-below :
    (path component : Str) → IsRemotePath path → join path component ≡ below path ++ component
unfolding below
join-below path component k = elim (path_cases path k) [
  | inl e ↦ rw e (join-root component)
  | inr front ↦ rw (front.open_end) (
      join-front path component (front-ne-root path front)
      ∙ sym (append_assoc path (b'/' ∷ []) component))
]

pub join_valid :
    (path component : Str)
    → IsRemotePath path
    → IsSafe component
    → IsRemotePath (join path component)
join_valid path component k safe = elim (path_cases path k) [
  | inl e ↦ rw (e, join-root component) (front-IsRemotePath [] component nothing-IsFront safe)
  | inr front ↦
      rw (join-front path component (front-ne-root path front))
        (front-IsRemotePath path component front safe)
]

pub within_below :
    (path root rest : Str) → strip_prefix (below root) path ≡ some rest → is_within path root ≡ true
unfolding is_within
within_below path root rest h = elim (Bool-cases (path == root)) [
  | inl p ↦ rw p refl
  | inr p ↦ rw (p, h) refl
]

pub is_within_self : (path root : Str) → path ≡ root → is_within path root ≡ true
unfolding is_within
is_within_self path root e = rw ((str_beq_iff path root).1 e)

pub within_cases :
    (path root : Str)
    → is_within path root ≡ true
    → (path ≡ root) ⊎ ((rest : Str) × (strip_prefix (below root) path ≡ some rest))
unfolding is_within
within_cases path root h = elim (Bool-cases (path == root)) [
  | inl p ↦ inl ((str_beq_iff path root).0 p)
  | inr p ↦ inr (is_some-true (strip_prefix (below root) path) (rw p at h))
]
  where
    is_some-true : (o : Option Str) → is_some o ≡ true → (rest : Str) × (o ≡ some rest)
    is_some-true none h = cc
    is_some-true (some rest) h = (rest, refl)

pub below_front :
    (root : Str) → IsRemotePath root → root ≢ codes "/" → below root ≡ root ++ b'/' ∷ []
unfolding below
below_front root valid other = rw (open_end_found root (facts root valid) other)

-- With a file name appended, a valid path that is within a valid root stays valid and within it.
pub join_within :
    (root path component : Str)
    → IsRemotePath root
    → IsRemotePath path
    → is_within path root ≡ true
    → IsSafe component
    → IsRemotePath (join path component) × (is_within (join path component) root ≡ true)
join_within root path component h k within safe = (
  join_valid path component k safe,
  elim (within_cases path root within) [
    | inl e ↦
        within_below (join path component) root component
          (rw e (rw (join-below root component h) (strip_prefix_self (below root) component)))
    | inr (rest, e) ↦
        let (t, longer) = join-extends path component in
        within_below (join path component) root (rest ++ t)
          (rw longer (strip_prefix-append (below root) path t rest e))
  ],
)
