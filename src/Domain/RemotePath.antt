-- ===== src/Domain/RemotePath.antt =====
-- crates/clift-core/src/domain/remote_path.rs: absolute paths on the remote host. A path is the text that the type
-- holds.
pub mod Join
pub mod Within
pub mod Parent
use clift.Base.{ℕ, Bool, true, false, not, ◌&&◌, ◌||◌, List, [], ◌∷◌, ◌++◌, ◌≡◌}
use clift.Base.{ltb, eqb, ◌==◌, if◌then◌else◌, Str, str_eq, codes, Result, ok, err}
use clift.Base.Text.{is_control, split, strip_prefix, is_some}
use clift.Base.Utf8.{len}
use clift.Domain.SafeName.{any, begins_in, is_empty, is_traversal}

pub data PathError : Type 0 where
  must_not_be_empty control_character relative dot_component empty_component trailing_separator :
      PathError

abbrev pub is_slash : ℕ → Bool
is_slash c = eqb c b'/'

abbrev pub any_traversal : List Str → Bool
any_traversal [] = false
any_traversal (component ∷ components) = is_traversal component || any_traversal components

-- `value.contains("//")`
unfoldable pub double_slash : Str → Bool
double_slash [] = false
double_slash (c ∷ []) = false
double_slash (c ∷ d ∷ s) = (is_slash c && is_slash d) || double_slash (d ∷ s)

-- `value.ends_with('/')`
unfoldable pub ends_with_slash : Str → Bool
ends_with_slash [] = false
ends_with_slash (c ∷ []) = is_slash c
ends_with_slash (c ∷ d ∷ s) = ends_with_slash (d ∷ s)

-- `RemotePath::new`
unfoldable pub new : Str → Result Str PathError
unfolding double_slash ends_with_slash split len
new value =
    if is_empty value
    then err PathError.must_not_be_empty
    else if any is_control value
    then err PathError.control_character
    else if not (begins_in is_slash value)
    then err PathError.relative
    else if any_traversal (split b'/' value)
    then err PathError.dot_component
    else if double_slash value
    then err PathError.empty_component
    else if ltb 1 (len value) && ends_with_slash value
    then err PathError.trailing_separator
    else ok value

abbrev pub IsRemotePath : Str → Type 0
IsRemotePath path = new path ≡ ok path

unfoldable pub join : Str → Str → Str
join path component = if path == codes "/" then b'/' ∷ component else path ++ b'/' ∷ component

-- The text that a path below `root` begins with.
unfoldable pub below : Str → Str
unfolding ends_with_slash
below root = if ends_with_slash root then root else root ++ b'/' ∷ []

unfoldable pub is_within : Str → Str → Bool
unfolding below strip_prefix
is_within path root = if path == root then true else is_some (strip_prefix (below root) path)
