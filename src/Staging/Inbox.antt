-- ===== src/Staging/Inbox.antt =====
-- crates/clift-core/src/staging/inbox.rs: where the inbox goes, from what is known of the host. The questions to the
-- host are in Locate.
pub mod Private
use clift.Base.{ℕ, true, false, Bool, ◌||◌, Option, none, some, List, [], ◌∷◌, ◌++◌}
use clift.Base.{◌==◌, if◌then◌else◌, Str, str_eq, codes, Result, ok, err}
use clift.Base.Fallible.{◌>>=◌, map_err}
use clift.Base.Text.{trim, trim_end_by, strip_prefix}
use clift.Domain.RemotePath
use clift.Domain.RemotePath.{join, is_within, is_slash}
use clift.Domain.SafeName
use clift.Domain.SafeName.{is_empty}
use clift.Error.{CliftError, Stage, ErrorKind}

-- `INBOX_MODE`
abbrev pub inbox_mode : ℕ
inbox_mode = 448

-- `DEFAULT_REMOTE_DIR`
abbrev pub default_remote_dir : Str
default_remote_dir = codes "~/.cache/clift/inbox"

-- `PUBLIC_TEMP_ROOTS`
abbrev pub public_temp_roots : List Str
public_temp_roots = codes "/tmp" ∷ codes "/var/tmp" ∷ codes "/dev/shm" ∷ []

-- The text of a rejection is left out.
pub data InboxRootSource : Type 0 where
  configured cache_home home_default cache_home_rejected : InboxRootSource

pub record InboxLocation : Type 0 where
  pub root : Str
  pub home : Str
  pub source : InboxRootSource
  pub known_cache_home : Option Str

abbrev pub staging_error : ErrorKind → CliftError
staging_error kind = record { stage = Stage.staging; kind = kind }

abbrev pub lies_within : Str → Result Str RemotePath.PathError → Bool
lies_within path (ok public) = is_within path public
lies_within path (err e) = false

unfoldable pub find_root : Str → List Str → Option Str
unfolding is_within RemotePath.new
find_root path [] = none
find_root path (root ∷ roots) =
    let rest = find_root path roots in
    if lies_within path (RemotePath.new root) then some root else rest

unfoldable pub public_temp_root : Str → Option Str
unfolding find_root
public_temp_root path = find_root path public_temp_roots

unfoldable pub expandable : Option Str → Option Str
unfolding trim
expandable none = none
expandable (some value) =
    let trimmed = trim value in
    if is_empty trimmed || trimmed == default_remote_dir then none else some trimmed

abbrev pub expanded : Str → Str → Option Str → Str
expanded home value (some rest) = trim_end_by is_slash home ++ b'/' ∷ rest
expanded home value none = value

abbrev pub refuse_public : Str → Str → Option Str → Result InboxLocation CliftError
refuse_public home root (some public) = err (staging_error ErrorKind.config)
refuse_public home root none =
    ok (record { root = root; home = home; source = configured; known_cache_home = none })

unfoldable pub configured_root : Str → Str → Result InboxLocation CliftError
unfolding strip_prefix trim_end_by RemotePath.new public_temp_root
configured_root home value =
    map_err (λ e. staging_error ErrorKind.config)
      (RemotePath.new (expanded home value (strip_prefix (codes "~/") value)))
    >>= λ root. refuse_public home root (public_temp_root root)

unfoldable pub component : Str → Result Str CliftError
unfolding SafeName.new
component name = map_err (λ e. staging_error ErrorKind.internal) (SafeName.new name)

abbrev pub base_of : Str → Option Str → Option Str → Str × InboxRootSource
base_of default_cache none public = (default_cache, home_default)
base_of default_cache (some cache) none = (cache, cache_home)
base_of default_cache (some cache) (some public) = (default_cache, cache_home_rejected)

abbrev pub public_of : Option Str → Option Str
public_of none = none
public_of (some cache) = public_temp_root cache

abbrev pub or_default : Str → Option Str → Str
or_default default_cache none = default_cache
or_default default_cache (some cache) = cache

-- The location below the host's cache directory.
unfoldable pub default_root : Str → Option Str → Result InboxLocation CliftError
unfolding component join public_temp_root
default_root home cache = component (codes ".cache") >>= λ cache_dir.
    component (codes "clift") >>= λ clift_dir. component (codes "inbox") >>= λ inbox_dir.
    let default_cache = join home cache_dir in
    let (base, source) = base_of default_cache cache (public_of cache) in
    ok (record {
      root = join (join base clift_dir) inbox_dir;
      home = home;
      source = source;
      known_cache_home = some (or_default default_cache cache);
    })

abbrev pub resolve_expanded : Str → Option Str → Option Str → Result InboxLocation CliftError
resolve_expanded home cache (some value) = configured_root home value
resolve_expanded home cache none = default_root home cache

unfoldable pub resolve : Str → Option Str → Option Str → Result InboxLocation CliftError
unfolding expandable configured_root default_root
resolve home cache value = resolve_expanded home cache (expandable value)

-- `InboxLocation::warning`: the root that is used in place of the host's own, if that was rejected.
abbrev pub warning_of : InboxRootSource → Str → Option Str
warning_of cache_home_rejected root = some root
warning_of configured root = none
warning_of cache_home root = none
warning_of home_default root = none

abbrev pub warning : InboxLocation → Option Str
warning l = warning_of l.source l.root
