-- ===== src/Staging/Locate.antt =====
-- The part of crates/clift-core/src/staging/inbox.rs that asks the host: where the inbox is, and that it exists.
use clift.Base.{Option, none, some, Str}
use clift.Remote.{Transport, Acts, ◌>>=◌, ◌>>◌, pure, lift}
use clift.Staging.Inbox.{InboxLocation, inbox_mode, expandable, resolve}

module _ (remote : Transport) where
  open remote use {State, resolve_home, resolve_cache_home, ensure_dir}

  abbrev pub cache_question : Option Str → Option Str → Acts State (Option Str)
  cache_question (some value) known = pure none
  cache_question none (some known) = pure (some known)
  cache_question none none = resolve_cache_home

  unfoldable pub locate_from : Str → Option Str → Option Str → Acts State InboxLocation
  unfolding expandable resolve
  locate_from home known_cache_home value =
      cache_question (expandable value) known_cache_home >>= λ cache_home.
      lift (resolve home cache_home value)

  unfoldable pub locate_inbox : Option Str → Acts State InboxLocation
  unfolding locate_from
  locate_inbox value = resolve_home >>= λ home. locate_from home none value

  abbrev pub home_question : Option Str → Acts State Str
  home_question (some home) = pure home
  home_question none = resolve_home

  unfoldable pub locate_inbox_from : Option Str → Option Str → Option Str → Acts State InboxLocation
  unfolding locate_from
  locate_inbox_from known_home known_cache_home value =
      home_question known_home >>= λ home. locate_from home known_cache_home value

  unfoldable pub ensure_inbox_from : Option Str → Option Str → Option Str → Acts State InboxLocation
  unfolding locate_inbox_from
  ensure_inbox_from known_home known_cache_home value =
      locate_inbox_from known_home known_cache_home value >>= λ location.
      ensure_dir location.root inbox_mode >> pure location

  unfoldable pub ensure_inbox : Option Str → Acts State InboxLocation
  unfolding ensure_inbox_from
  ensure_inbox value = ensure_inbox_from none none value
