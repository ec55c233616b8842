-- ===== src/Staging/Tests.antt =====
-- Runs of the model of the inbox at concrete inputs, and its theorem applied to them.
use clift.Base.{◌≡◌, refl, none, some, codes, ok, err}
use clift.Base.Text.{trim}
use clift.Domain.RemotePath
use clift.Domain.RemotePath.{join, is_within}
use clift.Error.{ErrorKind}
use clift.Staging.Inbox.{
  InboxLocation, resolve, staging_error, cache_home_rejected, home_default, public_temp_root,
}
use clift.Staging.Inbox.Private.{IsPrivate, resolve-IsPrivate}

rejected : InboxLocation
rejected = record {
  root = codes "/home/dev/.cache/clift/inbox";
  home = codes "/home/dev";
  source = cache_home_rejected;
  known_cache_home = some (codes "/tmp/cache");
}

public_cache_rejected :
    resolve (codes "/home/dev") (some (codes "/tmp/cache")) (some (codes "~/.cache/clift/inbox"))
    ≡ ok rejected
unfolding resolve rejected trim
public_cache_rejected = refl

public_inbox_refused :
    resolve (codes "/home/dev") none (some (codes "/tmp/inbox"))
    ≡ err (staging_error ErrorKind.config)
unfolding resolve trim
public_inbox_refused = refl

home-IsPrivate : IsPrivate (codes "/home/dev")
unfolding RemotePath.new public_temp_root
home-IsPrivate = record { valid = refl; outside = refl }

public_cache_valid : RemotePath.new (codes "/tmp/cache") ≡ ok (codes "/tmp/cache")
unfolding RemotePath.new
public_cache_valid = refl

resolve-IsPrivate_example : IsPrivate (codes "/home/dev/.cache/clift/inbox")
unfolding rejected
resolve-IsPrivate_example =
    resolve-IsPrivate (codes "/home/dev") (some (codes "/tmp/cache"))
      (some (codes "~/.cache/clift/inbox")) rejected home-IsPrivate public_cache_valid
      public_cache_rejected

-- A home directory that is itself below a public one is not looked at.
public_home : InboxLocation
public_home = record {
  root = codes "/tmp/dev/.cache/clift/inbox";
  home = codes "/tmp/dev";
  source = home_default;
  known_cache_home = some (codes "/tmp/dev/.cache");
}

public_home_kept : resolve (codes "/tmp/dev") none none ≡ ok public_home
unfolding resolve public_home
public_home_kept = refl
