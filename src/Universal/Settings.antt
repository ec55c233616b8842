-- ===== src/Universal/Settings.antt =====
-- `RelaySettings` of crates/clift-core/src/universal/mod.rs.
pub mod Laws
use clift.Base.{ℕ, ◌*◌, Bool, not, ◌||◌}
use clift.Base.{ltb, eqb, if◌then◌else◌, Str, codes, Result, ok, err}
use clift.Base.Text.{trim, trim_end_by, strip_prefix, is_some, is_whitespace, is_control}
use clift.Domain.SafeName.{any, is_empty}
use clift.Error.{CliftError, ErrorKind, relay_error}
use clift.Relayd.Address.{Duration, from_secs}

-- `DEFAULT_MAX_OBJECT_BYTES`
abbrev pub default_max_object_bytes : ℕ
default_max_object_bytes = 8 * 1024 * 1024

-- `DEFAULT_TTL`
abbrev pub default_ttl : Duration
default_ttl = from_secs (5 * 60)

-- `MAX_TTL`
abbrev pub max_ttl : Duration
max_ttl = from_secs (60 * 60)

pub record RelaySettings : Type 0 where
  pub url : Str
  pub max_object_bytes : ℕ
  pub ttl : Duration

abbrev pub config_error : CliftError
config_error = relay_error ErrorKind.config

-- `starts_with`
abbrev pub begins : Str → Str → Bool
begins text prefix = is_some (strip_prefix prefix text)

abbrev pub is_slash : ℕ → Bool
is_slash c = eqb c b'/'

-- `url.trim().trim_end_matches('/')`
unfoldable pub trimmed : Str → Str
unfolding trim trim_end_by
trimmed url = trim_end_by is_slash (trim url)

abbrev pub checked : Str → ℕ → Duration → Result RelaySettings CliftError
checked url max_object_bytes ttl =
    if is_empty url
    then err config_error
    else if not (begins url (codes "http://") || begins url (codes "https://"))
    then err config_error
    else if any is_whitespace url || any is_control url
    then err config_error
    else if eqb max_object_bytes 0
    then err config_error
    else if eqb ttl 0
    then err config_error
    else if ltb max_ttl ttl
    then err config_error
    else ok (record { url = url; max_object_bytes = max_object_bytes; ttl = ttl })

unfoldable pub new : Str → ℕ → Duration → Result RelaySettings CliftError
unfolding trimmed strip_prefix
new url max_object_bytes ttl = checked (trimmed url) max_object_bytes ttl
