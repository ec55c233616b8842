-- ===== src/Relayd/Server/Query.antt =====
-- The parts of server.rs that read a URL.
use clift.Base.{ℕ, min, Option, none, some, List, [], ◌∷◌, String}
use clift.Base.{eqb, ◌==◌, if◌then◌else◌, Str, str_eq, codes}
use clift.Base.Text.{split_once, split, parse_u64}
use clift.Relayd.Address.{Duration, from_secs}

abbrev halves : Str → Option (Str × Str) → Str × Str
halves url none = (url, [])
halves url (some parts) = parts

unfoldable pub split_query : Str → Str × Str
split_query url = halves url (split_once b'?' url)

-- A `Result` with the message of a refusal.
pub data TtlResult : Type 0 where
  ok : Duration → TtlResult
  err : String → TtlResult

abbrev ttl_value : Option ℕ → Duration → TtlResult
ttl_value none maximum = err "ttl must be a whole number of seconds"
ttl_value (some seconds) maximum =
    if eqb seconds 0
    then err "ttl must be greater than zero"
    else ok (min (from_secs seconds) maximum)

abbrev ttl_pair : Option (Str × Str) → Duration → TtlResult → TtlResult
ttl_pair none maximum rest = rest
ttl_pair (some (key, value)) maximum rest =
    if key == codes "ttl" then ttl_value (parse_u64 value) maximum else rest

-- The loop over the pairs; an empty pair has no `=` and is passed over with the others.
unfoldable pub ttl_of_pairs : List Str → Duration → TtlResult
ttl_of_pairs [] maximum = ok maximum
ttl_of_pairs (pair ∷ pairs) maximum =
    let rest = ttl_of_pairs pairs maximum in
    elim pair [ [] ↦ rest | c ∷ text ↦ ttl_pair (split_once b'=' (c ∷ text)) maximum rest ]

unfoldable pub requested_ttl : Str → Duration → TtlResult
unfolding ttl_of_pairs
requested_ttl query maximum = ttl_of_pairs (split b'&' query) maximum
