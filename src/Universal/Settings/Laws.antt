-- ===== src/Universal/Settings/Laws.antt =====
-- What a `RelaySettings` that was accepted holds.
use clift.Base.{ℕ, Bool, ◌≤◌, ◌<◌, ◌≡◌, refl, true, false, ◌||◌, [], ◌∷◌, arith}
use clift.Base.{if◌then◌else◌, Str, codes, ok}
use clift.Base.Text.{trim, trim_end_by, strip_prefix, is_whitespace, is_control}
use clift.Domain.SafeName.{any, begins_in, is_empty}
use clift.Domain.SafeName.Repair.{ends_in, trim_id, trim_end_id}
use clift.Relayd.Address.{Duration}
use clift.Universal.Settings.{RelaySettings, new, checked, trimmed, begins, is_slash, max_ttl}

-- The URL is in its trimmed form, and has no white space and no control character; both numbers are
-- in their ranges.
pub record IsValid (s : RelaySettings) : Type 0 where
  pub no_slash : ends_in is_slash s.url ≡ false
  pub scheme : (begins s.url (codes "http://") || begins s.url (codes "https://")) ≡ true
  pub no_space : any is_whitespace s.url ≡ false
  pub no_control : any is_control s.url ≡ false
  pub some_bytes : 0 < s.max_object_bytes
  pub some_time : 0 < s.ttl
  pub short : s.ttl ≤ max_ttl

trim_end_stops : (s : Str) → ends_in is_slash (trim_end_by is_slash s) ≡ false
unfolding trim_end_by
trim_end_stops [] = refl
trim_end_stops (c ∷ s) = go (trim_end_by is_slash s) (trim_end_stops s)
  where
    go :
        (rest : Str)
        → ends_in is_slash rest ≡ false
        → ends_in is_slash
            (elim rest [ [] ↦ if is_slash c then [] else c ∷ [] | d ∷ more ↦ c ∷ d ∷ more ])
          ≡ false
    go [] h = ground arith
    go (d ∷ more) h = h

checked-eq-ok :
    (url : Str) (max_object_bytes : ℕ) (ttl : Duration) (s : RelaySettings)
    → ends_in is_slash url ≡ false
    → checked url max_object_bytes ttl ≡ ok s
    → IsValid s × (s ≡ record { url = url; max_object_bytes = max_object_bytes; ttl = ttl })
checked-eq-ok url max_object_bytes ttl s plain h =
    let made : s ≡ record { url = url; max_object_bytes = max_object_bytes; ttl = ttl } =
      ground arith in
    (ground arith, made)

any-begins_in : (p : ℕ → Bool) (s : Str) → any p s ≡ false → begins_in p s ≡ false
any-begins_in p [] h = refl
any-begins_in p (c ∷ s) h = ground arith

any-ends_in : (p : ℕ → Bool) (s : Str) → any p s ≡ false → ends_in p s ≡ false
any-ends_in p [] h = refl
any-ends_in p (c ∷ []) h = ground arith
any-ends_in p (c ∷ d ∷ s) h = any-ends_in p (d ∷ s) (ground arith)

trimmed_id : (s : RelaySettings) → IsValid s → trimmed s.url ≡ s.url
unfolding trimmed
trimmed_id s v =
    rw
      (trim_id s.url (any-begins_in is_whitespace s.url v.no_space)
        (any-ends_in is_whitespace s.url v.no_space))
      (trim_end_id is_slash s.url v.no_slash)

scheme_some :
    (url : Str)
    → (begins url (codes "http://") || begins url (codes "https://")) ≡ true
    → is_empty url ≡ false
scheme_some [] h = unfold strip_prefix in cc h
scheme_some (c ∷ url) h = refl

checked-IsValid : (s : RelaySettings) → IsValid s → checked s.url s.max_object_bytes s.ttl ≡ ok s
checked-IsValid s v = ground (arith, scheme_some s.url v.scheme)

-- Settings that were accepted are valid, and giving their parts again yields the same settings.
pub new-IsValid :
    (url : Str) (max_object_bytes : ℕ) (ttl : Duration) (s : RelaySettings)
    → new url max_object_bytes ttl ≡ ok s
    → IsValid s × (new s.url s.max_object_bytes s.ttl ≡ ok s)
unfolding new
new-IsValid url max_object_bytes ttl s h =
    let plain : ends_in is_slash (trimmed url) ≡ false =
      unfold trimmed in trim_end_stops (trim url) in
    let (valid, made) = checked-eq-ok (trimmed url) max_object_bytes ttl s plain h in
    (valid, rw (trimmed_id s valid) (checked-IsValid s valid))
