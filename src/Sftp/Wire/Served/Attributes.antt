-- ===== src/Sftp/Wire/Served/Attributes.antt =====
-- Texts and attribute blocks as a server of the protocol's draft writes them, and what is read of them.
use clift.Base.{
  ℕ, ◌+◌, ◌^◌, ◌<◌, ◌≡◌, arith, Bool, true, false, Option, none, some, List, [], ◌∷◌, ◌++◌,
}
use clift.Base.{if◌then◌else◌, length, All}
use clift.Base.Text.{is_some}
use clift.Base.Bytes.{be_bytes}
use clift.Base.Reader.{
  ◌>>=◌, ◌>>◌, take_bytes, pure-Takes, pure, Takes, >>=-Takes, >>=-pure-Takes, take_be-be_bytes,
  take_bytes-append,
}
use clift.Sftp.Wire.{
  Wire, ended_early, Attrs, attr_size, attr_uidgid, attr_permissions, attr_acmodtime, attr_extended,
  has, optional, when, unit_after, skip_pairs, read_u32, read_u64, read_bytes, read_attrs,
}
use clift.Sftp.Wire.Build.{field}

-- A text that a length of four bytes can stand for.
abbrev pub Fits : List ℕ → Type 0
Fits bytes = length bytes < 256 ^ 4

pub u32-Takes : (n : ℕ) → n < 256 ^ 4 → Takes read_u32 (be_bytes 4 n) n
u32-Takes n h = record { taken = λ rest. take_be-be_bytes ended_early 4 n rest h }

pub u64-Takes : (n : ℕ) → n < 256 ^ 8 → Takes read_u64 (be_bytes 8 n) n
u64-Takes n h = record { taken = λ rest. take_be-be_bytes ended_early 8 n rest h }

pub field-Takes : (bytes : List ℕ) → Fits bytes → Takes read_bytes (field bytes) bytes
unfolding field read_bytes
field-Takes bytes h =
    >>=-Takes (take_bytes ended_early) (u32-Takes (length bytes) h)
      (record { taken = λ rest. take_bytes-append ended_early bytes rest })

pub unit_after-Takes :
    {A : Type 0} {read : Wire A} {bytes : List ℕ} {a : A}
    → Takes read bytes a
    → Takes (unit_after read) bytes tt
unit_after-Takes h = >>=-pure-Takes (λ a. tt) h

-- The attributes that the draft has: the owner and its group, the times of the last access and modification, and pairs of
-- texts for extensions.
pub record Block : Type 0 where
  pub size : Option ℕ
  pub owner : Option (ℕ × ℕ)
  pub permissions : Option ℕ
  pub times : Option (ℕ × ℕ)
  pub extended : Option (List (List ℕ × List ℕ))

abbrev pub maybe : {A : Type 0} → (A → List ℕ) → Option A → List ℕ
maybe f none = []
maybe f (some a) = f a

abbrev pub both : ℕ × ℕ → List ℕ
both (m, n) = be_bytes 4 m ++ be_bytes 4 n

abbrev pub pairs : List (List ℕ × List ℕ) → List ℕ
pairs [] = []
pairs ((name, value) ∷ more) = (field name ++ field value) ++ pairs more

abbrev pub extensions : List (List ℕ × List ℕ) → List ℕ
extensions more = be_bytes 4 (length more) ++ pairs more

-- What is asked of a part that is there.
abbrev pub Every : {A : Type 0} → (A → Type 0) → Option A → Type 0
Every P none = Unit {0}
Every P (some a) = P a

abbrev pub Small : ℕ × ℕ → Type 0
Small (m, n) = (m < 256 ^ 4) × (n < 256 ^ 4)

abbrev pub FitPair : List ℕ × List ℕ → Type 0
FitPair (name, value) = Fits name × Fits value

abbrev pub Listed : List (List ℕ × List ℕ) → Type 0
Listed more = (length more < 256 ^ 4) × All FitPair more

abbrev mtime_of : Option (ℕ × ℕ) → Option ℕ
mtime_of none = none
mtime_of (some (atime, mtime)) = some mtime

abbrev bit : Bool → ℕ → ℕ
bit b n = if b then n else 0

-- The flags, of the parts that are there.
abbrev flags_of : Bool → Bool → Bool → Bool → Bool → ℕ
flags_of size owner permissions times extended =
    bit size attr_size
    + bit owner attr_uidgid
    + bit permissions attr_permissions
    + bit times attr_acmodtime
    + bit extended attr_extended

abbrev pub flags : Block → ℕ
flags a =
    flags_of (is_some a.size) (is_some a.owner) (is_some a.permissions) (is_some a.times)
      (is_some a.extended)

abbrev pub block_parts : Block → List ℕ
block_parts a =
    maybe (be_bytes 8) a.size
    ++ ((maybe both a.owner ++ maybe (be_bytes 4) a.permissions)
        ++ (maybe both a.times ++ maybe extensions a.extended))

abbrev pub block_bytes : Block → List ℕ
block_bytes a = be_bytes 4 (flags a) ++ block_parts a

record Flagged (s o p t e : Bool) : Type 0 where
  size : has (flags_of s o p t e) attr_size ≡ s
  owner : has (flags_of s o p t e) attr_uidgid ≡ o
  permissions : has (flags_of s o p t e) attr_permissions ≡ p
  times : has (flags_of s o p t e) attr_acmodtime ≡ t
  extended : has (flags_of s o p t e) attr_extended ≡ e
  small : flags_of s o p t e < 256 ^ 4

flags-Flagged : (s o p t e : Bool) → Flagged s o p t e
flags-Flagged s o p t e = record {
  size = ground arith;
  owner = ground arith;
  permissions = ground arith;
  times = ground arith;
  extended = ground arith;
  small = ground arith;
}

-- A block whose numbers and texts have their widths.
pub record IsBlock (a : Block) : Type 0 where
  pub size : Every (λ n. n < 256 ^ 8) a.size
  pub owner : Every Small a.owner
  pub permissions : Every (λ n. n < 256 ^ 4) a.permissions
  pub times : Every Small a.times
  pub extended : Every Listed a.extended

-- What is kept of a block.
abbrev pub kept : Block → Attrs
kept a = record { size = a.size; permissions = a.permissions; mtime = mtime_of a.times }

optional-Takes :
    {A : Type 0} {read : Wire A} (f : A → List ℕ) (P : A → Type 0) (o : Option A) {there : Bool}
    → there ≡ is_some o
    → ((a : A) → P a → Takes read (f a) a)
    → Every P o
    → Takes (optional there read) (maybe f o) o
optional-Takes f P none {there = true} e h p = cc e
optional-Takes f P none {there = false} e h p = pure-Takes none
optional-Takes f P (some a) {there = true} e h p = >>=-pure-Takes some (h a p)
optional-Takes f P (some a) {there = false} e h p = cc e

when-Takes :
    {A : Type 0} {read : Wire (Unit {0})} (f : A → List ℕ) (P : A → Type 0) (o : Option A)
    {there : Bool}
    → there ≡ is_some o
    → ((a : A) → P a → Takes read (f a) tt)
    → Every P o
    → Takes (when there read) (maybe f o) tt
when-Takes f P none {there = true} e h p = cc e
when-Takes f P none {there = false} e h p = pure-Takes tt
when-Takes f P (some a) {there = true} e h p = h a p
when-Takes f P (some a) {there = false} e h p = cc e

times-Takes :
    (o : Option (ℕ × ℕ)) {there : Bool}
    → there ≡ is_some o
    → Every Small o
    → Takes (optional there (unit_after read_u32 >> read_u32)) (maybe both o) (mtime_of o)
times-Takes none {there = true} e p = cc e
times-Takes none {there = false} e p = pure-Takes none
times-Takes (some (m, n)) {there = true} e (p, q) =
    >>=-pure-Takes some
      (>>=-Takes (λ _. read_u32) (unit_after-Takes (u32-Takes m p)) (u32-Takes n q))
times-Takes (some (m, n)) {there = false} e p = cc e

owner-Takes : (o : ℕ × ℕ) → Small o → Takes (unit_after read_u32 >> unit_after read_u32) (both o) tt
owner-Takes (m, n) (p, q) =
    >>=-Takes (λ _. unit_after read_u32) (unit_after-Takes (u32-Takes m p))
      (unit_after-Takes (u32-Takes n q))

pairs-Takes :
    (more : List (List ℕ × List ℕ))
    → All FitPair more
    → Takes (skip_pairs (length more)) (pairs more) tt
unfolding skip_pairs
pairs-Takes [] h = pure-Takes tt
pairs-Takes ((name, value) ∷ more) ((p, q), h) =
    >>=-Takes (λ _. skip_pairs (length more))
      (>>=-Takes (λ _. unit_after read_bytes) (unit_after-Takes (field-Takes name p))
        (unit_after-Takes (field-Takes value q)))
      (pairs-Takes more h)

extensions-Takes :
    (more : List (List ℕ × List ℕ))
    → Listed more
    → Takes (read_u32 >>= λ count. skip_pairs count) (extensions more) tt
extensions-Takes more (p, h) = >>=-Takes skip_pairs (u32-Takes (length more) p) (pairs-Takes more h)

-- The end of the block.
abbrev ending_part : ℕ → Option ℕ → Option ℕ → Option ℕ → Wire Attrs
ending_part flags size permissions mtime =
    when (has flags attr_extended) (read_u32 >>= λ count. skip_pairs count)
    >> pure (record { size = size; permissions = permissions; mtime = mtime })

abbrev later_part : ℕ → Option ℕ → Option ℕ → Wire Attrs
later_part flags size permissions =
    optional (has flags attr_acmodtime) (unit_after read_u32 >> read_u32)
    >>= ending_part flags size permissions

abbrev middle_part : ℕ → Option ℕ → Wire Attrs
middle_part flags size =
    when (has flags attr_uidgid) (unit_after read_u32 >> unit_after read_u32)
    >> optional (has flags attr_permissions) read_u32
    >>= later_part flags size

pub block-Takes : (a : Block) → IsBlock a → Takes read_attrs (block_bytes a) (kept a)
unfolding read_attrs
block-Takes a h =
    let flagged =
      flags-Flagged (is_some a.size) (is_some a.owner) (is_some a.permissions) (is_some a.times)
        (is_some a.extended) in
    >>=-Takes (λ flags. optional (has flags attr_size) read_u64 >>= middle_part flags)
      (u32-Takes (flags a) flagged.small)
      (>>=-Takes (middle_part (flags a))
        (optional-Takes (be_bytes 8) (λ n. n < 256 ^ 8) a.size flagged.size u64-Takes h.size)
        (>>=-Takes (later_part (flags a) a.size)
          (>>=-Takes (λ _. optional (has (flags a) attr_permissions) read_u32)
            (when-Takes both Small a.owner flagged.owner owner-Takes h.owner)
            (optional-Takes (be_bytes 4) (λ n. n < 256 ^ 4) a.permissions flagged.permissions
              u32-Takes h.permissions))
          (>>=-Takes (ending_part (flags a) a.size a.permissions)
            (times-Takes a.times flagged.times h.times)
            (>>=-pure-Takes (λ _. kept a)
              (when-Takes extensions Listed a.extended flagged.extended extensions-Takes
                h.extended)))))
