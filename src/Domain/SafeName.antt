-- ===== src/Domain/SafeName.antt =====
-- crates/clift-core/src/domain/safe_name.rs: file names that stay inside their directory. The position of
-- a byte in a text is a position between its characters, found by adding up their lengths.
pub mod Cut
pub mod Repair
pub mod Sanitized
use clift.Base.{
  ℕ, zero, suc, ◌+◌, ◌-◌, ◌≡◌, Bool, true, false, not, ◌||◌, ◌&&◌, Option, none, some, List, [],
  ◌∷◌, ◌++◌,
}
use clift.Base.{ltb, leb, eqb, ◌==◌, if◌then◌else◌, Str, str_eq, codes, all, Result, ok, err}
use clift.Base.Text.{is_control, is_whitespace, trim, trim_start_by}
use clift.Base.Utf8.{len, char_len}

-- `MAX_LEN`
abbrev pub max_len : ℕ
max_len = 255

-- `FALLBACK`
abbrev pub fallback : Str
fallback = codes "attachment"

pub data NameError : Type 0 where
  must_not_be_empty control_character path_separator traversal leading_dash too_long : NameError

abbrev pub is_separator : ℕ → Bool
is_separator c = eqb c b'/' || eqb c 0x5c

abbrev pub any : (ℕ → Bool) → Str → Bool
any p [] = false
any p (c ∷ s) = p c || any p s

abbrev pub begins_in : (ℕ → Bool) → Str → Bool
begins_in p [] = false
begins_in p (c ∷ s) = p c

abbrev pub is_dash : ℕ → Bool
is_dash c = eqb c b'-'

-- `value.starts_with('-')`
abbrev pub starts_with_dash : Str → Bool
starts_with_dash s = begins_in is_dash s

-- `value == "." || value == ".."`
abbrev pub is_traversal : Str → Bool
is_traversal s = s == codes "." || s == codes ".."

abbrev pub is_empty : Str → Bool
is_empty [] = true
is_empty (c ∷ s) = false

-- `SafeFileName::new`; the name itself is what the type holds.
unfoldable pub new : Str → Result Str NameError
new value =
    if is_empty value
    then err NameError.must_not_be_empty
    else if any is_control value
    then err NameError.control_character
    else if any is_separator value
    then err NameError.path_separator
    else if is_traversal value
    then err NameError.traversal
    else if starts_with_dash value
    then err NameError.leading_dash
    else if ltb max_len (len value)
    then err NameError.too_long
    else ok value

abbrev pub IsSafe : Str → Type 0
IsSafe s = new s ≡ ok s

abbrev dot_before : ℕ → Str → Option (Str × Str) → Option (Str × Str)
dot_before c s (some (front, back)) = some (c ∷ front, back)
dot_before c s none = if eqb c b'.' then some ([], c ∷ s) else none

-- What stands before the last dot, and what begins with it: `rfind('.')` and the two slices.
unfoldable pub last_dot : Str → Option (Str × Str)
last_dot [] = none
last_dot (c ∷ s) = dot_before c s (last_dot s)

abbrev proper : Option (Str × Str) → Option (Str × Str)
proper none = none
proper (some ([], back)) = none
proper (some (c ∷ front, [])) = none
proper (some (c ∷ front, d ∷ [])) = none
proper (some (c ∷ front, d ∷ e ∷ back)) = some (c ∷ front, d ∷ e ∷ back)

-- The stem and the extension with its dot; neither a leading dot nor a trailing one counts.
unfoldable pub stem_and_extension : Str → Str × Str
unfolding last_dot
stem_and_extension s = elim (proper (last_dot s)) [ none ↦ (s, []) | some parts ↦ parts ]

abbrev back_of : Option (Str × Str) → Option Str
back_of none = none
back_of (some (front, back)) = some back

-- `SafeFileName::extension`
unfoldable pub extension : Str → Option Str
unfolding last_dot
extension s = back_of (proper (last_dot s))

-- `str::is_char_boundary`
unfoldable pub is_char_boundary : Str → ℕ → Bool
is_char_boundary [] at = eqb at 0
is_char_boundary (c ∷ s) at =
    let rest = is_char_boundary s (at - char_len c) in
    if ltb at (char_len c) then eqb at 0 else rest

-- `while end > 0 && !text.is_char_boundary(end) { end -= 1; }`
unfoldable pub step_back : Str → ℕ → ℕ
step_back text zero = zero
step_back text (suc at) =
    let rest = step_back text at in if is_char_boundary text (suc at) then suc at else rest

-- `&text[..end]`, at a boundary.
unfoldable pub prefix : Str → ℕ → Str
prefix [] at = []
prefix (c ∷ s) at =
    let rest = prefix s (at - char_len c) in if leb (char_len c) at then c ∷ rest else []

unfoldable pub cut_to : Str → ℕ → Str
unfolding step_back
cut_to text limit = if leb (len text) limit then text else prefix text (step_back text limit)

unfoldable pub truncate : Str → Str
truncate name =
    let (stem, extension) = stem_and_extension name in
    if leb (len name) max_len
    then name
    else if leb max_len (len extension)
    then cut_to name max_len
    else cut_to stem (max_len - len extension) ++ extension

-- What stands behind the last separator: `value.rsplit(['/', '\\']).next()`.
unfoldable pub last_part : Str → Str
last_part [] = []
last_part (c ∷ s) =
    let rest = last_part s in
    if any is_separator s then rest else if is_separator c then s else c ∷ s

unfoldable pub without_control : Str → Str
without_control [] = []
without_control (c ∷ s) = let rest = without_control s in if is_control c then rest else c ∷ rest

-- `cleaned.trim().trim_start_matches('-').trim_start()`
unfoldable pub strip_edges : Str → Str
unfolding trim trim_start_by
strip_edges s = trim_start_by is_whitespace (trim_start_by is_dash (trim s))

unfoldable pub repair : Str → Str
repair value =
    let cleaned = strip_edges (without_control (last_part value)) in
    if is_empty cleaned || is_traversal cleaned then fallback else truncate cleaned

-- `unwrap_or_else(|_| Self(FALLBACK.to_string()))`
abbrev pub or_fallback : Result Str NameError → Str
or_fallback (ok name) = name
or_fallback (err e) = fallback

unfoldable pub sanitize : Str → Str
sanitize value = or_fallback (new (repair value))
