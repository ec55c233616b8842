-- ===== src/Format/Instruction/Reader.antt =====
-- A reader of the text, written after the rules of a POSIX shell: what the text means to the far side.
use clift.Base.{
  ℕ, zero, suc, ◌≤◌, ◌≡◌, refl, ap, ◌∙◌, sym, subst, arith, Bool, true, Option, none, some, List,
  [], ◌∷◌, ◌++◌, append_assoc, append-nil,
}
use clift.Base.{
  eqb, eqb_iff, ◌||◌, if◌then◌else◌, length, length-append, Str, codes, Bool-cases, inl, inr,
}
use clift.Base.Text.{strip_prefix}
use clift.Format.Instruction.{escape, quote, one_header, many_header, items, render}

pub data Mode : Type 0 where
  plain quoted escaped : Mode

abbrev pub is_blank : ℕ → Bool
is_blank c = eqb c b' ' || eqb c b'\t' || eqb c b'\n'

abbrev pub is_quote : ℕ → Bool
is_quote c = eqb c b'\''

-- What a shell may expand, substitute or read as an operator.
abbrev pub is_special : ℕ → Bool
is_special c =
    eqb c b'"'
    || eqb c b'$'
    || eqb c b'`'
    || eqb c b'*'
    || eqb c b'?'
    || eqb c b'['
    || eqb c b'~'
    || eqb c b'#'
    || eqb c b'|'
    || eqb c b'&'
    || eqb c b';'
    || eqb c b'<'
    || eqb c b'>'
    || eqb c b'('
    || eqb c b')'

abbrev onto : ℕ → Option (Str × Str) → Option (Str × Str)
onto c none = none
onto c (some (word, rest)) = some (c ∷ word, rest)

-- One word and what stands behind it; `none` for a text that is not read literally.
unfoldable pub read_word : Mode → Str → Option (Str × Str)
read_word plain [] = some ([], [])
read_word plain (c ∷ s) =
    let inside = read_word quoted s in
    let literal = read_word escaped s in
    let further = onto c (read_word plain s) in
    if is_blank c
    then some ([], c ∷ s)
    else if is_quote c
    then inside
    else if eqb c b'\\'
    then literal
    else if is_special c
    then none
    else further
read_word quoted [] = none
read_word quoted (c ∷ s) =
    let outside = read_word plain s in
    let further = onto c (read_word quoted s) in if is_quote c then outside else further
read_word escaped [] = none
read_word escaped (c ∷ s) = onto c (read_word plain s)

abbrev and_then {ℓ κ} : {A : Type ℓ} {B : Type κ} → Option A → (A → Option B) → Option B
and_then none f = none
and_then (some a) f = f a

abbrev cons : Str → Option (List Str) → Option (List Str)
cons word none = none
cons word (some words) = some (word ∷ words)

-- As many items as there are, each a word on a line of its own.
unfoldable pub read_items : ℕ → Str → Option (List Str)
unfolding strip_prefix read_word
read_items room [] = some []
read_items zero (c ∷ s) = none
read_items (suc room) (c ∷ s) =
    and_then (strip_prefix (codes "\n- ") (c ∷ s))
      (λ text. and_then (read_word plain text) (λ (word, rest). cons word (read_items room rest)))

abbrev alone : Str × Str → Option (List Str)
alone (word, []) = some (word ∷ [])
alone (word, c ∷ rest) = none

-- The paths that an instruction names.
unfoldable pub read_paths : Str → Option (List Str)
unfolding strip_prefix read_word read_items
read_paths [] = some []
read_paths (c ∷ s) = elim (strip_prefix one_header (c ∷ s)) [
  | some text ↦ and_then (read_word plain text) alone
  | none ↦ and_then (strip_prefix many_header (c ∷ s)) (λ text. read_items (length text) text)
]

-- Where a word ends.
abbrev pub Ends : Str → Type 0
Ends [] = Unit {0}
Ends (c ∷ s) = is_blank c ≡ true

Ends-read_word : (rest : Str) → Ends rest → read_word plain rest ≡ some ([], rest)
unfolding read_word
Ends-read_word [] h = refl
Ends-read_word (c ∷ s) h = rw h refl

read_word-escape :
    (path rest : Str)
    → Ends rest
    → read_word quoted (escape path ++ b'\'' ∷ rest) ≡ some (path, rest)
unfolding read_word escape
read_word-escape [] rest h = Ends-read_word rest h
read_word-escape (c ∷ path) rest h = elim (Bool-cases (eqb c b'\'')) [
  | inl p ↦
      let e : c ≡ b'\'' = (eqb_iff c b'\'').0 p in
      rw (p, read_word-escape path rest h) (ap (λ d. some (d ∷ path, rest)) (sym e))
  | inr p ↦ rw (p, read_word-escape path rest h, p) refl
]

-- A quoted path is one word, and the word is the path, whatever its characters are.
pub read_word-quote :
    (path rest : Str) → Ends rest → read_word plain (quote path ++ rest) ≡ some (path, rest)
unfolding read_word quote
read_word-quote path rest h =
    ap (read_word quoted) (append_assoc (escape path) (b'\'' ∷ []) rest)
    ∙ read_word-escape path rest h

read_word_alone : (path : Str) → read_word plain (quote path) ≡ some (path, [])
read_word_alone path =
    subst (λ text. read_word plain text ≡ some (path, [])) (append-nil (quote path))
      (read_word-quote path [] tt)

items-Ends : (paths : List Str) → Ends (items paths)
unfolding items
items-Ends [] = tt
items-Ends (path ∷ paths) = refl

read_items-items :
    (paths : List Str) (room : ℕ)
    → length (items paths) ≤ room
    → read_items room (items paths) ≡ some paths
unfolding read_items items strip_prefix
read_items-items [] room h = refl
read_items-items (path ∷ paths) zero h = absurd (omega arith)
read_items-items (path ∷ paths) (suc room) h =
    let text = items paths in
    let short : length text ≤ room = omega (arith, length-append (quote path) text, h) in
    rw (read_word-quote path text (items-Ends paths), read_items-items paths room short) refl

-- The text that is rendered for some paths names them, in order, and nothing else.
pub read_paths-render : (paths : List Str) → read_paths (render paths) ≡ some paths
unfolding read_paths render strip_prefix quote items read_word
read_paths-render [] = refl
read_paths-render (path ∷ []) = ap (λ r. and_then r alone) (read_word_alone path)
read_paths-render (path ∷ next ∷ paths) =
    read_items-items (path ∷ next ∷ paths) (length (items (path ∷ next ∷ paths))) (omega arith)
