-- ===== src/Base/Utf8/Sound.antt =====
-- `String::from_utf8` accepts no bytes but those of the text that it returns.
use Prim.Native.Nat.{ℕ, suc, ◌+◌, ◌-◌, ◌*◌, ◌≤◌, ◌<◌}
use mathlib.Core.Path.{◌≡◌, refl, ap, ◌∙◌, subst}
use mathlib.Core.Logic.{◌⊎◌, inl, inr}
use mathlib.Core.Bool.{◌&&◌}
use mathlib.Core.Option.{Option, none, some}
use mathlib.Core.List.{List, [], ◌∷◌, ◌++◌, append_assoc}
use native.Mathlib.Omega.{arith}
use clift.Base.Tests.{ltb, leb, Str, Bool-cases, ltb→lt}
use clift.Base.Lists.{All}
use clift.Base.Utf8.{IsChar, encode_char, utf8, scan_utf8, from_utf8, onto, is_tail, is_char}

-- What a scan found is a text with these bytes.
abbrev Spells : List ℕ → Option Str → Type 0
Spells bytes none = Unit
Spells bytes (some s) = (utf8 s ≡ bytes) × All IsChar s

onto-Spells :
    (c : ℕ) (front rest : List ℕ) (o : Option Str)
    → encode_char c ≡ front
    → IsChar c
    → Spells rest o
    → Spells (front ++ rest) (onto c o)
unfolding utf8
onto-Spells c front rest none e is h = tt
onto-Spells c front rest (some s) e is (h, k) =
    (ap (λ l. l ++ utf8 s) e ∙ ap (λ l. front ++ l) h, (is, k))

abbrev First : ℕ → List ℕ → Type 0
First b s =
    ((b < 0x80) × (scan_utf8 0 0 0 (b ∷ s) ≡ onto b (scan_utf8 0 0 0 s)))
    ⊎ ((0xc0 ≤ b) × (b < 0xe0) × (scan_utf8 0 0 0 (b ∷ s) ≡ scan_utf8 1 (b - 0xc0) 0x80 s))
    ⊎ ((0xe0 ≤ b) × (b < 0xf0) × (scan_utf8 0 0 0 (b ∷ s) ≡ scan_utf8 2 (b - 0xe0) 0x800 s))
    ⊎ ((0xf0 ≤ b) × (b < 0xf8) × (scan_utf8 0 0 0 (b ∷ s) ≡ scan_utf8 3 (b - 0xf0) 0x10000 s))
    ⊎ (scan_utf8 0 0 0 (b ∷ s) ≡ none)

first : (b : ℕ) (s : List ℕ) → First b s
unfolding scan_utf8
first b s = elim (Bool-cases (ltb b 0x80)) [
  | inl p ↦ inl (ltb→lt b 0x80 p, rw p)
  | inr p ↦ elim (Bool-cases (ltb b 0xc0)) [
    | inl q ↦ inr (inr (inr (inr (rw (p, q)))))
    | inr q ↦ elim (Bool-cases (ltb b 0xe0)) [
      | inl r ↦ inr (inl (ground arith, ltb→lt b 0xe0 r, rw (p, q, r)))
      | inr r ↦ elim (Bool-cases (ltb b 0xf0)) [
        | inl t ↦ inr (inr (inl (ground arith, ltb→lt b 0xf0 t, rw (p, q, r, t))))
        | inr t ↦ elim (Bool-cases (ltb b 0xf8)) [
          | inl u ↦ inr (inr (inr (inl (ground arith, ltb→lt b 0xf8 u, rw (p, q, r, t, u)))))
          | inr u ↦ inr (inr (inr (inr (rw (p, q, r, t, u)))))
        ]
      ]
    ]
  ]
]

inner :
    (need acc low b : ℕ) (s : List ℕ)
    → ((0x80 ≤ b)
        × (b < 0xc0)
        × (scan_utf8 (suc (suc need)) acc low (b ∷ s)
            ≡ scan_utf8 (suc need) (acc * 0x40 + (b - 0x80)) low s))
      ⊎ (scan_utf8 (suc (suc need)) acc low (b ∷ s) ≡ none)
unfolding scan_utf8
inner need acc low b s = elim (Bool-cases (is_tail b)) [
  | inl p ↦ inl (ground arith, ground arith, rw p)
  | inr p ↦ inr (rw p)
]

abbrev joined : ℕ → ℕ → ℕ
joined acc b = acc * 0x40 + (b - 0x80)

last :
    (acc low b : ℕ) (s : List ℕ)
    → ((0x80 ≤ b)
        × (b < 0xc0)
        × (low ≤ joined acc b)
        × IsChar (joined acc b)
        × (scan_utf8 1 acc low (b ∷ s) ≡ onto (joined acc b) (scan_utf8 0 0 0 s)))
      ⊎ (scan_utf8 1 acc low (b ∷ s) ≡ none)
unfolding scan_utf8
last acc low b s =
    elim (Bool-cases (is_tail b && leb low (joined acc b) && is_char (joined acc b))) [
      | inl p ↦ inl (ground arith, ground arith, ground arith, ground arith, rw p)
      | inr p ↦ inr (rw p)
    ]

two :
    (b b' : ℕ)
    → 0xc0 ≤ b
    → b < 0xe0
    → 0x80 ≤ b'
    → b' < 0xc0
    → 0x80 ≤ joined (b - 0xc0) b'
    → encode_char (joined (b - 0xc0) b') ≡ b ∷ b' ∷ []
two b b' h k l m low = ground arith

three :
    (b b' b'' : ℕ)
    → 0xe0 ≤ b
    → b < 0xf0
    → 0x80 ≤ b'
    → b' < 0xc0
    → 0x80 ≤ b''
    → b'' < 0xc0
    → 0x800 ≤ joined (joined (b - 0xe0) b') b''
    → encode_char (joined (joined (b - 0xe0) b') b'') ≡ b ∷ b' ∷ b'' ∷ []
three b b' b'' h k l m n o low = ground arith

four :
    (b b' b'' b''' : ℕ)
    → 0xf0 ≤ b
    → b < 0xf8
    → 0x80 ≤ b'
    → b' < 0xc0
    → 0x80 ≤ b''
    → b'' < 0xc0
    → 0x80 ≤ b'''
    → b''' < 0xc0
    → 0x10000 ≤ joined (joined (joined (b - 0xf0) b') b'') b'''
    → encode_char (joined (joined (joined (b - 0xf0) b') b'') b''') ≡ b ∷ b' ∷ b'' ∷ b''' ∷ []
four b b' b'' b''' h k l m n o p q low = ground arith

none-Spells : (bytes : List ℕ) (o : Option Str) → o ≡ none → Spells bytes o
none-Spells bytes o e = rw e tt

-- The last byte of a character, after `front`.
last-Spells :
    (front : List ℕ) (acc low b : ℕ) (s : List ℕ)
    → ((c : ℕ) → c ≡ joined acc b → 0x80 ≤ b → b < 0xc0 → low ≤ c → encode_char c ≡ front ++ b ∷ [])
    → Spells s (scan_utf8 0 0 0 s)
    → Spells (front ++ b ∷ s) (scan_utf8 1 acc low (b ∷ s))
last-Spells front acc low b s spell h = elim (last acc low b s) [
  | inl (x, y, low', is, e) ↦
      rw (e, ← append_assoc front (b ∷ []) s)
        (onto-Spells (joined acc b) (front ++ b ∷ []) s (scan_utf8 0 0 0 s) (spell _ refl x y low')
          is h)
  | inr e ↦ none-Spells _ _ e
]

-- Every proper end of the bytes is read rightly.
abbrev Below : List ℕ → Type 0
Below [] = Unit
Below (b ∷ s) = Spells s (scan_utf8 0 0 0 s) × Below s

double-Spells :
    (b : ℕ) (s : List ℕ)
    → 0xc0 ≤ b
    → b < 0xe0
    → Below s
    → Spells (b ∷ s) (scan_utf8 1 (b - 0xc0) 0x80 s)
double-Spells b [] h k below = unfold scan_utf8 in tt
double-Spells b (b' ∷ s) h k (here, below) =
    last-Spells (b ∷ []) (b - 0xc0) 0x80 b' s (λ c e x y low. rw e (two b b' h k x y (rw e at low)))
      here

triple-Spells :
    (b : ℕ) (s : List ℕ)
    → 0xe0 ≤ b
    → b < 0xf0
    → Below s
    → Spells (b ∷ s) (scan_utf8 2 (b - 0xe0) 0x800 s)
triple-Spells b [] h k below = unfold scan_utf8 in tt
triple-Spells b (b' ∷ s) h k below = elim (inner 0 (b - 0xe0) 0x800 b' s) [
  | inl (x', y', e) ↦ rw e (go s below x' y')
  | inr e ↦ none-Spells _ _ e
]
  where
    go :
        (s : List ℕ)
        → Below (b' ∷ s)
        → 0x80 ≤ b'
        → b' < 0xc0
        → Spells (b ∷ b' ∷ s) (scan_utf8 1 (joined (b - 0xe0) b') 0x800 s)
    go [] below x' y' = unfold scan_utf8 in tt
    go (b'' ∷ s) (_, (here, below)) x' y' =
        last-Spells (b ∷ b' ∷ []) (joined (b - 0xe0) b') 0x800 b'' s
          (λ c e x y low. rw e (three b b' b'' h k x' y' x y (rw e at low))) here

-- The last byte of four.
fourth-Spells :
    (b b' b'' : ℕ) (s : List ℕ)
    → 0xf0 ≤ b
    → b < 0xf8
    → Below s
    → 0x80 ≤ b'
    → b' < 0xc0
    → 0x80 ≤ b''
    → b'' < 0xc0
    → Spells (b ∷ b' ∷ b'' ∷ s) (scan_utf8 1 (joined (joined (b - 0xf0) b') b'') 0x10000 s)
fourth-Spells b b' b'' [] h k below x' y' x'' y'' = unfold scan_utf8 in tt
fourth-Spells b b' b'' (b''' ∷ s) h k (here, below) x' y' x'' y'' =
    last-Spells (b ∷ b' ∷ b'' ∷ []) (joined (joined (b - 0xf0) b') b'') 0x10000 b''' s
      (λ c e x y low. rw e (four b b' b'' b''' h k x' y' x'' y'' x y (rw e at low))) here

quadruple-Spells :
    (b : ℕ) (s : List ℕ)
    → 0xf0 ≤ b
    → b < 0xf8
    → Below s
    → Spells (b ∷ s) (scan_utf8 3 (b - 0xf0) 0x10000 s)
quadruple-Spells b [] h k below = unfold scan_utf8 in tt
quadruple-Spells b (b' ∷ s) h k below = elim (inner 1 (b - 0xf0) 0x10000 b' s) [
  | inl (x', y', e) ↦ rw e (go s below x' y')
  | inr e ↦ none-Spells _ _ e
]
  where
    go :
        (s : List ℕ)
        → Below (b' ∷ s)
        → 0x80 ≤ b'
        → b' < 0xc0
        → Spells (b ∷ b' ∷ s) (scan_utf8 2 (joined (b - 0xf0) b') 0x10000 s)
    go [] below x' y' = unfold scan_utf8 in tt
    go (b'' ∷ s) (_, (_, below)) x' y' = elim (inner 0 (joined (b - 0xf0) b') 0x10000 b'' s) [
      | inl (x'', y'', e) ↦ rw e (fourth-Spells b b' b'' s h k below x' y' x'' y'')
      | inr e ↦ none-Spells _ _ e
    ]

single : (b : ℕ) → b < 0x80 → (encode_char b ≡ b ∷ []) × IsChar b
single b h = (ground arith, ground arith)

byte-Spells :
    (b : ℕ) (s : List ℕ)
    → Spells s (scan_utf8 0 0 0 s)
    → Below s
    → Spells (b ∷ s) (scan_utf8 0 0 0 (b ∷ s))
byte-Spells b s here below = elim (first b s) [
  | inl (h, e) ↦
      rw e (onto-Spells b (b ∷ []) s (scan_utf8 0 0 0 s) (single b h).0 (single b h).1 here)
  | inr (inl (h, k, e)) ↦ rw e (double-Spells b s h k below)
  | inr (inr (inl (h, k, e))) ↦ rw e (triple-Spells b s h k below)
  | inr (inr (inr (inl (h, k, e)))) ↦ rw e (quadruple-Spells b s h k below)
  | inr (inr (inr (inr e))) ↦ none-Spells _ _ e
]

scan-Spells : (bytes : List ℕ) → Spells bytes (scan_utf8 0 0 0 bytes) × Below bytes
scan-Spells [] = (unfold scan_utf8 utf8 in (refl, tt), tt)
scan-Spells (b ∷ s) =
    let (here, below) = scan-Spells s in (byte-Spells b s here below, (here, below))

-- Bytes that read as a text are the bytes of the text, and its characters are Unicode scalar values.
pub from_utf8-eq-some :
    (bytes : List ℕ) (s : Str) → from_utf8 bytes ≡ some s → (utf8 s ≡ bytes) × All IsChar s
unfolding from_utf8
from_utf8-eq-some bytes s h = subst (Spells bytes) h (scan-Spells bytes).0
