-- ===== src/Base/Reader.antt =====
-- A cursor over bytes: what a read takes is the bytes that are left, and it returns those that are left
-- after it. Each read yields exactly what it promised or fails.
use Prim.Native.Nat.{ℕ, ◌<◌, ◌^◌}
use mathlib.Core.Path.{◌≡◌, refl, ap, sym, ◌∙◌}
use mathlib.Core.Bool.{Bool, true, false}
use mathlib.Core.List.{List, [], ◌++◌, append_assoc}
use native.Mathlib.Omega.{arith}
use clift.Base.Tests.{ltb, le→not_ltb, if◌then◌else◌}
use clift.Base.Lists.{
  length, length-append, take, drop, take-append_self, drop-append_self, take-append-drop,
  length-take, All, All-append_inv,
}
use clift.Base.Fallible.{Result, ok, err}
use clift.Base.Bytes.{
  be_bytes, from_be, length-be_bytes, from_be-be_bytes, be_bytes-from_be, from_be-lt, IsByte,
}

abbrev pub Reads {ℓ κ} : Type ℓ → Type κ → Type (ℓ ⊔ κ)
Reads A E = List ℕ → Result (A × List ℕ) E

infixl 5 ◌>>=◌ ◌>>◌
abbrev pub ◌>>=◌ {ℓ κ μ} :
    {A : Type ℓ} {B : Type κ} {E : Type μ} → Reads A E → (A → Reads B E) → Reads B E
◌>>=◌ read next left = elim (read left) [ ok (a, rest) ↦ next a rest | err e ↦ err e ]

abbrev pub ◌>>◌ {κ μ} : {B : Type κ} {E : Type μ} → Reads (Unit {0}) E → Reads B E → Reads B E
◌>>◌ first next = first >>= λ _. next

pub >>=-ok {ℓ κ μ} :
    {A : Type ℓ} {B : Type κ} {E : Type μ} (read : Reads A E) (next : A → Reads B E) (left : List ℕ)
    {a : A} {between : List ℕ}
    → read left ≡ ok (a, between)
    → (read >>= next) left ≡ next a between
>>=-ok read next left h = rw (h, ◌>>=◌)

-- A value found without reading, or an early return of its error.
abbrev pub lift {ℓ κ} : {A : Type ℓ} {E : Type κ} → Result A E → Reads A E
lift (ok a) left = ok (a, left)
lift (err e) left = err e

abbrev pub pure {ℓ κ} : {A : Type ℓ} {E : Type κ} → A → Reads A E
pure a left = ok (a, left)

-- `if !condition { return Err(error) }`
abbrev pub guard {κ} : {E : Type κ} → Bool → E → Reads (Unit {0}) E
guard true e left = ok (tt, left)
guard false e left = err e

module _ {κ} {E : Type κ} where
  -- `take(count)`: the next bytes, if so many are left; `error` is what the reader says of the rest.
  unfoldable pub take_bytes : E → ℕ → Reads (List ℕ) E
  take_bytes error count left =
      if ltb (length left) count then err error else ok (take count left, drop count left)

  -- An integer of so many bytes.
  unfoldable pub take_be : E → ℕ → Reads ℕ E
  unfolding take_bytes
  take_be error width = take_bytes error width >>= λ bytes. pure (from_be bytes)

  pub take_bytes-append :
      (error : E) (bytes rest : List ℕ)
      → take_bytes error (length bytes) (bytes ++ rest) ≡ ok (bytes, rest)
  unfolding take_bytes
  take_bytes-append error bytes rest = rw (
    le→not_ltb (length (bytes ++ rest)) (length bytes) (omega (arith, length-append bytes rest)),
    take-append_self bytes rest,
    drop-append_self bytes rest,
  )

  pub take_be-be_bytes :
      (error : E) (width n : ℕ) (rest : List ℕ)
      → n < 256 ^ width
      → take_be error width (be_bytes width n ++ rest) ≡ ok (n, rest)
  unfolding take_be
  take_be-be_bytes error width n rest h =
      let taken : take_bytes error width (be_bytes width n ++ rest) ≡ ok (be_bytes width n, rest) =
        rw (length-be_bytes width n) at (take_bytes-append error (be_bytes width n) rest) in
      rw (
        >>=-ok (take_bytes error width) _ (be_bytes width n ++ rest) taken,
        from_be-be_bytes width n h,
      )

-- A read that succeeds does the same, however much more stands behind what it was given.
abbrev pub IsLocal {ℓ κ} : {A : Type ℓ} {E : Type κ} → Reads A E → Type (ℓ ⊔ κ)
IsLocal {A} read =
    (left more : List ℕ) (a : A) (rest : List ℕ)
    → read left ≡ ok (a, rest)
    → read (left ++ more) ≡ ok (a, rest ++ more)

pub pure-IsLocal {ℓ κ} : {A : Type ℓ} {E : Type κ} (a : A) → IsLocal {E = E} (pure a)
pure-IsLocal a left more b rest h = ground arith

pub lift-IsLocal {ℓ κ} : {A : Type ℓ} {E : Type κ} (r : Result A E) → IsLocal (lift r)
lift-IsLocal (ok a) left more b rest h = ground arith
lift-IsLocal (err e) left more b rest h = cc

pub guard-IsLocal {κ} : {E : Type κ} (b : Bool) (e : E) → IsLocal (guard b e)
guard-IsLocal true e left more b rest h = ground arith
guard-IsLocal false e left more b rest h = cc

pub >>=-eq-ok {ℓ κ μ} :
    {A : Type ℓ} {B : Type κ} {E : Type μ} (read : Reads A E) (next : A → Reads B E) (left : List ℕ)
    {b : B} {rest : List ℕ}
    → (read >>= next) left ≡ ok (b, rest)
    → (a : A) × (between : List ℕ) × (read left ≡ ok (a, between)) × (next a between ≡ ok (b, rest))
>>=-eq-ok {A} read next left {b} {rest} h = go (read left) refl h
  where
    go :
        (r : Result (A × List ℕ) _)
        → read left ≡ r
        → elim r [ ok (a, between) ↦ next a between | err e ↦ err e ] ≡ ok (b, rest)
        → (a : A) × (between : List ℕ) × (read left ≡ ok (a, between))
          × (next a between ≡ ok (b, rest))
    go (ok (a, between)) e k = (a, between, e, k)
    go (err e) q k = cc

pub >>=-IsLocal {ℓ κ μ} :
    {A : Type ℓ} {B : Type κ} {E : Type μ} (read : Reads A E) (next : A → Reads B E)
    → IsLocal read
    → ((a : A) → IsLocal (next a))
    → IsLocal (read >>= next)
>>=-IsLocal read next first later left more b rest h =
    let (a, between, e, k) = >>=-eq-ok read next left h in
    >>=-ok read next (left ++ more) (first left more a between e) ∙ later a between more b rest k

module _ {κ} {E : Type κ} where
  pub take_bytes-eq-ok :
      (error : E) (count : ℕ) (left bytes rest : List ℕ)
      → take_bytes error count left ≡ ok (bytes, rest)
      → (bytes ++ rest ≡ left) × (length bytes ≡ count)
  unfolding take_bytes
  take_bytes-eq-ok error count left bytes rest h =
      ground (arith, take-append-drop count left, length-take count left)

  pub take_bytes-IsLocal : (error : E) (count : ℕ) → IsLocal (take_bytes error count)
  take_bytes-IsLocal error count left more bytes rest h =
      let (whole, size) = take_bytes-eq-ok error count left bytes rest h in
      rw (← whole, ← size, append_assoc bytes rest more)
        (take_bytes-append error bytes (rest ++ more))

  pub take_be-IsLocal : (error : E) (width : ℕ) → IsLocal (take_be error width)
  unfolding take_be
  take_be-IsLocal error width =
      >>=-IsLocal (take_bytes error width) (λ bytes. pure (from_be bytes))
        (take_bytes-IsLocal error width) (λ bytes. pure-IsLocal (from_be bytes))

  pub take_be-eq-ok :
      (error : E) (width : ℕ) (left : List ℕ) (n : ℕ) (rest : List ℕ)
      → take_be error width left ≡ ok (n, rest)
      → (bytes : List ℕ) × (bytes ++ rest ≡ left) × (length bytes ≡ width) × (from_be bytes ≡ n)
  unfolding take_be
  take_be-eq-ok error width left n rest h =
      let (bytes, between, e, k) =
        >>=-eq-ok (take_bytes error width) (λ bytes. pure (from_be bytes)) left h in
      let (whole, size) = take_bytes-eq-ok error width left bytes between e in
      (bytes, ground (arith, whole), size, ground arith)

pub lift-eq-ok {ℓ κ} :
    {A : Type ℓ} {E : Type κ} (r : Result A E) (left : List ℕ) (a : A) (rest : List ℕ)
    → lift r left ≡ ok (a, rest)
    → (r ≡ ok a) × (left ≡ rest)
lift-eq-ok (ok b) left a rest h = (ground arith, ground arith)
lift-eq-ok (err e) left a rest h = cc

-- A condition that lets the reading go on.
pub guard-eq-ok {ℓ κ} :
    {A : Type ℓ} {E : Type κ} (b : Bool) (e : E) (next : Reads A E) (left : List ℕ) {a : A}
    {rest : List ℕ}
    → (guard b e >> next) left ≡ ok (a, rest)
    → (b ≡ true) × (next left ≡ ok (a, rest))
guard-eq-ok true e next left h = (refl, h)
guard-eq-ok false e next left h = cc

module _ {κ} {E : Type κ} where
  -- An integer that was read stands in front of what is left, in its own bytes.
  pub take_be_canonical :
      (error : E) (width : ℕ) (left : List ℕ) (n : ℕ) (rest : List ℕ)
      → All IsByte left
      → take_be error width left ≡ ok (n, rest)
      → (left ≡ be_bytes width n ++ rest) × (n < 256 ^ width) × All IsByte rest
  take_be_canonical error width left n rest h e =
      let (bytes, whole, size, value) = take_be-eq-ok error width left n rest e in
      let (front, back) = All-append_inv IsByte bytes rest (rw whole h) in
      let spelled : be_bytes width n ≡ bytes =
        ap (be_bytes width) (sym value) ∙ be_bytes-from_be width bytes size front in
      let small : from_be bytes < 256 ^ width = rw size at (from_be-lt bytes front) in
      (rw spelled (sym whole), rw value at small, back)

  pub take_bytes_canonical :
      (error : E) (count : ℕ) (left bytes rest : List ℕ)
      → All IsByte left
      → take_bytes error count left ≡ ok (bytes, rest)
      → (left ≡ bytes ++ rest) × (length bytes ≡ count) × All IsByte rest
  take_bytes_canonical error count left bytes rest h e =
      let (whole, size) = take_bytes-eq-ok error count left bytes rest e in
      (sym whole, size, (All-append_inv IsByte bytes rest (rw whole h)).1)

-- What a read makes of some bytes, whatever stands behind them.
pub record Takes {ℓ κ} {A : Type ℓ} {E : Type κ} (read : Reads A E) (bytes : List ℕ) (a : A)
    : Type (ℓ ⊔ κ) where
  pub taken : (rest : List ℕ) → read (bytes ++ rest) ≡ ok (a, rest)

pub pure-Takes {ℓ κ} : {A : Type ℓ} {E : Type κ} (a : A) → Takes {E = E} (pure a) [] a
pure-Takes a = record { taken = λ rest. refl }

pub >>=-Takes {ℓ κ μ} :
    {A : Type ℓ} {B : Type κ} {E : Type μ} {read : Reads A E} (next : A → Reads B E)
    {front back : List ℕ} {a : A} {b : B}
    → Takes read front a
    → Takes (next a) back b
    → Takes (read >>= next) (front ++ back) b
>>=-Takes {read} next {front} {back} first second = record {
  taken = λ rest.
      >>=-ok read next ((front ++ back) ++ rest)
        (ap read (append_assoc front back rest) ∙ first.taken (back ++ rest))
      ∙ second.taken rest;
}

pub >>=-pure-Takes {ℓ κ μ} :
    {A : Type ℓ} {B : Type κ} {E : Type μ} {read : Reads A E} (f : A → B) {bytes : List ℕ} {a : A}
    → Takes read bytes a
    → Takes (read >>= λ a. pure (f a)) bytes (f a)
>>=-pure-Takes {read} f {bytes} first = record {
  taken = λ rest. >>=-ok read (λ a. pure (f a)) (bytes ++ rest) (first.taken rest);
}
