-- ===== src/Universal/Crypto/Envelope.antt =====
-- What `open` of crypto.rs makes of an envelope.
use clift.Base.{
  ℕ, zero, suc, ◌+◌, ◌-◌, ◌^◌, ◌≤◌, ◌<◌, ◌≡◌, refl, sym, ap, ◌∙◌, arith, Option, none, some, List,
  [], ◌∷◌, ◌++◌,
}
use clift.Base.{
  ltb, eqb, str_beq, str_beq_iff, eqb_iff, length, take, drop, take-append_self, drop-append_self,
  length-append, le→not_ltb, ok, Bool-cases, inl, inr, take-append-drop, length-take, length-drop,
}
use clift.Universal.Token.{SealKey}
use clift.Universal.Crypto.{
  Aead, seal, open_sealed, envelope, associated_data, nonce_bytes, tag_bytes, magic, sealed_len,
  min_sealed_bytes, header_bytes, opened, at, algorithm_xchacha20_poly1305,
}

drop_nil : (n : ℕ) → ◌≡◌ {A = List ℕ} (drop n []) []
drop_nil zero = refl
drop_nil (suc n) = refl

drop-drop : (m n : ℕ) (xs : List ℕ) → drop m (drop n xs) ≡ drop (n + m) xs
drop-drop m zero xs = ap (λ k. drop k xs) (omega arith)
drop-drop zero (suc n) [] = sym (drop_nil (suc n + zero))
drop-drop (suc m) (suc n) [] = sym (drop_nil (suc n + suc m))
drop-drop m (suc n) (x ∷ xs) =
    drop-drop m n xs ∙ ap (λ k. drop k (x ∷ xs)) {x = suc (n + m)} (omega arith)

drop-at : (n : ℕ) (xs : List ℕ) → n < length xs → drop n xs ≡ at n xs ∷ drop (suc n) xs
drop-at zero [] h = absurd (omega arith)
drop-at zero (x ∷ xs) h = refl
drop-at (suc n) [] h = absurd (omega arith)
drop-at (suc n) (x ∷ xs) h = drop-at n xs (omega arith)

-- What the tests of `open` find out about the bytes, put together.
envelope_whole :
    (sealed : List ℕ)
    → 32 ≤ length sealed
    → take 7 sealed ≡ magic
    → at 7 sealed ≡ algorithm_xchacha20_poly1305
    → sealed ≡ envelope (take nonce_bytes (drop 8 sealed)) (drop header_bytes sealed)
envelope_whole sealed long front algorithm =
    sym (take-append-drop 7 sealed)
    ∙ rw (front, drop-at 7 sealed (omega arith), algorithm)
        (ap (λ l. magic ++ algorithm_xchacha20_poly1305 ∷ l)
          (sym (take-append-drop nonce_bytes (drop 8 sealed))
            ∙ ap (λ l. take nonce_bytes (drop 8 sealed) ++ l) (drop-drop nonce_bytes 8 sealed)))

opened-eq-ok :
    (o : Option (List ℕ)) (plaintext : List ℕ) → opened o ≡ ok plaintext → o ≡ some plaintext
opened-eq-ok none plaintext h = cc
opened-eq-ok (some found) plaintext h = ground arith

module _ (aead : Aead) where
  -- An envelope opens to what its ciphertext decrypts to under its own nonce.
  open_sealed-envelope :
      (nonce ciphertext : List ℕ) (key : SealKey)
      → length nonce ≡ nonce_bytes
      → tag_bytes ≤ length ciphertext
      → open_sealed aead (envelope nonce ciphertext) key
        ≡ opened (aead.decrypt key.bytes nonce (associated_data nonce) ciphertext)
  unfolding open_sealed
  open_sealed-envelope nonce ciphertext key size tag =
      let first : take nonce_bytes (nonce ++ ciphertext) ≡ nonce =
        rw size at (take-append_self nonce ciphertext) in
      let rest : drop nonce_bytes (nonce ++ ciphertext) ≡ ciphertext =
        rw size at (drop-append_self nonce ciphertext) in
      let long =
        le→not_ltb (length (envelope nonce ciphertext)) min_sealed_bytes
          (omega (arith, length-append nonce ciphertext)) in
      rw (long, first, rest)

  -- What was sealed opens under the same key, and the sealed object has the length that is foretold.
  pub open-seal :
      (plaintext nonce : List ℕ) (key : SealKey)
      → length plaintext ≤ 2 ^ 38 - 64
      → length nonce ≡ nonce_bytes
      → (sealed : List ℕ) × (seal aead plaintext key nonce ≡ ok sealed)
        × (length sealed ≡ sealed_len (length plaintext))
        × (open_sealed aead sealed key ≡ ok plaintext)
  unfolding seal
  open-seal plaintext nonce key small size =
      let (ciphertext, encrypted, longer, decrypted) =
        aead.encrypts key.bytes nonce (associated_data nonce) plaintext small in
      (
        envelope nonce ciphertext,
        rw encrypted,
        omega (arith, length-append nonce ciphertext, longer, size),
        open_sealed-envelope nonce ciphertext key size (omega (arith, longer))
            ∙ ap opened decrypted,
      )

  -- An object that opens is an envelope: the magic, the algorithm's number, a nonce of 24 bytes and a
  -- ciphertext with a tag, which decrypts to the result with the header as associated data.
  pub open_sealed-eq-ok :
      (sealed plaintext : List ℕ) (key : SealKey)
      → open_sealed aead sealed key ≡ ok plaintext
      → (nonce : List ℕ) × (ciphertext : List ℕ) × (sealed ≡ envelope nonce ciphertext)
        × (length nonce ≡ nonce_bytes)
        × (tag_bytes ≤ length ciphertext)
        × (aead.decrypt key.bytes nonce (associated_data nonce) ciphertext ≡ some plaintext)
  unfolding open_sealed
  open_sealed-eq-ok sealed plaintext key h =
      elim (Bool-cases (ltb (length sealed) min_sealed_bytes)) [
        | inl p ↦ cc (rw p at h)
        | inr p ↦ elim (Bool-cases (str_beq (take 7 sealed) magic)) [
          | inr q ↦ cc (rw (p, q) at h)
          | inl q ↦ elim (Bool-cases (eqb (at 7 sealed) algorithm_xchacha20_poly1305)) [
            | inr t ↦ cc (rw (p, q, t) at h)
            | inl t ↦
                let long : min_sealed_bytes ≤ length sealed = ground arith in
                (
                  take nonce_bytes (drop 8 sealed),
                  drop header_bytes sealed,
                  envelope_whole sealed (omega arith) ((str_beq_iff (take 7 sealed) magic).0 q)
                      ((eqb_iff (at 7 sealed) 1).0 t),
                  omega (arith, length-take nonce_bytes (drop 8 sealed), length-drop 8 sealed),
                  omega (arith, length-drop header_bytes sealed),
                  opened-eq-ok _ plaintext (rw (p, q, t) at h),
                )
          ]
        ]
      ]
