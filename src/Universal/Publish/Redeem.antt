-- ===== src/Universal/Publish/Redeem.antt =====
-- Publishing and then redeeming, against any relay that keeps the promises of the port.
use clift.Base.{ℕ, ◌-◌, ◌^◌, ◌≤◌, ◌<◌, ◌≡◌, refl, sym, ap, ◌∙◌, subst, arith, List, [], ◌∷◌}
use clift.Base.{ltb, length, Result, ok, err, All, Bool-cases, inl, inr}
use clift.Error.{CliftError, ErrorKind, relay_error}
use clift.Universal.Bundle
use clift.Universal.Bundle.{Entry, max_entries}
use clift.Universal.Bundle.RoundTrip.{IsValid, decode-encode}
use clift.Universal.Crypto.{Aead, seal, open_sealed, nonce_bytes}
use clift.Universal.Crypto.Envelope.{open-seal}
use clift.Universal.Port.{Relay, SingleUse, PublishedObject}
use clift.Universal.Settings.{RelaySettings}
use clift.Universal.Token.{SealKey, Token}
use clift.Universal.Publish.{
  Published, described, projected, publish, publish_frame, send, finish, open_entries,
  fetch_entries,
}

encode_count :
    (entries : List Entry) (frame : List ℕ)
    → Bundle.encode entries ≡ ok frame
    → (0 < length entries) × (length entries ≤ max_entries)
unfolding Bundle.encode
encode_count [] frame h = cc
encode_count (e ∷ entries) frame h = elim (Bool-cases (ltb max_entries (length (e ∷ entries)))) [
  | inl p ↦ cc (rw p at h)
  | inr p ↦ (omega arith, ground arith)
]

-- What was encoded decodes.
decoded :
    (entries : List Entry) (frame : List ℕ)
    → All IsValid entries
    → Bundle.encode entries ≡ ok frame
    → Bundle.decode frame ≡ ok entries
decoded entries frame valid h =
    let (some_entries, few) = encode_count entries frame h in
    let (frame', e, d) = decode-encode entries valid some_entries few in
    let same : frame' ≡ frame = cc (sym e ∙ h) in rw same at d

module _ (aead : Aead) (relay : Relay) where
  open relay use {State, Call}

  -- What an accepted `publish` did.
  record Accepted (s s' : State) (call : Call) (entries : List Entry) (settings : RelaySettings)
      (key nonce : List ℕ) (published : Published) : Type 0 where
    frame : List ℕ
    sealed : List ℕ
    encoded : Bundle.encode entries ≡ ok frame
    fits : projected frame ≤ settings.max_object_bytes
    sealing : seal aead frame (record { bytes = key }) nonce ≡ ok sealed
    stored :
        relay.publish s call sealed settings.ttl
        ≡ (s', ok (record { id = published.token.id; ttl = published.ttl }))
    same_key : published.token.key ≡ record { bytes = key }
    lists : published.entries ≡ described entries

  finish-eq-ok :
      (entries : List Entry) (key : SealKey) (sealed : List ℕ)
      (r : State × Result PublishedObject CliftError) (s' : State) (published : Published)
      → finish aead relay entries key sealed r ≡ (s', ok published)
      → (r ≡ (s', ok (record { id = published.token.id; ttl = published.ttl })))
        × (published.token.key ≡ key)
        × (published.entries ≡ described entries)
  finish-eq-ok entries key sealed (s, err e) s' published h = cc
  finish-eq-ok entries key sealed (s, ok object) s' published h =
      (ground arith, ground arith, ground arith)

  publish-eq-ok :
      (s s' : State) (call : Call) (entries : List Entry) (settings : RelaySettings)
      (key nonce : List ℕ) (published : Published)
      → publish aead relay s call entries settings (ok key) (ok nonce) ≡ (s', ok published)
      → Accepted s s' call entries settings key nonce published
  unfolding publish
  publish-eq-ok s s' call entries settings key nonce published h = go (Bundle.encode entries) refl h
    where
      sent :
          (frame : List ℕ) (r : Result (List ℕ) CliftError)
          → Bundle.encode entries ≡ ok frame
          → projected frame ≤ settings.max_object_bytes
          → seal aead frame (record { bytes = key }) nonce ≡ r
          → send aead relay s call entries settings (record { bytes = key }) r ≡ (s', ok published)
          → Accepted s s' call entries settings key nonce published
      sent frame (err e) e' fits q k = cc
      sent frame (ok sealed) e' fits q k =
          let (stored, same, lists) =
            finish-eq-ok entries (record { bytes = key }) sealed
              (relay.publish s call sealed settings.ttl) s' published k in
          record {
            frame = frame;
            sealed = sealed;
            encoded = e';
            fits = fits;
            sealing = q;
            stored = stored;
            same_key = same;
            lists = lists;
          }

      go :
          (r : Result (List ℕ) CliftError)
          → Bundle.encode entries ≡ r
          → publish_frame aead relay s call entries settings (ok key) (ok nonce) r
            ≡ (s', ok published)
          → Accepted s s' call entries settings key nonce published
      go (err e) q k = cc
      go (ok frame) q k = elim (Bool-cases (ltb settings.max_object_bytes (projected frame))) [
        | inl p ↦ cc (rw p at k)
        | inr p ↦
            sent frame (seal aead frame (record { bytes = key }) nonce) q (ground arith) refl
              (rw p at k)
      ]

  open_failed :
      (token : Token) (r : State × Result (List ℕ) CliftError) {e : CliftError}
      → r.1 ≡ err e
      → (open_entries aead relay token r).1 ≡ err e
  open_failed token (s, ok sealed) h = cc
  open_failed token (s, err e') h = ground arith

  module _ (single : SingleUse relay) where
    open single use {IsSound, Answered, InTime, Gone, retrieve-publish, retrieve_gone}

    -- Over a relay that keeps the promises of the port and is sound: the token of a publication that was accepted, with valid
    -- entries (each media type with at most 127 bytes), a nonce of 24 bytes and a ceiling that the cipher can carry, redeems to
    -- the same entries in a call that gets through before the end of the lifetime that was told; and in the next call that
    -- gets through it redeems to nothing, as a token that cannot be used.
    pub fetch-publish :
        (s s' : State) (before after later : Call) (entries : List Entry) (settings : RelaySettings)
        (key nonce : List ℕ) (published : Published)
        → IsSound s
        → All IsValid entries
        → length nonce ≡ nonce_bytes
        → settings.max_object_bytes ≤ 2 ^ 38 - 16
        → publish aead relay s before entries settings (ok key) (ok nonce) ≡ (s', ok published)
        → Answered s' after
        → InTime before after published.ttl
        → let (s'', fetched) = fetch_entries aead relay s' after published.token in
          (fetched ≡ ok entries)
          × (Answered s'' later
              → (fetch_entries aead relay s'' later published.token).1
                ≡ err (relay_error ErrorKind.token_unusable))
    unfolding fetch_entries
    fetch-publish s s' before after later entries settings key nonce published sound valid size
          ceiling h answered timely =
        let a = publish-eq-ok s s' before entries settings key nonce published h in
        let (s'', got, gone) =
          retrieve-publish s s' before after a.sealed settings.ttl _ sound a.stored answered
            timely in
        let (sealed, e, _, opens) =
          open-seal aead a.frame nonce (record { bytes = key }) (omega (arith, a.fits)) size in
        let same : sealed ≡ a.sealed = cc (sym e ∙ a.sealing) in
        let opening : open_sealed aead a.sealed published.token.key ≡ ok a.frame =
          rw (a.same_key, ← same) opens in
        let first : open_entries aead relay published.token
              (relay.retrieve s' after published.token.id)
            ≡ (s'', ok entries) =
          rw (got, opening) (ap (λ r. (s'', r)) (decoded entries a.frame valid a.encoded)) in
        (
          ap (λ r. r.1) first,
          λ through. rw first (
              open_failed published.token (relay.retrieve s'' later published.token.id) (
                retrieve_gone s'' later published.token.id gone
                  (subst (λ t. Answered t later) (ap (λ r. r.0) first) through))),
        )
