-- ===== src/Relay/Tokens/Signing.antt =====
-- What the verification in token.ts lets through.
use a.Base.{
  ltb, if◌then◌else◌, Bool-cases, take, ◌>>=◌, guard, ok, err, ℕ, ◌≡◌, refl, inl, inr, true, not,
}
use a.Relay.Tokens.{
  Bytes, TokenPayload, expired, Platform, create_invite_token, verify_invite_token, verify_parts,
  build_ed25519_pkcs8, build_ed25519_spki, header,
}

by_expiry :
    (payload : TokenPayload) (now : ℕ)
    → (guard (not (ltb payload.exp now)) expired >>= λ _. ok payload)
      ≡ (if ltb payload.exp now then err expired else ok payload)
by_expiry payload now = elim (Bool-cases (ltb payload.exp now)) [
  | inl late ↦ rw late refl
  | inr early ↦ rw early refl
]

module _ (platform : Platform) where
  open platform use {
    Text, dotted, crypto_sign, crypto_verify, stringify_payload, to_base64url, from_base64url,
    parse_payload, parse_header, split_dots, stringify_header, parse_header-stringify,
    from-to_base64url, parse_payload-stringify, split-dotted,
  }

  -- The public key belongs to the private key: it verifies what that signs.
  abbrev pub IsKeyPair : Bytes → Bytes → Type 0
  IsKeyPair private_key public_key =
      (input : Text)
      → crypto_verify (build_ed25519_spki public_key) input
          (crypto_sign (build_ed25519_pkcs8 (take 32 private_key)) input)
        ≡ true

  -- A token created with a private key verifies under its public key to the payload it was created
  -- for up to its expiry, and is refused as expired after it.
  pub verify-create :
      (payload : TokenPayload) (private_key public_key : Bytes) (now : ℕ)
      → IsKeyPair private_key public_key
      → verify_invite_token platform
          (create_invite_token platform payload private_key)
          public_key
          now
        ≡ (if ltb payload.exp now then err expired else ok payload)
  unfolding verify_invite_token create_invite_token verify_parts
  verify-create payload private_key public_key now pair =
      let input = dotted (header platform) (to_base64url (stringify_payload payload)) in
      let signature = crypto_sign (build_ed25519_pkcs8 (take 32 private_key)) input in
      rw
        (
          split-dotted _ (stringify_payload payload) signature,
          from-to_base64url _,
          parse_header-stringify _,
          from-to_base64url signature,
          pair input,
          from-to_base64url (stringify_payload payload),
          parse_payload-stringify payload,
        )
        (by_expiry payload now)
