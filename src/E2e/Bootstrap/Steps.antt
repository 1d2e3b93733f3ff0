-- ===== src/E2e/Bootstrap/Steps.antt =====
-- The steps of the two ends of a first message in bootstrap.ts, each from what the other end did.
use a.Base.{
  nat_beq, ◌==◌, string_eq, length, lookup-insert_same, guard, >>=-eq-ok, guard-eq-ok, ok-injective,
  or_throw-eq-ok, ok, ℕ, String, ◌≡◌, refl, sym, subst, ◌∙◌, true, ◌&&◌, Option, none, some, arith,
  nat_eq, bytes_eq,
}
use a.E2e.Types.{shared_secret_failed, Bytes, PreKeyHeader, PreKeyMessage, encrypt_failed}
use a.E2e.Crypto.{Crypto, diffie_hellman_x25519, encrypt_xchacha20_poly1305, decrypt-encrypt}
use a.E2e.Messages.{
  encrypt_pre_key_message, decrypt_pre_key_message, build_pre_key_message_associated_data,
}
use a.E2e.Session.{LocalSessionState, X25519KeyPair, CreateRatchetSessionInput}
use a.E2e.Ratchet.Flight.{Agreed, responder_session}
use a.E2e.Ratchet.{create_initiator_ratchet_session, create_responder_ratchet_session}
use a.E2e.KeyAgreement.{
  derive_x3dh_initiator_shared_secret, derive_x3dh_responder_shared_secret, if_given, IsShared,
  responder-initiator,
}
use a.E2e.Bootstrap.{
  BuildInitiatorPreKeyMessageInput, LocalE2eConfig, LocalDeviceState, LocalOneTimePreKeyState,
  ConsumeResponderPreKeyMessageResult, consume_responder_pre_key_message, store_local_session,
  get_device_state, with_device, with_session, named_one_time, mark_named, responder_secret_input,
  responder_session_input, PublishedOneTimePreKey,
}

module _ (crypto : Crypto) where
  open crypto use {from_hex}

  -- X25519's promise on the one-time pre-key that was published and the one that is kept.
  abbrev pub IsOneTimeShared :
      X25519KeyPair → Option PublishedOneTimePreKey → Option LocalOneTimePreKeyState → Type 0
  IsOneTimeShared ephemeral none none = Unit
  IsOneTimeShared ephemeral (some p) (some k) =
      IsShared crypto ephemeral
        (record { public_key = from_hex p.public_key; private_key = from_hex k.private_key })
  IsOneTimeShared ephemeral _ _ = ⊥

  abbrev pub their_identity : BuildInitiatorPreKeyMessageInput → LocalDeviceState → X25519KeyPair
  their_identity input device = record {
    public_key = from_hex input.claimed_bundle.identity_key_public;
    private_key = from_hex device.identity_key.private_key;
  }

  abbrev pub their_signed : BuildInitiatorPreKeyMessageInput → LocalDeviceState → X25519KeyPair
  their_signed input device = record {
    public_key = from_hex input.claimed_bundle.signed_pre_key_public;
    private_key = from_hex device.signed_pre_key.private_key;
  }

  abbrev pub own_identity : LocalDeviceState → X25519KeyPair
  own_identity device = record {
    public_key = from_hex device.identity_key.public_key;
    private_key = from_hex device.identity_key.private_key;
  }

  pub derived_lem :
      (identity ephemeral theirs signed : X25519KeyPair) (p : Option PublishedOneTimePreKey)
      (k : Option LocalOneTimePreKeyState) (secret : Bytes)
      → IsShared crypto identity signed
      → IsShared crypto ephemeral theirs
      → IsShared crypto ephemeral signed
      → IsOneTimeShared ephemeral p k
      → derive_x3dh_initiator_shared_secret crypto (record {
        initiator_identity_private = identity.private_key;
        initiator_ephemeral_private = ephemeral.private_key;
        recipient_identity_public = theirs.public_key;
        recipient_signed_pre_key_public = signed.public_key;
        recipient_one_time_pre_key_public = if_given (λ x. from_hex x.public_key) p;
      })
        ≡ ok secret
      → derive_x3dh_responder_shared_secret crypto (record {
        recipient_identity_private = theirs.private_key;
        recipient_signed_pre_key_private = signed.private_key;
        initiator_identity_public = identity.public_key;
        initiator_ephemeral_public = ephemeral.public_key;
        recipient_one_time_pre_key_private = if_given (λ x. from_hex x.private_key) k;
      })
        ≡ ok secret
  derived_lem identity ephemeral theirs signed none none secret a b c d h =
      responder-initiator crypto identity ephemeral theirs signed none secret a b c tt h
  derived_lem identity ephemeral theirs signed (some p) (some k) secret a b c d h =
      responder-initiator crypto identity ephemeral theirs signed
        (some (record { public_key = from_hex p.public_key; private_key = from_hex k.private_key }))
        secret a b c d h
  derived_lem identity ephemeral theirs signed none (some k) secret a b c d h = absurd d
  derived_lem identity ephemeral theirs signed (some p) none secret a b c d h = absurd d

  pub decrypt_pre_key-encrypt :
      (header : PreKeyHeader) (secret plaintext : Bytes) (message : PreKeyMessage)
      → encrypt_pre_key_message crypto header secret plaintext ≡ ok message
      → (message.header ≡ header) × (decrypt_pre_key_message crypto message secret ≡ ok plaintext)
  unfolding encrypt_pre_key_message decrypt_pre_key_message encrypt_xchacha20_poly1305
  decrypt_pre_key-encrypt header secret plaintext message h =
      let ad = build_pre_key_message_associated_data crypto header in
      let (ciphertext, c, f) =
        >>=-eq-ok (encrypt_xchacha20_poly1305 crypto secret header.nonce plaintext ad) _ h in
      let (x, g, c) = >>=-eq-ok (guard (nat_beq (length secret) 32) encrypt_failed) _ c in
      let (y, g', c) = >>=-eq-ok (guard (nat_beq (length header.nonce) 24) encrypt_failed) _ c in
      let long : length secret ≡ 32 =
        ground (arith, guard-eq-ok (nat_beq (length secret) 32) encrypt_failed x g) in
      let long' : length header.nonce ≡ 24 =
        ground (arith, guard-eq-ok (nat_beq (length header.nonce) 24) encrypt_failed y g') in
      subst (λ m. (m.header ≡ header) × (decrypt_pre_key_message crypto m secret ≡ ok plaintext))
        (ok-injective f)
        (
          refl,
          rw (← ok-injective c)
              (decrypt-encrypt crypto secret header.nonce plaintext ad long long'),
        )

  -- What a key agreement that returned says: both keys have 32 bytes.
  pub diffie_hellman_lem :
      (private_key public_key secret : Bytes)
      → diffie_hellman_x25519 crypto private_key public_key ≡ ok secret
      → (length private_key ≡ 32)
        × (length public_key ≡ 32)
        × (crypto.node_diffie_hellman private_key public_key ≡ some secret)
  unfolding diffie_hellman_x25519
  diffie_hellman_lem private_key public_key secret h =
      let test = nat_beq (length private_key) 32 && nat_beq (length public_key) 32 in
      let (x, g, f) = >>=-eq-ok (guard test shared_secret_failed) _ h in
      let both = guard-eq-ok test shared_secret_failed x g in
      (
        ground (arith, both),
        ground (arith, both),
        or_throw-eq-ok (crypto.node_diffie_hellman private_key public_key) shared_secret_failed
            secret f,
      )

  -- An initiator that has begun its session and a responder with the same root key, the same
  -- ratchet keys and X25519's common secret have what a flight between them needs.
  pub begun-Agreed :
      (i j : CreateRatchetSessionInput) (s : LocalSessionState)
      → i.root_key ≡ j.root_key
      → i.remote_ratchet_public_key ≡ j.current_ratchet_key.public_key
      → j.remote_ratchet_public_key ≡ i.current_ratchet_key.public_key
      → diffie_hellman_x25519 crypto i.current_ratchet_key.private_key i.remote_ratchet_public_key
        ≡ diffie_hellman_x25519 crypto j.current_ratchet_key.private_key j.remote_ratchet_public_key
      → create_initiator_ratchet_session crypto i ≡ ok s
      → Agreed crypto i j
  unfolding create_initiator_ratchet_session
  begun-Agreed i j s roots remote remote' same h =
      let (secret, e, f) =
        >>=-eq-ok
          (diffie_hellman_x25519 crypto i.current_ratchet_key.private_key
            i.remote_ratchet_public_key)
          _ h in
      let own =
        diffie_hellman_lem i.current_ratchet_key.private_key i.remote_ratchet_public_key secret e in
      let theirs =
        diffie_hellman_lem j.current_ratchet_key.private_key j.remote_ratchet_public_key secret
          (sym same ∙ e) in
      record {
        secret = secret;
        root_key = roots;
        a_remote = remote;
        b_remote = remote';
        a_private_length = own.0;
        b_private_length = theirs.0;
        a_public_length = rw remote' at theirs.1;
        b_public_length = rw remote at own.1;
        a_secret = rw remote at own.2;
        b_secret = rw remote' at theirs.2;
      }

  pub responder-begins :
      (i j : CreateRatchetSessionInput) (g : Agreed crypto i j)
      → (t : LocalSessionState) × (create_responder_ratchet_session crypto j ≡ ok t)
  responder-begins i j g = (_, responder_session crypto i j g)

  store_local_session-ok :
      (config : LocalE2eConfig) (own_id id : String) (device : LocalDeviceState)
      (session : LocalSessionState)
      → own_id ≡ id
      → (next : LocalE2eConfig) × (store_local_session (with_device config id device) own_id session
          ≡ ok next)
  unfolding store_local_session
  store_local_session-ok config own_id id device session same =
      let found = lookup-insert_same ⦃e = string_eq⦄ own_id device config.devices in
      subst
        (λ i.
          (next : LocalE2eConfig) × (store_local_session (with_device config i device) own_id
              session
            ≡ ok next))
        same
        (
          with_device (with_device config own_id device) own_id (with_session device session),
          rw found,
        )

  -- What the receiver computes from the message.
  pub consume_lem :
      (config : LocalE2eConfig) (did : String) (m : PreKeyMessage) (now : ℕ)
      (device : LocalDeviceState) (key : Option LocalOneTimePreKeyState) (secret plaintext : Bytes)
      (session : LocalSessionState)
      → m.header.receiver_did ≡ did
      → get_device_state config m.header.receiver_device_id ≡ ok device
      → device.device_id ≡ m.header.receiver_device_id
      → named_one_time m.header.recipient_one_time_pre_key_id device.one_time_pre_keys ≡ ok key
      → m.header.recipient_signed_pre_key_id ≡ device.signed_pre_key.signed_pre_key_id
      → derive_x3dh_responder_shared_secret crypto
          (responder_secret_input crypto m.header device key)
        ≡ ok secret
      → decrypt_pre_key_message crypto m secret ≡ ok plaintext
      → create_responder_ratchet_session crypto
          (responder_session_input crypto m.header device secret now)
        ≡ ok session
      → (result : ConsumeResponderPreKeyMessageResult) × (consume_responder_pre_key_message crypto
            config did m now
          ≡ ok result)
        × (result.plaintext ≡ plaintext)
        × (result.shared_secret ≡ secret)
        × (result.session ≡ session)
  unfolding consume_responder_pre_key_message
  consume_lem config did m now device key secret plaintext session a b c d e f g i =
      let header = m.header in
      let for_did : (header.receiver_did == did) ≡ true =
        (string_eq.beq_iff header.receiver_did did).1 a in
      let for_signed : nat_beq header.recipient_signed_pre_key_id
            device.signed_pre_key.signed_pre_key_id
          ≡ true =
        ground (arith, e) in
      let marked = mark_named header.recipient_one_time_pre_key_id now device in
      let (next, stored) =
        store_local_session-ok config device.device_id header.receiver_device_id marked session c in
      (
        record {
          plaintext = plaintext;
          session = session;
          e2e_config = next;
          shared_secret = secret;
        },
        rw (for_did, b, d, for_signed, f, g, i, stored),
        refl,
        refl,
        refl,
      )
