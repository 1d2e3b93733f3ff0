-- ===== src/E2e/Bootstrap/Delivered.antt =====
-- The first message from one device to another: buildInitiatorPreKeyMessage and
-- consumeResponderPreKeyMessage in bootstrap.ts together.
use a.Base.{
  length, All, guard, >>=-eq-ok, ok-injective, ok, ℕ, ◌≤◌, ◌≡◌, refl, sym, ap, subst, ◌∙◌, Option,
  List, map,
}
use a.E2e.Types.{PreKeyMessage, bundle_mismatch}
use a.E2e.Crypto.{Crypto}
use a.E2e.Messages.{encrypt_pre_key_message, decrypt_pre_key_message}
use a.E2e.Session.{RatchetEncryptInput, LocalSessionState}
use a.E2e.Ratchet.{create_initiator_ratchet_session}
use a.E2e.KeyAgreement.{derive_x3dh_initiator_shared_secret, if_given, IsShared}
use a.E2e.Bootstrap.{
  BuildInitiatorPreKeyMessageInput, BuildInitiatorPreKeyMessageResult,
  build_initiator_pre_key_message, LocalE2eConfig, LocalDeviceState, LocalOneTimePreKeyState,
  ConsumeResponderPreKeyMessageResult, consume_responder_pre_key_message, store_local_session,
  get_device_state, named_one_time, responder_session_input, initiator_header,
  initiator_secret_input, initiator_session_input, matches_directory,
}
use mathlib.Core.List.{Permᴰ}
use a.E2e.Ratchet.Reorder.{Traffic, receive_all}
use a.E2e.Ratchet.Conversation.{send_flight, HasNonce}
use a.E2e.Ratchet.Flight.{flight_arrives}
use a.E2e.Bootstrap.Steps.{
  IsOneTimeShared, their_identity, their_signed, own_identity, derived_lem, decrypt_pre_key-encrypt,
  begun-Agreed, responder-begins, consume_lem,
}

module _ (crypto : Crypto) where
  -- The bundle is of a device of the receiver's, whose one-time pre-key of that id is unclaimed, and
  -- the public keys belong to the private ones.
  pub record Meets (input : BuildInitiatorPreKeyMessageInput) (own : LocalDeviceState)
      (config : LocalE2eConfig) (device : LocalDeviceState) (key : Option LocalOneTimePreKeyState)
      : Type 0 where
    pub sender : get_device_state input.e2e_config input.e2e_config.current_device_id ≡ ok own
    pub found : get_device_state config input.claimed_bundle.device_id ≡ ok device
    pub its_id : device.device_id ≡ input.claimed_bundle.device_id
    pub signed_id : input.claimed_bundle.signed_pre_key_id ≡ device.signed_pre_key.signed_pre_key_id
    pub signed_public :
        input.claimed_bundle.signed_pre_key_public ≡ device.signed_pre_key.public_key
    pub named :
        named_one_time
          (if_given (λ k. k.key_id) input.claimed_bundle.one_time_pre_key)
          device.one_time_pre_keys
        ≡ ok key
    pub identity_signed :
        IsShared crypto (own_identity crypto own) (their_signed crypto input device)
    pub ephemeral_identity :
        IsShared crypto input.ephemeral_key_pair (their_identity crypto input device)
    pub ephemeral_signed :
        IsShared crypto input.ephemeral_key_pair (their_signed crypto input device)
    pub ephemeral_one_time :
        IsOneTimeShared crypto input.ephemeral_key_pair input.claimed_bundle.one_time_pre_key key

  -- Of a message that was built, its header, that the initiator derived the secret, that the session
  -- was begun, and that the message opens.
  abbrev pub Built :
      BuildInitiatorPreKeyMessageInput
      → LocalDeviceState
      → BuildInitiatorPreKeyMessageResult
      → Type 0
  Built input own r =
      (r.message.header ≡ initiator_header crypto input own)
      × (decrypt_pre_key_message crypto r.message r.shared_secret ≡ ok input.plaintext)
      × (derive_x3dh_initiator_shared_secret crypto (initiator_secret_input crypto input own)
          ≡ ok r.shared_secret)
      × (create_initiator_ratchet_session crypto
            (initiator_session_input crypto input own r.shared_secret)
          ≡ ok r.session)

  build-Built :
      (input : BuildInitiatorPreKeyMessageInput) (own : LocalDeviceState)
      (r : BuildInitiatorPreKeyMessageResult)
      → get_device_state input.e2e_config input.e2e_config.current_device_id ≡ ok own
      → build_initiator_pre_key_message crypto input ≡ ok r
      → Built input own r
  unfolding build_initiator_pre_key_message
  build-Built input own r there h =
      let (_, _, h) =
        >>=-eq-ok
          (guard (matches_directory input.recipient_device input.claimed_bundle.entry)
            bundle_mismatch)
          _ h in
      let (device, found, h) =
        >>=-eq-ok (get_device_state input.e2e_config input.e2e_config.current_device_id) _ h in
      let (secret, derived, h) =
        >>=-eq-ok
          (derive_x3dh_initiator_shared_secret crypto (initiator_secret_input crypto input device))
          _ h in
      let (message, sealed, h) =
        >>=-eq-ok
          (encrypt_pre_key_message crypto (initiator_header crypto input device) secret
            input.plaintext)
          _ h in
      let (session, created, h) =
        >>=-eq-ok
          (create_initiator_ratchet_session crypto
            (initiator_session_input crypto input device secret))
          _ h in
      let (config, _, h) =
        >>=-eq-ok (store_local_session input.e2e_config device.device_id session) _ h in
      let (header, opens) =
        decrypt_pre_key-encrypt crypto (initiator_header crypto input device) secret input.plaintext
          message sealed in
      let same : device ≡ own = ok-injective (sym found ∙ there) in
      subst (λ x. Built input own x) (ok-injective h)
        (subst
          (λ d.
            (message.header ≡ initiator_header crypto input d)
            × (decrypt_pre_key_message crypto message secret ≡ ok input.plaintext)
            × (derive_x3dh_initiator_shared_secret crypto (initiator_secret_input crypto input d)
                ≡ ok secret)
            × (create_initiator_ratchet_session crypto
                  (initiator_session_input crypto input d secret)
                ≡ ok session))
          same (header, opens, derived, created))

  -- If the bundle is of a device of the receiver's whose keys belong together with the sender's, then
  -- the message that the sender builds is consumed there to the text that was sent, and both ends
  -- share one secret. If the sender then encrypts at most 65 further texts in the session that it
  -- began, and they arrive in any order, the receiver decrypts each in the session that it began, to
  -- the text that was encrypted in it.
  pub consume-build :
      (input : BuildInitiatorPreKeyMessageInput) (own : LocalDeviceState) (config : LocalE2eConfig)
      (device : LocalDeviceState) (key : Option LocalOneTimePreKeyState) (now later : ℕ)
      (r : BuildInitiatorPreKeyMessageResult) (texts : List RatchetEncryptInput)
      (after : LocalSessionState) (traffic arrived : Traffic)
      → Meets input own config device key
      → build_initiator_pre_key_message crypto input ≡ ok r
      → All HasNonce texts
      → length texts ≤ 65
      → send_flight crypto r.session texts ≡ ok (traffic, after)
      → Permᴰ traffic arrived
      → (result : ConsumeResponderPreKeyMessageResult) × (consume_responder_pre_key_message crypto
            config input.receiver_did r.message now
          ≡ ok result)
        × (result.plaintext ≡ input.plaintext)
        × (result.shared_secret ≡ r.shared_secret)
        × ((t : LocalSessionState) × (receive_all crypto result.session arrived later
              ≡ ok (map (λ p. p.1) arrived, t)))
  consume-build input own config device key now later r texts after traffic arrived meets h nonces
        few sending order =
      let (same, opens, derived, created) = build-Built input own r meets.sender h in
      let header = initiator_header crypto input own in
      let m : PreKeyMessage = record { header = header; ciphertext = r.message.ciphertext } in
      let whole : r.message ≡ m =
        ap
          (λ x.
            let w : PreKeyMessage = record { header = x; ciphertext = r.message.ciphertext } in w)
          same in
      let i = initiator_session_input crypto input own r.shared_secret in
      let j = responder_session_input crypto header device r.shared_secret now in
      let agreed =
        begun-Agreed crypto i j r.session refl (ap crypto.from_hex meets.signed_public) refl
          meets.ephemeral_signed created in
      let (session, started) = responder-begins crypto i j agreed in
      let arrives =
        flight_arrives crypto i j r.session after session texts traffic arrived later agreed created
          started nonces few sending order in
      let (result, ran, text, secret, its) =
        consume_lem crypto config input.receiver_did m now device key r.shared_secret
          input.plaintext session refl meets.found meets.its_id meets.named meets.signed_id
          (derived_lem crypto (own_identity crypto own) input.ephemeral_key_pair
            (their_identity crypto input device) (their_signed crypto input device)
            input.claimed_bundle.one_time_pre_key key r.shared_secret meets.identity_signed
            meets.ephemeral_identity meets.ephemeral_signed meets.ephemeral_one_time derived)
          (subst (λ x. decrypt_pre_key_message crypto x r.shared_secret ≡ ok input.plaintext) whole
            opens)
          started in
      (
        result,
        subst
            (λ x.
              consume_responder_pre_key_message crypto config input.receiver_did x now ≡ ok result)
            (sym whole) ran,
        text,
        secret,
        subst
            (λ x.
              (t : LocalSessionState) × (receive_all crypto x arrived later
                ≡ ok (map (λ p. p.1) arrived, t)))
            (sym its) arrives,
      )
