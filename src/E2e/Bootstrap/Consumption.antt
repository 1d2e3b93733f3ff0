-- ===== src/E2e/Bootstrap/Consumption.antt =====
-- One-time pre-keys are consumed once: about consumeResponderPreKeyMessage in bootstrap.ts.
use a.Base.{
  nat_beq, if◌then◌else◌, ◌==◌, string_eq, beq_refl, Bool-cases, lookup, lookup-insert,
  lookup-insert_same, guard, or_throw, >>=-eq-ok, ok-injective, or_throw-eq-ok, ok, err, ℕ, String,
  ◌≡◌, refl, ap, subst, ◌∙◌, inl, inr, Option, some, List, [], ◌∷◌, arith, nat_eq, bytes_eq,
}
use a.E2e.Types.{
  PreKeyMessage, consumed_one_time_pre_key, signed_pre_key_mismatch, missing_device,
  receiver_mismatch, missing_one_time_pre_key,
}
use a.E2e.Crypto.{Crypto}
use a.E2e.Messages.{decrypt_pre_key_message}
use a.E2e.KeyAgreement.{derive_x3dh_responder_shared_secret}
use a.E2e.Ratchet.{create_responder_ratchet_session}
use a.E2e.Session.{LocalSessionState}
use a.E2e.Bootstrap.{
  LocalE2eConfig, LocalDeviceState, LocalOneTimePreKeyState, ConsumeResponderPreKeyMessageResult,
  consume_responder_pre_key_message, store_local_session, get_device_state, with_device,
  with_session, find_one_time, mark_claimed, responder_secret_input, responder_session_input,
  named_one_time, mark_named,
}

find-mark_claimed :
    (id now : ℕ) (ks : List LocalOneTimePreKeyState) (k : LocalOneTimePreKeyState)
    → find_one_time id ks ≡ some k
    → find_one_time id (mark_claimed id now ks) ≡ some (record k { claimed_at = some now })
unfolding find_one_time mark_claimed
find-mark_claimed id now [] k h = absurd (cc h)
find-mark_claimed id now (i ∷ ks) k h = elim (Bool-cases (nat_beq i.key_id id)) [
  | inl e ↦
      let same : i ≡ k = cc (rw e at h) in
      let marked : Option LocalOneTimePreKeyState = some (record i { claimed_at = some now }) in
      let first : (if nat_beq i.key_id id then marked else find_one_time id ks) ≡ marked = rw e in
      rw e (first ∙ rw same)
  | inr e ↦ rw e (rw e (find-mark_claimed id now ks k (rw e at h)))
]

-- A device that is stored keeps its one-time pre-keys when a session is added.
Keeps : LocalE2eConfig → String → List LocalOneTimePreKeyState → Type 0
Keeps config id keys =
    (device : LocalDeviceState) × (lookup id config.devices ≡ some device)
    × (device.one_time_pre_keys ≡ keys)

with_device-Keeps :
    (config : LocalE2eConfig) (device_id id : String) (session : LocalSessionState)
    (own device : LocalDeviceState)
    → lookup id config.devices ≡ some device
    → get_device_state config device_id ≡ ok own
    → Keeps (with_device config device_id (with_session own session)) id device.one_time_pre_keys
unfolding Keeps
with_device-Keeps config device_id id session own device found e =
    let at = lookup-insert device_id id (with_session own session) config.devices in
    elim (Bool-cases (device_id == id)) [
      | inl e' ↦
          let same : device_id ≡ id = (string_eq.beq_iff device_id id).0 e' in
          let it : own ≡ device = cc (
            found,
            rw same at (or_throw-eq-ok (lookup device_id config.devices) missing_device own e),
          ) in
          (with_session own session, ground (arith, at, e'), ap (λ d. d.one_time_pre_keys) it)
      | inr e' ↦ (device, ground (arith, at, e', found), refl)
    ]

store_local_session-Keeps :
    (config next : LocalE2eConfig) (device_id id : String) (session : LocalSessionState)
    (device : LocalDeviceState)
    → lookup id config.devices ≡ some device
    → store_local_session config device_id session ≡ ok next
    → Keeps next id device.one_time_pre_keys
unfolding store_local_session
store_local_session-Keeps config next device_id id session device found h =
    let (own, e, f) = >>=-eq-ok (get_device_state config device_id) _ h in
    let stored : with_device config device_id (with_session own session) ≡ next = ok-injective f in
    subst (λ c. Keeps c id device.one_time_pre_keys) stored
      (with_device-Keeps config device_id id session own device found e)

-- The device that the message is for was there, with an unclaimed pre-key of the name that the
-- message gives, and afterwards it has that pre-key as claimed.
Claimed : LocalE2eConfig → PreKeyMessage → ℕ → LocalE2eConfig → Type 0
Claimed config m now next =
    (device : LocalDeviceState) × (key : Option LocalOneTimePreKeyState) × (named_one_time
        m.header.recipient_one_time_pre_key_id device.one_time_pre_keys
      ≡ ok key)
    × Keeps next m.header.receiver_device_id
        (mark_named m.header.recipient_one_time_pre_key_id now device).one_time_pre_keys

find-named_one_time :
    (id : ℕ) (keys : List LocalOneTimePreKeyState) (key : Option LocalOneTimePreKeyState)
    → named_one_time (some id) keys ≡ ok key
    → (k : LocalOneTimePreKeyState) × (find_one_time id keys ≡ some k)
find-named_one_time id keys key h =
    let (k, e, _) = >>=-eq-ok (or_throw (find_one_time id keys) missing_one_time_pre_key) _ h in
    (k, or_throw-eq-ok (find_one_time id keys) missing_one_time_pre_key k e)

module _ (crypto : Crypto) where
  consume-Claimed :
      (config : LocalE2eConfig) (receiver_did : String) (m : PreKeyMessage) (now : ℕ)
      (r : ConsumeResponderPreKeyMessageResult)
      → consume_responder_pre_key_message crypto config receiver_did m now ≡ ok r
      → Claimed config m now r.e2e_config
  unfolding consume_responder_pre_key_message Claimed
  consume-Claimed config receiver_did m now r h =
      let header = m.header in
      let (_, _, h) =
        >>=-eq-ok (guard (header.receiver_did == receiver_did) receiver_mismatch) _ h in
      let (device, _, h) = >>=-eq-ok (get_device_state config header.receiver_device_id) _ h in
      let (key, named, h) =
        >>=-eq-ok (named_one_time header.recipient_one_time_pre_key_id device.one_time_pre_keys) _
          h in
      let (_, _, h) =
        >>=-eq-ok
          (guard
            (nat_beq header.recipient_signed_pre_key_id device.signed_pre_key.signed_pre_key_id)
            signed_pre_key_mismatch)
          _ h in
      let (secret, _, h) =
        >>=-eq-ok
          (derive_x3dh_responder_shared_secret crypto
            (responder_secret_input crypto header device key))
          _ h in
      let (plaintext, _, h) = >>=-eq-ok (decrypt_pre_key_message crypto m secret) _ h in
      let (session, _, h) =
        >>=-eq-ok
          (create_responder_ratchet_session crypto
            (responder_session_input crypto header device secret now))
          _ h in
      let marked = mark_named header.recipient_one_time_pre_key_id now device in
      let claimed = with_device config header.receiver_device_id marked in
      let (next, stored, h) =
        >>=-eq-ok (store_local_session claimed device.device_id session) _ h in
      let last : next ≡ r.e2e_config = ap (λ x. x.e2e_config) (ok-injective h) in
      (
        device,
        key,
        named,
        subst (λ c. Keeps c header.receiver_device_id marked.one_time_pre_keys) last
            (store_local_session-Keeps claimed next device.device_id header.receiver_device_id
              session marked (lookup-insert_same header.receiver_device_id marked config.devices)
              stored),
      )

  -- Once a message that names a one-time pre-key was consumed, no message to that device is consumed
  -- that names the same one: each of them is refused as it was consumed.
  pub consume_again :
      (config : LocalE2eConfig) (receiver_did : String) (m again : PreKeyMessage) (id now later : ℕ)
      (r : ConsumeResponderPreKeyMessageResult)
      → consume_responder_pre_key_message crypto config receiver_did m now ≡ ok r
      → m.header.recipient_one_time_pre_key_id ≡ some id
      → again.header.recipient_one_time_pre_key_id ≡ some id
      → again.header.receiver_did ≡ receiver_did
      → again.header.receiver_device_id ≡ m.header.receiver_device_id
      → consume_responder_pre_key_message crypto r.e2e_config receiver_did again later
        ≡ err consumed_one_time_pre_key
  unfolding consume_responder_pre_key_message Keeps Claimed
  consume_again config receiver_did m again id now later r h p q same_did same_device =
      let (device, key, named, (after, found, keys)) =
        consume-Claimed config receiver_did m now r h in
      let (k, first) = find-named_one_time id device.one_time_pre_keys key (rw p at named) in
      let marked = find-mark_claimed id now device.one_time_pre_keys k first in
      let own : after.one_time_pre_keys ≡ mark_claimed id now device.one_time_pre_keys =
        rw p at keys in
      rw (same_did, beq_refl receiver_did, same_device, found, q, own, marked)
