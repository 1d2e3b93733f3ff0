-- ===== src/E2e/Devices/Renewal.antt =====
-- What becomes of first messages after a device's signed pre-key was replaced: device-state.ts with
-- bootstrap.ts.
use a.Base.{
  nat_beq, ◌==◌, string_eq, Bool-cases, Map, lookup, lookup-insert_same, guard, or_throw, >>=-eq-ok,
  guard-eq-ok, ok-injective, or_throw-eq-ok, ok, ℕ, ◌+◌, ◌≤◌, String, ◌≡◌, refl, ap, subst, inl,
  inr, Option, none, some, [], ◌∷◌, arith, bytes_eq, nat_eq,
}
use a.E2e.Types.{Bytes, PreKeyMessage, missing_device, receiver_mismatch, signed_pre_key_mismatch}
use a.E2e.Crypto.{Crypto}
use a.E2e.Session.{X25519KeyPair}
use a.E2e.Bootstrap.{
  LocalE2eConfig, LocalDeviceState, ConsumeResponderPreKeyMessageResult,
  consume_responder_pre_key_message, get_device_state, named_one_time,
}
use a.E2e.Devices.{
  max_id, next_signed_pre_key_id, rotate_local_device_signed_pre_key, new_signed_pre_key,
  missing_device_state,
}

max_id_bound :
    (id : String) (device : LocalDeviceState) (devices : Map String LocalDeviceState)
    → lookup id devices ≡ some device
    → device.signed_pre_key.signed_pre_key_id ≤ max_id devices
unfolding lookup max_id
max_id_bound id device [] found = absurd (cc found)
max_id_bound id device ((j, d) ∷ ds) found = elim (Bool-cases (string_eq.beq j id)) [
  | inl e ↦
      let same : d ≡ device = cc (rw e at found) in
      let same_id = ap (λ x. x.signed_pre_key.signed_pre_key_id) same in ground (arith, same_id)
  | inr e ↦ let le = max_id_bound id device ds (rw e at found) in ground (arith, le)
]

module _ (crypto : Crypto) where
  -- After a rotation the device is there under an id that is above all that there were.
  abbrev pub IsRenewed : LocalE2eConfig → String → LocalE2eConfig → Type 0
  IsRenewed config device_id next =
      (device : LocalDeviceState) × (lookup ⦃e = string_eq⦄ device_id next.devices ≡ some device)
      × (device.signed_pre_key.signed_pre_key_id ≡ max_id config.devices + 1)

  rotate-IsRenewed :
      (sign : String → ℕ → Bytes → Bytes) (config next : LocalE2eConfig) (device_id : String)
      (count : Option ℕ) (pair : X25519KeyPair) (fresh : ℕ → X25519KeyPair) (now : ℕ)
      → rotate_local_device_signed_pre_key crypto sign config device_id none count pair fresh now
        ≡ ok next
      → IsRenewed config device_id next
  unfolding rotate_local_device_signed_pre_key next_signed_pre_key_id new_signed_pre_key
  rotate-IsRenewed sign config next device_id count pair fresh now h =
      let (device, _, f) =
        >>=-eq-ok (or_throw (lookup device_id config.devices) missing_device_state) _ h in
      subst (IsRenewed config device_id) (ok-injective f)
        (_, lookup-insert_same device_id _ config.devices, refl)

  -- After a rotation with no id given, no first message to that device is consumed that was made for
  -- a signed pre-key which any device had before.
  pub consume_rotated :
      (sign : String → ℕ → Bytes → Bytes) (config next : LocalE2eConfig) (device_id id : String)
      (device : LocalDeviceState) (count : Option ℕ) (pair : X25519KeyPair)
      (fresh : ℕ → X25519KeyPair) (now later : ℕ) (receiver_did : String) (m : PreKeyMessage)
      (r : ConsumeResponderPreKeyMessageResult)
      → lookup id config.devices ≡ some device
      → rotate_local_device_signed_pre_key crypto sign config device_id none count pair fresh now
        ≡ ok next
      → m.header.receiver_device_id ≡ device_id
      → m.header.recipient_signed_pre_key_id ≡ device.signed_pre_key.signed_pre_key_id
      → ¬ (consume_responder_pre_key_message crypto next receiver_did m later ≡ ok r)
  unfolding consume_responder_pre_key_message
  consume_rotated sign config next device_id id device count pair fresh now later did m r there h to
        for_old ran =
      let header = m.header in
      let (renewed, found, above) =
        rotate-IsRenewed sign config next device_id count pair fresh now h in
      let le = max_id_bound id device config.devices there in
      let (_, _, g) = >>=-eq-ok (guard (header.receiver_did == did) receiver_mismatch) _ ran in
      let (own, own_found, g) = >>=-eq-ok (get_device_state next header.receiver_device_id) _ g in
      let (_, _, g) =
        >>=-eq-ok (named_one_time header.recipient_one_time_pre_key_id own.one_time_pre_keys) _ g in
      let (x, matched, _) =
        >>=-eq-ok
          (guard (nat_beq header.recipient_signed_pre_key_id own.signed_pre_key.signed_pre_key_id)
            signed_pre_key_mismatch)
          _ g in
      let same : own ≡ renewed = cc (
        found,
        rw to at (
            or_throw-eq-ok (lookup header.receiver_device_id next.devices) missing_device own
              own_found),
      ) in
      let same_id = ap (λ d. d.signed_pre_key.signed_pre_key_id) same in
      let equal =
        guard-eq-ok
          (nat_beq header.recipient_signed_pre_key_id own.signed_pre_key.signed_pre_key_id)
          signed_pre_key_mismatch x matched in
      ground (arith, above, le, same_id, equal, for_old)
