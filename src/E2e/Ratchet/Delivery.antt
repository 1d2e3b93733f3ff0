-- ===== src/E2e/Ratchet/Delivery.antt =====
-- `decryptRatchetMessage` and `encryptRatchetMessage` of ratchet.ts on one message of a chain that
-- both ends follow.
use a.Base.{
  list_beq_refl, length, All, All-mono, ok, ℕ, ◌+◌, ◌-◌, ◌≤◌, ◌<◌, ◌≡◌, sym, ap, ◌∙◌, true, false,
  none, some, List, arith,
}
use a.E2e.Types.{Bytes, Hex, SessionMessage}
use a.E2e.Crypto.{Crypto, decrypt-encrypt}
use a.E2e.Messages.{decrypt_session_message, build_session_message_associated_data}
use a.E2e.Session.{
  LocalSessionState, SkippedMessageKeyState, max_skipped_message_keys, take_entry, truthy,
}
use a.E2e.Ratchet.{
  take_skipped_message_key, decrypt_ratchet_message, follow_ratchet, open_with, decrypt_from,
}
use a.E2e.Ratchet.Chain.{
  chain_at, message_key_at, chain_at-add_one, length-chain_at, length-message_key_at, truthy-to_hex,
}
use a.E2e.Ratchet.Store.{Taken, take_entry_missing, holds_above}
use a.E2e.Ratchet.Skip.{skipped_by, skip_with_room}

module _ (crypto : Crypto) where
  open crypto use {seal, to_hex, from_hex}

  -- A stored key of the session's current chain is the key of a message that was passed over.
  abbrev pub IsGenuine : Bytes → Hex → ℕ → SkippedMessageKeyState → Type 0
  IsGenuine root key next e =
      e.ratchet_public_key ≡ key
      → (e.message_number < next)
        × (e.message_key ≡ to_hex (message_key_at crypto root e.message_number))

  -- The receiving end of the chain that starts at `root`.
  pub record Follows (root : Bytes) (s : LocalSessionState) : Type 0 where
    pub root_length : length root ≡ 32
    pub receiving :
        s.receiving_chain_key ≡ some (to_hex (chain_at crypto root s.next_receive_message_number))
    pub genuine :
        All
          (IsGenuine root s.remote_ratchet_public_key s.next_receive_message_number)
          s.skipped_message_keys

  -- The sending end of the chain, under the ratchet key `key`.
  pub record Sends (root key : Bytes) (s : LocalSessionState) : Type 0 where
    pub root_length : length root ≡ 32
    pub sending :
        s.sending_chain_key ≡ some (to_hex (chain_at crypto root s.next_send_message_number))
    pub its_key : s.current_ratchet_key.public_key ≡ to_hex key

  -- A message of the chain, sealed under the key of its number.
  pub record Sealed (root key : Bytes) (plaintext : Bytes) (m : SessionMessage) : Type 0 where
    pub its_key : m.ratchet_public_key ≡ key
    pub nonce_length : length m.nonce ≡ 24
    pub contents :
        m.ciphertext
        ≡ seal
            (message_key_at crypto root m.message_number)
            m.nonce
            (build_session_message_associated_data crypto m.header)
            plaintext

  pub decrypt-Sealed :
      (root key plaintext : Bytes) (m : SessionMessage)
      → Sealed root key plaintext m
      → decrypt_session_message crypto m (message_key_at crypto root m.message_number)
        ≡ ok plaintext
  unfolding decrypt_session_message
  decrypt-Sealed root key plaintext m z = rw z.contents (
      decrypt-encrypt crypto (message_key_at crypto root m.message_number) m.nonce plaintext
        (build_session_message_associated_data crypto m.header)
        (length-message_key_at crypto root m.message_number) z.nonce_length)

  -- The session after a message that is ahead: the keys of the messages in between are kept.
  abbrev pub after_ahead : Bytes → LocalSessionState → ℕ → ℕ → LocalSessionState
  after_ahead root s n now = record (skipped_by crypto root s (n - s.next_receive_message_number)) {
    receiving_chain_key = some (to_hex (chain_at crypto root (n + 1)));
    next_receive_message_number = n + 1;
    updated_at = now;
  }

  pub take_missing :
      (root : Bytes) (s : LocalSessionState) (n : ℕ)
      → Follows root s
      → s.next_receive_message_number ≤ n
      → take_skipped_message_key crypto s s.remote_ratchet_public_key n ≡ none
  unfolding take_skipped_message_key
  take_missing root s n f le = rw (
    take_entry_missing s.remote_ratchet_public_key n s.skipped_message_keys (
        holds_above s.remote_ratchet_public_key s.next_receive_message_number n
          s.skipped_message_keys
          (All-mono (λ e g same. (g same).0) s.skipped_message_keys f.genuine) le),
    take_skipped_message_key,
  )

  take_found :
      (s : LocalSessionState) (key : Hex) (n : ℕ) (entry : SkippedMessageKeyState)
      (rest : List SkippedMessageKeyState) (message_key : Bytes)
      → take_entry key n s.skipped_message_keys ≡ some (entry, rest)
      → entry.message_key ≡ to_hex message_key
      → take_skipped_message_key crypto s key n
        ≡ some (message_key, record s { skipped_message_keys = rest })
  unfolding take_skipped_message_key
  take_found s key n entry rest message_key found stored =
      rw (found, take_skipped_message_key)
        (ap (λ k. some (from_hex k, record s { skipped_message_keys = rest })) stored
          ∙ rw (crypto.from_hex-to_hex message_key))

  pub follow_same :
      (s : LocalSessionState) (m : SessionMessage)
      → to_hex m.ratchet_public_key ≡ s.remote_ratchet_public_key
      → follow_ratchet crypto s m ≡ ok s
  unfolding follow_ratchet
  follow_same s m e = rw (e, list_beq_refl s.remote_ratchet_public_key)

  open_with-Sealed :
      (root key plaintext : Bytes) (s : LocalSessionState) (m : SessionMessage) (now : ℕ)
      → length root ≡ 32
      → s.receiving_chain_key ≡ some (to_hex (chain_at crypto root m.message_number))
      → Sealed root key plaintext m
      → open_with crypto (truthy s.receiving_chain_key) s m now
        ≡ ok (record {
          plaintext = plaintext;
          session = record s {
            receiving_chain_key = some (to_hex (chain_at crypto root (m.message_number + 1)));
            next_receive_message_number = m.message_number + 1;
            updated_at = now;
          };
          message_key = message_key_at crypto root m.message_number;
          used_skipped_message_key = false;
        })
  unfolding open_with message_key_at
  open_with-Sealed root key plaintext s m now len receiving z =
      let n = m.message_number in
      ap (λ k. open_with crypto (truthy k) s m now) receiving
      ∙ ap (λ k. open_with crypto k s m now)
          (truthy-to_hex crypto (chain_at crypto root n) (length-chain_at crypto root n len))
      ∙ rw (
        crypto.from_hex-to_hex (chain_at crypto root n),
        decrypt-Sealed root key plaintext m z,
        chain_at-add_one crypto root n,
      )

  pub decrypt_ahead :
      (root key plaintext : Bytes) (s : LocalSessionState) (m : SessionMessage) (now : ℕ)
      → Follows root s
      → s.remote_ratchet_public_key ≡ to_hex key
      → Sealed root key plaintext m
      → s.next_receive_message_number ≤ m.message_number
      → length s.skipped_message_keys + (m.message_number - s.next_receive_message_number)
        ≤ max_skipped_message_keys
      → decrypt_ratchet_message crypto s m now
        ≡ ok (record {
          plaintext = plaintext;
          session = after_ahead root s m.message_number now;
          message_key = message_key_at crypto root m.message_number;
          used_skipped_message_key = false;
        })
  unfolding decrypt_ratchet_message
  decrypt_ahead root key plaintext s m now f remote z le room =
      let n = m.message_number in
      let count = n - s.next_receive_message_number in
      let at_n : s.next_receive_message_number + count ≡ n = omega arith in
      let e : to_hex m.ratchet_public_key ≡ s.remote_ratchet_public_key =
        ap to_hex z.its_key ∙ sym remote in
      let skipped : LocalSessionState = record (skipped_by crypto root s count) {
        receiving_chain_key =
            some (to_hex (chain_at crypto root (s.next_receive_message_number + count)));
      } in
      ap (λ k. decrypt_from crypto (take_skipped_message_key crypto s k n) s m now) e
      ∙ ap (λ o. decrypt_from crypto o s m now) (take_missing root s n f le)
      ∙ rw (follow_same s m e, skip_with_room crypto root s n f.root_length f.receiving le room)
          (open_with-Sealed root key plaintext skipped m now f.root_length
            (ap (λ i. some (to_hex (chain_at crypto root i))) at_n) z)

  -- A message that was passed over is opened by its stored key, which is then gone.
  pub decrypt_late :
      (root key plaintext : Bytes) (s : LocalSessionState) (m : SessionMessage) (now : ℕ)
      → Follows root s
      → s.remote_ratchet_public_key ≡ to_hex key
      → Sealed root key plaintext m
      → (t : Taken
          (IsGenuine root s.remote_ratchet_public_key s.next_receive_message_number)
          s.remote_ratchet_public_key
          m.message_number
          s.skipped_message_keys)
      → decrypt_ratchet_message crypto s m now
        ≡ ok (record {
          plaintext = plaintext;
          session = record s { skipped_message_keys = t.rest; updated_at = now };
          message_key = message_key_at crypto root m.message_number;
          used_skipped_message_key = true;
        })
  unfolding decrypt_ratchet_message
  decrypt_late root key plaintext s m now f remote z t =
      let n = m.message_number in
      let e : to_hex m.ratchet_public_key ≡ s.remote_ratchet_public_key =
        ap to_hex z.its_key ∙ sym remote in
      let stored : t.entry.message_key ≡ to_hex (message_key_at crypto root n) =
        (t.good t.its_key).1 ∙ ap (λ i. to_hex (message_key_at crypto root i)) t.its_number in
      let taken : take_skipped_message_key crypto s s.remote_ratchet_public_key n
          ≡ some (message_key_at crypto root n, record s { skipped_message_keys = t.rest }) =
        take_found s s.remote_ratchet_public_key n t.entry t.rest (message_key_at crypto root n)
          t.found stored in
      ap (λ k. decrypt_from crypto (take_skipped_message_key crypto s k n) s m now) e
      ∙ ap (λ o. decrypt_from crypto o s m now) taken
      ∙ rw (decrypt-Sealed root key plaintext m z)
