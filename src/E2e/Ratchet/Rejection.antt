-- ===== src/E2e/Ratchet/Rejection.antt =====
-- What `decryptRatchetMessage` of ratchet.ts refuses on a chain: messages beyond the window, and
-- messages that have been decrypted before.
use a.Base.{
  lt→ltb, ltb-eq-false, Bool-cases, length, All, All-append, All-mono, ok-injective, ok, err, ℕ,
  ◌+◌, ◌-◌, ◌≤◌, ◌<◌, ◌≡◌, sym, ap, subst, ◌∙◌, ◌≢◌, inl, inr, true, false, none, ◌++◌, arith,
  dec_lt,
}
use a.E2e.Types.{Bytes, SessionMessage, window_exceeded, decrypt_failed}
use a.E2e.Crypto.{Crypto, decrypt_xchacha20_poly1305}
use a.E2e.Messages.{decrypt_session_message, build_session_message_associated_data}
use a.E2e.Session.{RatchetDecryptResult, LocalSessionState, max_skipped_message_keys, truthy}
use a.E2e.Ratchet.{
  decrypt_ratchet_message, take_skipped_message_key, skip_message_keys, open_with, decrypt_from,
}
use a.E2e.Ratchet.Chain.{
  message_key_at, chain_at, length-chain_at, length-message_key_at, truthy-to_hex,
}
use a.E2e.Ratchet.Skip.{run_of}
use a.E2e.Ratchet.Store.{
  holds, holds_above, take_entry_missing, take_entry_holds, take_entry_gone, AreOnce,
}
use a.E2e.Ratchet.Reorder.{run-IsGenuine, after_ahead-Follows}
use a.E2e.Ratchet.Delivery.{
  Follows, Sealed, take_missing, follow_same, IsGenuine, after_ahead, decrypt_ahead, decrypt_late,
}

module _ (crypto : Crypto) where
  open crypto use {seal, open_sealed, to_hex}

  -- The AEAD's tag: a text that was sealed under one key does not open under another.
  abbrev pub IsAuthentic : Type 0
  IsAuthentic =
      (k k' nonce ad plaintext : Bytes)
      → k ≢ k'
      → open_sealed k' nonce ad (seal k nonce ad plaintext) ≡ none

  skip_too_far :
      (root : Bytes) (s : LocalSessionState) (until : ℕ)
      → Follows crypto root s
      → s.next_receive_message_number + max_skipped_message_keys < until
      → skip_message_keys crypto s until ≡ err window_exceeded
  unfolding skip_message_keys
  skip_too_far root s until f far =
      let n = s.next_receive_message_number in
      rw (
        ltb-eq-false until n (omega arith),
        f.receiving,
        truthy-to_hex crypto (chain_at crypto root n) (length-chain_at crypto root n f.root_length),
        lt→ltb 64 (until - n) (omega arith),
      )

  -- A message of the chain that is more than `MAX_SKIPPED_MESSAGE_KEYS` ahead is refused, whatever
  -- its ciphertext.
  pub decrypt_too_far :
      (root : Bytes) (s : LocalSessionState) (m : SessionMessage) (now : ℕ)
      → Follows crypto root s
      → to_hex m.ratchet_public_key ≡ s.remote_ratchet_public_key
      → s.next_receive_message_number + max_skipped_message_keys < m.message_number
      → decrypt_ratchet_message crypto s m now ≡ err window_exceeded
  unfolding decrypt_ratchet_message
  decrypt_too_far root s m now f e far =
      ap (λ k. decrypt_from crypto (take_skipped_message_key crypto s k m.message_number) s m now) e
      ∙ ap (λ o. decrypt_from crypto o s m now)
          (take_missing crypto root s m.message_number f (omega arith))
      ∙ rw (follow_same crypto s m e, skip_too_far root s m.message_number f far)

  open_replayed :
      (root key plaintext : Bytes) (n : ℕ) (m : SessionMessage)
      → IsAuthentic
      → Sealed crypto root key plaintext m
      → message_key_at crypto root m.message_number ≢ message_key_at crypto root n
      → decrypt_session_message crypto m (message_key_at crypto root n) ≡ err decrypt_failed
  unfolding decrypt_session_message decrypt_xchacha20_poly1305
  open_replayed root key plaintext n m auth z differ = rw (
    length-message_key_at crypto root n,
    z.nonce_length,
    z.contents,
    auth (message_key_at crypto root m.message_number) (message_key_at crypto root n) m.nonce
        (build_session_message_associated_data crypto m.header) plaintext differ,
  )

  skip_behind :
      (s : LocalSessionState) (until : ℕ)
      → until < s.next_receive_message_number
      → skip_message_keys crypto s until ≡ ok s
  unfolding skip_message_keys
  skip_behind s until lt = rw (lt→ltb until s.next_receive_message_number lt)

  open_with_replayed :
      (root key plaintext : Bytes) (s : LocalSessionState) (m : SessionMessage) (now : ℕ)
      → IsAuthentic
      → Follows crypto root s
      → Sealed crypto root key plaintext m
      → message_key_at crypto root m.message_number
        ≢ message_key_at crypto root s.next_receive_message_number
      → open_with crypto (truthy s.receiving_chain_key) s m now ≡ err decrypt_failed
  unfolding open_with message_key_at
  open_with_replayed root key plaintext s m now auth f z differ =
      let n = s.next_receive_message_number in
      ap (λ k. open_with crypto (truthy k) s m now) f.receiving
      ∙ ap (λ k. open_with crypto k s m now)
          (truthy-to_hex crypto (chain_at crypto root n)
            (length-chain_at crypto root n f.root_length))
      ∙ rw (
        crypto.from_hex-to_hex (chain_at crypto root n),
        open_replayed root key plaintext n m auth z differ,
      )

  -- A message that has gone by and whose key is not stored.
  decrypt_gone :
      (root key plaintext : Bytes) (s : LocalSessionState) (m : SessionMessage) (now : ℕ)
      → IsAuthentic
      → Follows crypto root s
      → s.remote_ratchet_public_key ≡ to_hex key
      → Sealed crypto root key plaintext m
      → m.message_number < s.next_receive_message_number
      → holds s.remote_ratchet_public_key m.message_number s.skipped_message_keys ≡ false
      → message_key_at crypto root m.message_number
        ≢ message_key_at crypto root s.next_receive_message_number
      → decrypt_ratchet_message crypto s m now ≡ err decrypt_failed
  unfolding decrypt_ratchet_message take_skipped_message_key
  decrypt_gone root key plaintext s m now auth f remote z lt gone differ =
      let n = m.message_number in
      let e : to_hex m.ratchet_public_key ≡ s.remote_ratchet_public_key =
        ap to_hex z.its_key ∙ sym remote in
      ap (λ k. decrypt_from crypto (take_skipped_message_key crypto s k n) s m now) e
      ∙ ap (λ o. decrypt_from crypto o s m now) (take_gone s n gone)
      ∙ rw (follow_same crypto s m e, skip_behind s n lt)
          (open_with_replayed root key plaintext s m now auth f z differ)
    where
      take_gone :
          (s : LocalSessionState) (n : ℕ)
          → holds s.remote_ratchet_public_key n s.skipped_message_keys ≡ false
          → take_skipped_message_key crypto s s.remote_ratchet_public_key n ≡ none
      take_gone s n gone = rw (
        take_entry_missing s.remote_ratchet_public_key n s.skipped_message_keys gone,
        take_skipped_message_key,
      )

  -- The two sides of the chain's end: the key was skipped and stored, or it comes now.
  replayed_ahead :
      (root key plaintext : Bytes) (s : LocalSessionState) (m : SessionMessage) (now later : ℕ)
      → IsAuthentic
      → Follows crypto root s
      → s.remote_ratchet_public_key ≡ to_hex key
      → Sealed crypto root key plaintext m
      → s.next_receive_message_number ≤ m.message_number
      → message_key_at crypto root m.message_number
        ≢ message_key_at crypto root (m.message_number + 1)
      → decrypt_ratchet_message crypto (after_ahead crypto root s m.message_number now) m later
        ≡ err decrypt_failed
  replayed_ahead root key plaintext s m now later auth f remote z le differ =
      let n = m.message_number in
      let start = s.next_receive_message_number in
      let run = run_of crypto root s.remote_ratchet_public_key start (n - start) in
      let below : All (IsGenuine crypto root s.remote_ratchet_public_key n)
          (s.skipped_message_keys ++ run) =
        All-append (IsGenuine crypto root s.remote_ratchet_public_key n) s.skipped_message_keys run
          (All-mono (λ e g same. (omega (arith, (g same).0, le), (g same).1)) s.skipped_message_keys
            f.genuine)
          (run-IsGenuine crypto root s.remote_ratchet_public_key start (n - start) n
            (omega arith)) in
      decrypt_gone root key plaintext (after_ahead crypto root s n now) m later auth
        (after_ahead-Follows crypto root s n now f le) remote z (omega arith)
        (holds_above s.remote_ratchet_public_key n n _ (All-mono (λ e g same. (g same).0) _ below)
          (omega arith))
        differ

  replayed_late :
      (root key plaintext : Bytes) (s : LocalSessionState) (m : SessionMessage) (now later : ℕ)
      → IsAuthentic
      → Follows crypto root s
      → s.remote_ratchet_public_key ≡ to_hex key
      → Sealed crypto root key plaintext m
      → AreOnce s.skipped_message_keys
      → m.message_number < s.next_receive_message_number
      → holds s.remote_ratchet_public_key m.message_number s.skipped_message_keys ≡ true
      → message_key_at crypto root m.message_number
        ≢ message_key_at crypto root s.next_receive_message_number
      → (r : RatchetDecryptResult) → decrypt_ratchet_message crypto s m now ≡ ok r
      → decrypt_ratchet_message crypto r.session m later ≡ err decrypt_failed
  replayed_late root key plaintext s m now later auth f remote z once lt held differ r h =
      let t =
        take_entry_holds
          (IsGenuine crypto root s.remote_ratchet_public_key s.next_receive_message_number)
          s.remote_ratchet_public_key m.message_number s.skipped_message_keys f.genuine held in
      let after : LocalSessionState = record s {
        skipped_message_keys = t.rest;
        updated_at = now;
      } in
      let same : after ≡ r.session =
        ap (λ x. x.session)
          (ok-injective (sym (decrypt_late crypto root key plaintext s m now f remote z t) ∙ h)) in
      subst (λ x. decrypt_ratchet_message crypto x m later ≡ err decrypt_failed) same
        (decrypt_gone root key plaintext after m later auth
          (record { root_length = f.root_length; receiving = f.receiving; genuine = t.rest_good })
          remote z lt
          (take_entry_gone s.remote_ratchet_public_key m.message_number s.skipped_message_keys once
            held t.entry t.rest t.found)
          differ)

  -- A message of the chain that was decrypted fails to decrypt in the session that its decryption
  -- left, whether it came in its turn, ahead of others or late. The AEAD is to be authentic, the
  -- message keys of the chain to differ, and the store to have room and no message's key twice.
  pub decrypt_replayed :
      (root key plaintext : Bytes) (s : LocalSessionState) (m : SessionMessage) (now later : ℕ)
      (r : RatchetDecryptResult)
      → IsAuthentic
      → Follows crypto root s
      → s.remote_ratchet_public_key ≡ to_hex key
      → Sealed crypto root key plaintext m
      → AreOnce s.skipped_message_keys
      → length s.skipped_message_keys + (m.message_number - s.next_receive_message_number)
        ≤ max_skipped_message_keys
      → ((k : ℕ)
          → m.message_number < k
          → message_key_at crypto root m.message_number ≢ message_key_at crypto root k)
      → decrypt_ratchet_message crypto s m now ≡ ok r
      → decrypt_ratchet_message crypto r.session m later ≡ err decrypt_failed
  decrypt_replayed root key plaintext s m now later r auth f remote z once room differ h =
      let n = m.message_number in
      elim (dec_lt n s.next_receive_message_number) [
        | yes lt ↦
            let next = differ s.next_receive_message_number lt in
            elim (Bool-cases (holds s.remote_ratchet_public_key n s.skipped_message_keys)) [
              | inl held ↦
                  replayed_late root key plaintext s m now later auth f remote z once lt held next r
                    h
              | inr gone ↦
                  absurd
                    (cc (h, decrypt_gone root key plaintext s m now auth f remote z lt gone next))
            ]
        | no ge ↦
            let le : s.next_receive_message_number ≤ n = omega (arith, ge) in
            let same : after_ahead crypto root s n now ≡ r.session =
              ap (λ x. x.session)
                (ok-injective
                  (sym (decrypt_ahead crypto root key plaintext s m now f remote z le room) ∙ h)) in
            subst (λ x. decrypt_ratchet_message crypto x m later ≡ err decrypt_failed) same
              (replayed_ahead root key plaintext s m now later auth f remote z le
                (differ (n + 1) (omega arith)))
      ]
