-- ===== src/E2e/Ratchet/Bounds.antt =====
-- The store of skipped message keys of ratchet.ts stays within `MAX_SKIPPED_MESSAGE_KEYS`.
use a.Base.{
  nat_beq, list_beq, Bool-cases, Option-cases, length, length-drop, >>=-eq-ok, ok, ℕ, zero, suc,
  ◌-◌, ◌≤◌, ◌≡◌, refl, ap, inl, inr, ◌&&◌, Option, none, some, List, [], ◌∷◌, ◌++◌, arith,
}
use a.E2e.Types.{Bytes, Hex, SessionMessage}
use a.E2e.Crypto.{Crypto, diffie_hellman_x25519}
use a.E2e.Messages.{decrypt_session_message}
use a.E2e.Session.{
  LocalSessionState, SkippedMessageKeyState, max_skipped_message_keys, RatchetDecryptResult,
  take_entry, store_skipped_message_key, truthy,
}
use a.E2e.Ratchet.{
  decrypt_ratchet_message, take_skipped_message_key, skip_loop, skip_message_keys, follow_ratchet,
  open_with, decrypt_from, advance_receiving_ratchet, derive_chain_step,
}

abbrev pub IsBounded : LocalSessionState → Type 0
IsBounded s = length s.skipped_message_keys ≤ max_skipped_message_keys

store-IsBounded :
    (to_hex : Bytes → Hex) (s : LocalSessionState) (key : Hex) (n : ℕ) (message_key : Bytes)
    → IsBounded (store_skipped_message_key to_hex s key n message_key)
unfolding store_skipped_message_key
store-IsBounded to_hex s key n message_key =
    let entry : SkippedMessageKeyState = record {
      ratchet_public_key = key;
      message_number = n;
      message_key = to_hex message_key;
    } in
    let keys = s.skipped_message_keys ++ entry ∷ [] in
    ground (arith, length-drop (length keys - 64) keys)

length-take_entry :
    (key : Hex) (n : ℕ) (xs rest : List SkippedMessageKeyState) (e : SkippedMessageKeyState)
    → take_entry key n xs ≡ some (e, rest)
    → length rest ≤ length xs
unfolding take_entry
length-take_entry key n [] rest e h = cc
length-take_entry key n (x ∷ xs) rest e h =
    elim (Bool-cases (list_beq x.ratchet_public_key key && nat_beq x.message_number n)) [
      | inl here ↦ ground (arith, here)
      | inr there ↦ elim (Option-cases (take_entry key n xs)) [
        | inl missing ↦ ground (arith, missing)
        | inr ((f, r), found) ↦ ground (arith, length-take_entry key n xs r f found)
      ]
    ]

module _ (crypto : Crypto) where
  open crypto use {to_hex, from_hex}

  skip_loop-IsBounded :
      (count : ℕ) (s : LocalSessionState) (chain_key : Bytes)
      → IsBounded s
      → IsBounded (skip_loop crypto count s chain_key).0
  unfolding skip_loop
  skip_loop-IsBounded zero s chain_key b = b
  skip_loop-IsBounded (suc count) s chain_key b = skip_loop-IsBounded count _ _ (
      store-IsBounded to_hex s s.remote_ratchet_public_key s.next_receive_message_number
        (derive_chain_step crypto chain_key).message_key)

  skip_message_keys-IsBounded :
      (s t : LocalSessionState) (until : ℕ)
      → IsBounded s
      → skip_message_keys crypto s until ≡ ok t
      → IsBounded t
  unfolding skip_message_keys
  skip_message_keys-IsBounded s t until b h = elim (Option-cases (truthy s.receiving_chain_key)) [
    | inl e ↦ ground (arith, e)
    | inr (k, e) ↦
        ground
          (arith, e, skip_loop-IsBounded (until - s.next_receive_message_number) s (from_hex k) b)
  ]

  advance-keeps_store :
      (s t : LocalSessionState) (remote : Bytes)
      → advance_receiving_ratchet crypto s remote ≡ ok t
      → t.skipped_message_keys ≡ s.skipped_message_keys
  unfolding advance_receiving_ratchet
  advance-keeps_store s t remote h =
      let (dh_output, e, f) =
        >>=-eq-ok (diffie_hellman_x25519 crypto (from_hex s.current_ratchet_key.private_key) remote)
          _ h in
      ground (arith, f)

  follow_ratchet-IsBounded :
      (s t : LocalSessionState) (m : SessionMessage)
      → IsBounded s
      → follow_ratchet crypto s m ≡ ok t
      → IsBounded t
  unfolding follow_ratchet
  follow_ratchet-IsBounded s t m b h =
      elim (Bool-cases (list_beq (to_hex m.ratchet_public_key) s.remote_ratchet_public_key)) [
        | inl same ↦ ground (arith, same)
        | inr new ↦
            let (skipped, e, f) =
              >>=-eq-ok (skip_message_keys crypto s m.previous_chain_length) _ (rw new at h) in
            omega (
              arith,
              skip_message_keys-IsBounded s skipped m.previous_chain_length b e,
              ap length (advance-keeps_store skipped t m.ratchet_public_key f),
            )
      ]

  open_with-IsBounded :
      (key : Option Hex) (s : LocalSessionState) (m : SessionMessage) (now : ℕ)
      (r : RatchetDecryptResult)
      → IsBounded s
      → open_with crypto key s m now ≡ ok r
      → IsBounded r.session
  unfolding open_with
  open_with-IsBounded none s m now r b h = cc
  open_with-IsBounded (some k) s m now r b h =
      let (plaintext, e, f) =
        >>=-eq-ok
          (decrypt_session_message crypto m (derive_chain_step crypto (from_hex k)).message_key) _
          h in
      ground (arith, f)

  decrypt_from-IsBounded :
      (o : Option (Bytes × LocalSessionState)) (s : LocalSessionState) (m : SessionMessage)
      (now : ℕ) (r : RatchetDecryptResult)
      → IsBounded s
      → ((key : Bytes) (taken : LocalSessionState) → o ≡ some (key, taken) → IsBounded taken)
      → decrypt_from crypto o s m now ≡ ok r
      → IsBounded r.session
  unfolding decrypt_from
  decrypt_from-IsBounded (some (key, taken)) s m now r b stored h =
      let (plaintext, e, f) = >>=-eq-ok (decrypt_session_message crypto m key) _ h in
      ground (arith, f, stored key taken refl)
  decrypt_from-IsBounded none s m now r b stored h =
      let (followed, e, f) = >>=-eq-ok (follow_ratchet crypto s m) _ h in
      let (skipped, e', f') = >>=-eq-ok (skip_message_keys crypto followed m.message_number) _ f in
      open_with-IsBounded (truthy skipped.receiving_chain_key) skipped m now r
        (skip_message_keys-IsBounded followed skipped m.message_number
          (follow_ratchet-IsBounded s followed m b e) e')
        f'

  take_skipped-IsBounded :
      (s taken : LocalSessionState) (k : Hex) (n : ℕ) (key : Bytes)
      → IsBounded s
      → take_skipped_message_key crypto s k n ≡ some (key, taken)
      → IsBounded taken
  unfolding take_skipped_message_key
  take_skipped-IsBounded s taken k n key b h =
      elim (Option-cases (take_entry k n s.skipped_message_keys)) [
        | inl e ↦ ground (arith, e)
        | inr ((found, rest), e) ↦
            ground (arith, e, length-take_entry k n s.skipped_message_keys rest found e)
      ]

  -- Whatever message is decrypted, on every path through the code, a session that holds at most
  -- `MAX_SKIPPED_MESSAGE_KEYS` skipped keys holds at most that many afterwards.
  pub decrypt_ratchet_message-IsBounded :
      (s : LocalSessionState) (m : SessionMessage) (now : ℕ) (r : RatchetDecryptResult)
      → IsBounded s
      → decrypt_ratchet_message crypto s m now ≡ ok r
      → IsBounded r.session
  unfolding decrypt_ratchet_message
  decrypt_ratchet_message-IsBounded s m now r b h =
      decrypt_from-IsBounded
        (take_skipped_message_key crypto s (to_hex m.ratchet_public_key) m.message_number) s m now r
        b
        (λ key taken e.
          take_skipped-IsBounded s taken (to_hex m.ratchet_public_key) m.message_number key b e)
        h
