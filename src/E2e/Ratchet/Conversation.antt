-- ===== src/E2e/Ratchet/Conversation.antt =====
-- Two sessions of ratchet.ts that were set up from one shared secret, and a flight of messages from
-- the initiator to the responder.
use a.Base.{
  or_else, length, All, Result, ◌>>=◌, ok, ℕ, ◌+◌, ◌≡◌, refl, ap, ◌∙◌, some, List, [], ◌∷◌, map,
  arith,
}
use a.E2e.Types.{Bytes, EncryptionError}
use a.E2e.Crypto.{Crypto, encrypt_xchacha20_poly1305}
use a.E2e.Messages.{encrypt_session_message, build_session_message_associated_data}
use a.E2e.Session.{
  LocalSessionState, RatchetEncryptInput, RatchetEncryptResult, X25519KeyPair, truthy,
}
use a.E2e.Ratchet.{
  ensure_sending_chain, encrypt_ratchet_message, seal_next, seal_from, session_header,
}
use a.E2e.Ratchet.Chain.{
  message_key_at, chain_at, chain_at-add_one, length-chain_at, length-message_key_at, truthy-to_hex,
}
use a.E2e.Ratchet.Delivery.{Sends, Sealed}
use a.E2e.Ratchet.Reorder.{Traffic, HasNumber}

-- The nonce that a call uses has the AEAD's length, as `randomBytes(24)` has.
abbrev pub HasNonce : RatchetEncryptInput → Type 0
HasNonce input = length (or_else input.nonce input.fresh_nonce) ≡ 24

module _ (crypto : Crypto) where
  open crypto use {node_diffie_hellman, to_hex, from_hex}

  -- What `encryptRatchetMessage` returns on a session that sends the chain from `root`.
  abbrev pub sent : Bytes → RatchetEncryptInput → LocalSessionState → RatchetEncryptResult
  sent root input s = record {
    message = record {
      header = session_header crypto input s;
      ciphertext =
          crypto.seal (message_key_at crypto root s.next_send_message_number)
            (or_else input.nonce input.fresh_nonce)
            (build_session_message_associated_data crypto (session_header crypto input s))
            input.plaintext;
    };
    session = record s {
      sending_chain_key = some (to_hex (chain_at crypto root (s.next_send_message_number + 1)));
      next_send_message_number = s.next_send_message_number + 1;
      updated_at = or_else input.now input.clock;
    };
    message_key = message_key_at crypto root s.next_send_message_number;
  }

  seal_next_lem :
      (input : RatchetEncryptInput) (s : LocalSessionState) (root : Bytes)
      → HasNonce input
      → seal_next crypto input s (to_hex (chain_at crypto root s.next_send_message_number))
        ≡ ok (sent root input s)
  unfolding seal_next encrypt_session_message encrypt_xchacha20_poly1305 message_key_at
  seal_next_lem input s root h =
      let n = s.next_send_message_number in
      rw (
        crypto.from_hex-to_hex (chain_at crypto root n),
        h,
        length-message_key_at crypto root n,
        chain_at-add_one crypto root n,
      )

  ensure_same :
      (s : LocalSessionState) (pair : X25519KeyPair) (root key : Bytes)
      → Sends crypto root key s
      → ensure_sending_chain crypto s pair ≡ ok s
  unfolding ensure_sending_chain
  ensure_same s pair root key d =
      let n = s.next_send_message_number in
      let present : truthy s.sending_chain_key ≡ some (to_hex (chain_at crypto root n)) =
        ap truthy d.sending
        ∙ truthy-to_hex crypto (chain_at crypto root n)
            (length-chain_at crypto root n d.root_length) in
      rw (present, ensure_sending_chain)

  encrypt-Sends :
      (input : RatchetEncryptInput) (root key : Bytes)
      → Sends crypto root key input.session
      → HasNonce input
      → encrypt_ratchet_message crypto input ≡ ok (sent root input input.session)
  unfolding encrypt_ratchet_message
  encrypt-Sends input root key d h =
      let s = input.session in
      let n = s.next_send_message_number in
      rw (ensure_same s (or_else input.ratchet_key_pair input.fresh_key_pair) root key d) (
        ap (λ k. seal_from crypto (truthy k) input s) d.sending
        ∙ ap (λ k. seal_from crypto k input s)
            (truthy-to_hex crypto (chain_at crypto root n)
              (length-chain_at crypto root n d.root_length))
        ∙ seal_next_lem input s root h)

  sent-Sends :
      (input : RatchetEncryptInput) (s : LocalSessionState) (root key : Bytes)
      → Sends crypto root key s
      → Sends crypto root key (sent root input s).session
  sent-Sends input s root key d = record {
    root_length = d.root_length;
    sending = refl;
    its_key = d.its_key;
  }

  sent-Sealed :
      (input : RatchetEncryptInput) (s : LocalSessionState) (root key : Bytes)
      → Sends crypto root key s
      → HasNonce input
      → Sealed crypto root key input.plaintext (sent root input s).message
  sent-Sealed input s root key d h = record {
    its_key = ap from_hex d.its_key ∙ crypto.from_hex-to_hex key;
    nonce_length = h;
    contents = refl;
  }

  -- A sender that encrypts one text after the other.
  unfoldable pub send_flight :
      LocalSessionState
      → List RatchetEncryptInput
      → Result EncryptionError (Traffic × LocalSessionState)
  send_flight s [] = ok ([], s)
  send_flight s (input ∷ inputs) = do
    r ← encrypt_ratchet_message crypto (record input { session = s })
    rest ← send_flight r.session inputs
    ok ((r.message, input.plaintext) ∷ rest.0, rest.1)

  -- Sealed messages with the numbers `n`, `n + 1`, …
  abbrev pub IsRun : Bytes → Bytes → ℕ → Traffic → Type 0
  IsRun root key n [] = Unit
  IsRun root key n (p ∷ ps) =
      Sealed crypto root key p.1 p.0 × HasNumber n p × IsRun root key (n + 1) ps

  pub record Sent (root key : Bytes) (s : LocalSessionState) (inputs : List RatchetEncryptInput)
      : Type 0 where
    pub traffic : Traffic
    pub after : LocalSessionState
    pub returned : send_flight s inputs ≡ ok (traffic, after)
    pub plaintexts : map (λ p. p.1) traffic ≡ map (λ i. i.plaintext) inputs
    pub count : length traffic ≡ length inputs
    pub run : IsRun root key s.next_send_message_number traffic

  pub send_flight-Sent :
      (root key : Bytes) (s : LocalSessionState) (inputs : List RatchetEncryptInput)
      → Sends crypto root key s
      → All HasNonce inputs
      → Sent root key s inputs
  unfolding send_flight
  send_flight-Sent root key s [] d h = record {
    traffic = [];
    after = s;
    returned = refl;
    plaintexts = refl;
    count = refl;
    run = tt;
  }
  send_flight-Sent root key s (input ∷ inputs) d h =
      let here : RatchetEncryptInput = record input { session = s } in
      let r = sent root here s in
      let rest = send_flight-Sent root key r.session inputs (sent-Sends here s root key d) h.1 in
      record {
        traffic = (r.message, input.plaintext) ∷ rest.traffic;
        after = rest.after;
        returned = rw (encrypt-Sends here root key d h.0, rest.returned);
        plaintexts = rw rest.plaintexts;
        count = omega (arith, rest.count);
        run = (sent-Sealed here s root key d h.0, refl, rest.run);
      }
