-- ===== src/E2e/Ratchet.antt =====
-- js/core/protocol/src/e2e/ratchet.ts: the Double Ratchet session. Operations work on a clone of the
-- session that they are given, so here they return the new one; what an operation throws is a
-- result. Random values and the clock are arguments. Message numbers are natural numbers.
pub mod Chain
pub mod Store
pub mod Skip
pub mod Bounds
pub mod Delivery
pub mod Rejection
pub mod Reorder
pub mod Conversation
pub mod Flight
use Prim.Native.Char.{code}
use a.Base.{
  ltb, nat_beq, if◌then◌else◌, list_beq, or_else, length, take, drop, Result, ◌>>=◌, ◌>>◌, guard,
  ok, err, ℕ, zero, suc, ◌+◌, ◌-◌, true, false, Option, none, some, [],
}
use a.E2e.Types.{
  Bytes, Hex, EncryptionError, nonce_length, missing_chain_while_skipping, window_exceeded,
  missing_sending_chain, missing_receiving_chain, LocalDeviceKeyPair, SessionHeader, SessionMessage,
}
use a.E2e.Crypto.{Crypto, diffie_hellman_x25519}
use a.E2e.Messages.{encrypt_session_message, decrypt_session_message}
use a.E2e.Session.{
  codes, double_ratchet_root_info, double_ratchet_chain_info, double_ratchet_chain_salt,
  max_skipped_message_keys, X25519KeyPair, SkippedMessageKeyState, LocalSessionBootstrapState, Role,
  LocalSessionState, CreateRatchetSessionInput, RatchetEncryptInput, RatchetEncryptResult,
  RatchetDecryptResult, RootStep, ChainStep, truthy, take_entry, store_skipped_message_key,
  initiator, responder,
}

module _ (crypto : Crypto) where
  open crypto use {hkdf, to_hex, from_hex}

  unfoldable pub derive_root_and_chain_keys : Bytes → Bytes → RootStep
  derive_root_and_chain_keys root_key dh_output =
      let material = hkdf dh_output root_key double_ratchet_root_info 64 in
      record { root_key = take 32 material; chain_key = take 32 (drop 32 material) }

  unfoldable pub derive_chain_step : Bytes → ChainStep
  derive_chain_step chain_key =
      let material = hkdf chain_key double_ratchet_chain_salt double_ratchet_chain_info 64 in
      record { chain_key = take 32 material; message_key = take 32 (drop 32 material) }

  unfoldable pub take_skipped_message_key :
      LocalSessionState → Hex → ℕ → Option (Bytes × LocalSessionState)
  take_skipped_message_key s key n = elim (take_entry key n s.skipped_message_keys) [
    | none ↦ none
    | some (e, rest) ↦ some (from_hex e.message_key, record s { skipped_message_keys = rest })
  ]

  -- The `while` loop of `skipMessageKeys`: the rounds left, the session and the chain key.
  unfoldable pub skip_loop : ℕ → LocalSessionState → Bytes → LocalSessionState × Bytes
  skip_loop zero s chain_key = (s, chain_key)
  skip_loop (suc rounds) s chain_key =
      let step = derive_chain_step chain_key in
      let stored =
        store_skipped_message_key to_hex s s.remote_ratchet_public_key s.next_receive_message_number
          step.message_key in
      skip_loop rounds
        (record stored { next_receive_message_number = s.next_receive_message_number + 1 })
        step.chain_key

  unfoldable pub skip_message_keys :
      LocalSessionState → ℕ → Result EncryptionError LocalSessionState
  skip_message_keys s until =
      if ltb until s.next_receive_message_number
      then ok s
      else elim (truthy s.receiving_chain_key) [
        | none ↦
            if nat_beq until s.next_receive_message_number
            then ok s
            else err missing_chain_while_skipping
        | some chain_key ↦
            let gap = until - s.next_receive_message_number in
            let (skipped, last) = skip_loop gap s (from_hex chain_key) in
            if ltb max_skipped_message_keys gap
            then err window_exceeded
            else ok (record skipped { receiving_chain_key = some (to_hex last) })
      ]

  unfoldable pub ensure_sending_chain :
      LocalSessionState → X25519KeyPair → Result EncryptionError LocalSessionState
  ensure_sending_chain s pair = elim (truthy s.sending_chain_key) [
    | some chain_key ↦ ok s
    | none ↦ do
      dh_output ←
          diffie_hellman_x25519 crypto pair.private_key (from_hex s.remote_ratchet_public_key)
      let derived = derive_root_and_chain_keys (from_hex s.root_key) dh_output
      ok (record s {
        root_key = to_hex derived.root_key;
        current_ratchet_key = record {
          public_key = to_hex pair.public_key;
          private_key = to_hex pair.private_key;
        };
        sending_chain_key = some (to_hex derived.chain_key);
        previous_send_chain_length = s.next_send_message_number;
        next_send_message_number = 0;
      })
  ]

  unfoldable pub advance_receiving_ratchet :
      LocalSessionState → Bytes → Result EncryptionError LocalSessionState
  advance_receiving_ratchet s remote = do
    dh_output ← diffie_hellman_x25519 crypto (from_hex s.current_ratchet_key.private_key) remote
    let derived = derive_root_and_chain_keys (from_hex s.root_key) dh_output
    ok (record s {
      root_key = to_hex derived.root_key;
      remote_ratchet_public_key = to_hex remote;
      receiving_chain_key = some (to_hex derived.chain_key);
      next_receive_message_number = 0;
      sending_chain_key = none;
    })

  unfoldable pub create_session :
      CreateRatchetSessionInput → RootStep → Option Hex → Option Hex → LocalSessionState
  create_session input derived sending receiving = record {
    session_id = input.session_id;
    peer_did = input.peer_did;
    peer_device_id = input.peer_device_id;
    self_device_id = input.self_device_id;
    role = input.role;
    root_key = to_hex derived.root_key;
    current_ratchet_key = record {
      public_key = to_hex input.current_ratchet_key.public_key;
      private_key = to_hex input.current_ratchet_key.private_key;
    };
    remote_ratchet_public_key = to_hex input.remote_ratchet_public_key;
    sending_chain_key = sending;
    receiving_chain_key = receiving;
    created_at = input.created_at;
    updated_at = input.created_at;
    next_send_message_number = 0;
    next_receive_message_number = 0;
    previous_send_chain_length = 0;
    skipped_message_keys = [];
    bootstrap = input.bootstrap;
  }

  unfoldable pub create_initiator_ratchet_session :
      CreateRatchetSessionInput → Result EncryptionError LocalSessionState
  unfolding create_session
  create_initiator_ratchet_session input = do
    dh_output ←
        diffie_hellman_x25519 crypto input.current_ratchet_key.private_key
          input.remote_ratchet_public_key
    let derived = derive_root_and_chain_keys input.root_key dh_output
    ok (create_session input derived (some (to_hex derived.chain_key)) none)

  unfoldable pub create_responder_ratchet_session :
      CreateRatchetSessionInput → Result EncryptionError LocalSessionState
  unfolding create_session
  create_responder_ratchet_session input = do
    dh_output ←
        diffie_hellman_x25519 crypto input.current_ratchet_key.private_key
          input.remote_ratchet_public_key
    let derived = derive_root_and_chain_keys input.root_key dh_output
    ok (create_session input derived none (some (to_hex derived.chain_key)))

  -- The header that `encryptRatchetMessage` seals.
  abbrev pub session_header : RatchetEncryptInput → LocalSessionState → SessionHeader
  session_header input s = record {
    sender_did = input.sender_did;
    receiver_did = input.receiver_did;
    sender_device_id = s.self_device_id;
    receiver_device_id = s.peer_device_id;
    session_id = s.session_id;
    message_id = or_else input.message_id input.fresh_message_id;
    ratchet_public_key = from_hex s.current_ratchet_key.public_key;
    previous_chain_length = s.previous_send_chain_length;
    message_number = s.next_send_message_number;
    nonce = or_else input.nonce input.fresh_nonce;
  }

  unfoldable pub seal_next :
      RatchetEncryptInput → LocalSessionState → Hex → Result EncryptionError RatchetEncryptResult
  seal_next input s chain_key = do
    let step = derive_chain_step (from_hex chain_key)
    let header = session_header input s
    guard (nat_beq (length header.nonce) 24) nonce_length
    message ← encrypt_session_message crypto header step.message_key input.plaintext
    ok (record {
      message = message;
      session = record s {
        sending_chain_key = some (to_hex step.chain_key);
        next_send_message_number = s.next_send_message_number + 1;
        updated_at = or_else input.now input.clock;
      };
      message_key = step.message_key;
    })

  unfoldable pub seal_from :
      Option Hex
      → RatchetEncryptInput
      → LocalSessionState
      → Result EncryptionError RatchetEncryptResult
  unfolding seal_next
  seal_from none input s = err missing_sending_chain
  seal_from (some chain_key) input s = seal_next input s chain_key

  unfoldable pub encrypt_ratchet_message :
      RatchetEncryptInput → Result EncryptionError RatchetEncryptResult
  unfolding seal_from
  encrypt_ratchet_message input = do
    s ← ensure_sending_chain input.session (or_else input.ratchet_key_pair input.fresh_key_pair)
    seal_from (truthy s.sending_chain_key) input s

  -- The DH ratchet step of `decryptRatchetMessage`, where the sender's key is a new one.
  unfoldable pub follow_ratchet :
      LocalSessionState → SessionMessage → Result EncryptionError LocalSessionState
  follow_ratchet s message =
      if list_beq (to_hex message.ratchet_public_key) s.remote_ratchet_public_key then ok s else do
        skipped ← skip_message_keys s message.previous_chain_length
        advance_receiving_ratchet skipped message.ratchet_public_key

  unfoldable pub open_with :
      Option Hex
      → LocalSessionState
      → SessionMessage
      → ℕ
      → Result EncryptionError RatchetDecryptResult
  open_with none s message now = err missing_receiving_chain
  open_with (some chain_key) s message now = do
    let step = derive_chain_step (from_hex chain_key)
    plaintext ← decrypt_session_message crypto message step.message_key
    ok (record {
      plaintext = plaintext;
      session = record s {
        receiving_chain_key = some (to_hex step.chain_key);
        next_receive_message_number = message.message_number + 1;
        updated_at = now;
      };
      message_key = step.message_key;
      used_skipped_message_key = false;
    })

  unfoldable pub decrypt_from :
      Option (Bytes × LocalSessionState)
      → LocalSessionState
      → SessionMessage
      → ℕ
      → Result EncryptionError RatchetDecryptResult
  unfolding open_with follow_ratchet
  decrypt_from (some (key, taken)) s message now = do
    plaintext ← decrypt_session_message crypto message key
    ok (record {
      plaintext = plaintext;
      session = record taken { updated_at = now };
      message_key = key;
      used_skipped_message_key = true;
    })
  decrypt_from none s message now = do
    followed ← follow_ratchet s message
    skipped ← skip_message_keys followed message.message_number
    open_with (truthy skipped.receiving_chain_key) skipped message now

  -- `now` is `input.now ?? Date.now()`.
  unfoldable pub decrypt_ratchet_message :
      LocalSessionState → SessionMessage → ℕ → Result EncryptionError RatchetDecryptResult
  unfolding decrypt_from
  decrypt_ratchet_message s message now =
      decrypt_from
        (take_skipped_message_key s (to_hex message.ratchet_public_key) message.message_number) s
        message now
