-- ===== src/E2e/Types.antt =====
-- js/core/protocol/src/e2e/types.ts, and the error of js/core/protocol/src/utils/errors.ts that
-- this folder throws, with a constructor for each message.
-- A byte array is a list of numbers, and so is the hex text that stores one.
use a.Base.{ℕ, String, List, Option}

abbrev pub Bytes : Type 0
Bytes = List ℕ

abbrev pub Hex : Type 0
Hex = List ℕ

pub data EncryptionError : Type 0 where
  shared_secret_failed encrypt_failed decrypt_failed nonce_length : EncryptionError
  missing_chain_while_skipping window_exceeded : EncryptionError
  missing_sending_chain missing_receiving_chain : EncryptionError
  initiator_secret_failed responder_secret_failed : EncryptionError
  missing_device bundle_mismatch receiver_mismatch signed_pre_key_mismatch : EncryptionError
  missing_one_time_pre_key consumed_one_time_pre_key : EncryptionError

pub record LocalDeviceKeyPair : Type 0 where
  pub public_key : Hex
  pub private_key : Hex

-- A `PREKEY_MESSAGE` without its ciphertext; `version` and `type` are constants.
pub record PreKeyHeader : Type 0 where
  pub sender_did : String
  pub receiver_did : String
  pub sender_device_id : String
  pub receiver_device_id : String
  pub session_id : String
  pub message_id : String
  pub initiator_identity_key : Bytes
  pub initiator_ephemeral_key : Bytes
  pub recipient_signed_pre_key_id : ℕ
  pub recipient_one_time_pre_key_id : Option ℕ
  pub nonce : Bytes

pub record PreKeyMessage : Type 0 where
  pub header : PreKeyHeader
  pub ciphertext : Bytes

-- A `SESSION_MESSAGE` without its ciphertext.
pub record SessionHeader : Type 0 where
  pub sender_did : String
  pub receiver_did : String
  pub sender_device_id : String
  pub receiver_device_id : String
  pub session_id : String
  pub message_id : String
  pub ratchet_public_key : Bytes
  pub previous_chain_length : ℕ
  pub message_number : ℕ
  pub nonce : Bytes

pub record SessionMessage : Type 0 where
  pub header : SessionHeader
  pub open header use *
  pub ciphertext : Bytes
