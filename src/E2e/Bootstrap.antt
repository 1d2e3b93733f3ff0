-- ===== src/E2e/Bootstrap.antt =====
-- js/core/protocol/src/e2e/bootstrap.ts: the first message of a session, from the claimed bundle on
-- one side to the new session on the other. Arguments that the code lets be omitted are given here: a
-- fresh random value or the clock stands for an omitted one.
pub mod Consumption
pub mod Steps
pub mod Delivered
use a.Base.{
  nat_beq, if◌then◌else◌, ◌==◌, list_beq, is_some, join, Map, lookup, insert, Result, ◌>>=◌, ◌>>◌,
  guard, or_throw, ok, ℕ, ◌*◌, String, Bool, not, ◌&&◌, Option, none, some, List, [], ◌∷◌,
  string_eq, nat_eq, bytes_eq,
}
use a.E2e.Types.{
  Bytes, Hex, LocalDeviceKeyPair, PreKeyHeader, PreKeyMessage, EncryptionError, missing_device,
  bundle_mismatch, receiver_mismatch, signed_pre_key_mismatch, missing_one_time_pre_key,
  consumed_one_time_pre_key,
}
use a.E2e.Crypto.{Crypto}
use a.E2e.Messages.{encrypt_pre_key_message, decrypt_pre_key_message}
use a.E2e.Session.{
  X25519KeyPair, LocalSessionState, LocalSessionBootstrapState, CreateRatchetSessionInput, Role,
  initiator, responder,
}
use a.E2e.Ratchet.{create_initiator_ratchet_session, create_responder_ratchet_session}
use a.E2e.KeyAgreement.{
  derive_x3dh_initiator_shared_secret, derive_x3dh_responder_shared_secret, if_given,
  X3dhInitiatorInput, X3dhResponderInput,
}

pub record PublishedOneTimePreKey : Type 0 where
  pub key_id : ℕ
  pub public_key : Hex

pub record PublishedDeviceDirectoryEntry : Type 0 where
  pub device_id : String
  pub identity_key_public : Hex
  pub signed_pre_key_public : Hex
  pub signed_pre_key_id : ℕ
  pub signed_pre_key_signature : Hex
  pub one_time_pre_key_count : ℕ
  pub last_resupply_at : ℕ

-- The directory's fields as the relay gave them, and the one-time pre-key, if one was left.
pub record ClaimedPreKeyBundle : Type 0 where
  pub entry : PublishedDeviceDirectoryEntry
  pub open entry use *
  pub one_time_pre_key : Option PublishedOneTimePreKey
  pub remaining_one_time_pre_key_count : ℕ

pub record LocalSignedPreKeyState : Type 0 where
  pub public_key : Hex
  pub private_key : Hex
  pub signed_pre_key_id : ℕ
  pub signature : Hex
  pub created_at : ℕ

pub record LocalOneTimePreKeyState : Type 0 where
  pub public_key : Hex
  pub private_key : Hex
  pub key_id : ℕ
  pub created_at : ℕ
  pub claimed_at : Option ℕ

pub record LocalDeviceState : Type 0 where
  pub device_id : String
  pub created_at : ℕ
  pub identity_key : LocalDeviceKeyPair
  pub signed_pre_key : LocalSignedPreKeyState
  pub one_time_pre_keys : List LocalOneTimePreKeyState
  pub last_resupply_at : ℕ
  pub sessions : Map String LocalSessionState

pub record LocalE2eConfig : Type 0 where
  pub current_device_id : String
  pub devices : Map String LocalDeviceState

pub record BuildInitiatorPreKeyMessageInput : Type 0 where
  pub e2e_config : LocalE2eConfig
  pub sender_did : String
  pub receiver_did : String
  pub recipient_device : PublishedDeviceDirectoryEntry
  pub claimed_bundle : ClaimedPreKeyBundle
  pub plaintext : Bytes
  pub session_id : String
  pub message_id : String
  pub nonce : Bytes
  pub ephemeral_key_pair : X25519KeyPair
  pub now : ℕ

pub record BuildInitiatorPreKeyMessageResult : Type 0 where
  pub message : PreKeyMessage
  pub session : LocalSessionState
  pub e2e_config : LocalE2eConfig
  pub shared_secret : Bytes

pub record ConsumeResponderPreKeyMessageResult : Type 0 where
  pub plaintext : Bytes
  pub session : LocalSessionState
  pub e2e_config : LocalE2eConfig
  pub shared_secret : Bytes

unfoldable pub matches_directory :
    PublishedDeviceDirectoryEntry → PublishedDeviceDirectoryEntry → Bool
matches_directory d c =
    d.device_id == c.device_id
    && list_beq d.identity_key_public c.identity_key_public
    && list_beq d.signed_pre_key_public c.signed_pre_key_public
    && nat_beq d.signed_pre_key_id c.signed_pre_key_id
    && list_beq d.signed_pre_key_signature c.signed_pre_key_signature
    && nat_beq d.last_resupply_at c.last_resupply_at

abbrev pub build_local_session_key : String → String → String
build_local_session_key peer_did peer_device_id = join (peer_did ∷ ":" ∷ peer_device_id ∷ [])

abbrev pub get_device_state : LocalE2eConfig → String → Result EncryptionError LocalDeviceState
get_device_state config device_id = or_throw (lookup device_id config.devices) missing_device

abbrev pub with_device : LocalE2eConfig → String → LocalDeviceState → LocalE2eConfig
with_device config id device = record config { devices = insert id device config.devices }

abbrev pub with_session : LocalDeviceState → LocalSessionState → LocalDeviceState
with_session device session = record device {
  sessions =
      insert (build_local_session_key session.peer_did session.peer_device_id) session
        device.sessions;
}

unfoldable pub store_local_session :
    LocalE2eConfig → String → LocalSessionState → Result EncryptionError LocalE2eConfig
store_local_session config device_id session = do
  device ← get_device_state config device_id
  ok (with_device config device_id (with_session device session))

-- `find` by the id
unfoldable pub find_one_time : ℕ → List LocalOneTimePreKeyState → Option LocalOneTimePreKeyState
find_one_time id [] = none
find_one_time id (k ∷ ks) = if nat_beq k.key_id id then some k else find_one_time id ks

-- The first key of the id with the time of its claim.
unfoldable pub mark_claimed : ℕ → ℕ → List LocalOneTimePreKeyState → List LocalOneTimePreKeyState
mark_claimed id now [] = []
mark_claimed id now (k ∷ ks) =
    let rest = mark_claimed id now ks in
    if nat_beq k.key_id id then record k { claimed_at = some now } ∷ ks else k ∷ rest

-- The one-time pre-key that the message names, if it names one.
abbrev pub named_one_time :
    Option ℕ
    → List LocalOneTimePreKeyState
    → Result EncryptionError (Option LocalOneTimePreKeyState)
named_one_time none keys = ok none
named_one_time (some id) keys = do
  key ← or_throw (find_one_time id keys) missing_one_time_pre_key
  guard (not (is_some key.claimed_at)) consumed_one_time_pre_key
  ok (some key)

abbrev pub mark_named : Option ℕ → ℕ → LocalDeviceState → LocalDeviceState
mark_named none now device = device
mark_named (some id) now device = record device {
  one_time_pre_keys = mark_claimed id now device.one_time_pre_keys;
}

module _ (crypto : Crypto) where
  open crypto use {to_hex, from_hex}

  abbrev pub initiator_header : BuildInitiatorPreKeyMessageInput → LocalDeviceState → PreKeyHeader
  initiator_header input device = record {
    sender_did = input.sender_did;
    receiver_did = input.receiver_did;
    sender_device_id = device.device_id;
    receiver_device_id = input.claimed_bundle.device_id;
    session_id = input.session_id;
    message_id = input.message_id;
    initiator_identity_key = from_hex device.identity_key.public_key;
    initiator_ephemeral_key = input.ephemeral_key_pair.public_key;
    recipient_signed_pre_key_id = input.claimed_bundle.signed_pre_key_id;
    recipient_one_time_pre_key_id = if_given (λ k. k.key_id) input.claimed_bundle.one_time_pre_key;
    nonce = input.nonce;
  }

  abbrev pub initiator_secret_input :
      BuildInitiatorPreKeyMessageInput → LocalDeviceState → X3dhInitiatorInput
  initiator_secret_input input device = record {
    initiator_identity_private = from_hex device.identity_key.private_key;
    initiator_ephemeral_private = input.ephemeral_key_pair.private_key;
    recipient_identity_public = from_hex input.claimed_bundle.identity_key_public;
    recipient_signed_pre_key_public = from_hex input.claimed_bundle.signed_pre_key_public;
    recipient_one_time_pre_key_public =
        if_given (λ k. from_hex k.public_key) input.claimed_bundle.one_time_pre_key;
  }

  abbrev pub initiator_session_input :
      BuildInitiatorPreKeyMessageInput → LocalDeviceState → Bytes → CreateRatchetSessionInput
  initiator_session_input input device secret = record {
    session_id = input.session_id;
    peer_did = input.receiver_did;
    peer_device_id = input.claimed_bundle.device_id;
    self_device_id = device.device_id;
    role = initiator;
    root_key = secret;
    current_ratchet_key = input.ephemeral_key_pair;
    remote_ratchet_public_key = from_hex input.claimed_bundle.signed_pre_key_public;
    bootstrap = record {
      self_identity_key = device.identity_key.public_key;
      peer_identity_key = input.claimed_bundle.identity_key_public;
      initiator_ephemeral_key = to_hex input.ephemeral_key_pair.public_key;
      recipient_signed_pre_key_id = input.claimed_bundle.signed_pre_key_id;
      recipient_signed_pre_key_public = input.claimed_bundle.signed_pre_key_public;
      recipient_one_time_pre_key_id =
          if_given (λ k. k.key_id) input.claimed_bundle.one_time_pre_key;
    };
    created_at = input.now;
  }

  unfoldable pub build_initiator_pre_key_message :
      BuildInitiatorPreKeyMessageInput → Result EncryptionError BuildInitiatorPreKeyMessageResult
  build_initiator_pre_key_message input = do
    guard (matches_directory input.recipient_device input.claimed_bundle.entry) bundle_mismatch
    device ← get_device_state input.e2e_config input.e2e_config.current_device_id
    secret ← derive_x3dh_initiator_shared_secret crypto (initiator_secret_input input device)
    message ← encrypt_pre_key_message crypto (initiator_header input device) secret input.plaintext
    session ← create_initiator_ratchet_session crypto (initiator_session_input input device secret)
    config ← store_local_session input.e2e_config device.device_id session
    ok (record {
      message = message;
      session = session;
      e2e_config = config;
      shared_secret = secret;
    })

  abbrev pub responder_secret_input :
      PreKeyHeader → LocalDeviceState → Option LocalOneTimePreKeyState → X3dhResponderInput
  responder_secret_input header device key = record {
    recipient_identity_private = from_hex device.identity_key.private_key;
    recipient_signed_pre_key_private = from_hex device.signed_pre_key.private_key;
    initiator_identity_public = header.initiator_identity_key;
    initiator_ephemeral_public = header.initiator_ephemeral_key;
    recipient_one_time_pre_key_private = if_given (λ k. from_hex k.private_key) key;
  }

  abbrev pub responder_session_input :
      PreKeyHeader → LocalDeviceState → Bytes → ℕ → CreateRatchetSessionInput
  responder_session_input header device secret now = record {
    session_id = header.session_id;
    peer_did = header.sender_did;
    peer_device_id = header.sender_device_id;
    self_device_id = device.device_id;
    role = responder;
    root_key = secret;
    current_ratchet_key = record {
      public_key = from_hex device.signed_pre_key.public_key;
      private_key = from_hex device.signed_pre_key.private_key;
    };
    remote_ratchet_public_key = header.initiator_ephemeral_key;
    bootstrap = record {
      self_identity_key = device.identity_key.public_key;
      peer_identity_key = to_hex header.initiator_identity_key;
      initiator_ephemeral_key = to_hex header.initiator_ephemeral_key;
      recipient_signed_pre_key_id = header.recipient_signed_pre_key_id;
      recipient_signed_pre_key_public = device.signed_pre_key.public_key;
      recipient_one_time_pre_key_id = header.recipient_one_time_pre_key_id;
    };
    created_at = now;
  }

  unfoldable pub consume_responder_pre_key_message :
      LocalE2eConfig
      → String
      → PreKeyMessage
      → ℕ
      → Result EncryptionError ConsumeResponderPreKeyMessageResult
  consume_responder_pre_key_message config receiver_did message now = do
    let header = message.header
    guard (header.receiver_did == receiver_did) receiver_mismatch
    device ← get_device_state config header.receiver_device_id
    key ← named_one_time header.recipient_one_time_pre_key_id device.one_time_pre_keys
    guard (nat_beq header.recipient_signed_pre_key_id device.signed_pre_key.signed_pre_key_id)
        signed_pre_key_mismatch
    secret ← derive_x3dh_responder_shared_secret crypto (responder_secret_input header device key)
    plaintext ← decrypt_pre_key_message crypto message secret
    session ←
        create_responder_ratchet_session crypto (responder_session_input header device secret now)
    next ←
        store_local_session
          (with_device config header.receiver_device_id
            (mark_named header.recipient_one_time_pre_key_id now device))
          device.device_id session
    ok (record {
      plaintext = plaintext;
      session = session;
      e2e_config = next;
      shared_secret = secret;
    })
