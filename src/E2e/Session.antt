-- ===== src/E2e/Session.antt =====
-- The data of js/core/protocol/src/e2e/ratchet.ts: sessions, inputs and results, its constants, and
-- the store of skipped message keys.
use Prim.Native.Char.{code}
use a.Base.{
  ltb, nat_beq, if◌then◌else◌, list_beq, length, drop, ℕ, ◌-◌, String, Bool, ◌&&◌, Option, none,
  some, List, [], ◌∷◌, ◌++◌,
}
use a.E2e.Types.{Bytes, Hex, LocalDeviceKeyPair, SessionMessage}

-- `TextEncoder.encode` of an ASCII text
abbrev pub codes : String → List ℕ
codes String.[] = []
codes (String.◌∷◌ c s) = code c ∷ codes s

unfoldable pub double_ratchet_root_info : Bytes
double_ratchet_root_info = codes "quadra-a/e2e/double-ratchet/root/v1"

unfoldable pub double_ratchet_chain_info : Bytes
double_ratchet_chain_info = codes "quadra-a/e2e/double-ratchet/chain/v1"

unfoldable pub double_ratchet_chain_salt : Bytes
double_ratchet_chain_salt = codes "quadra-a/e2e/double-ratchet/chain-salt/v1"

abbrev pub max_skipped_message_keys : ℕ
max_skipped_message_keys = 64

pub record X25519KeyPair : Type 0 where
  pub public_key : Bytes
  pub private_key : Bytes

pub record SkippedMessageKeyState : Type 0 where
  pub ratchet_public_key : Hex
  pub message_number : ℕ
  pub message_key : Hex

pub record LocalSessionBootstrapState : Type 0 where
  pub self_identity_key : Hex
  pub peer_identity_key : Hex
  pub initiator_ephemeral_key : Hex
  pub recipient_signed_pre_key_id : ℕ
  pub recipient_signed_pre_key_public : Hex
  pub recipient_one_time_pre_key_id : Option ℕ

pub data Role : Type 0 where
  initiator responder : Role

-- `establishedBy` and `phase` have one value each and are left out.
pub record LocalSessionState : Type 0 where
  pub session_id : String
  pub peer_did : String
  pub peer_device_id : String
  pub self_device_id : String
  pub role : Role
  pub root_key : Hex
  pub current_ratchet_key : LocalDeviceKeyPair
  pub remote_ratchet_public_key : Hex
  pub sending_chain_key : Option Hex
  pub receiving_chain_key : Option Hex
  pub created_at : ℕ
  pub updated_at : ℕ
  pub next_send_message_number : ℕ
  pub next_receive_message_number : ℕ
  pub previous_send_chain_length : ℕ
  pub skipped_message_keys : List SkippedMessageKeyState
  pub bootstrap : LocalSessionBootstrapState

pub record CreateRatchetSessionInput : Type 0 where
  pub session_id : String
  pub peer_did : String
  pub peer_device_id : String
  pub self_device_id : String
  pub role : Role
  pub root_key : Bytes
  pub current_ratchet_key : X25519KeyPair
  pub remote_ratchet_public_key : Bytes
  pub bootstrap : LocalSessionBootstrapState
  pub created_at : ℕ

-- `fresh_…` are the random values and the clock that stand in for an omitted argument.
pub record RatchetEncryptInput : Type 0 where
  pub session : LocalSessionState
  pub plaintext : Bytes
  pub sender_did : String
  pub receiver_did : String
  pub message_id : Option String
  pub nonce : Option Bytes
  pub ratchet_key_pair : Option X25519KeyPair
  pub now : Option ℕ
  pub fresh_message_id : String
  pub fresh_nonce : Bytes
  pub fresh_key_pair : X25519KeyPair
  pub clock : ℕ

pub record RatchetEncryptResult : Type 0 where
  pub message : SessionMessage
  pub session : LocalSessionState
  pub message_key : Bytes

pub record RatchetDecryptResult : Type 0 where
  pub plaintext : Bytes
  pub session : LocalSessionState
  pub message_key : Bytes
  pub used_skipped_message_key : Bool

pub record RootStep : Type 0 where
  pub root_key : Bytes
  pub chain_key : Bytes

pub record ChainStep : Type 0 where
  pub chain_key : Bytes
  pub message_key : Bytes

-- An optional text under a test `if (!text)`: the empty text counts as missing.
abbrev pub truthy : Option Hex → Option Hex
truthy none = none
truthy (some []) = none
truthy (some (c ∷ cs)) = some (c ∷ cs)

-- `findIndex` and `splice`: the first entry for the key and number, and the others.
unfoldable pub take_entry :
    Hex
    → ℕ
    → List SkippedMessageKeyState
    → Option (SkippedMessageKeyState × List SkippedMessageKeyState)
take_entry key n [] = none
take_entry key n (e ∷ es) =
    if list_beq e.ratchet_public_key key && nat_beq e.message_number n
    then some (e, es)
    else elim (take_entry key n es) [ none ↦ none | some (found, rest) ↦ some (found, e ∷ rest) ]

unfoldable pub store_skipped_message_key :
    (Bytes → Hex) → LocalSessionState → Hex → ℕ → Bytes → LocalSessionState
store_skipped_message_key to_hex s key n message_key =
    let keys =
      s.skipped_message_keys
      ++ record { ratchet_public_key = key; message_number = n; message_key = to_hex message_key }
        ∷ [] in
    record s {
      skipped_message_keys =
          if ltb max_skipped_message_keys (length keys)
          then drop (length keys - max_skipped_message_keys) keys
          else keys;
    }
