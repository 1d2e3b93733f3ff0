-- ===== src/E2e/Tests/OfBootstrap.antt =====
-- Two devices, a first message between them over the toy, and the theorems at work on it.
use a.Base.{
  lookup, insert, ok, err, ℕ, ◌+◌, String, ◌≡◌, refl, none, some, [], ◌∷◌, ◌++◌, arith, string_eq,
}
use a.E2e.Tests.{toy, toy_to_hex, replicate}
use a.E2e.Crypto.{diffie_hellman_x25519, encrypt_xchacha20_poly1305, decrypt_xchacha20_poly1305}
use a.E2e.Types.{Bytes, consumed_one_time_pre_key}
use a.E2e.Messages.{encrypt_pre_key_message, decrypt_pre_key_message}
use a.E2e.Session.{X25519KeyPair, LocalSessionState, RootStep}
use a.E2e.Ratchet.{
  create_initiator_ratchet_session, create_responder_ratchet_session, create_session,
  derive_root_and_chain_keys,
}
use a.E2e.KeyAgreement.{
  derive_x3dh_initiator_shared_secret, derive_x3dh_responder_shared_secret,
  derive_x3dh_shared_secret,
}
use a.E2e.Bootstrap.{
  BuildInitiatorPreKeyMessageInput, BuildInitiatorPreKeyMessageResult,
  build_initiator_pre_key_message, LocalE2eConfig, LocalDeviceState,
  ConsumeResponderPreKeyMessageResult, PublishedDeviceDirectoryEntry,
  consume_responder_pre_key_message, store_local_session, with_device, with_session, mark_named,
  responder_session_input, initiator_header, initiator_session_input, matches_directory,
  find_one_time,
}
use mathlib.Core.List.{Permᴰ}
use a.E2e.Session.{RatchetEncryptInput, RatchetEncryptResult}
use a.E2e.Messages.{encrypt_session_message, build_session_message_associated_data}
use a.E2e.Ratchet.{
  encrypt_ratchet_message, ensure_sending_chain, seal_from, seal_next, derive_chain_step,
}
use a.E2e.Ratchet.Chain.{chain_at, message_key_at}
use a.E2e.Ratchet.Reorder.{receive_all}
use a.E2e.Ratchet.Conversation.{sent, send_flight}
use a.E2e.Bootstrap.Delivered.{Meets, consume-build}
use a.E2e.Bootstrap.Consumption.{consume_again}
use a.E2e.Devices.{
  rotate_local_device_signed_pre_key, new_signed_pre_key, build_one_time_pre_keys,
  next_signed_pre_key_id, max_id,
}
use a.E2e.Devices.Renewal.{consume_rotated}

abbrev key_of : ℕ → Bytes
key_of n = toy_to_hex (replicate 32 n)

abbrev device_of : String → ℕ → LocalDeviceState
device_of id n = record {
  device_id = id;
  created_at = 1;
  identity_key = record { public_key = key_of n; private_key = key_of (n + 1) };
  signed_pre_key = record {
    public_key = key_of (n + 2);
    private_key = key_of (n + 3);
    signed_pre_key_id = 3;
    signature = [];
    created_at = 1;
  };
  one_time_pre_keys =
      record {
        public_key = key_of (n + 4);
        private_key = key_of (n + 5);
        key_id = 8;
        created_at = 1;
        claimed_at = none;
      }
      ∷ [];
  last_resupply_at = 1;
  sessions = [];
}

abbrev alice : LocalDeviceState
alice = device_of "a1" 10

abbrev bob : LocalDeviceState
bob = device_of "b1" 20

abbrev config_of : LocalDeviceState → LocalE2eConfig
config_of device = record {
  current_device_id = device.device_id;
  devices = (device.device_id, device) ∷ [];
}

abbrev bobs_entry : PublishedDeviceDirectoryEntry
bobs_entry = record {
  device_id = "b1";
  identity_key_public = key_of 20;
  signed_pre_key_public = key_of 22;
  signed_pre_key_id = 3;
  signed_pre_key_signature = [];
  one_time_pre_key_count = 0;
  last_resupply_at = 1;
}

abbrev input : BuildInitiatorPreKeyMessageInput
input = record {
  e2e_config = config_of alice;
  sender_did = "did:a";
  receiver_did = "did:b";
  recipient_device = bobs_entry;
  claimed_bundle = record {
    entry = bobs_entry;
    one_time_pre_key = some (record { key_id = 8; public_key = key_of 24 });
    remaining_one_time_pre_key_count = 0;
  };
  plaintext = 7 ∷ [];
  session_id = "s";
  message_id = "m";
  nonce = replicate 24 0;
  ephemeral_key_pair = record { public_key = replicate 32 30; private_key = replicate 32 31 };
  now = 5;
}

abbrev secret : Bytes
secret = replicate 32 6

abbrev step : RootStep
step = derive_root_and_chain_keys toy secret (replicate 32 5)

abbrev session_of_alice : LocalSessionState
session_of_alice =
    create_session toy (initiator_session_input toy input alice secret) step
      (some (toy_to_hex step.chain_key)) none

abbrev built : BuildInitiatorPreKeyMessageResult
built = record {
  message = record {
    header = initiator_header toy input alice;
    ciphertext = 32 ∷ secret ++ (7 ∷ []);
  };
  session = session_of_alice;
  e2e_config = with_device (config_of alice) "a1" (with_session alice session_of_alice);
  shared_secret = secret;
}

build_message : build_initiator_pre_key_message toy input ≡ ok built
unfolding build_initiator_pre_key_message matches_directory lookup
    derive_x3dh_initiator_shared_secret diffie_hellman_x25519 encrypt_pre_key_message
    encrypt_xchacha20_poly1305 derive_x3dh_shared_secret create_initiator_ratchet_session
    store_local_session
build_message = refl

meets : Meets toy input alice (config_of bob) bob (
    some (record {
      public_key = key_of 24;
      private_key = key_of 25;
      key_id = 8;
      created_at = 1;
      claimed_at = none;
    }))
unfolding lookup find_one_time diffie_hellman_x25519
meets = record {
  sender = refl;
  found = refl;
  its_id = refl;
  signed_id = refl;
  signed_public = refl;
  named = refl;
  identity_signed = refl;
  ephemeral_identity = refl;
  ephemeral_signed = refl;
  ephemeral_one_time = refl;
}

abbrev text : ℕ → RatchetEncryptInput
text n = record {
  session = session_of_alice;
  plaintext = n ∷ [];
  sender_did = "did:a";
  receiver_did = "did:b";
  message_id = none;
  nonce = none;
  ratchet_key_pair = none;
  now = some 6;
  fresh_message_id = "m2";
  fresh_nonce = replicate 24 0;
  fresh_key_pair = input.ephemeral_key_pair;
  clock = 6;
}

abbrev first : RatchetEncryptResult
first = sent toy step.chain_key (text 10) session_of_alice

abbrev second : RatchetEncryptResult
second = sent toy step.chain_key (text 20) first.session

sent_both :
    send_flight toy session_of_alice (text 10 ∷ text 20 ∷ [])
    ≡ ok ((first.message, 10 ∷ []) ∷ (second.message, 20 ∷ []) ∷ [], second.session)
unfolding send_flight encrypt_ratchet_message ensure_sending_chain seal_from seal_next
    encrypt_session_message encrypt_xchacha20_poly1305 build_session_message_associated_data
    create_session chain_at message_key_at derive_chain_step derive_root_and_chain_keys
sent_both = refl

consume-build_example :
    (result : ConsumeResponderPreKeyMessageResult) × (consume_responder_pre_key_message toy
        (config_of bob)
        "did:b"
        built.message
        9
      ≡ ok result)
    × (result.plaintext ≡ 7 ∷ [])
    × (result.shared_secret ≡ secret)
    × ((t : LocalSessionState) × (receive_all toy result.session
            ((second.message, 20 ∷ []) ∷ (first.message, 10 ∷ []) ∷ [])
            12
          ≡ ok ((20 ∷ []) ∷ (10 ∷ []) ∷ [], t)))
consume-build_example =
    consume-build toy input alice (config_of bob) bob
      (some (record {
        public_key = key_of 24;
        private_key = key_of 25;
        key_id = 8;
        created_at = 1;
        claimed_at = none;
      }))
      9 12 built (text 10 ∷ text 20 ∷ []) second.session
      ((first.message, 10 ∷ []) ∷ (second.message, 20 ∷ []) ∷ [])
      ((second.message, 20 ∷ []) ∷ (first.message, 10 ∷ []) ∷ []) meets build_message
      (refl, (refl, tt)) (omega arith) sent_both (Permᴰ.swap refl refl)

abbrev session_of_bob : LocalSessionState
session_of_bob =
    create_session toy (responder_session_input toy built.message.header bob secret 9) step none
      (some (toy_to_hex step.chain_key))

abbrev bob_after : LocalDeviceState
bob_after = mark_named (some 8) 9 bob

abbrev consumed : ConsumeResponderPreKeyMessageResult
consumed = record {
  plaintext = 7 ∷ [];
  session = session_of_bob;
  e2e_config =
      with_device (with_device (config_of bob) "b1" bob_after) "b1"
        (with_session bob_after session_of_bob);
  shared_secret = secret;
}

consume_message :
    consume_responder_pre_key_message toy (config_of bob) "did:b" built.message 9 ≡ ok consumed
unfolding consume_responder_pre_key_message lookup find_one_time derive_x3dh_responder_shared_secret
    diffie_hellman_x25519 decrypt_pre_key_message decrypt_xchacha20_poly1305
    derive_x3dh_shared_secret create_responder_ratchet_session store_local_session insert
consume_message = refl

consume_again_example :
    consume_responder_pre_key_message toy consumed.e2e_config "did:b" built.message 10
    ≡ err consumed_one_time_pre_key
consume_again_example =
    consume_again toy (config_of bob) "did:b" built.message built.message 8 9 10 consumed
      consume_message refl refl refl refl

abbrev sign : String → ℕ → Bytes → Bytes
sign device_id id key = id ∷ key

abbrev fresh_pair : ℕ → X25519KeyPair
fresh_pair n = record { public_key = replicate 32 n; private_key = replicate 32 n }

abbrev rotated : LocalE2eConfig
rotated = with_device (config_of bob) "b1" (record bob {
  signed_pre_key = new_signed_pre_key toy sign "b1" 4 (fresh_pair 40) 20;
  one_time_pre_keys = build_one_time_pre_keys toy fresh_pair 2 20;
  last_resupply_at = 20;
})

rotate_bob :
    rotate_local_device_signed_pre_key toy sign
      (config_of bob)
      "b1"
      none
      (some 2)
      (fresh_pair 40)
      fresh_pair
      20
    ≡ ok rotated
unfolding rotate_local_device_signed_pre_key lookup next_signed_pre_key_id max_id
rotate_bob = refl

bob_there : lookup "b1" (config_of bob).devices ≡ some bob
unfolding lookup
bob_there = refl

consume_rotated_example :
    ¬ (consume_responder_pre_key_message toy rotated "did:b" built.message 30 ≡ ok consumed)
consume_rotated_example =
    consume_rotated toy sign (config_of bob) rotated "b1" "b1" bob (some 2) (fresh_pair 40)
      fresh_pair 20 30 "did:b" built.message consumed bob_there rotate_bob refl refl
