-- ===== src/E2e/Tests.antt =====
-- A toy of the cryptography that keeps its laws, a session over it, and the theorems at work on it.
mod OfBootstrap
use a.Base.{
  nat_beq, if◌then◌else◌, Bool-cases, length, ok, err, ℕ, zero, suc, ◌+◌, ◌*◌, ◌/◌, ◌%◌, ◌<◌, ◌≡◌,
  refl, ap, ◌≢◌, inl, inr, true, false, Option, none, some, [], ◌∷◌, ◌++◌, map, arith,
}
use native.Mathlib.Nat.{div-add-mod}
use mathlib.Core.List.{Permᴰ}
use a.E2e.Crypto.{Crypto, diffie_hellman_x25519, encrypt_xchacha20_poly1305}
use a.E2e.Types.{Bytes, Hex, decrypt_failed, SessionMessage}
use a.E2e.Messages.{encrypt_session_message, build_session_message_associated_data}
use a.E2e.Session.{
  X25519KeyPair, Role, initiator, responder, CreateRatchetSessionInput, LocalSessionBootstrapState,
  RootStep, LocalSessionState, RatchetEncryptInput, RatchetEncryptResult, RatchetDecryptResult,
}
use a.E2e.Ratchet.{
  derive_root_and_chain_keys, create_session, create_initiator_ratchet_session,
  create_responder_ratchet_session, encrypt_ratchet_message, ensure_sending_chain, seal_from,
  seal_next, derive_chain_step, decrypt_ratchet_message,
}
use a.E2e.Ratchet.Chain.{chain_at, message_key_at}
use a.E2e.Ratchet.Delivery.{Follows, Sealed, decrypt_ahead, after_ahead}
use a.E2e.Ratchet.Store.{holds}
use a.E2e.Ratchet.Rejection.{IsAuthentic, decrypt_replayed}
use a.E2e.Ratchet.Bounds.{IsBounded, decrypt_ratchet_message-IsBounded}
use a.E2e.Ratchet.Reorder.{Traffic, receive_all, Ready, receive_all_reordered}
use a.E2e.Ratchet.Conversation.{sent, send_flight}
use a.E2e.Ratchet.Flight.{Agreed, flight_leaves, flight_arrives}

abbrev pub replicate : ℕ → ℕ → Bytes
replicate zero x = []
replicate (suc n) x = x ∷ replicate n x

abbrev pub toy_to_hex : Bytes → Hex
toy_to_hex [] = []
toy_to_hex (b ∷ bs) = (b / 16) ∷ (b % 16) ∷ toy_to_hex bs

abbrev toy_from_hex : Hex → Bytes
toy_from_hex [] = []
toy_from_hex (h ∷ []) = []
toy_from_hex (h ∷ l ∷ hs) = (h * 16 + l) ∷ toy_from_hex hs

abbrev head : Bytes → ℕ
head [] = 0
head (b ∷ bs) = b

-- The text without a prefix, if it has it.
abbrev strip : Bytes → Bytes → Option Bytes
strip [] text = some text
strip (x ∷ xs) [] = none
strip (x ∷ xs) (y ∷ text) = let rest = strip xs text in if nat_beq x y then rest else none

pub length-replicate : (n x : ℕ) → length (replicate n x) ≡ n
length-replicate zero x = omega arith
length-replicate (suc n) x = omega (arith, length-replicate n x)

pub length-toy_to_hex : (b : Bytes) → length (toy_to_hex b) ≡ 2 * length b
length-toy_to_hex [] = omega arith
length-toy_to_hex (b ∷ bs) = omega (arith, length-toy_to_hex bs)

pub toy_from_hex-to_hex : (b : Bytes) → toy_from_hex (toy_to_hex b) ≡ b
toy_from_hex-to_hex [] = refl
toy_from_hex-to_hex (b ∷ bs) =
    let e : b / 16 * 16 + b % 16 ≡ b = omega (arith, div-add-mod b 16) in
    rw (e, toy_from_hex-to_hex bs)

pub strip-append : (k p : Bytes) → strip k (k ++ p) ≡ some p
strip-append [] p = refl
strip-append (x ∷ k) p = let e : nat_beq x x ≡ true = ground arith in rw e (strip-append k p)

strip_other : (k' k p : Bytes) → length k' ≡ length k → k ≢ k' → strip k' (k ++ p) ≡ none
strip_other [] [] p len differ = absurd (differ refl)
strip_other [] (x ∷ k) p len differ = absurd (omega (arith, len))
strip_other (y ∷ k') [] p len differ = absurd (omega (arith, len))
strip_other (y ∷ k') (x ∷ k) p len differ = elim (Bool-cases (nat_beq y x)) [
  | inl e ↦
      let same : x ≡ y = ground arith in
      rw e (strip_other k' k p (omega (arith, len)) (λ tails. differ (cc (same, tails))))
  | inr e ↦ rw e
]

abbrev pub toy : Crypto
toy = record {
  node_diffie_hellman = λ private_key public_key. some (replicate 32 5);
  hkdf = λ ikm salt info n. replicate n (suc (head ikm));
  seal = λ key nonce ad plaintext. (length key ∷ key) ++ plaintext;
  open_sealed = λ key nonce ad sealed. strip (length key ∷ key) sealed;
  to_hex = toy_to_hex;
  from_hex = toy_from_hex;
  encode_session_header = λ header. [];
  encode_pre_key_header = λ header. [];
  length-hkdf = λ ikm salt info n. length-replicate n (suc (head ikm));
  length-to_hex = length-toy_to_hex;
  from_hex-to_hex = toy_from_hex-to_hex;
  open_sealed-seal = λ key nonce ad plaintext. strip-append (length key ∷ key) plaintext;
}

abbrev no_bootstrap : LocalSessionBootstrapState
no_bootstrap = record {
  self_identity_key = [];
  peer_identity_key = [];
  initiator_ephemeral_key = [];
  recipient_signed_pre_key_id = 1;
  recipient_signed_pre_key_public = [];
  recipient_one_time_pre_key_id = none;
}

abbrev alice_keys : X25519KeyPair
alice_keys = record { public_key = replicate 32 1; private_key = replicate 32 2 }

abbrev bob_keys : X25519KeyPair
bob_keys = record { public_key = replicate 32 3; private_key = replicate 32 4 }

abbrev end_of : Role → X25519KeyPair → X25519KeyPair → CreateRatchetSessionInput
end_of role own remote = record {
  session_id = "s";
  peer_did = "did:peer";
  peer_device_id = "d2";
  self_device_id = "d1";
  role = role;
  root_key = replicate 32 9;
  current_ratchet_key = own;
  remote_ratchet_public_key = remote.public_key;
  bootstrap = no_bootstrap;
  created_at = 1;
}

abbrev alice : CreateRatchetSessionInput
alice = end_of initiator alice_keys bob_keys

abbrev bob : CreateRatchetSessionInput
bob = end_of responder bob_keys alice_keys

abbrev step : RootStep
step = derive_root_and_chain_keys toy (replicate 32 9) (replicate 32 5)

abbrev sender : LocalSessionState
sender = create_session toy alice step (some (toy_to_hex step.chain_key)) none

abbrev receiver : LocalSessionState
receiver = create_session toy bob step none (some (toy_to_hex step.chain_key))

abbrev text : ℕ → RatchetEncryptInput
text n = record {
  session = sender;
  plaintext = n ∷ [];
  sender_did = "did:a";
  receiver_did = "did:b";
  message_id = none;
  nonce = none;
  ratchet_key_pair = none;
  now = some 3;
  fresh_message_id = "m";
  fresh_nonce = replicate 24 0;
  fresh_key_pair = alice_keys;
  clock = 3;
}

abbrev first : RatchetEncryptResult
first = sent toy step.chain_key (text 10) sender

abbrev second : RatchetEncryptResult
second = sent toy step.chain_key (text 20) first.session

abbrev traffic : Traffic
traffic = (first.message, 10 ∷ []) ∷ (second.message, 20 ∷ []) ∷ []

abbrev reordered : Traffic
reordered = (second.message, 20 ∷ []) ∷ (first.message, 10 ∷ []) ∷ []

agreed : Agreed toy alice bob
agreed = record {
  secret = replicate 32 5;
  root_key = refl;
  a_remote = refl;
  b_remote = refl;
  a_private_length = refl;
  b_private_length = refl;
  a_public_length = refl;
  b_public_length = refl;
  a_secret = refl;
  b_secret = refl;
}

sender_made : create_initiator_ratchet_session toy alice ≡ ok sender
unfolding create_initiator_ratchet_session diffie_hellman_x25519
sender_made = refl

receiver_made : create_responder_ratchet_session toy bob ≡ ok receiver
unfolding create_responder_ratchet_session diffie_hellman_x25519
receiver_made = refl

sent_both : send_flight toy sender (text 10 ∷ text 20 ∷ []) ≡ ok (traffic, second.session)
unfolding send_flight encrypt_ratchet_message ensure_sending_chain seal_from seal_next
    encrypt_session_message encrypt_xchacha20_poly1305 build_session_message_associated_data
    create_session chain_at message_key_at derive_chain_step derive_root_and_chain_keys
sent_both = refl

flight_leaves_example :
    (out : Traffic) × (after : LocalSessionState) × (send_flight toy sender (text 10 ∷ text 20 ∷ [])
      ≡ ok (out, after))
    × (map (λ p. p.1) out ≡ (10 ∷ []) ∷ (20 ∷ []) ∷ [])
flight_leaves_example =
    flight_leaves toy alice bob sender (text 10 ∷ text 20 ∷ []) agreed sender_made
      (refl, (refl, tt))

flight_arrives_example :
    (t : LocalSessionState) × (receive_all toy receiver reordered 7
      ≡ ok ((20 ∷ []) ∷ (10 ∷ []) ∷ [], t))
flight_arrives_example =
    flight_arrives toy alice bob sender second.session receiver (text 10 ∷ text 20 ∷ []) traffic
      reordered 7 agreed sender_made receiver_made (refl, (refl, tt)) (omega arith) sent_both
      (Permᴰ.swap refl refl)

authentic : IsAuthentic toy
authentic k k' nonce ad plaintext differ = elim (Bool-cases (nat_beq (length k') (length k))) [
  | inl e ↦ rw e (strip_other k' k plaintext (ground arith) differ)
  | inr e ↦ rw e
]

follows : Follows toy step.chain_key receiver
unfolding chain_at create_session derive_root_and_chain_keys
follows = record { root_length = refl; receiving = refl; genuine = tt }

first-Sealed : Sealed toy step.chain_key (replicate 32 1) (10 ∷ []) first.message
unfolding create_session
first-Sealed = record { its_key = refl; nonce_length = refl; contents = refl }

second-Sealed : Sealed toy step.chain_key (replicate 32 1) (20 ∷ []) second.message
unfolding create_session
second-Sealed = record { its_key = refl; nonce_length = refl; contents = refl }

ready : Ready toy 0 step.chain_key (replicate 32 1) receiver reordered
unfolding create_session
ready = record {
  follows = follows;
  remote = refl;
  room = omega arith;
  pending = (
    record { sealed = second-Sealed; window = omega arith; kept = λ before. absurd (omega arith) },
    (
      record { sealed = first-Sealed; window = omega arith; kept = λ before. absurd (omega arith) },
      tt,
    ),
  );
  distinct = ((λ e. absurd (omega arith), tt), (tt, tt));
}

receive_all_reordered_example :
    (t : LocalSessionState) × (receive_all toy receiver reordered 7
      ≡ ok ((20 ∷ []) ∷ (10 ∷ []) ∷ [], t))
receive_all_reordered_example =
    receive_all_reordered toy 0 step.chain_key (replicate 32 1) receiver reordered 7 ready

abbrev opened : RatchetDecryptResult
opened = record {
  plaintext = 20 ∷ [];
  session = after_ahead toy step.chain_key receiver 1 7;
  message_key = message_key_at toy step.chain_key 1;
  used_skipped_message_key = false;
}

opened_second : decrypt_ratchet_message toy receiver second.message 7 ≡ ok opened
unfolding create_session
opened_second =
    decrypt_ahead toy step.chain_key (replicate 32 1) (20 ∷ []) receiver second.message 7 follows
      refl second-Sealed (omega arith) (omega arith)

decrypt_ratchet_message-IsBounded_example : IsBounded (after_ahead toy step.chain_key receiver 1 7)
unfolding create_session
decrypt_ratchet_message-IsBounded_example =
    decrypt_ratchet_message-IsBounded toy receiver second.message 7 opened (omega arith)
      opened_second

abbrev far_message : SessionMessage
far_message = record {
  header = record first.message.header { message_number = 65 };
  ciphertext = [];
}

head_of_message_key :
    (root : Bytes) (n : ℕ) → head (message_key_at toy root n) ≡ suc (head (chain_at toy root n))
unfolding message_key_at derive_chain_step
head_of_message_key root n = refl

head_of_chain : (root : Bytes) (n : ℕ) → head (chain_at toy root n) ≡ head root + n
unfolding chain_at derive_chain_step
head_of_chain root zero = omega arith
head_of_chain root (suc n) = omega (arith, head_of_chain root n)

keys_differ :
    (root : Bytes) (i j : ℕ) → i < j → message_key_at toy root i ≢ message_key_at toy root j
keys_differ root i j lt e =
    let heads : ◌≡◌ {A = ℕ} (head (message_key_at toy root i)) (head (message_key_at toy root j)) =
      ap head e in
    omega (
      arith,
      heads,
      lt,
      head_of_message_key root i,
      head_of_message_key root j,
      head_of_chain root i,
      head_of_chain root j,
    )

abbrev opened_first_result : RatchetDecryptResult
opened_first_result = record {
  plaintext = 10 ∷ [];
  session = after_ahead toy step.chain_key receiver 0 7;
  message_key = message_key_at toy step.chain_key 0;
  used_skipped_message_key = false;
}

opened_first : decrypt_ratchet_message toy receiver first.message 7 ≡ ok opened_first_result
unfolding create_session
opened_first =
    decrypt_ahead toy step.chain_key (replicate 32 1) (10 ∷ []) receiver first.message 7 follows
      refl first-Sealed (omega arith) (omega arith)

decrypt_replayed_example :
    decrypt_ratchet_message toy opened_first_result.session first.message 8 ≡ err decrypt_failed
unfolding create_session
decrypt_replayed_example =
    decrypt_replayed toy step.chain_key (replicate 32 1) (10 ∷ []) receiver first.message 7 8
      opened_first_result authentic follows refl first-Sealed tt (omega arith)
      (keys_differ step.chain_key 0) opened_first
