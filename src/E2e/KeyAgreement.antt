-- ===== src/E2e/KeyAgreement.antt =====
-- js/core/protocol/src/e2e/x3dh.ts: the secret that two devices agree on before a session begins.
use a.Base.{Result, ◌>>=◌, ok, err, ◌≡◌, Option, none, some, List, [], ◌∷◌, ◌++◌}
use a.E2e.Types.{Bytes, EncryptionError, initiator_secret_failed, responder_secret_failed}
use a.E2e.Crypto.{Crypto, diffie_hellman_x25519}
use a.E2e.Session.{codes, X25519KeyPair}

unfoldable pub x3dh_info : Bytes
x3dh_info = codes "quadra-a/e2e/x3dh/v1"

unfoldable pub x3dh_salt : Bytes
x3dh_salt = codes "quadra-a/e2e/x3dh/salt/v1"

pub record X3dhInitiatorInput : Type 0 where
  pub initiator_identity_private : Bytes
  pub initiator_ephemeral_private : Bytes
  pub recipient_identity_public : Bytes
  pub recipient_signed_pre_key_public : Bytes
  pub recipient_one_time_pre_key_public : Option Bytes

pub record X3dhResponderInput : Type 0 where
  pub recipient_identity_private : Bytes
  pub recipient_signed_pre_key_private : Bytes
  pub initiator_identity_public : Bytes
  pub initiator_ephemeral_public : Bytes
  pub recipient_one_time_pre_key_private : Option Bytes

-- `concatBytes`
abbrev pub concat_bytes : List Bytes → Bytes
concat_bytes [] = []
concat_bytes (p ∷ ps) = p ++ concat_bytes ps

-- `catch (error) { throw e }`
abbrev pub rethrow :
    {A : Type 0} → EncryptionError → Result EncryptionError A → Result EncryptionError A
rethrow e (ok a) = ok a
rethrow e (err _) = err e

abbrev pub if_given : {A B : Type 0} → (A → B) → Option A → Option B
if_given f none = none
if_given f (some a) = some (f a)

-- The parts with a further one, if there is one.
abbrev pub with_part :
    List Bytes → Option (Result EncryptionError Bytes) → Result EncryptionError (List Bytes)
with_part parts none = ok parts
with_part parts (some r) = r >>= λ part. ok (parts ++ (part ∷ []))

module _ (crypto : Crypto) where
  unfoldable pub derive_x3dh_shared_secret : List Bytes → Bytes
  unfolding x3dh_info x3dh_salt
  derive_x3dh_shared_secret parts = crypto.hkdf (concat_bytes parts) x3dh_salt x3dh_info 32

  -- The three parts and the optional one, each of which may throw.
  abbrev pub derive_from :
      Result EncryptionError Bytes
      → Result EncryptionError Bytes
      → Result EncryptionError Bytes
      → Option (Result EncryptionError Bytes)
      → Result EncryptionError Bytes
  derive_from first second third fourth = do
    x ← first
    y ← second
    z ← third
    parts ← with_part (x ∷ y ∷ z ∷ []) fourth
    ok (derive_x3dh_shared_secret parts)

  unfoldable pub derive_x3dh_initiator_shared_secret :
      X3dhInitiatorInput → Result EncryptionError Bytes
  derive_x3dh_initiator_shared_secret input =
      let dh = diffie_hellman_x25519 crypto in
      rethrow initiator_secret_failed (
        derive_from (dh input.initiator_identity_private input.recipient_signed_pre_key_public)
          (dh input.initiator_ephemeral_private input.recipient_identity_public)
          (dh input.initiator_ephemeral_private input.recipient_signed_pre_key_public)
          (if_given (λ key. dh input.initiator_ephemeral_private key)
            input.recipient_one_time_pre_key_public))

  unfoldable pub derive_x3dh_responder_shared_secret :
      X3dhResponderInput → Result EncryptionError Bytes
  derive_x3dh_responder_shared_secret input =
      let dh = diffie_hellman_x25519 crypto in
      rethrow responder_secret_failed (
        derive_from (dh input.recipient_signed_pre_key_private input.initiator_identity_public)
          (dh input.recipient_identity_private input.initiator_ephemeral_public)
          (dh input.recipient_signed_pre_key_private input.initiator_ephemeral_public)
          (if_given (λ key. dh key input.initiator_ephemeral_public)
            input.recipient_one_time_pre_key_private))

  -- Both ends compute one result from their key pairs, as X25519 promises of pairs that belong
  -- together.
  abbrev pub IsShared : X25519KeyPair → X25519KeyPair → Type 0
  IsShared x y =
      diffie_hellman_x25519 crypto x.private_key y.public_key
      ≡ diffie_hellman_x25519 crypto y.private_key x.public_key

  -- For the optional pre-key.
  abbrev pub IsSharedIfGiven : X25519KeyPair → Option X25519KeyPair → Type 0
  IsSharedIfGiven x none = Unit
  IsSharedIfGiven x (some y) = IsShared x y

  abbrev pub initiator_input :
      X25519KeyPair
      → X25519KeyPair
      → X25519KeyPair
      → X25519KeyPair
      → Option X25519KeyPair
      → X3dhInitiatorInput
  initiator_input identity ephemeral their_identity their_signed their_one_time = record {
    initiator_identity_private = identity.private_key;
    initiator_ephemeral_private = ephemeral.private_key;
    recipient_identity_public = their_identity.public_key;
    recipient_signed_pre_key_public = their_signed.public_key;
    recipient_one_time_pre_key_public = if_given (λ k. k.public_key) their_one_time;
  }

  abbrev pub responder_input :
      X25519KeyPair
      → X25519KeyPair
      → X25519KeyPair
      → X25519KeyPair
      → Option X25519KeyPair
      → X3dhResponderInput
  responder_input identity ephemeral their_identity their_signed their_one_time = record {
    recipient_identity_private = their_identity.private_key;
    recipient_signed_pre_key_private = their_signed.private_key;
    initiator_identity_public = identity.public_key;
    initiator_ephemeral_public = ephemeral.public_key;
    recipient_one_time_pre_key_private = if_given (λ k. k.private_key) their_one_time;
  }

  rethrow-ok :
      (e f : EncryptionError) (r : Result EncryptionError Bytes) (secret : Bytes)
      → rethrow e r ≡ ok secret
      → rethrow f r ≡ ok secret
  rethrow-ok e f (ok a) secret h = h
  rethrow-ok e f (err x) secret h = absurd (cc h)

  -- Whenever the initiator derives a secret, the responder derives the same one, with or without a
  -- one-time pre-key, if the key pairs of the two devices belong together.
  pub responder-initiator :
      (identity ephemeral their_identity their_signed : X25519KeyPair)
      (their_one_time : Option X25519KeyPair) (secret : Bytes)
      → IsShared identity their_signed
      → IsShared ephemeral their_identity
      → IsShared ephemeral their_signed
      → IsSharedIfGiven ephemeral their_one_time
      → derive_x3dh_initiator_shared_secret
          (initiator_input identity ephemeral their_identity their_signed their_one_time)
        ≡ ok secret
      → derive_x3dh_responder_shared_secret
          (responder_input identity ephemeral their_identity their_signed their_one_time)
        ≡ ok secret
  unfolding derive_x3dh_initiator_shared_secret derive_x3dh_responder_shared_secret
  responder-initiator identity ephemeral their_identity their_signed none secret p q r s h =
      rethrow-ok initiator_secret_failed responder_secret_failed _ secret (rw (p, q, r) at h)
  responder-initiator identity ephemeral their_identity their_signed (some k) secret p q r s h =
      rethrow-ok initiator_secret_failed responder_secret_failed _ secret (rw (p, q, r, s) at h)
