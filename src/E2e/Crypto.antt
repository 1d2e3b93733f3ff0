-- ===== src/E2e/Crypto.antt =====
-- js/core/protocol/src/e2e/x25519.ts over the packages that it calls, which are parameters: the key
-- agreement of node:crypto, the HKDF and the AEAD of @noble, Buffer's hex and the CBOR encoder of
-- cbor-x, with what their documentation promises.
use a.Base.{nat_beq, length, Result, ◌>>◌, guard, or_throw, ok, ℕ, ◌*◌, ◌≡◌, ◌&&◌, Option, some}
use a.E2e.Types.{
  Bytes, Hex, EncryptionError, shared_secret_failed, encrypt_failed, decrypt_failed, SessionHeader,
  PreKeyHeader,
}

pub record Crypto : Type 0 where
  -- `diffieHellman` of node:crypto on imported raw keys; `none` where it throws
  pub node_diffie_hellman : Bytes → Bytes → Option Bytes
  -- `hkdf(sha256, ikm, salt, info, length)`
  pub hkdf : Bytes → Bytes → Bytes → ℕ → Bytes
  -- `xchacha20poly1305(key, nonce, associatedData)`
  pub seal : Bytes → Bytes → Bytes → Bytes → Bytes
  pub open_sealed : Bytes → Bytes → Bytes → Bytes → Option Bytes
  pub to_hex : Bytes → Hex
  pub from_hex : Hex → Bytes
  pub encode_session_header : SessionHeader → Bytes
  pub encode_pre_key_header : PreKeyHeader → Bytes
  pub length-hkdf : (ikm salt info : Bytes) (n : ℕ) → length (hkdf ikm salt info n) ≡ n
  pub length-to_hex : (b : Bytes) → length (to_hex b) ≡ 2 * length b
  pub from_hex-to_hex : (b : Bytes) → from_hex (to_hex b) ≡ b
  pub open_sealed-seal :
      (key nonce ad plaintext : Bytes)
      → open_sealed key nonce ad (seal key nonce ad plaintext) ≡ some plaintext

module _ (crypto : Crypto) where
  open crypto use {node_diffie_hellman, seal, open_sealed}

  unfoldable pub diffie_hellman_x25519 : Bytes → Bytes → Result EncryptionError Bytes
  diffie_hellman_x25519 private_key public_key = do
    guard (nat_beq (length private_key) 32 && nat_beq (length public_key) 32) shared_secret_failed
    or_throw (node_diffie_hellman private_key public_key) shared_secret_failed

  unfoldable pub encrypt_xchacha20_poly1305 :
      Bytes → Bytes → Bytes → Bytes → Result EncryptionError Bytes
  encrypt_xchacha20_poly1305 key nonce plaintext ad = do
    guard (nat_beq (length key) 32) encrypt_failed
    guard (nat_beq (length nonce) 24) encrypt_failed
    ok (seal key nonce ad plaintext)

  unfoldable pub decrypt_xchacha20_poly1305 :
      Bytes → Bytes → Bytes → Bytes → Result EncryptionError Bytes
  decrypt_xchacha20_poly1305 key nonce ciphertext ad = do
    guard (nat_beq (length key) 32) decrypt_failed
    guard (nat_beq (length nonce) 24) decrypt_failed
    or_throw (open_sealed key nonce ad ciphertext) decrypt_failed

  -- A key and nonce of the right lengths decrypt what they encrypted.
  pub decrypt-encrypt :
      (key nonce plaintext ad : Bytes)
      → length key ≡ 32
      → length nonce ≡ 24
      → decrypt_xchacha20_poly1305 key nonce (seal key nonce ad plaintext) ad ≡ ok plaintext
  unfolding decrypt_xchacha20_poly1305
  decrypt-encrypt key nonce plaintext ad hk hn =
      rw (hk, hn, crypto.open_sealed-seal key nonce ad plaintext)
