-- ===== src/E2e/Ratchet/Chain.antt =====
-- The symmetric chain of ratchet.ts: its n-th chain key and message key, and their lengths.
use a.Base.{
  length, drop, length-drop, length-take, ℕ, zero, suc, ◌+◌, ◌≡◌, refl, some, [], ◌∷◌, arith,
}
use a.E2e.Types.{Bytes, Hex}
use a.E2e.Crypto.{Crypto}
use a.E2e.Session.{
  truthy, SkippedMessageKeyState, double_ratchet_chain_salt, double_ratchet_chain_info,
}
use a.E2e.Ratchet.{derive_chain_step}

module _ (crypto : Crypto) where
  open crypto use {to_hex, from_hex}

  unfoldable pub chain_at : Bytes → ℕ → Bytes
  chain_at root zero = root
  chain_at root (suc n) = (derive_chain_step crypto (chain_at root n)).chain_key

  unfoldable pub message_key_at : Bytes → ℕ → Bytes
  message_key_at root n = (derive_chain_step crypto (chain_at root n)).message_key

  -- The stored key of message `n` of the chain that starts at `root`.
  abbrev pub entry_at : Bytes → Hex → ℕ → SkippedMessageKeyState
  entry_at root key n = record {
    ratchet_public_key = key;
    message_number = n;
    message_key = to_hex (message_key_at root n);
  }

  -- A derived chain key and a derived message key have 32 bytes.
  pub derive_chain_step_lengths :
      (key : Bytes)
      → (length (derive_chain_step crypto key).chain_key ≡ 32)
        × (length (derive_chain_step crypto key).message_key ≡ 32)
  unfolding derive_chain_step
  derive_chain_step_lengths key =
      let material = crypto.hkdf key double_ratchet_chain_salt double_ratchet_chain_info 64 in
      let len = crypto.length-hkdf key double_ratchet_chain_salt double_ratchet_chain_info 64 in
      (
        omega (arith, length-take 32 material, len),
        omega (arith, length-take 32 (drop 32 material), length-drop 32 material, len),
      )

  pub length-chain_at : (root : Bytes) (n : ℕ) → length root ≡ 32 → length (chain_at root n) ≡ 32
  unfolding chain_at
  length-chain_at root zero h = h
  length-chain_at root (suc n) h = (derive_chain_step_lengths (chain_at root n)).0

  pub length-message_key_at : (root : Bytes) (n : ℕ) → length (message_key_at root n) ≡ 32
  unfolding message_key_at
  length-message_key_at root n = (derive_chain_step_lengths (chain_at root n)).1

  pub chain_at-add_one :
      (root : Bytes) (n : ℕ)
      → (derive_chain_step crypto (chain_at root n)).chain_key ≡ chain_at root (n + 1)
  unfolding chain_at
  chain_at-add_one root n = let e : n + 1 ≡ suc n = omega arith in rw e

  truthy_of_length : (h : Hex) (n : ℕ) → length h ≡ suc n → truthy (some h) ≡ some h
  truthy_of_length [] n e = absurd (omega arith)
  truthy_of_length (c ∷ cs) n e = refl

  -- The hex text of a key of 32 bytes is never taken for a missing one.
  pub truthy-to_hex :
      (key : Bytes) → length key ≡ 32 → truthy (some (to_hex key)) ≡ some (to_hex key)
  truthy-to_hex key h = truthy_of_length (to_hex key) 63 (omega (arith, crypto.length-to_hex key))
