-- ===== src/E2e/Ratchet/Skip.antt =====
-- `skipMessageKeys` of ratchet.ts on a session that follows a chain, while its store has room.
use mathlib.Core.List.{append-nil, append_assoc}
use native.Mathlib.Nat.{add-zero}
use a.Base.{
  ltb-eq-false, length, length-append, ok, ℕ, zero, suc, ◌+◌, ◌-◌, ◌≤◌, ◌<◌, ◌≡◌, refl, ◌∙◌, some,
  List, [], ◌∷◌, ◌++◌, arith,
}
use a.E2e.Types.{Bytes, Hex}
use a.E2e.Crypto.{Crypto}
use a.E2e.Session.{
  LocalSessionState, SkippedMessageKeyState, store_skipped_message_key, max_skipped_message_keys,
}
use a.E2e.Ratchet.{skip_loop, skip_message_keys, derive_chain_step}
use a.E2e.Ratchet.Chain.{
  chain_at, message_key_at, entry_at, chain_at-add_one, length-chain_at, truthy-to_hex,
}

pub store_with_room :
    (to_hex : Bytes → Hex) (s : LocalSessionState) (key : Hex) (n : ℕ) (message_key : Bytes)
    → length s.skipped_message_keys < max_skipped_message_keys
    → store_skipped_message_key to_hex s key n message_key ≡ record s {
      skipped_message_keys =
          s.skipped_message_keys
          ++ record {
            ratchet_public_key = key;
            message_number = n;
            message_key = to_hex message_key;
          }
            ∷ [];
    }
unfolding store_skipped_message_key
store_with_room to_hex s key n message_key h =
    let entry : SkippedMessageKeyState = record {
      ratchet_public_key = key;
      message_number = n;
      message_key = to_hex message_key;
    } in
    rw (
      ltb-eq-false 64 (length (s.skipped_message_keys ++ entry ∷ []))
        (omega (arith, length-append s.skipped_message_keys (entry ∷ []))))

module _ (crypto : Crypto) where
  open crypto use {to_hex, from_hex}

  -- The entries of `count` messages from number `start` on.
  unfoldable pub run_of : Bytes → Hex → ℕ → ℕ → List SkippedMessageKeyState
  run_of root key start zero = []
  run_of root key start (suc count) =
      entry_at crypto root key start ∷ run_of root key (start + 1) count

  pub length-run_of :
      (root : Bytes) (key : Hex) (start count : ℕ) → length (run_of root key start count) ≡ count
  unfolding run_of
  length-run_of root key start zero = refl
  length-run_of root key start (suc count) = omega (arith, length-run_of root key (start + 1) count)

  -- A session that has gone `count` messages further along its chain, and kept their keys.
  abbrev pub skipped_by : Bytes → LocalSessionState → ℕ → LocalSessionState
  skipped_by root s count = record s {
    next_receive_message_number = s.next_receive_message_number + count;
    skipped_message_keys =
        s.skipped_message_keys
        ++ run_of root s.remote_ratchet_public_key s.next_receive_message_number count;
  }

  skip_loop_with_room :
      (root : Bytes) (count : ℕ) (s : LocalSessionState)
      → length s.skipped_message_keys + count ≤ max_skipped_message_keys
      → skip_loop crypto count s (chain_at crypto root s.next_receive_message_number)
        ≡ (skipped_by root s count, chain_at crypto root (s.next_receive_message_number + count))
  unfolding skip_loop run_of message_key_at
  skip_loop_with_room root zero s h = rw (add-zero, append-nil)
  skip_loop_with_room root (suc count) s h =
      let n = s.next_receive_message_number in
      let key = s.remote_ratchet_public_key in
      let entry = entry_at crypto root key n in
      let next : LocalSessionState = record s {
        next_receive_message_number = n + 1;
        skipped_message_keys = s.skipped_message_keys ++ entry ∷ [];
      } in
      let e : n + 1 + count ≡ n + suc count = omega arith in
      rw
        (
          store_with_room to_hex s key n
              (derive_chain_step crypto (chain_at crypto root n)).message_key (omega arith),
          chain_at-add_one crypto root n,
        )
        (skip_loop_with_room root count next
            (omega (arith, length-append s.skipped_message_keys (entry ∷ [])))
          ∙ rw (e, append_assoc))

  pub skip_with_room :
      (root : Bytes) (s : LocalSessionState) (until : ℕ)
      → length root ≡ 32
      → s.receiving_chain_key ≡ some (to_hex (chain_at crypto root s.next_receive_message_number))
      → s.next_receive_message_number ≤ until
      → length s.skipped_message_keys + (until - s.next_receive_message_number)
        ≤ max_skipped_message_keys
      → skip_message_keys crypto s until
        ≡ ok (record (skipped_by root s (until - s.next_receive_message_number)) {
          receiving_chain_key = some (
              to_hex (
                chain_at crypto root
                  (s.next_receive_message_number + (until - s.next_receive_message_number))));
        })
  unfolding skip_message_keys
  skip_with_room root s until len receiving le room =
      let n = s.next_receive_message_number in
      rw (
        ltb-eq-false until n le,
        receiving,
        truthy-to_hex crypto (chain_at crypto root n) (length-chain_at crypto root n len),
        crypto.from_hex-to_hex (chain_at crypto root n),
        skip_loop_with_room root (until - n) s room,
        ltb-eq-false 64 (until - n) (omega arith),
      )
