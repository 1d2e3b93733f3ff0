-- ===== src/E2e/Ratchet/Reorder.antt =====
-- Delivery of a whole batch of messages of one chain of ratchet.ts, in whatever order they arrive.
use a.Base.{
  list_beq_refl, length, length-append, All, All-append, All-mono, All-zip, Result, ◌>>=◌, ok, ℕ,
  zero, suc, ◌+◌, ◌-◌, ◌≤◌, ◌<◌, ◌≡◌, refl, ◌∙◌, Bool, true, false, List, [], ◌∷◌, map, arith,
  dec_lt,
}
use a.E2e.Types.{Bytes, Hex, EncryptionError, SessionMessage}
use a.E2e.Crypto.{Crypto}
use a.E2e.Session.{LocalSessionState, max_skipped_message_keys}
use a.E2e.Ratchet.{decrypt_ratchet_message}
use a.E2e.Ratchet.Store.{holds, holds-append, take_entry_holds}
use a.E2e.Ratchet.Chain.{message_key_at}
use a.E2e.Ratchet.Skip.{run_of, length-run_of}
use a.E2e.Ratchet.Delivery.{IsGenuine, Follows, Sealed, after_ahead, decrypt_ahead, decrypt_late}

-- Messages with the plaintexts that were sealed in them.
abbrev pub Traffic : Type 0
Traffic = List (SessionMessage × Bytes)

abbrev pub HasNumber : ℕ → SessionMessage × Bytes → Type 0
HasNumber n p = p.0.message_number ≡ n

-- No two messages have the same number.
abbrev pub AreDistinct : Traffic → Type 0
AreDistinct [] = Unit
AreDistinct (p ∷ ps) = All (λ q. ¬ HasNumber p.0.message_number q) ps × AreDistinct ps

module _ (crypto : Crypto) where
  open crypto use {to_hex}

  -- A receiver that decrypts what arrives, and stops where a decryption throws.
  unfoldable pub receive_all :
      LocalSessionState → Traffic → ℕ → Result EncryptionError (List Bytes × LocalSessionState)
  receive_all s [] now = ok ([], s)
  receive_all s ((m, plaintext) ∷ ps) now = do
    opened ← decrypt_ratchet_message crypto s m now
    rest ← receive_all opened.session ps now
    ok (opened.plaintext ∷ rest.0, rest.1)

  pub run-IsGenuine :
      (root : Bytes) (key : Hex) (start count bound : ℕ)
      → start + count ≤ bound
      → All (IsGenuine crypto root key bound) (run_of crypto root key start count)
  unfolding run_of
  run-IsGenuine root key start zero bound h = tt
  run-IsGenuine root key start (suc count) bound h =
      (λ e. (omega arith, refl), run-IsGenuine root key (start + 1) count bound (omega arith))

  run_holds :
      (root : Bytes) (key : Hex) (start count n : ℕ)
      → start ≤ n
      → n < start + count
      → holds key n (run_of crypto root key start count) ≡ true
  unfolding run_of holds
  run_holds root key start zero n le lt = absurd (omega arith)
  run_holds root key start (suc count) n le lt =
      ground (arith, list_beq_refl key, run_holds root key (start + 1) count n)

  -- A message that the receiver can still open: it is one of the chain, it lies in the window, and
  -- its key is in the store if the chain has gone past it.
  pub record Pending (c : ℕ) (root key : Bytes) (s : LocalSessionState) (p : SessionMessage × Bytes)
      : Type 0 where
    pub sealed : Sealed crypto root key p.1 p.0
    pub window : c + p.0.message_number ≤ max_skipped_message_keys
    pub kept :
        p.0.message_number < s.next_receive_message_number
        → holds s.remote_ratchet_public_key p.0.message_number s.skipped_message_keys ≡ true

  -- `c` bounds the stored keys that belong to earlier chains.
  pub record Ready (c : ℕ) (root key : Bytes) (s : LocalSessionState) (ps : Traffic) : Type 0 where
    pub follows : Follows crypto root s
    pub remote : s.remote_ratchet_public_key ≡ to_hex key
    pub room : length s.skipped_message_keys ≤ s.next_receive_message_number + c
    pub pending : All (Pending c root key s) ps
    pub distinct : AreDistinct ps

  record Opened (c : ℕ) (root key : Bytes) (s : LocalSessionState) (m : SessionMessage)
      (plaintext : Bytes) (ps : Traffic) (now : ℕ) : Type 0 where
    session : LocalSessionState
    key_used : Bytes
    used_skipped : Bool
    opened :
        decrypt_ratchet_message crypto s m now
        ≡ ok (record {
          plaintext = plaintext;
          session = session;
          message_key = key_used;
          used_skipped_message_key = used_skipped;
        })
    ready : Ready c root key session ps

  open_late :
      (c : ℕ) (root key : Bytes) (s : LocalSessionState) (m : SessionMessage) (plaintext : Bytes)
      (ps : Traffic) (now : ℕ)
      → Ready c root key s ((m, plaintext) ∷ ps)
      → m.message_number < s.next_receive_message_number
      → Opened c root key s m plaintext ps now
  open_late c root key s m plaintext ps now r lt =
      let t =
        take_entry_holds
          (IsGenuine crypto root s.remote_ratchet_public_key s.next_receive_message_number)
          s.remote_ratchet_public_key m.message_number s.skipped_message_keys r.follows.genuine
          (r.pending.0.kept lt) in
      record {
        session = record s { skipped_message_keys = t.rest; updated_at = now };
        key_used = message_key_at crypto root m.message_number;
        used_skipped = true;
        opened =
            decrypt_late crypto root key plaintext s m now r.follows r.remote r.pending.0.sealed t;
        ready = record {
          follows = record {
            root_length = r.follows.root_length;
            receiving = r.follows.receiving;
            genuine = t.rest_good;
          };
          remote = r.remote;
          room = omega (arith, t.shorter, r.room);
          pending =
              All-zip
                (λ q p ne. record {
                  sealed = p.sealed;
                  window = p.window;
                  kept = λ before. t.others q.0.message_number ne ∙ p.kept before;
                })
                ps r.pending.1 r.distinct.0;
          distinct = r.distinct.1;
        };
      }

  pub after_ahead-Follows :
      (root : Bytes) (s : LocalSessionState) (n now : ℕ)
      → Follows crypto root s
      → s.next_receive_message_number ≤ n
      → Follows crypto root (after_ahead crypto root s n now)
  after_ahead-Follows root s n now f le = record {
    root_length = f.root_length;
    receiving = refl;
    genuine =
        All-append (IsGenuine crypto root s.remote_ratchet_public_key (n + 1))
          s.skipped_message_keys _
          (All-mono (λ e g same. (omega (arith, (g same).0), (g same).1)) s.skipped_message_keys
            f.genuine)
          (run-IsGenuine root s.remote_ratchet_public_key s.next_receive_message_number
            (n - s.next_receive_message_number) (n + 1) (omega arith));
  }

  after_ahead-holds :
      (root : Bytes) (s : LocalSessionState) (n k now : ℕ)
      → (k < s.next_receive_message_number
          → holds s.remote_ratchet_public_key k s.skipped_message_keys ≡ true)
      → k < n
      → holds s.remote_ratchet_public_key k (after_ahead crypto root s n now).skipped_message_keys
        ≡ true
  after_ahead-holds root s n k now kept lt =
      let start = s.next_receive_message_number in
      ground (
        arith,
        kept,
        run_holds root s.remote_ratchet_public_key start (n - start) k,
        holds-append s.remote_ratchet_public_key k s.skipped_message_keys
            (run_of crypto root s.remote_ratchet_public_key start (n - start)),
      )

  open_ahead :
      (c : ℕ) (root key : Bytes) (s : LocalSessionState) (m : SessionMessage) (plaintext : Bytes)
      (ps : Traffic) (now : ℕ)
      → Ready c root key s ((m, plaintext) ∷ ps)
      → s.next_receive_message_number ≤ m.message_number
      → Opened c root key s m plaintext ps now
  open_ahead c root key s m plaintext ps now r le =
      let n = m.message_number in
      let start = s.next_receive_message_number in
      record {
        session = after_ahead crypto root s n now;
        key_used = message_key_at crypto root n;
        used_skipped = false;
        opened =
            decrypt_ahead crypto root key plaintext s m now r.follows r.remote r.pending.0.sealed le
              (omega (arith, r.room, r.pending.0.window));
        ready = record {
          follows = after_ahead-Follows root s n now r.follows le;
          remote = r.remote;
          room = omega (
            arith,
            r.room,
            length-append s.skipped_message_keys
                (run_of crypto root s.remote_ratchet_public_key start (n - start)),
            length-run_of crypto root s.remote_ratchet_public_key start (n - start),
          );
          pending =
              All-zip
                (λ q p ne. record {
                  sealed = p.sealed;
                  window = p.window;
                  kept = λ before.
                      after_ahead-holds root s n q.0.message_number now p.kept (omega (arith, ne));
                })
                ps r.pending.1 r.distinct.0;
          distinct = r.distinct.1;
        };
      }

  open_one :
      (c : ℕ) (root key : Bytes) (s : LocalSessionState) (m : SessionMessage) (plaintext : Bytes)
      (ps : Traffic) (now : ℕ)
      → Ready c root key s ((m, plaintext) ∷ ps)
      → Opened c root key s m plaintext ps now
  open_one c root key s m plaintext ps now r =
      elim (dec_lt m.message_number s.next_receive_message_number) [
        | yes lt ↦ open_late c root key s m plaintext ps now r lt
        | no ge ↦ open_ahead c root key s m plaintext ps now r (omega arith)
      ]

  -- Whatever the order in which messages of the chain arrive, a receiver that is ready for them
  -- decrypts every one of them, each to the plaintext that was sealed in it.
  pub receive_all_reordered :
      (c : ℕ) (root key : Bytes) (s : LocalSessionState) (ps : Traffic) (now : ℕ)
      → Ready c root key s ps
      → (t : LocalSessionState) × (receive_all s ps now ≡ ok (map (λ p. p.1) ps, t))
  unfolding receive_all
  receive_all_reordered c root key s [] now r = (s, refl)
  receive_all_reordered c root key s ((m, plaintext) ∷ ps) now r =
      let o = open_one c root key s m plaintext ps now r in
      let (t, e) = receive_all_reordered c root key o.session ps now o.ready in
      (t, rw (o.opened, e))
