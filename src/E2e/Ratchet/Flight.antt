-- ===== src/E2e/Ratchet/Flight.antt =====
-- From session setup in ratchet.ts to the arrival of the initiator's first flight of messages.
use mathlib.Core.List.{Permᴰ}
use a.Base.{
  length, drop, length-drop, length-take, All, ok, All-perm, ℕ, ◌+◌, ◌≤◌, ◌<◌, ◌≡◌, refl, sym, ap,
  subst, none, some, List, [], ◌∷◌, map, arith,
}
use a.E2e.Types.{Bytes}
use a.E2e.Crypto.{Crypto, diffie_hellman_x25519}
use a.E2e.Session.{
  LocalSessionState, CreateRatchetSessionInput, RatchetEncryptInput, max_skipped_message_keys,
  double_ratchet_root_info, RootStep,
}
use a.E2e.Ratchet.{
  create_initiator_ratchet_session, create_responder_ratchet_session, create_session,
  derive_root_and_chain_keys,
}
use a.E2e.Ratchet.Chain.{chain_at}
use a.E2e.Ratchet.Delivery.{Follows, Sends}
use a.E2e.Ratchet.Reorder.{
  Traffic, HasNumber, AreDistinct, Pending, receive_all, receive_all_reordered,
}
use a.E2e.Ratchet.Conversation.{HasNonce, send_flight, IsRun, send_flight-Sent}

AreDistinct-perm : {xs ys : Traffic} → Permᴰ xs ys → AreDistinct xs → AreDistinct ys
AreDistinct-perm Permᴰ.nil h = h
AreDistinct-perm (Permᴰ.cons {l₂} e d) h = (
  subst (λ b. All (λ q. ¬ HasNumber b.0.message_number q) l₂) e (All-perm _ d h.0),
  AreDistinct-perm d h.1,
)
AreDistinct-perm (Permᴰ.swap {a} {a'} {l} e f) h =
    subst (λ x. AreDistinct (a' ∷ x ∷ l)) e
      (subst (λ x. AreDistinct (x ∷ a ∷ l)) f ((λ k. h.0.0 (sym k), h.1.0), (h.0.1, h.1.1)))
AreDistinct-perm (Permᴰ.trans d e) h = AreDistinct-perm e (AreDistinct-perm d h)

module _ (crypto : Crypto) where
  open crypto use {node_diffie_hellman, to_hex}

  -- What the key agreement before it gives the two ends: one root key, each other's ratchet key,
  -- and X25519's common secret of the two ratchet key pairs.
  pub record Agreed (a b : CreateRatchetSessionInput) : Type 0 where
    pub secret : Bytes
    pub root_key : a.root_key ≡ b.root_key
    pub a_remote : a.remote_ratchet_public_key ≡ b.current_ratchet_key.public_key
    pub b_remote : b.remote_ratchet_public_key ≡ a.current_ratchet_key.public_key
    pub a_private_length : length a.current_ratchet_key.private_key ≡ 32
    pub b_private_length : length b.current_ratchet_key.private_key ≡ 32
    pub a_public_length : length a.current_ratchet_key.public_key ≡ 32
    pub b_public_length : length b.current_ratchet_key.public_key ≡ 32
    pub a_secret :
        node_diffie_hellman a.current_ratchet_key.private_key b.current_ratchet_key.public_key
        ≡ some secret
    pub b_secret :
        node_diffie_hellman b.current_ratchet_key.private_key a.current_ratchet_key.public_key
        ≡ some secret

  pub agreed_step : (a b : CreateRatchetSessionInput) → Agreed a b → RootStep
  agreed_step a b g = derive_root_and_chain_keys crypto a.root_key g.secret

  initiator_session :
      (a b : CreateRatchetSessionInput) (g : Agreed a b)
      → create_initiator_ratchet_session crypto a
        ≡ ok (
            create_session crypto a
              (agreed_step a b g)
              (some (to_hex (agreed_step a b g).chain_key))
              none)
  unfolding create_initiator_ratchet_session diffie_hellman_x25519 agreed_step
  initiator_session a b g = rw (g.a_remote, g.a_private_length, g.b_public_length, g.a_secret)

  pub responder_session :
      (a b : CreateRatchetSessionInput) (g : Agreed a b)
      → create_responder_ratchet_session crypto b
        ≡ ok (
            create_session crypto b
              (agreed_step a b g)
              none
              (some (to_hex (agreed_step a b g).chain_key)))
  unfolding create_responder_ratchet_session diffie_hellman_x25519 agreed_step
  responder_session a b g =
      rw (g.b_remote, g.b_private_length, g.a_public_length, g.b_secret, ← g.root_key)

  run_above :
      (root key : Bytes) (n k : ℕ) (ps : Traffic)
      → IsRun crypto root key n ps
      → k < n
      → All (λ q. ¬ HasNumber k q) ps
  run_above root key n k [] r lt = tt
  run_above root key n k (p ∷ ps) r lt =
      (λ e. absurd (omega (arith, r.1)), run_above root key (n + 1) k ps r.2 (omega arith))

  run_distinct :
      (root key : Bytes) (n : ℕ) (ps : Traffic) → IsRun crypto root key n ps → AreDistinct ps
  run_distinct root key n [] r = tt
  run_distinct root key n (p ∷ ps) r = (
    subst (λ i. All (λ q. ¬ HasNumber i q) ps) (sym r.1)
        (run_above root key (n + 1) n ps r.2 (omega arith)),
    run_distinct root key (n + 1) ps r.2,
  )

  run-Pending :
      (root key : Bytes) (s : LocalSessionState) (n : ℕ) (ps : Traffic)
      → s.next_receive_message_number ≡ 0
      → IsRun crypto root key n ps
      → n + length ps ≤ max_skipped_message_keys + 1
      → All (Pending crypto 0 root key s) ps
  run-Pending root key s n [] start r h = tt
  run-Pending root key s n (p ∷ ps) start r h = (
    record { sealed = r.0; window = omega (arith, r.1); kept = λ before. absurd (omega arith) },
    run-Pending root key s (n + 1) ps start r.2 (omega arith),
  )

  chain_root_length :
      (a b : CreateRatchetSessionInput) (g : Agreed a b) → length (agreed_step a b g).chain_key ≡ 32
  unfolding agreed_step derive_root_and_chain_keys
  chain_root_length a b g =
      let material = crypto.hkdf g.secret a.root_key double_ratchet_root_info 64 in
      omega (
        arith,
        length-take 32 (drop 32 material),
        length-drop 32 material,
        crypto.length-hkdf g.secret a.root_key double_ratchet_root_info 64,
      )

  initiator-Sends :
      (a b : CreateRatchetSessionInput) (s : LocalSessionState) (g : Agreed a b)
      → create_initiator_ratchet_session crypto a ≡ ok s
      → Sends crypto (agreed_step a b g).chain_key a.current_ratchet_key.public_key s
        × (s.next_send_message_number ≡ 0)
  unfolding create_session chain_at agreed_step
  initiator-Sends a b s g made =
      let made_of : LocalSessionState =
        create_session crypto a (agreed_step a b g) (some (to_hex (agreed_step a b g).chain_key))
          none in
      let e : made_of ≡ s = cc (initiator_session a b g, made) in
      subst
        (λ t.
          Sends crypto (agreed_step a b g).chain_key a.current_ratchet_key.public_key t
          × (t.next_send_message_number ≡ 0))
        e (record { root_length = chain_root_length a b g; sending = refl; its_key = refl }, refl)

  responder-Follows :
      (a b : CreateRatchetSessionInput) (s : LocalSessionState) (g : Agreed a b)
      → create_responder_ratchet_session crypto b ≡ ok s
      → Follows crypto (agreed_step a b g).chain_key s
        × (s.remote_ratchet_public_key ≡ to_hex a.current_ratchet_key.public_key)
        × (s.next_receive_message_number ≡ 0)
        × (s.skipped_message_keys ≡ [])
  unfolding create_session chain_at agreed_step
  responder-Follows a b s g made =
      let made_of : LocalSessionState =
        create_session crypto b (agreed_step a b g) none
          (some (to_hex (agreed_step a b g).chain_key)) in
      let e : made_of ≡ s = cc (responder_session a b g, made) in
      subst
        (λ t.
          Follows crypto (agreed_step a b g).chain_key t
          × (t.remote_ratchet_public_key ≡ to_hex a.current_ratchet_key.public_key)
          × (t.next_receive_message_number ≡ 0)
          × (t.skipped_message_keys ≡ []))
        e
        (
          record { root_length = chain_root_length a b g; receiving = refl; genuine = tt },
          ap to_hex g.b_remote,
          refl,
          refl,
        )

  -- Once the two ends agree on a secret and the initiator has set up its session, it can encrypt
  -- any texts one after the other, if each nonce has 24 bytes; the messages come out in the order
  -- of the texts.
  pub flight_leaves :
      (a b : CreateRatchetSessionInput) (s : LocalSessionState) (inputs : List RatchetEncryptInput)
      → Agreed a b
      → create_initiator_ratchet_session crypto a ≡ ok s
      → All HasNonce inputs
      → (traffic : Traffic) × (after : LocalSessionState) × (send_flight crypto s inputs
          ≡ ok (traffic, after))
        × (map (λ p. p.1) traffic ≡ map (λ i. i.plaintext) inputs)
  flight_leaves a b s inputs g made nonces =
      let sends = initiator-Sends a b s g made in
      let out =
        send_flight-Sent crypto (agreed_step a b g).chain_key a.current_ratchet_key.public_key s
          inputs sends.0 nonces in
      (out.traffic, out.after, out.returned, out.plaintexts)

  -- The traffic that a set up initiator sends, as a run of sealed messages from number 0 on.
  traffic-IsRun :
      (a b : CreateRatchetSessionInput) (s after : LocalSessionState)
      (inputs : List RatchetEncryptInput) (traffic : Traffic) (g : Agreed a b)
      → create_initiator_ratchet_session crypto a ≡ ok s
      → All HasNonce inputs
      → send_flight crypto s inputs ≡ ok (traffic, after)
      → IsRun crypto (agreed_step a b g).chain_key a.current_ratchet_key.public_key 0 traffic
        × (length traffic ≡ length inputs)
  traffic-IsRun a b s after inputs traffic g made nonces sending =
      let root = (agreed_step a b g).chain_key in
      let key = a.current_ratchet_key.public_key in
      let sends = initiator-Sends a b s g made in
      let out = send_flight-Sent crypto root key s inputs sends.0 nonces in
      let e : out.traffic ≡ traffic = cc (out.returned, sending) in
      subst (λ ps. IsRun crypto root key 0 ps × (length ps ≡ length inputs)) e
        (subst (λ n. IsRun crypto root key n out.traffic) sends.1 out.run, out.count)

  -- The two ends agree on a secret and set up their sessions. If the initiator then encrypts at most
  -- 65 texts, and its messages arrive in any order, the responder decrypts every one of them, each
  -- to the text that was encrypted in it.
  pub flight_arrives :
      (a b : CreateRatchetSessionInput) (sender after receiver : LocalSessionState)
      (inputs : List RatchetEncryptInput) (traffic arrived : Traffic) (now : ℕ)
      → Agreed a b
      → create_initiator_ratchet_session crypto a ≡ ok sender
      → create_responder_ratchet_session crypto b ≡ ok receiver
      → All HasNonce inputs
      → length inputs ≤ max_skipped_message_keys + 1
      → send_flight crypto sender inputs ≡ ok (traffic, after)
      → Permᴰ traffic arrived
      → (t : LocalSessionState) × (receive_all crypto receiver arrived now
          ≡ ok (map (λ p. p.1) arrived, t))
  flight_arrives a b sender after receiver inputs traffic arrived now g made_a made_b nonces few
        sending order =
      let root = (agreed_step a b g).chain_key in
      let key = a.current_ratchet_key.public_key in
      let run = traffic-IsRun a b sender after inputs traffic g made_a nonces sending in
      let (follows, remote, start, empty) = responder-Follows a b receiver g made_b in
      receive_all_reordered crypto 0 root key receiver arrived now (record {
        follows = follows;
        remote = remote;
        room = omega (arith, ap length empty);
        pending =
            All-perm (Pending crypto 0 root key receiver) order
              (run-Pending root key receiver 0 traffic start run.0 (omega (arith, run.1, few)));
        distinct = AreDistinct-perm order (run_distinct root key 0 traffic run.0);
      })
