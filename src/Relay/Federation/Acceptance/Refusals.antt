-- ===== src/Relay/Federation/Acceptance/Refusals.antt =====
-- What becomes of another relay's hello in federation-manager.ts.
use a.Base.{
  ◌==◌, string_eq, all, Map, lookup, lookup-insert, lookup-insert_same, Result, guard, >>=-eq-ok,
  guard-eq-ok, ok, err, ℕ, String, ◌≡◌, refl, ◌∙◌, Bool, true, false, Option, some, List, [], arith,
  nat_eq, bytes_eq,
}
use a.Relay.Directory.{AgentCard, Texts}
use a.Relay.Federation.Handshakes.{
  FederationConfig, guard_incoming_federation_handshake, GuardResult, passed, quarantined,
  rate_limited,
}
use a.Relay.Federation.Types.{FederatedRelay, FederationManager, Output}
use a.Relay.Federation.Peers.{
  is_data_plane_active, validate_relay_eligibility, EligibilityError, has_capability, did_mismatch,
  missing_capabilities, required_relay_capabilities,
}
use a.Relay.Federation.Admission.{register_federated_relay}
use a.Relay.Federation.Messages.{RelayConfig}
use a.Relay.Federation.Acceptance.{
  FederationHelloMessage, Verification, throws, invalid_card, invalid_hello, verified, Acceptance,
  accepted, refused_by_guard, refused_with, accept_incoming_relay, register_hello, check_hello,
  after_guard, with_handshakes,
}

-- Of an accepted hello the signatures held and the card is of its DID and has what a relay needs;
-- the relay is known with that card, connected but not yet admitted, and the others are as before. After a refusal all relays
-- are as before and nothing goes out.
abbrev pub IsRightly :
    Map String FederatedRelay
    → FederationHelloMessage
    → Verification
    → FederationManager × List Output × Acceptance
    → Type 0
IsRightly relays msg checks (m', outs, accepted) =
    (checks ≡ verified)
    × (msg.relay_card.did ≡ msg.relay_did)
    × (all (has_capability msg.relay_card) required_relay_capabilities ≡ true)
    × ((relay : FederatedRelay) × (lookup msg.relay_did m'.federated_relays ≡ some relay)
        × (relay.card ≡ some msg.relay_card)
        × (relay.connected ≡ true)
        × (is_data_plane_active (some relay) ≡ false))
    × ((did : String)
        → (msg.relay_did == did) ≡ false
        → lookup did m'.federated_relays ≡ lookup did relays)
IsRightly relays msg checks (m', outs, refused_by_guard _) =
    (m'.federated_relays ≡ relays) × (outs ≡ [])
IsRightly relays msg checks (m', outs, refused_with _) =
    (m'.federated_relays ≡ relays) × (outs ≡ [])

eligible_lem :
    (texts : Texts) (did : String) (card : AgentCard) (announced endpoints : List String)
    → validate_relay_eligibility texts did card announced ≡ ok endpoints
    → (card.did ≡ did) × (all (has_capability card) required_relay_capabilities ≡ true)
unfolding validate_relay_eligibility
eligible_lem texts did card announced endpoints h =
    let first = >>=-eq-ok (guard (card.did == did) did_mismatch) _ h in
    let second =
      >>=-eq-ok (guard (all (has_capability card) required_relay_capabilities) missing_capabilities)
        _ first.2 in
    (
      (string_eq.beq_iff card.did did).0
          (guard-eq-ok (card.did == did) did_mismatch first.0 first.1),
      guard-eq-ok (all (has_capability card) required_relay_capabilities) missing_capabilities
          second.0 second.1,
    )

module _ (texts : Texts) (config : FederationConfig) (own : RelayConfig) (is_open : ℕ → Bool) where
  register_hello-IsRightly :
      (m : FederationManager) (ws : ℕ) (msg : FederationHelloMessage) (ip : Option String) (now : ℕ)
      (r : Result EligibilityError (List String))
      → validate_relay_eligibility texts msg.relay_did msg.relay_card msg.endpoints ≡ r
      → IsRightly m.federated_relays msg verified
          (register_hello texts config own is_open m ws msg ip now r)
  unfolding register_federated_relay is_data_plane_active
  register_hello-IsRightly m ws msg ip now (err e) h = (refl, refl)
  register_hello-IsRightly m ws msg ip now (ok endpoints) h =
      let e = eligible_lem texts msg.relay_did msg.relay_card msg.endpoints endpoints h in
      (
        refl,
        e.0,
        e.1,
        (_, lookup-insert_same msg.relay_did _ m.federated_relays, refl, refl, refl),
        λ did other. lookup-insert msg.relay_did did _ m.federated_relays ∙ ground (arith, other),
      )

  check_hello-IsRightly :
      (m : FederationManager) (ws : ℕ) (msg : FederationHelloMessage) (ip : Option String) (now : ℕ)
      (checks : Verification)
      → IsRightly m.federated_relays msg checks
          (check_hello texts config own is_open m ws msg ip now checks)
  check_hello-IsRightly m ws msg ip now throws = (refl, refl)
  check_hello-IsRightly m ws msg ip now invalid_card = (refl, refl)
  check_hello-IsRightly m ws msg ip now invalid_hello = (refl, refl)
  check_hello-IsRightly m ws msg ip now verified =
      register_hello-IsRightly m ws msg ip now
        (validate_relay_eligibility texts msg.relay_did msg.relay_card msg.endpoints) refl

  after_guard-IsRightly :
      (m : FederationManager) (ws : ℕ) (msg : FederationHelloMessage) (ip : Option String) (now : ℕ)
      (checks : Verification) (g : GuardResult)
      → IsRightly m.federated_relays msg checks
          (after_guard texts config own is_open m ws msg ip now checks g)
  after_guard-IsRightly m ws msg ip now checks passed = check_hello-IsRightly m ws msg ip now checks
  after_guard-IsRightly m ws msg ip now checks quarantined = (refl, refl)
  after_guard-IsRightly m ws msg ip now checks rate_limited = (refl, refl)

  -- A hello is accepted only if the signatures held and the card is of its DID and has the
  -- capabilities of a relay; then the relay is known with that card, connected but not yet active, and
  -- the others are as before.
  -- On every refusal, by the limits, the signatures, the card or an exception, all relays are as
  -- before and nothing is sent.
  pub accept_incoming_relay-IsRightly :
      (m : FederationManager) (ws : ℕ) (msg : FederationHelloMessage) (ip : Option String)
      (checks : Verification) (now : ℕ)
      → IsRightly m.federated_relays msg checks
          (accept_incoming_relay texts config own is_open m ws msg ip checks now)
  unfolding accept_incoming_relay
  accept_incoming_relay-IsRightly m ws msg ip checks now =
      let g = guard_incoming_federation_handshake texts config m.handshakes ip msg.relay_did now in
      after_guard-IsRightly (with_handshakes m g.0) ws msg ip now checks g.1
