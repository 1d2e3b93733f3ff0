-- ===== src/Relay/Federation/Acceptance.antt =====
-- js/relay/src/federation-manager.ts: the first message of a connection between relays, on the side
-- that is called and on the side that calls. The checks of signatures are arguments.
pub mod Refusals
use a.Base.{
  if◌then◌else◌, ◌==◌, filter, delete, Result, ok, err, ℕ, String, Bool, true, false, not, Option,
  none, some, List, [], ◌∷◌, ◌++◌, map, nat_eq, string_eq, bytes_eq,
}
use a.Relay.Directory.{AgentCard, Texts}
use a.Relay.Federation.Handshakes.{
  FederationConfig, GuardResult, passed, quarantined, rate_limited, Handshakes,
  guard_incoming_federation_handshake, record_incoming_federation_failure,
}
use a.Relay.Federation.Types.{
  FederationAdmissionState, authenticated, FederatedRelay, FederationManager, Output, sent, closed,
  RelayMessage, federation_welcome, FederationWelcomeMessage,
}
use a.Relay.Federation.Peers.{validate_relay_eligibility, EligibilityError}
use a.Relay.Federation.Admission.{register_federated_relay, Source, error_text}
use a.Relay.Federation.Messages.{RelayConfig, handle_federation_welcome}

pub record FederationHelloMessage : Type 0 where
  pub relay_did : String
  pub relay_card : AgentCard
  pub endpoints : List String

-- What the checks of the card's and the hello's signatures come to; `throws` is an exception, as for
-- a DID without a key.
pub data Verification : Type 0 where
  throws invalid_card invalid_hello verified : Verification

pub data Acceptance : Type 0 where
  accepted : Acceptance
  refused_by_guard : GuardResult → Acceptance
  refused_with : String → Acceptance

abbrev pub with_handshakes : FederationManager → Handshakes → FederationManager
with_handshakes m h = record m { handshakes = h }

module _ (texts : Texts) (config : FederationConfig) (own : RelayConfig) (is_open : ℕ → Bool) where
  abbrev pub failed_hello :
      FederationManager → FederationHelloMessage → Option String → ℕ → FederationManager
  failed_hello m msg ip now =
      with_handshakes m
        (record_incoming_federation_failure texts config m.handshakes msg.relay_did ip now)

  -- The welcome names the other relays known.
  abbrev pub welcome_to : FederationManager → String → RelayMessage
  welcome_to m did = federation_welcome (record {
    relay_did = own.exports.own_did;
    peers = filter (λ d. not (d == did)) (map (λ e. e.0) m.federated_relays);
    relay_card = some own.own_card;
    endpoints = some own.own_card.endpoints;
  })

  abbrev pub register_hello :
      FederationManager
      → ℕ
      → FederationHelloMessage
      → Option String
      → ℕ
      → Result EligibilityError (List String)
      → FederationManager × List Output × Acceptance
  register_hello m ws msg ip now (err e) =
      (failed_hello m msg ip now, [], refused_with (error_text e))
  register_hello m ws msg ip now (ok endpoints) =
      let r =
        register_federated_relay is_open m msg.relay_did msg.relay_card endpoints ws authenticated
          (some (record { inbound = true; remote_ip = ip })) now in
      (r.0, r.1 ++ (sent ws (welcome_to r.0 msg.relay_did) ∷ []), accepted)

  abbrev pub check_hello :
      FederationManager
      → ℕ
      → FederationHelloMessage
      → Option String
      → ℕ
      → Verification
      → FederationManager × List Output × Acceptance
  check_hello m ws msg ip now throws = (m, [], refused_with "error")
  check_hello m ws msg ip now invalid_card =
      (failed_hello m msg ip now, [], refused_with "Invalid federation relay card signature")
  check_hello m ws msg ip now invalid_hello =
      (failed_hello m msg ip now, [], refused_with "Invalid federation hello signature")
  check_hello m ws msg ip now verified =
      register_hello m ws msg ip now
        (validate_relay_eligibility texts msg.relay_did msg.relay_card msg.endpoints)

  abbrev pub after_guard :
      FederationManager
      → ℕ
      → FederationHelloMessage
      → Option String
      → ℕ
      → Verification
      → GuardResult
      → FederationManager × List Output × Acceptance
  after_guard m ws msg ip now checks passed = check_hello m ws msg ip now checks
  after_guard m ws msg ip now checks quarantined = (m, [], refused_by_guard quarantined)
  after_guard m ws msg ip now checks rate_limited = (m, [], refused_by_guard rate_limited)

  -- `acceptIncomingRelay`, up to the admission that it starts.
  unfoldable pub accept_incoming_relay :
      FederationManager
      → ℕ
      → FederationHelloMessage
      → Option String
      → Verification
      → ℕ
      → FederationManager × List Output × Acceptance
  unfolding guard_incoming_federation_handshake record_incoming_federation_failure
      validate_relay_eligibility register_federated_relay filter
  accept_incoming_relay m ws msg ip checks now =
      let g = guard_incoming_federation_handshake texts config m.handshakes ip msg.relay_did now in
      after_guard (with_handshakes m g.0) ws msg ip now checks g.1

  abbrev pub forget : FederationManager → String → FederationManager
  forget m did = record m { federated_relays = delete did m.federated_relays }

  abbrev pub register_welcome :
      FederationManager
      → ℕ
      → FederationWelcomeMessage
      → AgentCard
      → ℕ
      → Result EligibilityError (List String)
      → FederationManager × List Output × Bool
  register_welcome m ws msg relay_card now (err e) = (forget m msg.relay_did, closed ws ∷ [], false)
  register_welcome m ws msg relay_card now (ok endpoints) =
      let r =
        register_federated_relay is_open m msg.relay_did relay_card endpoints ws authenticated none
          now in
      (handle_federation_welcome texts own r.0 msg.relay_did msg, r.1, true)

  abbrev pub is_other : Option String → String → Bool
  is_other none did = false
  is_other (some expected) did = not (expected == did)

  abbrev pub announced : FederationWelcomeMessage → AgentCard → List String
  announced msg relay_card = elim msg.endpoints [
    | none ↦ relay_card.endpoints
    | some [] ↦ relay_card.endpoints
    | some (e ∷ es) ↦ e ∷ es
  ]

  abbrev pub welcome_with_card :
      FederationManager
      → ℕ
      → FederationWelcomeMessage
      → Option String
      → Option AgentCard
      → Bool
      → ℕ
      → FederationManager × List Output × Bool
  welcome_with_card m ws msg expected none valid now = (m, closed ws ∷ [], false)
  welcome_with_card m ws msg expected (some relay_card) valid now =
      if is_other expected msg.relay_did
      then (m, closed ws ∷ [], false)
      else if not valid
      then (forget m msg.relay_did, closed ws ∷ [], false)
      else register_welcome m ws msg relay_card now
          (validate_relay_eligibility texts msg.relay_did relay_card (announced msg relay_card))

  -- The welcome on a connection that this relay opened, with the DID and the card that it expects;
  -- whether the admission goes on.
  unfoldable pub open_with_welcome :
      FederationManager
      → ℕ
      → FederationWelcomeMessage
      → Option String
      → Option AgentCard
      → Bool
      → ℕ
      → FederationManager × List Output × Bool
  unfolding validate_relay_eligibility register_federated_relay handle_federation_welcome delete
  open_with_welcome m ws msg expected expected_card valid now =
      if msg.relay_did == own.exports.own_did
      then (m, closed ws ∷ [], false)
      else welcome_with_card m ws msg expected
          (elim msg.relay_card [ none ↦ expected_card | some c ↦ some c ]) valid now
