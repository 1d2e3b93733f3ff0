-- ===== src/Relay/Federation/Messages.antt =====
-- js/relay/src/federation-manager.ts: what a relay does with another relay's message, and how a
-- message is routed over the federation. A socket that cannot be written to is told by `can_send`.
use a.Base.{
  leb, if◌then◌else◌, ◌==◌, join, filter, any, Map, lookup, insert, delete, Result, ok, err, ℕ, ◌+◌,
  ◌%◌, String, Bool, true, false, not, ◌&&◌, Option, none, some, List, [], ◌∷◌, map, nat_eq,
  string_eq, bytes_eq,
}
use a.Relay.Directory.{AgentCard, Texts}
use a.Relay.Registry.{RegisteredAgent, Agents}
use a.Relay.Federation.Types.{
  FederationAdmissionState, authenticated, is_admitted, FederatedRelay, FederationManager,
  PendingPreKeyFetch, Output, sent, RelayMessage, RouteRequestMessage, delivered, not_found,
  hop_limit_exceeded, FederationWelcomeMessage, PreKeyBundleMessage, HealthResponse,
  federation_welcome, federation_admitted, route_request, route_response, federation_health_check,
  federation_health_response, fetch_card, card, deliver,
}
use a.Relay.Federation.Peers.{normalize_relay_endpoints}
use a.Relay.Federation.Exports.{ExportConfig, should_export_agent, active_socket}
use a.Relay.Federation.Handshakes.{FederationConfig}
use a.Relay.Federation.Admission.{
  with_relay, maybe_activate_relay, finish_admission, run_card_probe, check_probed_card,
}

abbrev pub is_message_allowed_during_probation : RelayMessage → Bool
is_message_allowed_during_probation (federation_welcome _) = true
is_message_allowed_during_probation (federation_admitted _ _) = true
is_message_allowed_during_probation (federation_health_check _) = true
is_message_allowed_during_probation (federation_health_response _) = true
is_message_allowed_during_probation (fetch_card _) = true
is_message_allowed_during_probation (card _ _) = true
is_message_allowed_during_probation _ = false

-- Bytes, from bytes or from numbers.
unfoldable pub normalize_federated_envelope : List ℕ → List ℕ
normalize_federated_envelope envelope = map (λ b. b % 256) envelope

-- The relay's own identity and limits.
pub record RelayConfig : Type 0 where
  pub exports : ExportConfig
  pub own_card : AgentCard
  pub max_hops : ℕ

abbrev pub change_found :
    (FederatedRelay → FederatedRelay)
    → FederationManager
    → String
    → Option FederatedRelay
    → FederationManager
change_found f m did none = m
change_found f m did (some relay) = with_relay m did (f relay)

abbrev pub change_relay :
    (FederatedRelay → FederatedRelay) → FederationManager → String → FederationManager
change_relay f m did = change_found f m did (lookup did m.federated_relays)

abbrev pub welcomed_state : Option FederationAdmissionState → FederationAdmissionState
welcomed_state none = authenticated
welcomed_state (some s) = if is_admitted s then s else authenticated

abbrev pub welcomed_endpoints : Texts → Option (List String) → List String → List String
welcomed_endpoints texts none old = old
welcomed_endpoints texts (some []) old = old
welcomed_endpoints texts (some (e ∷ es)) old = normalize_relay_endpoints texts (e ∷ es)

unfoldable pub handle_federation_welcome :
    Texts → RelayConfig → FederationManager → String → FederationWelcomeMessage → FederationManager
unfolding lookup insert normalize_relay_endpoints filter
handle_federation_welcome texts config m did msg =
    change_relay
      (λ relay. record relay {
        connected = true;
        admission_state = some (welcomed_state relay.admission_state);
        card = elim msg.relay_card [ none ↦ relay.card | some c ↦ some c ];
        endpoints = welcomed_endpoints texts msg.endpoints relay.endpoints;
        pending_peer_dids = filter (λ d. not (d == config.exports.own_did)) msg.peers;
      })
      m did

abbrev pub admitted_from :
    Texts
    → (ℕ → Bool)
    → RelayConfig
    → Agents
    → FederationManager
    → String
    → ℕ
    → Option FederatedRelay
    → FederationManager × List Output
admitted_from texts is_open config agents m did now none = (m, [])
admitted_from texts is_open config agents m did now (some relay) =
    maybe_activate_relay texts is_open config.exports agents
      (with_relay m did (record relay { admitted_by_peer = true })) did now

unfoldable pub handle_federation_admitted :
    Texts
    → (ℕ → Bool)
    → RelayConfig
    → Agents
    → FederationManager
    → String
    → ℕ
    → FederationManager × List Output
unfolding lookup insert maybe_activate_relay
handle_federation_admitted texts is_open config agents m did now =
    admitted_from texts is_open config agents m did now (lookup did m.federated_relays)

-- The first open socket of a relay, other than the one named, with which data is exchanged.
unfoldable pub first_active : (ℕ → Bool) → Option String → Map String FederatedRelay → Option ℕ
first_active is_open excluded [] = none
first_active is_open excluded ((did, relay) ∷ relays) =
    let rest = first_active is_open excluded relays in
    if is_excluded excluded did then rest else first_of (active_socket is_open relay) rest
  where
    is_excluded : Option String → String → Bool
    is_excluded none did = false
    is_excluded (some other) did = did == other

    first_of : Option ℕ → Option ℕ → Option ℕ
    first_of none o = o
    first_of (some ws) o = some ws

abbrev pub forward_or_refuse : RelayConfig → ℕ → RouteRequestMessage → Option ℕ → List Output
forward_or_refuse config ws msg none = sent ws (route_response msg.message_id not_found none) ∷ []
forward_or_refuse config ws msg (some next) =
    sent next (
      route_request
        (record msg { hop_count = msg.hop_count + 1; from_relay = config.exports.own_did }))
    ∷ []

abbrev pub deliver_locally :
    (ℕ → Bool) → RelayConfig → ℕ → String → RouteRequestMessage → RegisteredAgent → List Output
deliver_locally can_send config ws from_relay msg agent =
    if not (should_export_agent config.exports agent.card agent.realm)
    then sent ws (route_response msg.message_id not_found none) ∷ []
    else if can_send agent.ws
    then sent agent.ws (
        deliver msg.message_id (join ("relay:" ∷ from_relay ∷ []))
          (normalize_federated_envelope msg.envelope))
      ∷ sent ws (route_response msg.message_id delivered (some config.exports.own_did))
      ∷ []
    else sent ws (route_response msg.message_id not_found none) ∷ []

abbrev pub online_agent : Option RegisteredAgent → Option RegisteredAgent
online_agent none = none
online_agent (some agent) = if agent.online then some agent else none

unfoldable pub handle_route_request :
    (ℕ → Bool)
    → (ℕ → Bool)
    → RelayConfig
    → Agents
    → FederationManager
    → ℕ
    → String
    → RouteRequestMessage
    → List Output
unfolding lookup first_active should_export_agent normalize_federated_envelope
handle_route_request is_open can_send config agents m ws from_relay msg =
    if leb config.max_hops msg.hop_count
    then sent ws (route_response msg.message_id hop_limit_exceeded none) ∷ []
    else elim (online_agent (lookup msg.target_did agents)) [
      | some agent ↦ deliver_locally can_send config ws from_relay msg agent
      | none ↦
          forward_or_refuse config ws msg
            (first_active is_open (some from_relay) m.federated_relays)
    ]

-- The parts of the relay that an admission goes on with.
pub record AdmissionContext : Type 0 where
  pub texts : Texts
  pub federation : FederationConfig
  pub is_open : ℕ → Bool
  pub exports : ExportConfig
  pub agents : Agents
  -- `verifyRelayCard`
  pub is_valid_card : String → AgentCard → Bool

abbrev pub finish_with :
    AdmissionContext
    → FederationManager
    → String
    → ℕ
    → Result String (AgentCard × List String)
    → FederationManager × List Output
finish_with c m did now probed =
    finish_admission c.texts c.federation c.is_open c.exports c.agents m did probed now

-- `runAdmissionProbe` after the health probe: the probe of the card, or the failure.
abbrev pub after_health :
    AdmissionContext
    → FederationManager
    → String
    → ℕ
    → Result String (FederationManager × List Output)
    → FederationManager × List Output
after_health c m did now (ok probing) = probing
after_health c m did now (err e) = finish_with c m did now (err e)

-- With the rest of `beginAdmission` that waited for the response, as far as its next wait.
unfoldable pub handle_federation_health_response :
    AdmissionContext
    → FederationManager
    → String
    → HealthResponse
    → ℕ
    → FederationManager × List Output
unfolding lookup insert filter finish_admission run_card_probe
handle_federation_health_response c m did msg now =
    let changed =
      change_relay
        (λ relay. record relay {
          uptime = msg.uptime;
          agent_count = msg.connected_agents;
          last_seen = now;
          last_health_response_at = some now;
        })
        m did in
    let answered = record changed {
      pending_health_checks = filter (λ d. not (d == did)) changed.pending_health_checks;
    } in
    if any (λ d. d == did) m.pending_health_checks
    then after_health c answered did now (run_card_probe c.is_open answered did)
    else (changed, [])

abbrev pub is_pending_card : Option String → String → Bool
is_pending_card none did = false
is_pending_card (some pending) did = pending == did

abbrev pub is_valid_given : AdmissionContext → String → Option AgentCard → Bool
is_valid_given c did none = false
is_valid_given c did (some given) = c.is_valid_card did given

-- With the rest of `beginAdmission` that waited for the card.
unfoldable pub handle_federation_card :
    AdmissionContext
    → FederationManager
    → String
    → String
    → Option AgentCard
    → ℕ
    → FederationManager × List Output
unfolding lookup delete finish_admission check_probed_card
handle_federation_card c m relay_did did given now =
    let answered = record m { pending_card_fetches = delete relay_did m.pending_card_fetches } in
    if is_pending_card (lookup relay_did m.pending_card_fetches) did
    then finish_with c answered relay_did now
        (check_probed_card c.texts relay_did did given (is_valid_given c relay_did given))
    else (m, [])

abbrev pub is_fetch_of : String → Option PendingPreKeyFetch → Bool
is_fetch_of relay_did none = false
is_fetch_of relay_did (some pending) = pending.relay_did == relay_did

-- Without the first fetch that the answer fits.
unfoldable pub drop_first_fetch :
    (PendingPreKeyFetch → Bool) → Map String PendingPreKeyFetch → Map String PendingPreKeyFetch
drop_first_fetch fits [] = []
drop_first_fetch fits (e ∷ es) =
    let rest = drop_first_fetch fits es in if fits e.1 then es else e ∷ rest

abbrev pub given_text : Option String → Option String
given_text none = none
given_text (some s) = if s == "" then none else some s

unfoldable pub handle_federation_pre_key_bundle :
    FederationManager → String → PreKeyBundleMessage → FederationManager
unfolding lookup delete drop_first_fetch
handle_federation_pre_key_bundle m relay_did msg = elim (given_text msg.request_id) [
  | some request_id ↦
      if is_fetch_of relay_did (lookup request_id m.pending_pre_key_fetches)
      then record m { pending_pre_key_fetches = delete request_id m.pending_pre_key_fetches }
      else m
  | none ↦ record m {
    pending_pre_key_fetches =
        drop_first_fetch
          (λ p. p.relay_did == relay_did && p.did == msg.did && p.device_id == msg.device_id)
          m.pending_pre_key_fetches;
  }
]
