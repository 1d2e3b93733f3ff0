-- ===== src/Relay/Federation/Dispatch.antt =====
-- js/relay/src/federation-manager.ts: the dispatch of another relay's message, and routing.
pub mod Harmless
pub mod Gate
pub mod Hops
use a.Base.{
  if◌then◌else◌, ◌==◌, or_else, any, lookup, insert, delete, ℕ, ◌+◌, String, Bool, true, false, not,
  ◌&&◌, Option, none, some, List, [], ◌∷◌, string_eq, nat_eq, bytes_eq,
}
use a.Relay.Directory.{AgentCard, Texts}
use a.Relay.Registry.{Agents, get_online_count}
use a.Relay.Level.{Level}
use a.Relay.PreKeys.{StoredPreKeyBundleRecord, ClaimedPreKeyBundle, claim_bundle}
use a.Relay.Federation.Handshakes.{FederationConfig}
use a.Relay.Federation.Types.{
  FederatedRelay, FederatedAgentRoute, FederationManager, Output, sent, RelayMessage,
  RouteRequestMessage, FetchPreKeyBundleMessage, HealthResponse, federation_welcome,
  federation_admitted, agent_joined, agent_left, route_request, route_response,
  federation_health_check, federation_health_response, fetch_card, card, fetch_prekey_bundle,
  prekey_bundle, deliver, unknown,
}
use a.Relay.Federation.Peers.{is_data_plane_active}
use a.Relay.Federation.Exports.{
  ExportConfig, upsert_remote_agent_route, remove_remote_agent_route, active_socket,
}
use a.Relay.Federation.Admission.{with_relay}
use a.Relay.Federation.Messages.{
  AdmissionContext, RelayConfig, is_message_allowed_during_probation, handle_federation_welcome,
  handle_federation_admitted, handle_route_request, handle_federation_health_response,
  handle_federation_card, handle_federation_pre_key_bundle, given_text, first_active,
  normalize_federated_envelope,
}

-- What the handler needs of its surroundings: which sockets are open and can be written to, the
-- language's texts, the relay's identity, the registry, the time and the process's uptime.
pub record Surroundings : Type 0 where
  pub is_open : ℕ → Bool
  pub can_send : ℕ → Bool
  pub texts : Texts
  pub config : RelayConfig
  pub agents : Agents
  pub federation : FederationConfig
  -- `verifyRelayCard`
  pub is_valid_card : String → AgentCard → Bool
  pub now : ℕ
  pub process_uptime : ℕ

abbrev pub admission_context : Surroundings → AdmissionContext
admission_context s = record {
  texts = s.texts;
  federation = s.federation;
  is_open = s.is_open;
  exports = s.config.exports;
  agents = s.agents;
  is_valid_card = s.is_valid_card;
}

module _ (level : Level StoredPreKeyBundleRecord) where
  open level use {Db}

  -- The manager and the store of pre-keys, if it has one.
  pub record Relay : Type 0 where
    pub manager : FederationManager
    pub pre_key_store : Option Db

  abbrev pub claim_from_store :
      Option Db → FetchPreKeyBundleMessage → ℕ → Option Db × Option ClaimedPreKeyBundle
  claim_from_store none msg now = (none, none)
  claim_from_store (some db) msg now =
      let r =
        claim_bundle level db msg.did msg.device_id
          (or_else (given_text msg.requester_realm) "public") now in
      (some r.0, r.1)

  unfoldable pub handle_federation_fetch_pre_key_bundle :
      Relay → ℕ → FetchPreKeyBundleMessage → ℕ → Relay × List Output
  unfolding claim_bundle
  handle_federation_fetch_pre_key_bundle r ws msg now =
      let claim = claim_from_store r.pre_key_store msg now in
      (
        record r { pre_key_store = claim.0 },
        sent ws (
              prekey_bundle (record {
                did = msg.did;
                device_id = msg.device_id;
                bundle = claim.1;
                request_id = given_text msg.request_id;
              }))
            ∷ [],
      )

  abbrev pub own_card : RelayConfig → String → Option AgentCard
  own_card config did = if did == config.exports.own_did then some config.own_card else none

  abbrev pub changed : Relay → FederationManager → Relay
  changed r m = record r { manager = m }

  -- The switch on the message's type.
  unfoldable pub dispatch : Surroundings → Relay → ℕ → String → RelayMessage → Relay × List Output
  dispatch s r ws did (federation_welcome msg) =
      (changed r (handle_federation_welcome s.texts s.config r.manager did msg), [])
  dispatch s r ws did (federation_admitted by at) =
      let done =
        handle_federation_admitted s.texts s.is_open s.config s.agents r.manager did s.now in
      (changed r done.0, done.1)
  dispatch s r ws did (agent_joined agent agent_card realm at) =
      (changed r (upsert_remote_agent_route r.manager did agent agent_card realm s.now), [])
  dispatch s r ws did (agent_left agent realm at) =
      (changed r (remove_remote_agent_route r.manager agent did), [])
  dispatch s r ws did (route_request msg) =
      (r, handle_route_request s.is_open s.can_send s.config s.agents r.manager ws did msg)
  dispatch s r ws did (route_response id status target) = (r, [])
  dispatch s r ws did (federation_health_check at) = (
    r,
    sent ws (
          federation_health_response (record {
            uptime = s.process_uptime;
            connected_agents = get_online_count s.agents;
            timestamp = s.now;
          }))
        ∷ [],
  )
  dispatch s r ws did (federation_health_response msg) =
      let done = handle_federation_health_response (admission_context s) r.manager did msg s.now in
      (changed r done.0, done.1)
  dispatch s r ws did (fetch_card asked) = (r, sent ws (card asked (own_card s.config asked)) ∷ [])
  dispatch s r ws did (card asked given) =
      let done = handle_federation_card (admission_context s) r.manager did asked given s.now in
      (changed r done.0, done.1)
  dispatch s r ws did (fetch_prekey_bundle msg) =
      handle_federation_fetch_pre_key_bundle r ws msg s.now
  dispatch s r ws did (prekey_bundle msg) =
      (changed r (handle_federation_pre_key_bundle r.manager did msg), [])
  dispatch s r ws did _ = (r, [])

  -- The message of a relay that is known: an early one that is not of the admission is counted as a
  -- violation and ignored.
  abbrev pub handle_from :
      Surroundings → Relay → ℕ → String → RelayMessage → Option FederatedRelay → Relay × List Output
  handle_from s r ws did msg none = (r, [])
  handle_from s r ws did msg (some relay) =
      let seen = record relay { last_seen = s.now } in
      if not (is_data_plane_active (some relay)) && not (is_message_allowed_during_probation msg)
      then (
        changed r
            (with_relay r.manager did (record seen { violation_count = seen.violation_count + 1 })),
        [],
      )
      else dispatch s (changed r (with_relay r.manager did seen)) ws did msg

  unfoldable pub handle_federation_message :
      Surroundings → Relay → ℕ → String → RelayMessage → Relay × List Output
  unfolding lookup insert dispatch
  handle_federation_message s r ws did msg =
      handle_from s r ws did msg (lookup did r.manager.federated_relays)

-- `getConnectedRelay`, its socket.
unfoldable pub get_connected_relay : (ℕ → Bool) → FederationManager → String → Option ℕ
unfolding lookup
get_connected_relay is_open m did = elim (lookup did m.federated_relays) [
  | none ↦ none
  | some relay ↦ active_socket is_open relay
]

abbrev pub route_by_any :
    (ℕ → Bool) → FederationManager → RouteRequestMessage → FederationManager × List Output × Bool
route_by_any is_open m msg = elim (first_active is_open none m.federated_relays) [
  | none ↦ (m, [], false)
  | some ws ↦ (m, sent ws (route_request msg) ∷ [], true)
]

abbrev pub route_by_known :
    (ℕ → Bool)
    → FederationManager
    → RouteRequestMessage
    → Option FederatedAgentRoute
    → FederationManager × List Output × Bool
route_by_known is_open m msg none = route_by_any is_open m msg
route_by_known is_open m msg (some route) = elim (get_connected_relay is_open m route.relay_did) [
  | some ws ↦ (m, sent ws (route_request msg) ∷ [], true)
  | none ↦
      route_by_any is_open
        (record m { remote_agent_routes = delete msg.target_did m.remote_agent_routes }) msg
]

-- The new state, what is sent and whether it was sent on; the message's id is an argument.
unfoldable pub route_to_federation :
    (ℕ → Bool)
    → ExportConfig
    → FederationManager
    → String
    → List ℕ
    → String
    → FederationManager × List Output × Bool
unfolding lookup delete first_active get_connected_relay normalize_federated_envelope
route_to_federation is_open config m target_did envelope message_id =
    let msg : RouteRequestMessage = record {
      target_did = target_did;
      envelope = normalize_federated_envelope envelope;
      from_relay = config.own_did;
      hop_count = 0;
      message_id = message_id;
    } in
    if any (λ e. is_data_plane_active (some e.1)) m.federated_relays
    then route_by_known is_open m msg (lookup target_did m.remote_agent_routes)
    else (m, [], false)
