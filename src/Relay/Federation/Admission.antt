-- ===== src/Relay/Federation/Admission.antt =====
-- js/relay/src/federation-manager.ts: how another relay is registered, probed, admitted, refused and
-- lost. Each step ends where the code waits for a message; the checks of signatures are arguments.
use a.Base.{
  nat_beq, if◌then◌else◌, ◌==◌, or_else, is_some, filter, lookup, insert, delete, Result, ◌>>=◌,
  guard, or_throw, ok, err, ℕ, String, Bool, true, false, not, ◌&&◌, ◌||◌, Option, none, some, List,
  [], ◌∷◌, ◌++◌, string_eq, nat_eq, bytes_eq,
}
use a.Relay.Directory.{AgentCard, Texts}
use a.Relay.Registry.{RegisteredAgent, Agents}
use a.Relay.Federation.Handshakes.{
  FederationConfig, record_incoming_federation_failure,
  record_successful_incoming_federation_admission,
}
use a.Relay.Federation.Types.{
  FederationAdmissionState, connecting, connects, probation, admitted, FederatedRelay,
  FederationManager, Output, sent, closed, federation_admitted, federation_health_check, fetch_card,
}
use a.Relay.Federation.Peers.{
  is_locally_admitted, validate_relay_eligibility, is_data_plane_active, EligibilityError,
}
use a.Relay.Federation.Exports.{
  ExportConfig, remove_remote_agent_routes_for_relay, open_socket,
  advertise_current_agents_to_relay,
}

abbrev pub with_relay : FederationManager → String → FederatedRelay → FederationManager
with_relay m did relay = record m { federated_relays = insert did relay m.federated_relays }

-- `clearPendingProbe`; the waiting promises are rejected.
unfoldable pub clear_pending_probe : FederationManager → String → FederationManager
unfolding filter delete
clear_pending_probe m relay_did = record m {
  pending_health_checks = filter (λ d. not (d == relay_did)) m.pending_health_checks;
  pending_card_fetches = delete relay_did m.pending_card_fetches;
  pending_pre_key_fetches =
      filter (λ e. not (e.1.relay_did == relay_did)) m.pending_pre_key_fetches;
}

abbrev pub close_open : (ℕ → Bool) → Option ℕ → List Output
close_open is_open ws = elim (open_socket is_open ws) [ none ↦ [] | some s ↦ closed s ∷ [] ]

abbrev pub count_failure :
    Texts → FederationConfig → FederationManager → String → FederatedRelay → ℕ → FederationManager
count_failure texts config m did relay now =
    if relay.inbound
    then record m {
      handshakes =
          record_incoming_federation_failure texts config m.handshakes did relay.source_ip now;
    }
    else m

abbrev pub fail_relay :
    Texts
    → FederationConfig
    → (ℕ → Bool)
    → FederationManager
    → String
    → String
    → ℕ
    → Option FederatedRelay
    → FederationManager × List Output
fail_relay texts config is_open m did error now none = (m, [])
fail_relay texts config is_open m did error now (some relay) = (
  remove_remote_agent_routes_for_relay
      (clear_pending_probe
        (with_relay (count_failure texts config m did relay now) did (record relay {
          admission_error = some error;
          connected = false;
          admission_state = some probation;
          probation_timer = false;
        }))
        did)
      did,
  close_open is_open relay.ws,
)

unfoldable pub mark_admission_failure :
    Texts
    → FederationConfig
    → (ℕ → Bool)
    → FederationManager
    → String
    → String
    → ℕ
    → FederationManager × List Output
unfolding lookup
mark_admission_failure texts config is_open m did error now =
    fail_relay texts config is_open m did error now (lookup did m.federated_relays)

-- Where a registration comes from: for an incoming one its address.
pub record Source : Type 0 where
  pub inbound : Bool
  pub remote_ip : Option String

-- What a relay keeps from what was there before, with fresh values where nothing was.
abbrev pub blank_relay : String → ℕ → FederatedRelay
blank_relay did now = record {
  did = did;
  endpoints = [];
  card = none;
  ws = none;
  inbound = false;
  source_ip = none;
  last_seen = now;
  connected = false;
  admission_state = none;
  admitted_by_peer = false;
  is_connecting = false;
  reconnect_attempts = 0;
  reconnect_timer = false;
  probation_timer = false;
  agent_count = 0;
  uptime = 0;
  pending_peer_dids = [];
  admission_error = none;
  last_health_response_at = none;
  last_probe_started_at = none;
  last_probe_succeeded_at = none;
  violation_count = 0;
}

abbrev pub source_inbound : Option Source → FederatedRelay → Bool
source_inbound none existing = existing.inbound
source_inbound (some s) existing = s.inbound

abbrev pub source_ip_of : Option Source → FederatedRelay → Option String
source_ip_of none existing = existing.source_ip
source_ip_of (some s) existing = elim s.remote_ip [ none ↦ existing.source_ip | some ip ↦ some ip ]

abbrev pub replaced : (ℕ → Bool) → Option ℕ → ℕ → List Output
replaced is_open none ws = []
replaced is_open (some old) ws = if not (nat_beq old ws) && is_open old then closed old ∷ [] else []

unfoldable pub register_federated_relay :
    (ℕ → Bool)
    → FederationManager
    → String
    → AgentCard
    → List String
    → ℕ
    → FederationAdmissionState
    → Option Source
    → ℕ
    → FederationManager × List Output
unfolding lookup insert
register_federated_relay is_open m did relay_card endpoints ws state source now =
    let existing = or_else (lookup did m.federated_relays) (blank_relay did now) in
    (
      with_relay m did (record existing {
        did = did;
        endpoints = endpoints;
        card = some relay_card;
        ws = some ws;
        inbound = source_inbound source existing;
        source_ip = source_ip_of source existing;
        last_seen = now;
        connected = true;
        admission_state = some state;
        is_connecting = false;
        reconnect_attempts = 0;
        reconnect_timer = false;
        probation_timer = false;
        admission_error = none;
      }),
      replaced is_open existing.ws ws,
    )

-- A relay and its open socket.
abbrev pub with_socket : (ℕ → Bool) → Option FederatedRelay → Option (FederatedRelay × ℕ)
with_socket is_open none = none
with_socket is_open (some relay) = elim (open_socket is_open relay.ws) [
  | none ↦ none
  | some ws ↦ some (relay, ws)
]

abbrev pub begin_with :
    FederationManager → String → ℕ → Option (FederatedRelay × ℕ) → FederationManager × List Output
begin_with m did now none = (m, [])
begin_with m did now (some (relay, ws)) =
    let cleared =
      clear_pending_probe
        (with_relay m did (record relay {
          admission_state = some probation;
          admission_error = none;
          last_probe_started_at = some now;
          probation_timer = true;
        }))
        did in
    (
      record cleared { pending_health_checks = did ∷ cleared.pending_health_checks },
      sent ws (federation_health_check now) ∷ [],
    )

-- `beginAdmission` with `runHealthProbe`, up to the wait for the peer's health response.
unfoldable pub begin_admission :
    (ℕ → Bool) → FederationManager → String → ℕ → FederationManager × List Output
unfolding lookup clear_pending_probe insert
begin_admission is_open m did now =
    begin_with m did now (with_socket is_open (lookup did m.federated_relays))

abbrev pub probe_with :
    FederationManager
    → String
    → Option (FederatedRelay × ℕ)
    → Result String (FederationManager × List Output)
probe_with m did none = err "Relay connection unavailable for card probe"
probe_with m did (some (relay, ws)) = ok (
  record m { pending_card_fetches = insert did did m.pending_card_fetches },
  sent ws (fetch_card did) ∷ [],
)

-- `runCardProbe` of the relay's own card, up to the wait for the card.
unfoldable pub run_card_probe :
    (ℕ → Bool) → FederationManager → String → Result String (FederationManager × List Output)
unfolding lookup insert
run_card_probe is_open m did =
    probe_with m did (with_socket is_open (lookup did m.federated_relays))

abbrev pub error_text : EligibilityError → String
error_text EligibilityError.did_mismatch = "Relay DID mismatch"
error_text EligibilityError.missing_capabilities = "Relay missing required capabilities"
error_text EligibilityError.no_web_socket_endpoint =
    "Relay must advertise at least one WebSocket endpoint"

abbrev pub eligible_card :
    AgentCard → Result EligibilityError (List String) → Result String (AgentCard × List String)
eligible_card relay_card (ok endpoints) = ok (relay_card, endpoints)
eligible_card relay_card (err e) = err (error_text e)

-- The checks of `runAdmissionProbe` on the card message; `is_valid` says that its signature holds.
unfoldable pub check_probed_card :
    Texts → String → String → Option AgentCard → Bool → Result String (AgentCard × List String)
unfolding validate_relay_eligibility
check_probed_card texts did answered given is_valid = do
  relay_card ← or_throw given "Relay admission probe returned no relay card"
  _ ←
      guard (answered == did && relay_card.did == did)
        "Relay admission probe returned mismatched relay card"
  _ ← guard is_valid "Relay admission probe returned invalid relay card"
  eligible_card relay_card (validate_relay_eligibility texts did relay_card [])

abbrev pub is_open_relay : (ℕ → Bool) → Option FederatedRelay → Bool
is_open_relay is_open none = false
is_open_relay is_open (some relay) = is_some (open_socket is_open relay.ws)

abbrev pub is_connecting_to : Option FederatedRelay → Bool
is_connecting_to none = false
is_connecting_to (some relay) = relay.is_connecting

-- An eligible relay has an endpoint.
abbrev pub connect_eligible :
    (ℕ → Bool)
    → FederationManager
    → String
    → AgentCard
    → ℕ
    → Option FederatedRelay
    → Result EligibilityError (List String)
    → FederationManager × List Output
connect_eligible is_open m did relay_card now existing (err e) = (m, [])
connect_eligible is_open m did relay_card now existing (ok []) = (m, [])
connect_eligible is_open m did relay_card now existing (ok (endpoint ∷ endpoints)) =
    if is_locally_admitted existing && is_open_relay is_open existing
    then (m, [])
    else if is_connecting_to existing
    then (m, [])
    else (
      with_relay m did (record (or_else existing (blank_relay did now)) {
        did = did;
        endpoints = endpoint ∷ endpoints;
        card = some relay_card;
        inbound = false;
        source_ip = none;
        connected = false;
        admission_state = some connecting;
        admitted_by_peer = false;
        is_connecting = true;
        probation_timer = false;
        admission_error = none;
        last_health_response_at = none;
        last_probe_started_at = none;
        last_probe_succeeded_at = none;
      }),
      connects did endpoint ∷ [],
    )

-- `connectToRelay`, up to the wait for the connection.
unfoldable pub connect_to_relay :
    Texts
    → (ℕ → Bool)
    → ExportConfig
    → FederationManager
    → String
    → AgentCard
    → ℕ
    → FederationManager × List Output
unfolding lookup insert is_locally_admitted validate_relay_eligibility
connect_to_relay texts is_open config m did relay_card now =
    if did == config.own_did
    then (m, [])
    else connect_eligible is_open m did relay_card now (lookup did m.federated_relays)
        (validate_relay_eligibility texts did relay_card [])

abbrev pub connect_agent :
    Texts
    → (ℕ → Bool)
    → ExportConfig
    → FederationManager
    → String
    → ℕ
    → Option RegisteredAgent
    → FederationManager × List Output
connect_agent texts is_open config m did now none = (m, [])
connect_agent texts is_open config m did now (some agent) =
    connect_to_relay texts is_open config m did agent.card now

-- The loop of `connectPendingPeers`; the code waits for each connection before the next.
unfoldable pub connect_peers :
    Texts
    → (ℕ → Bool)
    → ExportConfig
    → Agents
    → FederationManager
    → List String
    → ℕ
    → FederationManager × List Output
unfolding lookup connect_to_relay
connect_peers texts is_open config agents m [] now = (m, [])
connect_peers texts is_open config agents m (peer ∷ peers) now =
    let first =
      if peer == config.own_did || is_some (lookup peer m.federated_relays)
      then (m, [])
      else connect_agent texts is_open config m peer now (lookup peer agents) in
    let rest = connect_peers texts is_open config agents first.0 peers now in
    (rest.0, first.1 ++ rest.1)

abbrev pub activate_with :
    Texts
    → (ℕ → Bool)
    → ExportConfig
    → Agents
    → FederationManager
    → ℕ
    → Option (FederatedRelay × ℕ)
    → String
    → FederationManager × List Output
activate_with texts is_open config agents m now none did = (m, [])
activate_with texts is_open config agents m now (some (relay, ws)) did =
    if is_data_plane_active (some relay)
    then (let advertised = advertise_current_agents_to_relay config agents m ws now in
        let connected =
          connect_peers texts is_open config agents
            (with_relay advertised.0 did (record relay { pending_peer_dids = [] }))
            relay.pending_peer_dids now in
        (connected.0, advertised.1 ++ connected.1))
    else (m, [])

unfoldable pub maybe_activate_relay :
    Texts
    → (ℕ → Bool)
    → ExportConfig
    → Agents
    → FederationManager
    → String
    → ℕ
    → FederationManager × List Output
unfolding lookup insert advertise_current_agents_to_relay is_data_plane_active connect_peers
maybe_activate_relay texts is_open config agents m did now =
    activate_with texts is_open config agents m now
      (with_socket is_open (lookup did m.federated_relays)) did

abbrev pub count_success : Texts → FederationManager → String → FederatedRelay → FederationManager
count_success texts m did relay =
    if relay.inbound
    then record m {
      handshakes =
          record_successful_incoming_federation_admission texts m.handshakes did relay.source_ip;
    }
    else m

abbrev pub admit :
    Texts
    → FederationManager
    → String
    → AgentCard × List String
    → ℕ
    → Option FederatedRelay
    → FederationManager
admit texts m did probed now none = m
admit texts m did probed now (some relay) =
    with_relay (count_success texts m did relay) did (record relay {
      card = some probed.0;
      endpoints = probed.1;
      admission_state = some admitted;
      last_probe_succeeded_at = some now;
      admission_error = none;
      probation_timer = false;
    })

abbrev pub send_admitted : ExportConfig → ℕ → Option (FederatedRelay × ℕ) → List Output
send_admitted config now none = []
send_admitted config now (some (relay, ws)) = sent ws (federation_admitted config.own_did now) ∷ []

-- The rest of `beginAdmission`, after the probe: its error, or the card and the endpoints.
unfoldable pub finish_admission :
    Texts
    → FederationConfig
    → (ℕ → Bool)
    → ExportConfig
    → Agents
    → FederationManager
    → String
    → Result String (AgentCard × List String)
    → ℕ
    → FederationManager × List Output
unfolding mark_admission_failure maybe_activate_relay lookup insert
finish_admission texts config is_open exports agents m did (err e) now =
    mark_admission_failure texts config is_open m did e now
finish_admission texts config is_open exports agents m did (ok probed) now =
    let m' = admit texts m did probed now (lookup did m.federated_relays) in
    let active = maybe_activate_relay texts is_open exports agents m' did now in
    (
      active.0,
      send_admitted exports now (with_socket is_open (lookup did m'.federated_relays)) ++ active.1,
    )
