-- ===== src/Relay/Federation/Types.antt =====
-- js/relay/src/federation-manager.ts and types.ts: the messages between relays and what a relay
-- keeps of the others. A socket is its number. Of an envelope there are its bytes.
use a.Base.{Map, ℕ, String, Bool, true, false, Option, List, []}
use a.Relay.Directory.{AgentCard}
use a.Relay.PreKeys.{ClaimedPreKeyBundle}
use a.Relay.Federation.Handshakes.{Handshakes, no_handshakes}

pub data FederationAdmissionState : Type 0 where
  connecting authenticated probation admitted : FederationAdmissionState

abbrev pub is_admitted : FederationAdmissionState → Bool
is_admitted admitted = true
is_admitted connecting = false
is_admitted authenticated = false
is_admitted probation = false

pub record FederatedRelay : Type 0 where
  pub did : String
  pub endpoints : List String
  pub card : Option AgentCard
  pub ws : Option ℕ
  pub inbound : Bool
  pub source_ip : Option String
  pub last_seen : ℕ
  pub connected : Bool
  pub admission_state : Option FederationAdmissionState
  pub admitted_by_peer : Bool
  pub is_connecting : Bool
  pub reconnect_attempts : ℕ
  pub reconnect_timer : Bool
  pub probation_timer : Bool
  pub agent_count : ℕ
  pub uptime : ℕ
  pub pending_peer_dids : List String
  pub admission_error : Option String
  pub last_health_response_at : Option ℕ
  pub last_probe_started_at : Option ℕ
  pub last_probe_succeeded_at : Option ℕ
  pub violation_count : ℕ

pub record FederatedAgentRoute : Type 0 where
  pub relay_did : String
  pub realm : String
  pub card : AgentCard
  pub last_seen : ℕ

-- A claim of a pre-key bundle that waits for a relay's answer.
pub record PendingPreKeyFetch : Type 0 where
  pub relay_did : String
  pub did : String
  pub device_id : String

pub record RouteRequestMessage : Type 0 where
  pub target_did : String
  pub envelope : List ℕ
  pub from_relay : String
  pub hop_count : ℕ
  pub message_id : String

pub data RouteStatus : Type 0 where
  delivered not_found hop_limit_exceeded : RouteStatus

pub record FederationWelcomeMessage : Type 0 where
  pub relay_did : String
  pub peers : List String
  pub relay_card : Option AgentCard
  pub endpoints : Option (List String)

pub record FetchPreKeyBundleMessage : Type 0 where
  pub did : String
  pub device_id : String
  pub request_id : Option String
  pub requester_realm : Option String

pub record PreKeyBundleMessage : Type 0 where
  pub did : String
  pub device_id : String
  pub bundle : Option ClaimedPreKeyBundle
  pub request_id : Option String

pub record HealthResponse : Type 0 where
  pub uptime : ℕ
  pub connected_agents : ℕ
  pub timestamp : ℕ

-- `unknown` is any message of another type.
pub data RelayMessage : Type 0 where
  federation_welcome : FederationWelcomeMessage → RelayMessage
  federation_admitted : String → ℕ → RelayMessage
  agent_joined : String → AgentCard → String → ℕ → RelayMessage
  agent_left : String → String → ℕ → RelayMessage
  route_request : RouteRequestMessage → RelayMessage
  route_response : String → RouteStatus → Option String → RelayMessage
  federation_health_check : ℕ → RelayMessage
  federation_health_response : HealthResponse → RelayMessage
  fetch_card : String → RelayMessage
  card : String → Option AgentCard → RelayMessage
  fetch_prekey_bundle : FetchPreKeyBundleMessage → RelayMessage
  prekey_bundle : PreKeyBundleMessage → RelayMessage
  deliver : String → String → List ℕ → RelayMessage
  unknown : RelayMessage

-- What goes out: a message on a socket, a socket that is closed, or a new connection to a relay at an
-- endpoint.
pub data Output : Type 0 where
  sent : ℕ → RelayMessage → Output
  closed : ℕ → Output
  connects : String → String → Output

pub record FederationManager : Type 0 where
  pub federated_relays : Map String FederatedRelay
  pub remote_agent_routes : Map String FederatedAgentRoute
  pub exported_local_agents : List String
  pub pending_health_checks : List String
  pub pending_card_fetches : Map String String
  pub pending_pre_key_fetches : Map String PendingPreKeyFetch
  pub handshakes : Handshakes

abbrev pub stopped_manager : FederationManager
stopped_manager = record {
  federated_relays = [];
  remote_agent_routes = [];
  exported_local_agents = [];
  pending_health_checks = [];
  pending_card_fetches = [];
  pending_pre_key_fetches = [];
  handshakes = no_handshakes;
}
