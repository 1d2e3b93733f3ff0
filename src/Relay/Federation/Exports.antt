-- ===== src/Relay/Federation/Exports.antt =====
-- js/relay/src/federation-manager.ts: which agents other relays learn of, and the routes to theirs.
use a.Base.{
  if◌then◌else◌, ◌==◌, or_else, filter, any, Map, lookup, insert, delete, values, ℕ, String, Bool,
  true, false, not, ◌&&◌, ◌||◌, Option, none, some, List, [], ◌∷◌, ◌++◌, map, nat_eq, bytes_eq,
  string_eq,
}
use a.Relay.Directory.{AgentCard, DirectoryAgentEntry}
use a.Relay.Registry.{RegisteredAgent, Agents}
use a.Relay.Federation.Types.{
  FederatedRelay, FederatedAgentRoute, FederationManager, RelayMessage, agent_joined, agent_left,
  Output, sent,
}
use a.Relay.Federation.Peers.{is_data_plane_active}

pub data FederationExportPolicy : Type 0 where
  none_exported selective full : FederationExportPolicy

pub record FederationRealmPolicyConfig : Type 0 where
  pub export_policy : Option FederationExportPolicy
  pub selective_visibility_value : Option String

pub record RealmPolicy : Type 0 where
  pub export_policy : FederationExportPolicy
  pub selective_visibility_value : String

-- The relay's own DID and its policy on exports.
pub record ExportConfig : Type 0 where
  pub own_did : String
  pub export_policy : FederationExportPolicy
  pub selective_visibility_value : String
  pub realm_policies : Map String FederationRealmPolicyConfig

abbrev pub first_given : Option String → Option String → Option String
first_given none o = o
first_given (some v) o = some v

unfoldable pub get_selective_visibility : AgentCard → String → Option String
get_selective_visibility card value = first_given card.metadata.visibility (
    first_given card.metadata.federation_visibility (
      if value == "public" && (card.metadata.is_public || card.metadata.is_federated)
      then some "public"
      else none))

abbrev pub realm_policy_of : ExportConfig → Option FederationRealmPolicyConfig → RealmPolicy
realm_policy_of config none = record {
  export_policy = config.export_policy;
  selective_visibility_value = config.selective_visibility_value;
}
realm_policy_of config (some p) = record {
  export_policy = or_else p.export_policy config.export_policy;
  selective_visibility_value =
      or_else p.selective_visibility_value config.selective_visibility_value;
}

unfoldable pub get_realm_policy : ExportConfig → String → RealmPolicy
unfolding lookup
get_realm_policy config realm = realm_policy_of config (lookup realm config.realm_policies)

abbrev pub is_value : Option String → String → Bool
is_value none value = false
is_value (some v) value = v == value

abbrev pub exports_under : FederationExportPolicy → AgentCard → String → Bool
exports_under full card value = true
exports_under none_exported card value = false
exports_under selective card value = is_value (get_selective_visibility card value) value

unfoldable pub should_export_agent : ExportConfig → AgentCard → String → Bool
unfolding get_realm_policy
should_export_agent config card realm =
    let policy = get_realm_policy config realm in
    exports_under policy.export_policy card policy.selective_visibility_value

unfoldable pub upsert_remote_agent_route :
    FederationManager → String → String → AgentCard → String → ℕ → FederationManager
unfolding insert
upsert_remote_agent_route m relay_did agent_did card realm now = record m {
  remote_agent_routes =
      insert agent_did
        (record { relay_did = relay_did; realm = realm; card = card; last_seen = now })
        m.remote_agent_routes;
}

abbrev pub is_route_of : String → Option FederatedAgentRoute → Bool
is_route_of relay_did none = false
is_route_of relay_did (some route) = route.relay_did == relay_did

unfoldable pub remove_remote_agent_route : FederationManager → String → String → FederationManager
unfolding lookup delete
remove_remote_agent_route m agent_did relay_did =
    if is_route_of relay_did (lookup agent_did m.remote_agent_routes)
    then record m { remote_agent_routes = delete agent_did m.remote_agent_routes }
    else m

unfoldable pub remove_remote_agent_routes_for_relay : FederationManager → String → FederationManager
unfolding filter
remove_remote_agent_routes_for_relay m relay_did = record m {
  remote_agent_routes = filter (λ e. not (e.1.relay_did == relay_did)) m.remote_agent_routes;
}

unfoldable pub list_remote_directory_entries : FederationManager → List DirectoryAgentEntry
list_remote_directory_entries m =
    map
      (λ e. record {
        did = e.0;
        card = e.1.card;
        online = true;
        discoverable = true;
        visibility_realm = some e.1.realm;
        last_seen = some e.1.last_seen;
        home_relay = some e.1.relay_did;
      })
      m.remote_agent_routes

abbrev pub card_in_realm : String → Option FederatedAgentRoute → Option AgentCard
card_in_realm realm none = none
card_in_realm realm (some route) = if route.realm == realm then some route.card else none

unfoldable pub get_remote_agent_card : FederationManager → String → String → Option AgentCard
unfolding lookup
get_remote_agent_card m did requester_realm =
    card_in_realm requester_realm (lookup did m.remote_agent_routes)

-- `exportedLocalAgents.add`, `.has`, `.delete`
abbrev pub add_exported : String → List String → List String
add_exported did dids = if any (λ d. d == did) dids then dids else dids ++ (did ∷ [])

abbrev pub is_exported : FederationManager → String → Bool
is_exported m did = any (λ d. d == did) m.exported_local_agents

-- The socket, where there is one and it is open.
abbrev pub open_socket : (ℕ → Bool) → Option ℕ → Option ℕ
open_socket is_open none = none
open_socket is_open (some ws) = if is_open ws then some ws else none

-- The open socket of a relay with which data is exchanged.
abbrev pub active_socket : (ℕ → Bool) → FederatedRelay → Option ℕ
active_socket is_open relay =
    if is_data_plane_active (some relay) then open_socket is_open relay.ws else none

abbrev pub send_to : Option ℕ → RelayMessage → List Output → List Output
send_to none msg outs = outs
send_to (some ws) msg outs = sent ws msg ∷ outs

unfoldable pub broadcast_to : (ℕ → Bool) → RelayMessage → Map String FederatedRelay → List Output
broadcast_to is_open msg [] = []
broadcast_to is_open msg (e ∷ es) =
    send_to (active_socket is_open e.1) msg (broadcast_to is_open msg es)

abbrev pub broadcast_to_federation : (ℕ → Bool) → FederationManager → RelayMessage → List Output
broadcast_to_federation is_open m msg = broadcast_to is_open msg m.federated_relays

unfoldable pub notify_agent_left :
    (ℕ → Bool) → FederationManager → String → String → ℕ → FederationManager × List Output
unfolding filter broadcast_to
notify_agent_left is_open m did realm now =
    if is_exported m did
    then (
      record m { exported_local_agents = filter (λ d. not (d == did)) m.exported_local_agents },
      broadcast_to_federation is_open m (agent_left did realm now),
    )
    else (m, [])

unfoldable pub notify_agent_joined :
    (ℕ → Bool)
    → ExportConfig
    → FederationManager
    → String
    → AgentCard
    → String
    → ℕ
    → FederationManager × List Output
unfolding should_export_agent notify_agent_left broadcast_to
notify_agent_joined is_open config m did card realm now =
    if should_export_agent config card realm
    then (
      record m { exported_local_agents = add_exported did m.exported_local_agents },
      broadcast_to_federation is_open m (agent_joined did card realm now),
    )
    else if is_exported m did
    then notify_agent_left is_open m did realm now
    else (m, [])

abbrev pub is_advertised : ExportConfig → RegisteredAgent → Bool
is_advertised config agent =
    agent.online
    && not (agent.did == config.own_did)
    && should_export_agent config agent.card agent.realm

-- The loop over the registry's agents.
unfoldable pub advertise_agents :
    ExportConfig → ℕ → ℕ → List RegisteredAgent → List String → List String × List Output
unfolding should_export_agent
advertise_agents config ws now [] exported = (exported, [])
advertise_agents config ws now (agent ∷ agents) exported =
    let shown = is_advertised config agent in
    let rest =
      advertise_agents config ws now agents
        (if shown then add_exported agent.did exported else exported) in
    if shown
    then (rest.0, sent ws (agent_joined agent.did agent.card agent.realm now) ∷ rest.1)
    else rest

unfoldable pub advertise_current_agents_to_relay :
    ExportConfig → Agents → FederationManager → ℕ → ℕ → FederationManager × List Output
unfolding advertise_agents
advertise_current_agents_to_relay config agents m ws now =
    let r = advertise_agents config ws now (values agents) m.exported_local_agents in
    (record m { exported_local_agents = r.0 }, r.1)
