-- ===== src/Relay/Federation/Disconnection.antt =====
-- js/relay/src/federation-manager.ts: relays that are lost, and when a connection is tried again.
pub mod Losses
use a.Base.{
  ltb, leb, if◌then◌else◌, Map, lookup, insert, delete, ℕ, ◌+◌, ◌*◌, ◌^◌, min, String, Bool, true,
  false, Option, none, some, List, [], ◌∷◌, ◌++◌, string_eq,
}
use a.Relay.Federation.Types.{FederatedRelay, FederationManager, Output, closed}
use a.Relay.Federation.Exports.{remove_remote_agent_routes_for_relay, open_socket}
use a.Relay.Federation.Admission.{clear_pending_probe, with_relay}

pub record ReconnectConfig : Type 0 where
  pub reconnect_delay : ℕ
  pub max_reconnect_delay : ℕ
  pub max_reconnect_attempts : ℕ
  pub health_check_interval : ℕ

abbrev pub disconnected : FederatedRelay → ℕ → FederatedRelay
disconnected relay now = record relay {
  connected = false;
  is_connecting = false;
  ws = none;
  last_seen = now;
  admitted_by_peer = false;
  probation_timer = false;
}

abbrev pub lose : FederationManager → String → ℕ → FederatedRelay → FederationManager
lose m did now relay =
    remove_remote_agent_routes_for_relay
      (clear_pending_probe (with_relay m did (disconnected relay now)) did) did

abbrev pub lose_incoming :
    FederationManager → String → ℕ → Option FederatedRelay → FederationManager
lose_incoming m did now none = m
lose_incoming m did now (some relay) = lose m did now relay

unfoldable pub handle_incoming_disconnect : FederationManager → String → ℕ → FederationManager
unfolding lookup insert clear_pending_probe remove_remote_agent_routes_for_relay
handle_incoming_disconnect m did now = lose_incoming m did now (lookup did m.federated_relays)

abbrev pub delay_of : ReconnectConfig → ℕ → ℕ
delay_of config attempts = min (config.reconnect_delay * 2 ^ attempts) config.max_reconnect_delay

-- The new state, and the delay of the timer that was set.
abbrev pub schedule_for :
    ReconnectConfig
    → FederationManager
    → String
    → Option FederatedRelay
    → FederationManager × Option ℕ
schedule_for config m did none = (m, none)
schedule_for config m did (some relay) =
    if relay.reconnect_timer
    then (m, none)
    else if leb config.max_reconnect_attempts relay.reconnect_attempts
    then (
      remove_remote_agent_routes_for_relay
          (record m { federated_relays = delete did m.federated_relays }) did,
      none,
    )
    else (
      with_relay m did (record relay {
        reconnect_attempts = relay.reconnect_attempts + 1;
        reconnect_timer = true;
      }),
      some (delay_of config relay.reconnect_attempts),
    )

unfoldable pub schedule_reconnection :
    ReconnectConfig → FederationManager → String → FederationManager × Option ℕ
unfolding lookup insert delete remove_remote_agent_routes_for_relay
schedule_reconnection config m did = schedule_for config m did (lookup did m.federated_relays)

abbrev pub lose_outgoing :
    ReconnectConfig
    → FederationManager
    → String
    → ℕ
    → Option FederatedRelay
    → FederationManager × Option ℕ
lose_outgoing config m did now none = (m, none)
lose_outgoing config m did now (some relay) =
    if relay.reconnect_timer
    then (lose m did now relay, none)
    else schedule_reconnection config (lose m did now relay) did

unfoldable pub handle_relay_disconnection :
    ReconnectConfig → FederationManager → String → ℕ → FederationManager × Option ℕ
unfolding lookup insert clear_pending_probe remove_remote_agent_routes_for_relay
    schedule_reconnection
handle_relay_disconnection config m did now =
    lose_outgoing config m did now (lookup did m.federated_relays)

-- The timer goes off: the flag is cleared before the relay is connected again.
unfoldable pub reconnect_timer_fires : FederationManager → String → FederationManager
unfolding lookup insert
reconnect_timer_fires m did = elim (lookup did m.federated_relays) [
  | none ↦ m
  | some relay ↦ with_relay m did (record relay { reconnect_timer = false })
]

abbrev pub is_stale : ReconnectConfig → ℕ → FederatedRelay → Bool
is_stale config now relay = ltb (relay.last_seen + config.health_check_interval * 3) now

abbrev pub close_socket : Option ℕ → List Output
close_socket none = []
close_socket (some ws) = closed ws ∷ []

-- The second loop of `performHealthChecks`, over the relays at its start.
unfoldable pub disconnect_stale :
    ReconnectConfig
    → ℕ
    → Map String FederatedRelay
    → FederationManager
    → FederationManager × List Output
unfolding handle_relay_disconnection
disconnect_stale config now [] m = (m, [])
disconnect_stale config now ((did, relay) ∷ relays) m =
    let lost = (handle_relay_disconnection config m did now).0 in
    let rest = disconnect_stale config now relays (if is_stale config now relay then lost else m) in
    (rest.0, (if is_stale config now relay then close_socket relay.ws else []) ++ rest.1)
