-- ===== src/Relay/Federation/Disconnection/Losses.antt =====
-- What is left of a relay that federation-manager.ts has lost.
use a.Base.{
  leb, le→leb, if◌then◌else◌, ◌==◌, Bool-cases, All, All-filter_test, lookup, lookup-insert_same,
  lookup-delete_same, ℕ, String, ◌≡◌, refl, sym, ap, ◌∙◌, inl, inr, Bool, true, false, not, Option,
  none, some, arith, string_eq, nat_eq, bytes_eq,
}
use a.Relay.Federation.Types.{FederatedRelay, FederationManager}
use a.Relay.Federation.Peers.{is_data_plane_active}
use a.Relay.Federation.Exports.{remove_remote_agent_routes_for_relay}
use a.Relay.Federation.Admission.{clear_pending_probe}
use a.Relay.Federation.Disconnection.{
  ReconnectConfig, disconnected, lose, delay_of, schedule_for, schedule_reconnection,
  handle_relay_disconnection,
}

abbrev pub is_within : ℕ → Option ℕ → Bool
is_within bound none = true
is_within bound (some delay) = leb delay bound

-- No route leads to the relay, and no data is exchanged with it.
abbrev pub IsLost : String → FederationManager → Type 0
IsLost did m =
    All (λ e. not (e.1.relay_did == did) ≡ true) m.remote_agent_routes
    × (is_data_plane_active (lookup did m.federated_relays) ≡ false)

delay-le :
    (config : ReconnectConfig) (attempts : ℕ)
    → leb (delay_of config attempts) config.max_reconnect_delay ≡ true
delay-le config attempts =
    le→leb (delay_of config attempts) config.max_reconnect_delay (omega arith)

lose-IsLost :
    (m : FederationManager) (did : String) (now : ℕ) (relay : FederatedRelay)
    → IsLost did (lose m did now relay)
unfolding remove_remote_agent_routes_for_relay is_data_plane_active clear_pending_probe
lose-IsLost m did now relay = (
  All-filter_test (λ e. not (e.1.relay_did == did)) m.remote_agent_routes,
  ap is_data_plane_active (lookup-insert_same did (disconnected relay now) m.federated_relays),
)

schedule-IsLost :
    (config : ReconnectConfig) (m : FederationManager) (did : String) (o : Option FederatedRelay)
    → lookup did m.federated_relays ≡ o
    → IsLost did m
    → (let r = schedule_for config m did o in
        IsLost did r.0 × (is_within config.max_reconnect_delay r.1 ≡ true))
unfolding remove_remote_agent_routes_for_relay is_data_plane_active
schedule-IsLost config m did none found lost = (lost, refl)
schedule-IsLost config m did (some relay) found lost = elim (Bool-cases relay.reconnect_timer) [
  | inl set ↦ rw set (lost, refl)
  | inr unset ↦ elim (Bool-cases (leb config.max_reconnect_attempts relay.reconnect_attempts)) [
    | inl spent ↦
        rw (unset, spent)
          (
            (
              All-filter_test (λ e. not (e.1.relay_did == did)) m.remote_agent_routes,
              ap is_data_plane_active (lookup-delete_same did m.federated_relays),
            ),
            refl,
          )
    | inr more ↦
        rw (unset, more)
          (
            (
              lost.0,
              ap is_data_plane_active (lookup-insert_same did _ m.federated_relays)
                  ∙ sym (ap is_data_plane_active found)
                  ∙ lost.1,
            ),
            delay-le config relay.reconnect_attempts,
          )
  ]
]

lose_outgoing-IsLost :
    (config : ReconnectConfig) (m : FederationManager) (did : String) (now : ℕ)
    (relay : FederatedRelay) (set : Bool)
    → (let r =
          if set
          then (lose m did now relay, none)
          else schedule_reconnection config (lose m did now relay) did in
        IsLost did r.0 × (is_within config.max_reconnect_delay r.1 ≡ true))
unfolding schedule_reconnection
lose_outgoing-IsLost config m did now relay true = (lose-IsLost m did now relay, refl)
lose_outgoing-IsLost config m did now relay false =
    let left = lose m did now relay in
    schedule-IsLost config left did (lookup did left.federated_relays) refl
      (lose-IsLost m did now relay)

-- After the connection to a known relay was lost, no route leads to it and no data is exchanged with
-- it, whether it is tried again or forgotten; the delay before it is tried again is bounded.
pub handle_relay_disconnection-IsLost :
    (config : ReconnectConfig) (m : FederationManager) (did : String) (now : ℕ)
    (relay : FederatedRelay)
    → lookup did m.federated_relays ≡ some relay
    → (let r = handle_relay_disconnection config m did now in
        IsLost did r.0 × (is_within config.max_reconnect_delay r.1 ≡ true))
unfolding handle_relay_disconnection schedule_reconnection
handle_relay_disconnection-IsLost config m did now relay found =
    rw found (lose_outgoing-IsLost config m did now relay relay.reconnect_timer)
