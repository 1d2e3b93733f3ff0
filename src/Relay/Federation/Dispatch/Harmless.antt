-- ===== src/Relay/Federation/Dispatch/Harmless.antt =====
-- What the admission of another relay in federation-manager.ts sends, and what it does to the routes.
use a.Base.{
  ◌==◌, Bool-cases, is_some, filter, any, All, All-append, Map, lookup, delete, values, Result, ok,
  err, ℕ, String, ◌≡◌, refl, ◌∙◌, ◌⊎◌, inl, inr, Bool, true, false, not, ◌&&◌, ◌||◌, Option, none,
  some, List, [], ◌∷◌, arith, string_eq, nat_eq, bytes_eq,
}
use a.Relay.Registry.{RegisteredAgent, Agents}
use a.Relay.Federation.Types.{
  FederatedAgentRoute, FederatedRelay, FederationManager, Output, sent, closed, connects,
  HealthResponse, federation_admitted, agent_joined, federation_health_response, fetch_card, card,
}
use a.Relay.Directory.{AgentCard, Texts}
use a.Relay.Federation.Handshakes.{FederationConfig}
use a.Relay.Federation.Peers.{
  is_data_plane_active, is_locally_admitted, EligibilityError, validate_relay_eligibility,
}
use a.Relay.Federation.Exports.{
  ExportConfig, is_advertised, advertise_agents, add_exported, advertise_current_agents_to_relay,
  should_export_agent, remove_remote_agent_routes_for_relay, open_socket,
}
use a.Relay.Federation.Admission.{
  maybe_activate_relay, activate_with, with_socket, with_relay, connect_eligible, connect_agent,
  connect_to_relay, connect_peers, is_open_relay, is_connecting_to, fail_relay, clear_pending_probe,
  admit, send_admitted, finish_admission, mark_admission_failure, probe_with, run_card_probe,
}
use a.Relay.Federation.Messages.{
  handle_federation_health_response, handle_federation_card, RelayConfig, change_found,
  admitted_from, is_pending_card, AdmissionContext, after_health,
}

-- The admission's own messages, news of an agent that may be exported, and connections to other
-- relays that are agents of the own registry.
abbrev pub is_harmless : ExportConfig → Agents → Output → Bool
is_harmless config agents (closed ws) = true
is_harmless config agents (connects did endpoint) =
    not (did == config.own_did) && is_some (lookup did agents)
is_harmless config agents (sent ws (federation_health_response msg)) = true
is_harmless config agents (sent ws (federation_admitted by at)) = true
is_harmless config agents (sent ws (fetch_card did)) = true
is_harmless config agents (sent ws (card did given)) = true
is_harmless config agents (sent ws (agent_joined did agent_card realm at)) =
    should_export_agent config agent_card realm
is_harmless config agents (sent ws _) = false

-- The routes are as before, or without those that lead to the relay.
abbrev pub KeepsRoutes :
    String → Map String FederatedAgentRoute → Map String FederatedAgentRoute → Type 0
KeepsRoutes did routes after =
    (after ≡ routes) ⊎ (after ≡ filter (λ e. not (e.1.relay_did == did)) routes)

abbrev pub IsHarmless :
    ExportConfig → Agents → String → FederationManager → FederationManager × List Output → Type 0
IsHarmless config agents did m r =
    KeepsRoutes did m.remote_agent_routes r.0.remote_agent_routes
    × All (λ o. is_harmless config agents o ≡ true) r.1

advertised-exported :
    (config : ExportConfig) (agent : RegisteredAgent)
    → is_advertised config agent ≡ true
    → should_export_agent config agent.card agent.realm ≡ true
advertised-exported config agent shown = ground (arith, shown)

harmless-advertise :
    (config : ExportConfig) (known : Agents) (ws now : ℕ) (agents : List RegisteredAgent)
    (exported : List String)
    → All
        (λ o. is_harmless config known o ≡ true)
        (advertise_agents config ws now agents exported).1
unfolding advertise_agents
harmless-advertise config known ws now [] exported = tt
harmless-advertise config known ws now (agent ∷ agents) exported =
    elim (Bool-cases (is_advertised config agent)) [
      | inl shown ↦ rw shown (
        advertised-exported config agent shown,
        harmless-advertise config known ws now agents (add_exported agent.did exported),
      )
      | inr hidden ↦ rw hidden (harmless-advertise config known ws now agents exported)
    ]

-- Nothing but connections to known agents goes out, and the routes stay.
abbrev pub OnlyConnects :
    ExportConfig → Agents → FederationManager → FederationManager × List Output → Type 0
OnlyConnects config agents m r =
    (r.0.remote_agent_routes ≡ m.remote_agent_routes)
    × All (λ o. is_harmless config agents o ≡ true) r.1

connect_eligible-OnlyConnects :
    (is_open : ℕ → Bool) (config : ExportConfig) (agents : Agents) (m : FederationManager)
    (did : String) (relay_card : AgentCard) (now : ℕ) (existing : Option FederatedRelay)
    (r : Result EligibilityError (List String))
    → (not (did == config.own_did) && is_some (lookup did agents)) ≡ true
    → OnlyConnects config agents m (connect_eligible is_open m did relay_card now existing r)
connect_eligible-OnlyConnects is_open config agents m did relay_card now existing (err e) h =
    (refl, tt)
connect_eligible-OnlyConnects is_open config agents m did relay_card now existing (ok []) h =
    (refl, tt)
connect_eligible-OnlyConnects is_open config agents m did relay_card now existing
      (ok (endpoint ∷ endpoints)) h =
    elim (Bool-cases (is_locally_admitted existing && is_open_relay is_open existing)) [
      | inl up ↦ rw up (refl, tt)
      | inr down ↦ elim (Bool-cases (is_connecting_to existing)) [
        | inl on ↦ rw (down, on) (refl, tt)
        | inr off ↦ rw (down, off) (refl, (h, tt))
      ]
    ]

connect_agent-OnlyConnects :
    (texts : Texts) (is_open : ℕ → Bool) (config : ExportConfig) (agents : Agents)
    (m : FederationManager) (did : String) (now : ℕ) (o : Option RegisteredAgent)
    → lookup did agents ≡ o
    → (did == config.own_did) ≡ false
    → OnlyConnects config agents m (connect_agent texts is_open config m did now o)
unfolding connect_to_relay
connect_agent-OnlyConnects texts is_open config agents m did now none e h = (refl, tt)
connect_agent-OnlyConnects texts is_open config agents m did now (some agent) e h =
    let known : (not (did == config.own_did) && is_some (lookup did agents)) ≡ true =
      rw (h, e) refl in
    rw h (
      connect_eligible-OnlyConnects is_open config agents m did agent.card now
        (lookup did m.federated_relays) (validate_relay_eligibility texts did agent.card []) known)

connect_peers-OnlyConnects :
    (texts : Texts) (is_open : ℕ → Bool) (config : ExportConfig) (agents : Agents)
    (m : FederationManager) (peers : List String) (now : ℕ)
    → OnlyConnects config agents m (connect_peers texts is_open config agents m peers now)
unfolding connect_peers
connect_peers-OnlyConnects texts is_open config agents m [] now = (refl, tt)
connect_peers-OnlyConnects texts is_open config agents m (peer ∷ peers) now =
    elim (Bool-cases (peer == config.own_did || is_some (lookup peer m.federated_relays))) [
      | inl skip ↦ rw skip (connect_peers-OnlyConnects texts is_open config agents m peers now)
      | inr next ↦
          let foreign : (peer == config.own_did) ≡ false = ground (arith, next) in
          let one =
            connect_agent-OnlyConnects texts is_open config agents m peer now (lookup peer agents)
              refl foreign in
          let first = connect_agent texts is_open config m peer now (lookup peer agents) in
          let others = connect_peers-OnlyConnects texts is_open config agents first.0 peers now in
          rw next (
            others.0 ∙ one.0,
            All-append (λ o. is_harmless config agents o ≡ true) first.1 _ one.1 others.1,
          )
    ]

activate-IsHarmless :
    (texts : Texts) (is_open : ℕ → Bool) (config : ExportConfig) (agents : Agents)
    (m : FederationManager) (now : ℕ) (o : Option (FederatedRelay × ℕ)) (did : String)
    → IsHarmless config agents did m (activate_with texts is_open config agents m now o did)
unfolding advertise_current_agents_to_relay
activate-IsHarmless texts is_open config agents m now none did = (inl refl, tt)
activate-IsHarmless texts is_open config agents m now (some (relay, ws)) did =
    elim (Bool-cases (is_data_plane_active (some relay))) [
      | inr off ↦ rw off (inl refl, tt)
      | inl on ↦
          let advertised = advertise_current_agents_to_relay config agents m ws now in
          let connected =
            connect_peers-OnlyConnects texts is_open config agents
              (with_relay advertised.0 did (record relay { pending_peer_dids = [] }))
              relay.pending_peer_dids now in
          rw on (
            inl connected.0,
            All-append (λ o. is_harmless config agents o ≡ true) advertised.1 _
                (harmless-advertise config agents ws now (values agents) m.exported_local_agents)
                connected.1,
          )
    ]

pub admitted_from-IsHarmless :
    (texts : Texts) (is_open : ℕ → Bool) (config : RelayConfig) (agents : Agents)
    (m : FederationManager) (did : String) (now : ℕ) (o : Option FederatedRelay)
    → IsHarmless config.exports agents did m (admitted_from texts is_open config agents m did now o)
unfolding maybe_activate_relay
admitted_from-IsHarmless texts is_open config agents m did now none = (inl refl, tt)
admitted_from-IsHarmless texts is_open config agents m did now (some relay) =
    let m' = with_relay m did (record relay { admitted_by_peer = true }) in
    activate-IsHarmless texts is_open config.exports agents m' now
      (with_socket is_open (lookup did m'.federated_relays)) did

harmless-closing :
    (config : ExportConfig) (agents : Agents) (o : Option ℕ)
    → All
        (λ o. is_harmless config agents o ≡ true)
        (elim o [ none ↦ [] | some ws ↦ closed ws ∷ [] ])
harmless-closing config agents none = tt
harmless-closing config agents (some ws) = (refl, tt)

fail_relay-IsHarmless :
    (texts : Texts) (federation : FederationConfig) (is_open : ℕ → Bool) (config : ExportConfig)
    (agents : Agents) (m : FederationManager) (did error : String) (now : ℕ)
    (o : Option FederatedRelay)
    → IsHarmless config agents did m (fail_relay texts federation is_open m did error now o)
unfolding remove_remote_agent_routes_for_relay clear_pending_probe
fail_relay-IsHarmless texts federation is_open config agents m did error now none = (inl refl, tt)
fail_relay-IsHarmless texts federation is_open config agents m did error now (some relay) =
    let closing = harmless-closing config agents (open_socket is_open relay.ws) in
    elim (Bool-cases relay.inbound) [
      | inl e ↦ rw e (inr refl, closing)
      | inr e ↦ rw e (inr refl, closing)
    ]

admit_routes :
    (texts : Texts) (m : FederationManager) (did : String) (probed : AgentCard × List String)
    (now : ℕ) (o : Option FederatedRelay)
    → (admit texts m did probed now o).remote_agent_routes ≡ m.remote_agent_routes
admit_routes texts m did probed now none = refl
admit_routes texts m did probed now (some relay) = elim (Bool-cases relay.inbound) [
  | inl e ↦ rw e refl
  | inr e ↦ rw e refl
]

harmless-send_admitted :
    (config : ExportConfig) (agents : Agents) (now : ℕ) (o : Option (FederatedRelay × ℕ))
    → All (λ o. is_harmless config agents o ≡ true) (send_admitted config now o)
harmless-send_admitted config agents now none = tt
harmless-send_admitted config agents now (some (relay, ws)) = (refl, tt)

-- The same for routes that are equal.
KeepsRoutes-same :
    (did : String) (routes middle after : Map String FederatedAgentRoute)
    → middle ≡ routes
    → KeepsRoutes did middle after
    → KeepsRoutes did routes after
KeepsRoutes-same did routes middle after e h = rw e at h

finish_admission-IsHarmless :
    (texts : Texts) (federation : FederationConfig) (is_open : ℕ → Bool) (config : ExportConfig)
    (agents : Agents) (m : FederationManager) (did : String)
    (probed : Result String (AgentCard × List String)) (now : ℕ)
    → IsHarmless config agents did m
        (finish_admission texts federation is_open config agents m did probed now)
unfolding finish_admission mark_admission_failure maybe_activate_relay
finish_admission-IsHarmless texts federation is_open config agents m did (err e) now =
    fail_relay-IsHarmless texts federation is_open config agents m did e now
      (lookup did m.federated_relays)
finish_admission-IsHarmless texts federation is_open config agents m did (ok probed) now =
    let m' = admit texts m did probed now (lookup did m.federated_relays) in
    let o = with_socket is_open (lookup did m'.federated_relays) in
    let active = activate-IsHarmless texts is_open config agents m' now o did in
    (
      KeepsRoutes-same did m.remote_agent_routes m'.remote_agent_routes _
          (admit_routes texts m did probed now (lookup did m.federated_relays)) active.0,
      All-append (λ o. is_harmless config agents o ≡ true) (send_admitted config now o) _
          (harmless-send_admitted config agents now o) active.1,
    )

pub change_found_routes :
    (f : FederatedRelay → FederatedRelay) (m : FederationManager) (did : String)
    (o : Option FederatedRelay)
    → (change_found f m did o).remote_agent_routes ≡ m.remote_agent_routes
change_found_routes f m did none = refl
change_found_routes f m did (some relay) = refl

after_health-IsHarmless :
    (c : AdmissionContext) (m : FederationManager) (did : String) (now : ℕ)
    (o : Option (FederatedRelay × ℕ))
    → IsHarmless c.exports c.agents did m (after_health c m did now (probe_with m did o))
after_health-IsHarmless c m did now none =
    finish_admission-IsHarmless c.texts c.federation c.is_open c.exports c.agents m did _ now
after_health-IsHarmless c m did now (some (relay, ws)) = (inl refl, (refl, tt))

pub health-IsHarmless :
    (c : AdmissionContext) (m : FederationManager) (did : String) (msg : HealthResponse) (now : ℕ)
    → IsHarmless c.exports c.agents did m (handle_federation_health_response c m did msg now)
unfolding handle_federation_health_response run_card_probe
health-IsHarmless c m did msg now =
    let same =
      change_found_routes
        (λ relay. record relay {
          uptime = msg.uptime;
          agent_count = msg.connected_agents;
          last_seen = now;
          last_health_response_at = some now;
        })
        m did (lookup did m.federated_relays) in
    elim (Bool-cases (any (λ d. d == did) m.pending_health_checks)) [
      | inr idle ↦ rw idle (inl same, tt)
      | inl waiting ↦
          let r = after_health-IsHarmless c _ did now _ in
          rw waiting (KeepsRoutes-same did _ _ _ same r.0, r.1)
    ]

pub card-IsHarmless :
    (c : AdmissionContext) (m : FederationManager) (relay_did did : String)
    (given : Option AgentCard) (now : ℕ)
    → IsHarmless c.exports c.agents relay_did m (handle_federation_card c m relay_did did given now)
unfolding handle_federation_card
card-IsHarmless c m relay_did did given now =
    elim (Bool-cases (is_pending_card (lookup relay_did m.pending_card_fetches) did)) [
      | inr idle ↦ rw idle (inl refl, tt)
      | inl waiting ↦
          let answered : FederationManager = record m {
            pending_card_fetches = delete relay_did m.pending_card_fetches;
          } in
          rw waiting (
            finish_admission-IsHarmless c.texts c.federation c.is_open c.exports c.agents answered
              relay_did _ now)
    ]
