-- ===== src/Relay/Federation/Dispatch/Hops.antt =====
-- How far a routed message travels over the relays of federation-manager.ts.
use a.Base.{
  leb, Bool-cases, Option-cases, All, lookup, ℕ, suc, ◌+◌, ◌≤◌, ◌<◌, String, ◌≡◌, refl, sym, ap,
  subst, ◌∙◌, inl, inr, Bool, Option, none, some, List, [], ◌∷◌, arith, string_eq,
}
use a.Relay.Registry.{RegisteredAgent, Agents}
use a.Relay.Federation.Types.{
  FederationManager, Output, sent, closed, connects, RelayMessage, RouteRequestMessage,
  route_request,
}
use a.Relay.Federation.Exports.{should_export_agent}
use a.Relay.Federation.Messages.{
  RelayConfig, handle_route_request, forward_or_refuse, deliver_locally, online_agent, first_active,
}

abbrev pub if_request : RelayMessage → List RouteRequestMessage → List RouteRequestMessage
if_request (route_request r) rs = r ∷ rs
if_request _ rs = rs

-- The requests that go out.
abbrev pub requests : List Output → List RouteRequestMessage
requests [] = []
requests (sent ws msg ∷ outs) = if_request msg (requests outs)
requests (closed ws ∷ outs) = requests outs
requests (connects did endpoint ∷ outs) = requests outs

-- The request as a relay passes it on.
abbrev pub next_hop : RelayConfig → RouteRequestMessage → RouteRequestMessage
next_hop config msg = record msg {
  hop_count = msg.hop_count + 1;
  from_relay = config.exports.own_did;
}

-- Only a request with hops left is passed on, and it goes on with one hop more.
abbrev pub IsNextHop : RelayConfig → RouteRequestMessage → RouteRequestMessage → Type 0
IsNextHop config msg msg' = (msg.hop_count < config.max_hops) × (msg' ≡ next_hop config msg)

requests-deliver_locally :
    (can_send : ℕ → Bool) (config : RelayConfig) (ws : ℕ) (from_relay : String)
    (msg : RouteRequestMessage) (agent : RegisteredAgent)
    → requests (deliver_locally can_send config ws from_relay msg agent) ≡ []
requests-deliver_locally can_send config ws from_relay msg agent =
    elim (Bool-cases (should_export_agent config.exports agent.card agent.realm)) [
      | inr hidden ↦ rw hidden refl
      | inl shown ↦ elim (Bool-cases (can_send agent.ws)) [
        | inl up ↦ rw (shown, up) refl
        | inr down ↦ rw (shown, down) refl
      ]
    ]

requests-forward_or_refuse :
    (config : RelayConfig) (ws : ℕ) (msg : RouteRequestMessage) (o : Option ℕ)
    → msg.hop_count < config.max_hops
    → All (IsNextHop config msg) (requests (forward_or_refuse config ws msg o))
requests-forward_or_refuse config ws msg none few = tt
requests-forward_or_refuse config ws msg (some next) few = ((few, refl), tt)

requests-handle_route_request :
    (is_open can_send : ℕ → Bool) (config : RelayConfig) (agents : Agents) (m : FederationManager)
    (ws : ℕ) (from_relay : String) (msg : RouteRequestMessage)
    → All
        (IsNextHop config msg)
        (requests (handle_route_request is_open can_send config agents m ws from_relay msg))
unfolding handle_route_request
requests-handle_route_request is_open can_send config agents m ws from_relay msg =
    elim (Bool-cases (leb config.max_hops msg.hop_count)) [
      | inl spent ↦ rw spent tt
      | inr few ↦ elim (Option-cases (online_agent (lookup msg.target_did agents))) [
        | inl away ↦
            rw (few, away)
              (requests-forward_or_refuse config ws msg
                (first_active is_open (some from_relay) m.federated_relays) (ground (arith, few)))
        | inr (agent, here) ↦
            rw (few, here)
              (subst (All (IsNextHop config msg))
                (sym (requests-deliver_locally can_send config ws from_relay msg agent)) tt)
      ]
    ]

-- A request and the number of relays that have passed it on, each in any state and with the same
-- limit on hops.
pub data Travels (max_hops : ℕ) (origin : RouteRequestMessage)
    : RouteRequestMessage → ℕ → Type 0 where
  start : Travels max_hops origin origin 0
  hop :
      {msg msg' : RouteRequestMessage}
      → {n : ℕ} → Travels max_hops origin msg n
      → (is_open can_send : ℕ → Bool) → (config : RelayConfig) → (agents : Agents)
      → (m : FederationManager) → (ws : ℕ) → (from_relay : String) → config.max_hops ≡ max_hops
      → requests (handle_route_request is_open can_send config agents m ws from_relay msg)
        ≡ msg' ∷ []
      → Travels max_hops origin msg' (suc n)

-- A request that a node sends with no hop behind it is passed on by at most as many relays as the
-- limit on hops; all along it keeps its target, its envelope and its id, and counts its hops.
pub travels_bound :
    (max_hops : ℕ) (origin msg : RouteRequestMessage) (n : ℕ)
    → origin.hop_count ≡ 0
    → Travels max_hops origin msg n
    → (n ≤ max_hops)
      × (msg.hop_count ≡ n)
      × (msg.target_did ≡ origin.target_did)
      × (msg.envelope ≡ origin.envelope)
      × (msg.message_id ≡ origin.message_id)
travels_bound max_hops origin msg n fresh start = (omega arith, fresh, refl, refl, refl)
travels_bound max_hops origin msg n fresh
      (hop {msg = before} {n = k} t is_open can_send config agents m ws from_relay same out) =
    let h = travels_bound max_hops origin before k fresh t in
    let all = requests-handle_route_request is_open can_send config agents m ws from_relay before in
    let step = (subst (All (IsNextHop config before)) out all).0 in
    let few : before.hop_count < max_hops = omega (arith, step.0, same) in
    (
      omega (arith, h.1, few),
      ap (λ r. r.hop_count) step.1 ∙ omega (arith, h.1),
      ap (λ r. r.target_did) step.1 ∙ h.2,
      ap (λ r. r.envelope) step.1 ∙ h.3,
      ap (λ r. r.message_id) step.1 ∙ h.4,
    )
