-- ===== src/Relay/Registry/Presence.antt =====
-- When registry.ts shows an agent and when it forgets one.
use a.Base.{
  ltb, if◌then◌else◌, ◌==◌, string_eq, beq_refl, Bool-cases, any, lookup, insert, lookup-insert,
  lookup-delete, ℕ, ◌+◌, String, ◌≡◌, refl, sym, ap, ◌∙◌, inl, inr, Bool, true, false, not, ◌&&◌,
  Option, none, some, [], ◌∷◌, arith, bytes_eq, nat_eq,
}
use a.Relay.Level.{IsUnique}
use a.Relay.Directory.{AgentCard}
use a.Relay.Registry.{
  RegisteredAgent, Agents, Admission, register, publish, unregister, unregister_gone, cleanup,
  is_gone, change, connected_since,
}

lookup-unregister_gone :
    (now : ℕ) (es agents : Agents) (did : String)
    → lookup did (unregister_gone now es agents)
      ≡ (if any (λ e. e.0 == did && is_gone now e) es then none else lookup did agents)
unfolding unregister_gone unregister
lookup-unregister_gone now [] agents did = refl
lookup-unregister_gone now (e ∷ es) agents did = elim (Bool-cases (is_gone now e)) [
  | inl gone ↦ rw gone (
      ground (
        arith,
        gone,
        lookup-unregister_gone now es (unregister agents e.0) did,
        lookup-delete e.0 did agents,
      ))
  | inr kept ↦ rw kept (ground (arith, kept, lookup-unregister_gone now es agents did))
]

-- Whether an agent that is looked up is to be forgotten.
abbrev pub is_gone_agent : ℕ → Option RegisteredAgent → Bool
is_gone_agent now none = false
is_gone_agent now (some agent) = not agent.online && ltb (agent.last_seen + 180000) now

any-gone :
    (now : ℕ) (did : String) (agents : Agents)
    → IsUnique agents
    → any (λ e. e.0 == did && is_gone now e) agents ≡ is_gone_agent now (lookup did agents)
unfolding lookup
any-gone now did [] u = refl
any-gone now did ((k, agent) ∷ agents) u = elim (Bool-cases (k == did)) [
  | inl same ↦
      let e : k ≡ did = (string_eq.beq_iff k did).0 same in
      let absent : lookup did agents ≡ none = ap (λ i. lookup i agents) (sym e) ∙ u.0 in
      let rest : any (λ e. e.0 == did && is_gone now e) agents ≡ false =
        any-gone now did agents u.1 ∙ ap (is_gone_agent now) absent in
      rw same (ground (arith, rest))
  | inr other ↦ rw other (any-gone now did agents u.1)
]

-- The clean-up forgets an agent exactly if it is offline and was last seen more than the grace
-- period of three minutes ago, and leaves every other as it was, if no DID is there twice.
pub lookup-cleanup :
    (agents : Agents) (now : ℕ) (did : String)
    → IsUnique agents
    → lookup did (cleanup agents now)
      ≡ (if is_gone_agent now (lookup did agents) then none else lookup did agents)
unfolding cleanup
lookup-cleanup agents now did u =
    lookup-unregister_gone now agents agents did ∙ rw (any-gone now did agents u)

-- An agent that registers is online but not discoverable; once it publishes its card it is both,
-- with that card, and it keeps the time of its first connection.
pub publish-register :
    (is_live : ℕ → Bool) (agents : Agents) (did : String) (card shown : AgentCard) (ws : ℕ)
    (realm : String) (token : Admission) (now : ℕ)
    → let registered = (register is_live agents did card ws realm token now).0 in
      let agent : RegisteredAgent = record {
        did = did;
        card = card;
        connected_at = connected_since (lookup did agents) now;
        last_seen = now;
        online = true;
        discoverable = false;
        realm = realm;
        token_jti = token.jti;
        token_exp = token.exp;
        ws = ws;
      } in
      (lookup did registered ≡ some agent)
      × (lookup did (publish registered did (some shown)).0
          ≡ some (record agent { card = shown; discoverable = true }))
unfolding register publish change
publish-register is_live agents did card shown ws realm token now =
    let agent : RegisteredAgent = record {
      did = did;
      card = card;
      connected_at = connected_since (lookup did agents) now;
      last_seen = now;
      online = true;
      discoverable = false;
      realm = realm;
      token_jti = token.jti;
      token_exp = token.exp;
      ws = ws;
    } in
    let registered : lookup did (insert did agent agents) ≡ some agent =
      lookup-insert did did agent agents ∙ rw (beq_refl did) in
    let shown_agent : RegisteredAgent = record agent { card = shown; discoverable = true } in
    (
      registered,
      ap
            (λ o. lookup did (
              change (λ a. record a { card = shown; discoverable = true }) (insert did agent agents)
                did o))
            registered
          ∙ lookup-insert did did shown_agent (insert did agent agents)
          ∙ rw (beq_refl did),
    )
