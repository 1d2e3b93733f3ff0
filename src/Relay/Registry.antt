-- ===== src/Relay/Registry.antt =====
-- js/relay/src/registry.ts, the agents that are or were connected. The clock is an argument and a
-- socket is a number; `register` returns the socket that it closes. The capability and token indexes
-- are left out, since the search does not read them, and so is the card's hash.
pub mod Presence
use a.Base.{
  ltb, nat_beq, if◌then◌else◌, ◌==◌, or_else, is_some, Map, lookup, insert, delete, count_by, ℕ,
  ◌+◌, ◌*◌, String, Bool, true, false, not, ◌&&◌, Option, none, some, List, [], ◌∷◌, map, bytes_eq,
  string_eq, nat_eq,
}
use a.Relay.Directory.{
  AgentCard, DirectoryAgentEntry, SearchPage, SearchQuery, Texts, search_directory_entries,
}

pub record RegisteredAgent : Type 0 where
  pub did : String
  pub card : AgentCard
  pub connected_at : ℕ
  pub last_seen : ℕ
  pub online : Bool
  pub discoverable : Bool
  pub realm : String
  pub token_jti : Option String
  pub token_exp : Option ℕ
  pub ws : ℕ

abbrev pub Agents : Type 0
Agents = Map String RegisteredAgent

abbrev pub grace_period_ms : ℕ
grace_period_ms = 3 * 60 * 1000

abbrev pub connected_since : Option RegisteredAgent → ℕ → ℕ
connected_since none now = now
connected_since (some existing) now = existing.connected_at

-- The socket of the existing agent, if it is another one that is not closed yet.
abbrev pub replaced_socket : (ℕ → Bool) → Option RegisteredAgent → ℕ → Option ℕ
replaced_socket is_live none ws = none
replaced_socket is_live (some existing) ws =
    if not (nat_beq existing.ws ws) && is_live existing.ws then some existing.ws else none

-- The invite token that admitted the agent, its id and expiry.
pub record Admission : Type 0 where
  pub jti : Option String
  pub exp : Option ℕ

unfoldable pub register :
    (ℕ → Bool) → Agents → String → AgentCard → ℕ → String → Admission → ℕ → Agents × Option ℕ
unfolding lookup insert
register is_live agents did card ws realm token now =
    let existing = lookup did agents in
    (
      insert did
          (record {
            did = did;
            card = card;
            connected_at = connected_since existing now;
            last_seen = now;
            online = true;
            discoverable = false;
            realm = realm;
            token_jti = token.jti;
            token_exp = token.exp;
            ws = ws;
          })
          agents,
      replaced_socket is_live existing ws,
    )

-- Changes the agent, if it is there.
unfoldable pub change :
    (RegisteredAgent → RegisteredAgent) → Agents → String → Option RegisteredAgent → Agents
unfolding insert
change f agents did none = agents
change f agents did (some agent) = insert did (f agent) agents

unfoldable pub publish : Agents → String → Option AgentCard → Agents × Bool
unfolding lookup change
publish agents did card = (
  change (λ agent. record agent { card = or_else card agent.card; discoverable = true }) agents did
      (lookup did agents),
  is_some (lookup did agents),
)

unfoldable pub unpublish : Agents → String → Agents
unfolding lookup change
unpublish agents did =
    change (λ agent. record agent { discoverable = false }) agents did (lookup did agents)

unfoldable pub unregister : Agents → String → Agents
unfolding delete
unregister agents did = delete did agents

unfoldable pub mark_offline : Agents → String → ℕ → Agents
unfolding lookup change
mark_offline agents did now =
    change (λ agent. record agent { online = false; last_seen = now }) agents did
      (lookup did agents)

unfoldable pub update_last_seen : Agents → String → ℕ → Agents
unfolding lookup change
update_last_seen agents did now =
    change (λ agent. record agent { last_seen = now }) agents did (lookup did agents)

-- Offline, and last seen before the grace period.
abbrev pub is_gone : ℕ → String × RegisteredAgent → Bool
is_gone now e = not e.1.online && ltb (e.1.last_seen + grace_period_ms) now

-- The loop of `cleanup` over the agents that the map had at its start.
unfoldable pub unregister_gone : ℕ → Agents → Agents → Agents
unfolding unregister
unregister_gone now [] agents = agents
unregister_gone now (e ∷ es) agents =
    unregister_gone now es (if is_gone now e then unregister agents e.0 else agents)

unfoldable pub cleanup : Agents → ℕ → Agents
unfolding unregister_gone
cleanup agents now = unregister_gone now agents agents

abbrev pub is_agent_online : Option RegisteredAgent → Bool
is_agent_online none = false
is_agent_online (some agent) = agent.online

unfoldable pub is_online : Agents → String → Bool
unfolding lookup
is_online agents did = is_agent_online (lookup did agents)

unfoldable pub get_online_count : Agents → ℕ
get_online_count agents = count_by (λ e. e.1.online) agents

unfoldable pub get_online_count_by_realm : Agents → String → ℕ
get_online_count_by_realm agents realm = count_by (λ e. e.1.online && e.1.realm == realm) agents

abbrev pub has_jti : Option String → String → Bool
has_jti none jti = false
has_jti (some own) jti = own == jti

-- An empty `excludeDid` counts as none.
abbrev pub is_excluded : Option String → String → Bool
is_excluded none did = false
is_excluded (some exclude) did = not (exclude == "") && did == exclude

unfoldable pub count_online_by_token_jti : Agents → String → Option String → ℕ
count_online_by_token_jti agents jti exclude =
    count_by (λ e. e.1.online && (not (is_excluded exclude e.1.did) && has_jti e.1.token_jti jti))
      agents

abbrev pub directory_entry : RegisteredAgent → DirectoryAgentEntry
directory_entry agent = record {
  did = agent.did;
  card = agent.card;
  online = agent.online;
  discoverable = agent.discoverable;
  visibility_realm = some agent.realm;
  last_seen = some agent.last_seen;
  home_relay = none;
}

unfoldable pub list_directory_entries : Agents → List DirectoryAgentEntry
list_directory_entries agents = map (λ e. directory_entry e.1) agents

unfoldable pub search : Texts → Agents → SearchQuery → ℕ → Option String → Option SearchPage
unfolding list_directory_entries
search texts agents q limit cursor =
    search_directory_entries texts (list_directory_entries agents) q limit cursor
