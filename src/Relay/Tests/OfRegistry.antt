-- ===== src/Relay/Tests/OfRegistry.antt =====
-- The theorems on the registry and on what the search shows at work on small states.
use a.Base.{
  if◌then◌else◌, All, lookup, ℕ, String, ◌≡◌, refl, Bool, true, false, none, [], ◌∷◌, string_eq,
}
use a.Relay.Directory.{CardMetadata, AgentCard, SearchQuery, Texts, filtered_entries}
use a.Relay.Directory.Visible.{IsVisibleTo, filtered_entries_visible}
use a.Relay.Registry.{
  RegisteredAgent, Agents, Admission, register, publish, cleanup, list_directory_entries,
}
use a.Relay.Registry.Presence.{is_gone_agent, lookup-cleanup}

abbrev no_metadata : CardMetadata
no_metadata = record {
  visibility = none;
  federation_visibility = none;
  is_public = false;
  is_federated = false;
}

abbrev card : String → AgentCard
card name = record {
  did = "did:a";
  name = name;
  description = "";
  capabilities = [];
  endpoints = [];
  metadata = no_metadata;
}

abbrev agent : RegisteredAgent
agent = record {
  did = "did:a";
  card = card "old";
  connected_at = 5;
  last_seen = 5;
  online = false;
  discoverable = false;
  realm = "public";
  token_jti = none;
  token_exp = none;
  ws = 1;
}

abbrev agents : Agents
agents = ("did:a", agent) ∷ []

abbrev live : ℕ → Bool
live ws = true

abbrev no_token : Admission
no_token = record { jti = none; exp = none }

lookup-cleanup_example :
    lookup "did:a" (cleanup agents 200000)
    ≡ (if is_gone_agent 200000 (lookup "did:a" agents) then none else lookup "did:a" agents)
unfolding lookup
lookup-cleanup_example = lookup-cleanup agents 200000 "did:a" (refl, tt)

abbrev registered : RegisteredAgent
registered = record agent { connected_at = 5; last_seen = 9; online = true; ws = 2 }

abbrev plain_texts : Texts
plain_texts = record {
  trim = λ s. s;
  to_lower_case = λ s. s;
  split = λ s. s ∷ [];
  characters = λ s. s ∷ [];
  is_cjk = λ s. false;
  locale_le = λ s t. true;
  length_of = λ s. 2;
  encode = λ s. s;
  decode = λ s. s;
  decode-encode = λ s. refl;
  encode-empty = λ s e. e;
}

abbrev by_name : SearchQuery
by_name = record {
  query = "old";
  min_trust = none;
  requester_realm = "public";
  trust_summaries = none;
  capability = none;
}

filtered_entries_visible_example : All (IsVisibleTo "public") (
    filtered_entries plain_texts by_name (
      list_directory_entries
        (publish
          (register live agents "did:a" (card "old") 2 "public" no_token 9).0
          "did:a"
          none).0))
filtered_entries_visible_example = filtered_entries_visible plain_texts by_name (
    list_directory_entries
      (publish (register live agents "did:a" (card "old") 2 "public" no_token 9).0 "did:a" none).0)
