-- ===== src/Relay/Tests/OfFederation.antt =====
-- The theorems on the federation of relays at work on small states.
use a.Base.{
  lookup, ℕ, ◌≤◌, String, ◌≡◌, refl, Bool, true, false, Option, none, some, List, [], ◌∷◌, arith,
  string_eq,
}
use a.Relay.Directory.{AgentCard, Capability, Texts}
use a.Relay.Level.{Level}
use a.Relay.Level.Model.{model}
use a.Relay.PreKeys.{StoredPreKeyBundleRecord}
use a.Relay.Federation.Types.{
  FederatedRelay, FederationManager, stopped_manager, authenticated, admitted, RouteRequestMessage,
}
use a.Relay.Federation.Handshakes.{
  default_federation_config, no_handshakes, guard_incoming_federation_handshake, quarantined,
}
use a.Relay.Federation.Handshakes.Attempts.{Attempt, passed_for, passed_bound}
use a.Relay.Federation.Handshakes.Quarantine.{fail_all, guard_after_failures}
use a.Relay.Federation.Peers.{is_data_plane_active}
use a.Relay.Federation.Exports.{full}
use a.Relay.Federation.Admission.{blank_relay}
use a.Relay.Federation.Messages.{RelayConfig, handle_route_request, first_active}
use a.Relay.Federation.Dispatch.{Surroundings, Relay}
use a.Relay.Federation.Dispatch.Hops.{Travels, start, hop, next_hop, travels_bound}
use a.Relay.Federation.Acceptance.{FederationHelloMessage, verified, accept_incoming_relay}
use a.Relay.Federation.Acceptance.Refusals.{IsRightly, accept_incoming_relay-IsRightly}
use a.Relay.Federation.Disconnection.{ReconnectConfig, handle_relay_disconnection}
use a.Relay.Federation.Disconnection.Losses.{IsLost, is_within, handle_relay_disconnection-IsLost}

abbrev texts : Texts
texts = record {
  trim = λ s. s;
  to_lower_case = λ s. s;
  split = λ s. s ∷ [];
  characters = λ s. s ∷ [];
  is_cjk = λ s. false;
  locale_le = λ s t. true;
  length_of = λ s. 2;
  encode = λ s. s;
  decode = λ s. s;
  decode-encode = λ s. refl;
  encode-empty = λ s e. e;
}

abbrev attempts : List Attempt
attempts =
    record { remote_ip = some "10.0.0.1"; relay_did = "did:r"; now = 100 }
    ∷ record { remote_ip = none; relay_did = "did:r"; now = 200 }
    ∷ []

passed_bound_example :
    (passed_for texts default_federation_config "did:r" no_handshakes attempts ≤ 10)
    × (lookup "did:r" no_handshakes.attempts_by_did ≡ none
        → passed_for texts default_federation_config "did:r" no_handshakes attempts ≤ 5)
passed_bound_example =
    passed_bound texts default_federation_config "did:r" 100 no_handshakes attempts
      ((omega arith, omega arith), ((omega arith, omega arith), tt))

abbrev failures : List (Option String × ℕ)
failures = (some "10.0.0.2", 20) ∷ (none, 30) ∷ []

guard_after_failures_example :
    (guard_incoming_federation_handshake texts default_federation_config
      (fail_all texts default_federation_config no_handshakes "did:r"
        ((some "10.0.0.1", 10) ∷ failures))
      (some "10.0.0.3")
      "did:r"
      300000).1
    ≡ quarantined
unfolding lookup
guard_after_failures_example =
    guard_after_failures texts default_federation_config "did:r" "did:r" refl no_handshakes
      (some "10.0.0.1") 10 failures (some "10.0.0.3") 300000 refl
      ((omega arith, omega arith), ((omega arith, omega arith), ((omega arith, omega arith), tt)))
      refl (omega arith)

abbrev is_open : ℕ → Bool
is_open ws = true

abbrev capability : String → Capability
capability id = record { id = id; name = ""; description = "" }

abbrev own_card : AgentCard
own_card = record {
  did = "did:own";
  name = "";
  description = "";
  capabilities = [];
  endpoints = "wss://own" ∷ [];
  metadata = record {
    visibility = none;
    federation_visibility = none;
    is_public = true;
    is_federated = false;
  };
}

abbrev config : RelayConfig
config = record {
  exports = record {
    own_did = "did:own";
    export_policy = full;
    selective_visibility_value = "public";
    realm_policies = [];
  };
  own_card = own_card;
  max_hops = 3;
}

abbrev peer : FederatedRelay
peer = record (blank_relay "did:r" 0) {
  ws = some 5;
  connected = true;
  admission_state = some admitted;
  admitted_by_peer = true;
}

abbrev manager : FederationManager
manager = record stopped_manager { federated_relays = ("did:r", peer) ∷ [] }

abbrev request : RouteRequestMessage
request = record {
  target_did = "did:x";
  envelope = 1 ∷ [];
  from_relay = "did:n";
  hop_count = 0;
  message_id = "m";
}

one_hop : Travels 3 request (next_hop config request) 1
unfolding handle_route_request first_active lookup is_data_plane_active
one_hop = hop start is_open is_open config [] manager 4 "did:n" refl refl

travels_bound_example :
    let msg = next_hop config request in
    (1 ≤ 3)
    × (msg.hop_count ≡ 1)
    × (msg.target_did ≡ request.target_did)
    × (msg.envelope ≡ request.envelope)
    × (msg.message_id ≡ request.message_id)
travels_bound_example = travels_bound 3 request (next_hop config request) 1 refl one_hop

abbrev surroundings : Surroundings
surroundings = record {
  is_open = is_open;
  can_send = is_open;
  texts = texts;
  config = config;
  agents = [];
  federation = default_federation_config;
  is_valid_card = λ did c. true;
  now = 9;
  process_uptime = 1;
}

abbrev keys : Level StoredPreKeyBundleRecord
keys = model StoredPreKeyBundleRecord

abbrev newcomer : FederatedRelay
newcomer = record peer { admission_state = some authenticated }

abbrev early : Relay keys
early = record {
  manager = record stopped_manager { federated_relays = ("did:r", newcomer) ∷ [] };
  pre_key_store = none;
}

abbrev hello : FederationHelloMessage
hello = record {
  relay_did = "did:r";
  relay_card = record own_card {
    did = "did:r";
    capabilities =
        capability "relay/message-routing"
        ∷ capability "relay/discovery"
        ∷ capability "relay/health-check"
        ∷ capability "relay/federation"
        ∷ [];
  };
  endpoints = [];
}

accept_incoming_relay-IsRightly_example : IsRightly manager.federated_relays hello verified (
    accept_incoming_relay texts default_federation_config config is_open manager 6 hello
      (some "10.0.0.1")
      verified
      9)
accept_incoming_relay-IsRightly_example =
    accept_incoming_relay-IsRightly texts default_federation_config config is_open manager 6 hello
      (some "10.0.0.1") verified 9

abbrev reconnect : ReconnectConfig
reconnect = record {
  reconnect_delay = 5000;
  max_reconnect_delay = 60000;
  max_reconnect_attempts = 5;
  health_check_interval = 30000;
}

handle_relay_disconnection-IsLost_example :
    let r = handle_relay_disconnection reconnect manager "did:r" 9 in
    IsLost "did:r" r.0 × (is_within 60000 r.1 ≡ true)
unfolding lookup
handle_relay_disconnection-IsLost_example =
    handle_relay_disconnection-IsLost reconnect manager "did:r" 9 peer refl
