-- ===== src/Relay/Tests/OfClients.antt =====
-- The theorems on subscriptions, pre-keys and the directory at work on small states.
use a.Base.{
  ◌==◌, string_eq, or_else, filter, count_by, ℕ, ◌≤◌, String, ◌≡◌, refl, sym, ◌∙◌, ◌≢◌, Bool, true,
  false, Option, none, some, List, [], ◌∷◌, arith, bytes_eq, nat_eq,
}
use a.Relay.Level.{Level}
use a.Relay.Level.Model.{model}
use a.Relay.Subscriptions.{
  join_event, Subscription, SubscriptionManager, empty_manager, subscribe, dispatch, event_message,
}
use a.Relay.Subscriptions.Limits.{on_subscribe, start, reachable-IsLimited}
use a.Relay.Subscriptions.Dispatch.{dispatch_sent}
use a.Relay.PreKeys.{
  PublishedOneTimePreKey, PublishedPreKeyBundle, StoredPreKeyBundleRecord, whole, record_of,
  bundle_key, publish_bundles,
}
use a.Relay.PreKeys.InOrder.{IsInOrder}
use a.Relay.PreKeys.Claims.{handed_out, claim_all, claim_all-publish_bundles}
use a.Relay.Directory.{
  CardMetadata, Texts, DirectoryAgentEntry, SearchQuery, discovered, filtered_entries,
  trusted_entries, ordered_entries, unique_entries,
}
use a.Relay.Directory.Pages.{read_pages, read_pages_lem}

-- Different texts, told apart by the test of equality.
text_differs : (s t : String) → (s == t) ≡ false → s ≢ t
text_differs s t h e = cc (sym h ∙ (string_eq.beq_iff s t).1 e)

abbrev all_open : ℕ → Bool
all_open ws = true

abbrev subscribed : SubscriptionManager
subscribed = (subscribe empty_manager "did:a" 1 (join_event ∷ []) "public" "sub-1").0

reachable-IsLimited_example : count_by (λ e. e.1.did == "did:a") subscribed.subscriptions ≤ 10
reachable-IsLimited_example =
    reachable-IsLimited Unit all_open subscribed "did:a"
      (on_subscribe empty_manager "did:a" 1 (join_event ∷ []) "public" "sub-1" start)

abbrev card : Option ℕ
card = some 4

abbrev sub : Subscription
sub = record {
  id = "sub-1";
  did = "did:a";
  ws = 1;
  events = join_event ∷ [];
  realm = "public";
  event_timestamps = [];
}

abbrev manager : SubscriptionManager
manager = record { subscriptions = ("sub-1", sub) ∷ []; by_did = ("did:a", "sub-1" ∷ []) ∷ [] }

dispatch_sent_example :
    (dispatch all_open manager join_event "did:b" card "public" 9).1
    ≡ (1, event_message all_open join_event "did:b" card "public" sub) ∷ []
unfolding filter
dispatch_sent_example = dispatch_sent all_open manager join_event "did:b" card "public" 9

abbrev key : ℕ → PublishedOneTimePreKey
key n = record { key_id = whole n; public_key = some "k" }

abbrev bundle : PublishedPreKeyBundle
bundle = record {
  device_id = "d";
  identity_key_public = "i";
  signed_pre_key_public = "s";
  signed_pre_key_id = 1;
  signed_pre_key_signature = "g";
  one_time_pre_key_count = 3;
  last_resupply_at = 5;
  one_time_pre_keys = some (key 2 ∷ key 1 ∷ key 2 ∷ []);
}

abbrev keys : Level StoredPreKeyBundleRecord
keys = model StoredPreKeyBundleRecord

claim_all-publish_bundles_example :
    (ks : List PublishedOneTimePreKey) × IsInOrder (or_else bundle.one_time_pre_keys []) ks
    × (claim_all keys
          (publish_bundles keys ([], tt) "did:a" "public" (bundle ∷ []) 6)
          "did:a"
          "d"
          "public"
          (7 ∷ 8 ∷ 9 ∷ [])
        ≡ handed_out keys (7 ∷ 8 ∷ 9 ∷ []) ks)
claim_all-publish_bundles_example =
    claim_all-publish_bundles keys ([], tt) "did:a" "public" 6 [] bundle [] (7 ∷ 8 ∷ 9 ∷ []) tt

abbrev published : keys.Db
published = keys.put ([], tt) (bundle_key "did:a" "d") (record_of "did:a" "public" 6 bundle)

abbrev encode_toy : String → String
encode_toy s = s

abbrev plain : Texts
plain = record {
  trim = λ s. s;
  to_lower_case = λ s. s;
  split = λ s. s ∷ [];
  characters = λ s. s ∷ [];
  is_cjk = λ s. false;
  locale_le = λ s t. true;
  length_of = λ s. 2;
  encode = encode_toy;
  decode = λ s. s;
  decode-encode = λ s. refl;
  encode-empty = λ s e. e;
}

abbrev no_metadata : CardMetadata
no_metadata = record {
  visibility = none;
  federation_visibility = none;
  is_public = false;
  is_federated = false;
}

abbrev agent : String → DirectoryAgentEntry
agent did = record {
  did = did;
  card = record {
    did = did;
    name = "n";
    description = "d";
    capabilities = [];
    endpoints = [];
    metadata = no_metadata;
  };
  online = true;
  discoverable = true;
  visibility_realm = none;
  last_seen = none;
  home_relay = none;
}

abbrev everything : SearchQuery
everything = record {
  query = "";
  min_trust = none;
  requester_realm = "public";
  trust_summaries = none;
  capability = none;
}

abbrev agents : List DirectoryAgentEntry
agents = agent "a" ∷ agent "b" ∷ agent "a" ∷ agent "c" ∷ []

read_pages_lem_example :
    read_pages plain agents everything 2 4 none
    ≡ some (discovered (agent "a") ∷ discovered (agent "b") ∷ discovered (agent "c") ∷ [])
unfolding filtered_entries trusted_entries ordered_entries unique_entries filter
read_pages_lem_example =
    read_pages_lem plain agents everything 2 4 (omega arith)
      (
        text_differs "a" "" refl,
        (text_differs "b" "" refl, (text_differs "a" "" refl, (text_differs "c" "" refl, tt))),
      )
      (omega arith)
