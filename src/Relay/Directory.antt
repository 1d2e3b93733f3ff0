-- ===== src/Relay/Directory.antt =====
-- js/relay/src/registry.ts, the search: which agents a query finds, in which order, and its pages.
-- The texts' own operations (trim, lower case, the split at punctuation, the test for a character of
-- Chinese, Japanese or Korean, the order of the locale, base64) are JavaScript's, a parameter. Trust
-- is counted in units of a smallest positive number.
pub mod Named
pub mod Pages
pub mod Visible
use a.Base.{
  ltb, leb, nat_beq, if◌then◌else◌, ◌==◌, join, length, take, drop, filter, any, Map, lookup,
  count_by, ℕ, ◌+◌, min, String, ◌≡◌, Bool, true, false, not, ◌&&◌, ◌||◌, Option, none, some, List,
  [], ◌∷◌, ◌++◌, map, string_eq, bytes_eq, nat_eq,
}
use text.Mathlib.Text.{starts_with}
use mathlib.Core.Option.{map as map_option}

-- What JavaScript does on texts. A character is the text of one code point.
pub record Texts : Type 0 where
  pub trim : String → String
  pub to_lower_case : String → String
  -- `text.split(/[\s,.\-_!?;:'"()[\]{}]+/)`
  pub split : String → List String
  -- `[...chunk]`
  pub characters : String → List String
  -- the regular expression's test of one character
  pub is_cjk : String → Bool
  -- `left.localeCompare(right) <= 0`
  pub locale_le : String → String → Bool
  pub length_of : String → ℕ
  -- base64 of UTF-8
  pub encode : String → String
  pub decode : String → String
  pub decode-encode : (s : String) → decode (encode s) ≡ s
  pub encode-empty : (s : String) → encode s ≡ "" → s ≡ ""

-- Of a card, the fields that the search reads.
pub record Capability : Type 0 where
  pub id : String
  pub name : String
  pub description : String

-- What the relay reads of a card's metadata: the texts under `visibility` and `federationVisibility`,
-- and whether `public` or `federate` is true.
pub record CardMetadata : Type 0 where
  pub visibility : Option String
  pub federation_visibility : Option String
  pub is_public : Bool
  pub is_federated : Bool

pub record AgentCard : Type 0 where
  pub did : String
  pub name : String
  pub description : String
  pub capabilities : List Capability
  pub endpoints : List String
  pub metadata : CardMetadata

pub record DirectoryAgentEntry : Type 0 where
  pub did : String
  pub card : AgentCard
  pub online : Bool
  pub discoverable : Bool
  pub visibility_realm : Option String
  pub last_seen : Option ℕ
  pub home_relay : Option String

pub record DiscoveredAgent : Type 0 where
  pub did : String
  pub card : AgentCard
  pub online : Bool
  pub last_seen : Option ℕ
  pub home_relay : Option String

pub record SearchPage : Type 0 where
  pub agents : List DiscoveredAgent
  pub cursor : Option String
  pub total : ℕ

pub record SearchQuery : Type 0 where
  pub query : String
  pub min_trust : Option ℕ
  pub requester_realm : String
  pub trust_summaries : Option (Map String ℕ)
  pub capability : Option String

abbrev pub is_empty : String → Bool
is_empty s = s == ""

-- `extractCapabilityIds`
abbrev pub extract_capability_ids : AgentCard → List String
extract_capability_ids card = filter (λ id. not (is_empty id)) (map (λ c. c.id) card.capabilities)

-- The entries whose DID has not come before.
unfoldable pub unique_entries : List String → List DirectoryAgentEntry → List DirectoryAgentEntry
unique_entries seen_dids [] = []
unique_entries seen_dids (entry ∷ entries) =
    if any (λ did. did == entry.did) seen_dids
    then unique_entries seen_dids entries
    else entry ∷ unique_entries (entry.did ∷ seen_dids) entries

abbrev pub is_open_to : String → Option String → Bool
is_open_to requester_realm none = true
is_open_to requester_realm (some realm) = is_empty realm || realm == requester_realm

abbrev pub is_visible : String → DirectoryAgentEntry → Bool
is_visible requester_realm entry =
    entry.online && (entry.discoverable && is_open_to requester_realm entry.visibility_realm)

-- Inserts an entry with its score before the first that it does not come after.
unfoldable pub insert_ranked {ℓ} : {A : Type ℓ} → (A → A → Bool) → A → List A → List A
insert_ranked le x [] = x ∷ []
insert_ranked le x (y ∷ ys) = if le x y then x ∷ y ∷ ys else y ∷ insert_ranked le x ys

unfoldable pub rank {ℓ} : {A : Type ℓ} → (A → A → Bool) → List A → List A
unfolding insert_ranked
rank le [] = []
rank le (x ∷ xs) = insert_ranked le x (rank le xs)

abbrev pub discovered : DirectoryAgentEntry → DiscoveredAgent
discovered entry = record {
  did = entry.did;
  card = entry.card;
  online = entry.online;
  last_seen = entry.last_seen;
  home_relay = entry.home_relay;
}

-- The position of the first entry with the DID, if there is one.
unfoldable pub find_index : String → List DirectoryAgentEntry → Option ℕ
find_index did [] = none
find_index did (entry ∷ entries) =
    if entry.did == did then some 0 else map_option (λ i. i + 1) (find_index did entries)

-- The DID of the last entry of a page; the code throws where the page is empty.
unfoldable pub last_did : List DirectoryAgentEntry → Option String
last_did [] = none
last_did (entry ∷ []) = some entry.did
last_did (entry ∷ next ∷ entries) = last_did (next ∷ entries)

module _ (texts : Texts) where
  open texts use {
    trim, to_lower_case, split, characters, is_cjk, locale_le, length_of, encode, decode,
  }

  abbrev pub matches_capability_prefix : AgentCard → String → Bool
  matches_capability_prefix card query =
      let normalized = to_lower_case query in
      any
        (λ id.
          let candidate = to_lower_case id in
          candidate == normalized || starts_with candidate (join (normalized ∷ "/" ∷ [])))
        (extract_capability_ids card)

  -- The pending token in lower case, unless it is empty.
  abbrev pub flush : String → List String
  flush current = if is_empty current then [] else to_lower_case current ∷ []

  -- The loop over a chunk's characters.
  unfoldable pub cjk_tokens : String → List String → List String
  cjk_tokens current [] = flush current
  cjk_tokens current (ch ∷ chs) =
      let apart = flush current ++ (ch ∷ cjk_tokens "" chs) in
      let joined = cjk_tokens (join (current ∷ ch ∷ [])) chs in if is_cjk ch then apart else joined

  unfoldable pub chunk_tokens : String → List String
  unfolding cjk_tokens
  chunk_tokens chunk =
      if any is_cjk (characters chunk)
      then cjk_tokens "" (characters chunk)
      else (let lower = to_lower_case chunk in if ltb 1 (length_of lower) then lower ∷ [] else [])

  unfoldable pub tokens_of : List String → List String
  unfolding chunk_tokens
  tokens_of [] = []
  tokens_of (chunk ∷ chunks) =
      if is_empty chunk then tokens_of chunks else chunk_tokens chunk ++ tokens_of chunks

  unfoldable pub tokenize : String → List String
  unfolding tokens_of filter
  tokenize text = filter (λ t. not (is_empty t)) (tokens_of (split text))

  unfoldable pub capability_tokens : List Capability → List String
  unfolding tokenize
  capability_tokens [] = []
  capability_tokens (c ∷ cs) = tokenize c.name ++ (tokenize c.description ++ capability_tokens cs)

  -- The tokens as the code reads them, as a set.
  unfoldable pub extract_token_keys : AgentCard → List String
  unfolding capability_tokens tokenize
  extract_token_keys card =
      tokenize card.name ++ (tokenize card.description ++ capability_tokens card.capabilities)

  unfoldable pub entry_token_score : DirectoryAgentEntry → List String → ℕ
  unfolding extract_token_keys
  entry_token_score entry query_tokens =
      count_by (λ token. any (λ t. t == token) (extract_token_keys entry.card)) query_tokens

  -- The comparison of two scored entries, higher scores first.
  abbrev pub comes_first : DirectoryAgentEntry × ℕ → DirectoryAgentEntry × ℕ → Bool
  comes_first left right =
      ltb right.1 left.1 || (nat_beq left.1 right.1 && locale_le left.0.did right.0.did)

  -- The entries that share a token with the query, by their scores.
  unfoldable pub entries_by_score :
      List String → List DirectoryAgentEntry → List DirectoryAgentEntry
  unfolding entry_token_score rank filter
  entries_by_score query_tokens visible =
      map (λ r. r.0)
        (rank comes_first (
          filter (λ r. ltb 0 r.1)
            (map (λ entry. (entry, entry_token_score entry query_tokens)) visible)))

  abbrev pub trimmed_capability : Option String → String
  trimmed_capability none = ""
  trimmed_capability (some c) = to_lower_case (trim c)

  unfoldable pub ordered_entries : SearchQuery → List DirectoryAgentEntry → List DirectoryAgentEntry
  unfolding tokenize entries_by_score filter
  ordered_entries q visible =
      let capability = trimmed_capability q.capability in
      if not (is_empty capability)
      then filter (λ entry. matches_capability_prefix entry.card capability) visible
      else if is_empty (trim q.query)
      then visible
      else entries_by_score (tokenize (trim q.query)) visible

  abbrev pub is_trusted : ℕ → Option ℕ → Bool
  is_trusted min_trust none = false
  is_trusted min_trust (some average_score) = leb min_trust average_score

  -- The last filter, by trust.
  unfoldable pub trusted_entries :
      Option ℕ → Option (Map String ℕ) → List DirectoryAgentEntry → List DirectoryAgentEntry
  unfolding lookup filter
  trusted_entries none summaries ordered = ordered
  trusted_entries (some min_trust) none ordered = ordered
  trusted_entries (some min_trust) (some summaries) ordered =
      if nat_beq min_trust 0
      then ordered
      else filter (λ entry. is_trusted min_trust (lookup entry.did summaries)) ordered

  unfoldable pub filtered_entries :
      SearchQuery → List DirectoryAgentEntry → List DirectoryAgentEntry
  unfolding trusted_entries ordered_entries unique_entries filter
  filtered_entries q entries =
      trusted_entries q.min_trust q.trust_summaries
        (ordered_entries q (filter (is_visible q.requester_realm) (unique_entries [] entries)))

  unfoldable pub start_after : Option ℕ → ℕ
  start_after none = 0
  start_after (some i) = i + 1

  -- An empty cursor counts as none.
  unfoldable pub start_index : List DirectoryAgentEntry → Option String → ℕ
  unfolding start_after find_index
  start_index filtered none = 0
  start_index filtered (some cursor) =
      if is_empty cursor then 0 else start_after (find_index (decode cursor) filtered)

  unfoldable pub page_of : List DirectoryAgentEntry → ℕ → ℕ → Option SearchPage
  unfolding last_did
  page_of filtered start limit =
      let page = take limit (drop start filtered) in
      if ltb (start + limit) (length filtered)
      then map_option
          (λ did. record {
            agents = map discovered page;
            cursor = some (encode did);
            total = length filtered;
          })
          (last_did page)
      else some (record { agents = map discovered page; cursor = none; total = length filtered })

  -- None stands for the exception on the last element of an empty page.
  unfoldable pub search_directory_entries :
      List DirectoryAgentEntry → SearchQuery → ℕ → Option String → Option SearchPage
  unfolding filtered_entries start_index page_of
  search_directory_entries entries q limit cursor =
      let filtered = filtered_entries q entries in
      page_of filtered (start_index filtered cursor) (min limit 100)
