-- ===== src/Relay/PreKeys.antt =====
-- js/relay/src/prekey-store.ts: the bundles of public pre-keys that agents publish and others claim.
-- `withLock` runs the operations on one agent's bundles one after the other, so each is one step
-- here. The clock is an argument.
pub mod Claims
pub mod InOrder
use a.Base.{
  ltb, nat_beq, if◌then◌else◌, ◌==◌, or_else, join, length, filter, any, sort_by, ℕ, String, Bool,
  false, not, ◌&&◌, Option, none, some, List, [], ◌∷◌, map, nat_eq, bytes_eq, string_eq,
}
use Prim.Native.String.{len, slice}
use text.Mathlib.Text.{starts_with}
use a.Relay.Level.{Level}

-- A number of a key: a whole number from 0 on, or anything else.
pub data KeyId : Type 0 where
  whole : ℕ → KeyId
  other : KeyId

-- The public key is missing where the received value is not a text.
pub record PublishedOneTimePreKey : Type 0 where
  pub key_id : KeyId
  pub public_key : Option String

pub record PublishedPreKeyBundle : Type 0 where
  pub device_id : String
  pub identity_key_public : String
  pub signed_pre_key_public : String
  pub signed_pre_key_id : ℕ
  pub signed_pre_key_signature : String
  pub one_time_pre_key_count : ℕ
  pub last_resupply_at : ℕ
  pub one_time_pre_keys : Option (List PublishedOneTimePreKey)

pub record StoredPreKeyBundleRecord : Type 0 where
  pub did : String
  pub realm : String
  pub updated_at : ℕ
  pub device_id : String
  pub identity_key_public : String
  pub signed_pre_key_public : String
  pub signed_pre_key_id : ℕ
  pub signed_pre_key_signature : String
  pub one_time_pre_key_count : ℕ
  pub last_resupply_at : ℕ
  pub one_time_pre_keys : List PublishedOneTimePreKey

pub record ClaimedPreKeyBundle : Type 0 where
  pub device_id : String
  pub identity_key_public : String
  pub signed_pre_key_public : String
  pub signed_pre_key_id : ℕ
  pub signed_pre_key_signature : String
  pub one_time_pre_key_count : ℕ
  pub one_time_pre_key : Option PublishedOneTimePreKey
  pub remaining_one_time_pre_key_count : ℕ
  pub last_resupply_at : ℕ

abbrev pub number_of : KeyId → ℕ
number_of (whole n) = n
number_of other = 0

-- `Number.isInteger(keyId) && keyId > 0`
abbrev pub is_positive : KeyId → Bool
is_positive (whole n) = ltb 0 n
is_positive other = false

-- `typeof publicKey === 'string' && publicKey.length > 0`
abbrev pub is_given : Option String → Bool
is_given none = false
is_given (some key) = not (key == "")

abbrev pub id_number : PublishedOneTimePreKey → ℕ
id_number k = number_of k.key_id

abbrev pub is_usable : PublishedOneTimePreKey → Bool
is_usable k = is_positive k.key_id && is_given k.public_key

-- The second filter, with the set `seen`.
unfoldable pub unseen : List ℕ → List PublishedOneTimePreKey → List PublishedOneTimePreKey
unseen seen [] = []
unseen seen (k ∷ ks) =
    if any (λ n. nat_beq n (id_number k)) seen
    then unseen seen ks
    else k ∷ unseen (id_number k ∷ seen) ks

unfoldable pub normalize_one_time_pre_keys :
    List PublishedOneTimePreKey → List PublishedOneTimePreKey
unfolding sort_by filter unseen
normalize_one_time_pre_keys keys = unseen [] (sort_by id_number (filter is_usable keys))

-- `normalizeBundle`, with what `publishBundles` adds.
unfoldable pub record_of : String → String → ℕ → PublishedPreKeyBundle → StoredPreKeyBundleRecord
unfolding normalize_one_time_pre_keys
record_of did realm updated_at bundle =
    let keys = normalize_one_time_pre_keys (or_else bundle.one_time_pre_keys []) in
    record {
      did = did;
      realm = realm;
      updated_at = updated_at;
      device_id = bundle.device_id;
      identity_key_public = bundle.identity_key_public;
      signed_pre_key_public = bundle.signed_pre_key_public;
      signed_pre_key_id = bundle.signed_pre_key_id;
      signed_pre_key_signature = bundle.signed_pre_key_signature;
      one_time_pre_key_count = length keys;
      last_resupply_at = bundle.last_resupply_at;
      one_time_pre_keys = keys;
    }

abbrev pub bundle_key : String → String → String
bundle_key did device_id = join ("bundle:" ∷ did ∷ ":" ∷ device_id ∷ [])

abbrev pub remaining : List PublishedOneTimePreKey → List PublishedOneTimePreKey
remaining [] = []
remaining (k ∷ ks) = ks

abbrev pub first : List PublishedOneTimePreKey → Option PublishedOneTimePreKey
first [] = none
first (k ∷ ks) = some k

-- The record after its first one-time key is claimed, and what the requester gets.
abbrev pub next_record : ℕ → StoredPreKeyBundleRecord → StoredPreKeyBundleRecord
next_record now stored = record stored {
  one_time_pre_keys = remaining stored.one_time_pre_keys;
  one_time_pre_key_count = length (remaining stored.one_time_pre_keys);
  updated_at = now;
}

abbrev pub claimed : StoredPreKeyBundleRecord → ClaimedPreKeyBundle
claimed stored = record {
  device_id = stored.device_id;
  identity_key_public = stored.identity_key_public;
  signed_pre_key_public = stored.signed_pre_key_public;
  signed_pre_key_id = stored.signed_pre_key_id;
  signed_pre_key_signature = stored.signed_pre_key_signature;
  one_time_pre_key_count = length (remaining stored.one_time_pre_keys);
  one_time_pre_key = first stored.one_time_pre_keys;
  remaining_one_time_pre_key_count = length (remaining stored.one_time_pre_keys);
  last_resupply_at = stored.last_resupply_at;
}

module _ (level : Level StoredPreKeyBundleRecord) where
  open level use {Db, get, put, del, entries}

  -- The key is in the iterator's range, and its device is not among the published ones.
  abbrev pub is_dropped : String → List PublishedPreKeyBundle → String → Bool
  is_dropped did bundles key =
      let prefix = bundle_key did "" in
      starts_with key prefix
      && not (any (λ b. b.device_id == slice key (len prefix) (len key)) bundles)

  unfoldable pub del_keys : Db → List String → Db
  del_keys db [] = db
  del_keys db (k ∷ ks) = del_keys (del db k) ks

  unfoldable pub put_records : Db → String → String → ℕ → List PublishedPreKeyBundle → Db
  unfolding record_of
  put_records db did realm now [] = db
  put_records db did realm now (b ∷ bs) =
      put_records (put db (bundle_key did b.device_id) (record_of did realm now b)) did realm now bs

  unfoldable pub publish_bundles : Db → String → String → List PublishedPreKeyBundle → ℕ → Db
  unfolding del_keys put_records filter
  publish_bundles db did realm bundles now =
      let dropped = filter (is_dropped did bundles) (map (λ e. e.0) (entries db)) in
      put_records (del_keys db dropped) did realm now bundles

  unfoldable pub claim_from :
      Db → String → String → ℕ → Option StoredPreKeyBundleRecord → Db × Option ClaimedPreKeyBundle
  claim_from db key requester_realm now none = (db, none)
  claim_from db key requester_realm now (some stored) =
      if stored.realm == requester_realm
      then (put db key (next_record now stored), some (claimed stored))
      else (db, none)

  unfoldable pub claim_bundle : Db → String → String → String → ℕ → Db × Option ClaimedPreKeyBundle
  unfolding claim_from
  claim_bundle db did device_id requester_realm now =
      let key = bundle_key did device_id in claim_from db key requester_realm now (get db key)
