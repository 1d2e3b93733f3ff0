-- ===== src/Relay/PreKeys/Claims.antt =====
-- What the claims of prekey-store.ts hand out.
use a.Base.{
  ◌==◌, string_eq, beq_refl, Bool-cases, or_else, All, ℕ, String, ◌≡◌, refl, ap, ◌∙◌, ◌≢◌, inl, inr,
  false, Option, none, some, List, [], ◌∷◌, ◌++◌, bytes_eq, nat_eq,
}
use a.Relay.Level.{Level}
use a.Relay.PreKeys.{
  PublishedOneTimePreKey, StoredPreKeyBundleRecord, ClaimedPreKeyBundle, PublishedPreKeyBundle,
  normalize_one_time_pre_keys, record_of, bundle_key, next_record, claimed, remaining, first,
  claim_from, claim_bundle, publish_bundles, put_records,
}
use a.Relay.PreKeys.InOrder.{IsInOrder, normalize-IsInOrder}

abbrev key_of : Option ClaimedPreKeyBundle → Option PublishedOneTimePreKey
key_of none = none
key_of (some bundle) = bundle.one_time_pre_key

module _ (level : Level StoredPreKeyBundleRecord) where
  open level use {Db, get, put}

  -- The one-time keys that claims at the given times hand out.
  unfoldable pub claim_all :
      Db → String → String → String → List ℕ → List (Option PublishedOneTimePreKey)
  unfolding claim_bundle
  claim_all db did device_id realm [] = []
  claim_all db did device_id realm (now ∷ times) =
      let (after, got) = claim_bundle level db did device_id realm now in
      key_of got ∷ claim_all after did device_id realm times

  -- The keys in order, then none.
  abbrev pub handed_out :
      List ℕ → List PublishedOneTimePreKey → List (Option PublishedOneTimePreKey)
  handed_out [] ks = []
  handed_out (now ∷ times) [] = none ∷ handed_out times []
  handed_out (now ∷ times) (k ∷ ks) = some k ∷ handed_out times ks

  handed_out_next :
      (now : ℕ) (times : List ℕ) (ks : List PublishedOneTimePreKey)
      → first ks ∷ handed_out times (remaining ks) ≡ handed_out (now ∷ times) ks
  handed_out_next now times [] = refl
  handed_out_next now times (k ∷ ks) = refl

  -- However often a stored bundle is claimed from its realm, each claim hands out the next of its
  -- one-time keys, each key once, and none when they are used up.
  pub claim_all_lem :
      (db : Db) (did device_id realm : String) (times : List ℕ) (stored : StoredPreKeyBundleRecord)
      → get db (bundle_key did device_id) ≡ some stored
      → stored.realm ≡ realm
      → claim_all db did device_id realm times ≡ handed_out times stored.one_time_pre_keys
  unfolding claim_all claim_bundle claim_from
  claim_all_lem db did device_id realm [] stored h same = refl
  claim_all_lem db did device_id realm (now ∷ times) stored h same =
      let key = bundle_key did device_id in
      let after = put db key (next_record now stored) in
      let granted : claim_bundle level db did device_id realm now ≡ (after, some (claimed stored)) =
        ap (claim_from level db key realm now) h
        ∙ rw (claim_from, (string_eq.beq_iff stored.realm realm).1 same) in
      ap (λ r. key_of r.1 ∷ claim_all r.0 did device_id realm times) granted
      ∙ ap (λ l. first stored.one_time_pre_keys ∷ l)
          (claim_all_lem after did device_id realm times (next_record now stored)
            (level.get-put db key (next_record now stored) key ∙ rw (beq_refl key)) same)
      ∙ handed_out_next now times stored.one_time_pre_keys

  get-put_records :
      (db : Db) (did realm : String) (now : ℕ) (bundles : List PublishedPreKeyBundle) (key : String)
      → All (λ b. (bundle_key did b.device_id == key) ≡ false) bundles
      → get (put_records level db did realm now bundles) key ≡ get db key
  unfolding put_records
  get-put_records db did realm now [] key h = refl
  get-put_records db did realm now (b ∷ bs) key h =
      get-put_records (put db (bundle_key did b.device_id) (record_of did realm now b)) did realm
        now bs key h.1
      ∙ level.get-put db (bundle_key did b.device_id) (record_of did realm now b) key
      ∙ rw h.0

  get-put_records_last :
      (db : Db) (did realm : String) (now : ℕ) (before : List PublishedPreKeyBundle)
      (b : PublishedPreKeyBundle) (after : List PublishedPreKeyBundle)
      → All (λ c. (bundle_key did c.device_id == bundle_key did b.device_id) ≡ false) after
      → get
          (put_records level db did realm now (before ++ (b ∷ after)))
          (bundle_key did b.device_id)
        ≡ some (record_of did realm now b)
  unfolding put_records
  get-put_records_last db did realm now [] b after h =
      get-put_records _ did realm now after (bundle_key did b.device_id) h
      ∙ level.get-put db (bundle_key did b.device_id) (record_of did realm now b)
          (bundle_key did b.device_id)
      ∙ rw (beq_refl (bundle_key did b.device_id))
  get-put_records_last db did realm now (c ∷ before) b after h =
      get-put_records_last (put db (bundle_key did c.device_id) (record_of did realm now c)) did
        realm now before b after h

  -- After a publication, claims from its realm for a device hand out the one-time keys of the last
  -- bundle published for the device that have a positive whole number and a text, in the rising
  -- order of their numbers and each number once, then none.
  pub claim_all-publish_bundles :
      (db : Db) (did realm : String) (now : ℕ) (before : List PublishedPreKeyBundle)
      (b : PublishedPreKeyBundle) (after : List PublishedPreKeyBundle) (times : List ℕ)
      → All (λ c. (bundle_key did c.device_id == bundle_key did b.device_id) ≡ false) after
      → (ks : List PublishedOneTimePreKey) × IsInOrder (or_else b.one_time_pre_keys []) ks
        × (claim_all
              (publish_bundles level db did realm (before ++ (b ∷ after)) now)
              did
              b.device_id
              realm
              times
            ≡ handed_out times ks)
  unfolding publish_bundles record_of
  claim_all-publish_bundles db did realm now before b after times h = (
    normalize_one_time_pre_keys (or_else b.one_time_pre_keys []),
    normalize-IsInOrder (or_else b.one_time_pre_keys []),
    claim_all_lem _ did b.device_id realm times (record_of did realm now b)
        (get-put_records_last _ did realm now before b after h) refl,
  )

  -- A claim from a realm other than the bundle's hands out nothing and changes nothing.
  pub claim_bundle_other_realm :
      (db : Db) (did device_id realm : String) (now : ℕ) (stored : StoredPreKeyBundleRecord)
      → get db (bundle_key did device_id) ≡ some stored
      → stored.realm ≢ realm
      → claim_bundle level db did device_id realm now ≡ (db, none)
  unfolding claim_bundle claim_from
  claim_bundle_other_realm db did device_id realm now stored h foreign =
      ap (claim_from level db (bundle_key did device_id) realm now) h
      ∙ elim (Bool-cases (stored.realm == realm)) [
        | inl e ↦ absurd (foreign ((string_eq.beq_iff stored.realm realm).0 e))
        | inr e ↦ rw (claim_from, e)
      ]
