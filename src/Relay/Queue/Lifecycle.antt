-- ===== src/Relay/Queue/Lifecycle.antt =====
-- A message's way through queue.ts, the queue's bound, and which messages are retried.
use text.Mathlib.Text.{starts_with}
use a.Base.{
  ltb, ltb→lt, beq_refl, Bool-cases, join, filter, Map, delete, Result, >>=-eq-ok, ok, err,
  count_by, count_by-cons-le, count_by-perm, ℕ, ◌+◌, ◌≤◌, ◌<◌, String, ◌≡◌, refl, ap, subst, ◌∙◌,
  inl, inr, Bool, Option, none, some, List, [], ◌∷◌, arith, string_eq,
}
use a.Relay.Level.{Level}
use a.Relay.Queue.{
  JsonValue, QueueError, QueuedMessage, StoredQueuedMessage, MessageQueueConfig, queued, inflight,
  stored, message_key, serialize_queued_envelope, deserialize_queued_envelope,
  normalize_queued_message, enqueue, read_message, update, take_out, mark_inflight, mark_acked,
  get_queue_size, read_stored, queue_full,
}
use a.Relay.Queue.Envelope.{IsBytes, all_bytes-IsBytes, all_bytes-whole}

-- The message that `enqueue` stores.
abbrev pub fresh_message :
    MessageQueueConfig → String → String → String → List ℕ → ℕ → QueuedMessage
fresh_message config message_id to_did from_did bytes now = record {
  message_id = message_id;
  to_did = to_did;
  from_did = from_did;
  envelope = bytes;
  queued_at = now;
  expires_at = now + config.ttl_ms;
  delivery_attempts = 0;
  last_attempt_at = none;
  status = queued;
}

-- The message after one more attempt.
abbrev pub tried : ℕ → QueuedMessage → QueuedMessage
tried now m = record m {
  status = inflight;
  delivery_attempts = m.delivery_attempts + 1;
  last_attempt_at = some now;
}

normalize-stored :
    (m : QueuedMessage) → IsBytes m.envelope → normalize_queued_message (stored m) ≡ ok m
unfolding normalize_queued_message deserialize_queued_envelope
normalize-stored m h = rw (all_bytes-whole m.envelope h)

delete-count :
    (p : String × StoredQueuedMessage → Bool) (k : String) (m : Map String StoredQueuedMessage)
    → count_by p (delete k m) ≤ count_by p m
unfolding count_by delete filter
delete-count p k [] = omega arith
delete-count p k ((j, v) ∷ m) = ground (arith, delete-count p k m)

module _ (level : Level StoredQueuedMessage) (config : MessageQueueConfig) where
  open level use {Db, get, put, del, entries}

  read_put :
      (db : Db) (key : String) (m : QueuedMessage)
      → IsBytes m.envelope
      → read_message level config (put db key (stored m)) key ≡ some m
  unfolding read_message read_stored
  read_put db key m h =
      ap read_stored (level.get-put db key (stored m) key)
      ∙ rw (beq_refl key, read_stored, normalize-stored m h)

  read_del : (db : Db) (key : String) → read_message level config (del db key) key ≡ none
  unfolding read_message read_stored
  read_del db key = ap read_stored (level.get-del db key key) ∙ rw (beq_refl key)

  -- A message that is accepted for the queue can be read under its id, as it was accepted, queued
  -- and not yet tried.
  pub read-enqueue :
      (db db' : Db) (to_did from_did message_id id : String) (envelope : List JsonValue)
      (bytes : List ℕ) (now : ℕ)
      → serialize_queued_envelope envelope ≡ ok bytes
      → enqueue level config db to_did from_did envelope message_id now ≡ ok (db', id)
      → (id ≡ message_id)
        × (read_message level config db' (message_key to_did message_id)
            ≡ some (fresh_message config message_id to_did from_did bytes now))
  unfolding enqueue serialize_queued_envelope
  read-enqueue db db' to_did from_did message_id id envelope bytes now e h =
      let m = fresh_message config message_id to_did from_did bytes now in
      let key = message_key to_did message_id in
      elim (Bool-cases (ltb (get_queue_size level config db to_did) config.max_messages_per_did)) [
        | inl room ↦
            let made : Path (Result QueueError (Db × String))
                (ok (put db key (stored m), message_id)) (ok (db', id)) =
              rw (room, e) at h in
            let same : put db key (stored m) ≡ db' = cc in
            (
              cc,
              subst (λ d. read_message level config d key ≡ some m) same
                  (read_put db key m (all_bytes-IsBytes envelope bytes e)),
            )
        | inr full ↦
            let failed : Path (Result QueueError (Db × String)) (err queue_full) (ok (db', id)) =
              rw full at h in
            absurd (cc failed)
      ]

  -- A message that was read and is marked as in flight can be read with one more attempt, the time
  -- of it, and everything else as before.
  pub read-mark_inflight :
      (db : Db) (message_id did : String) (m : QueuedMessage) (now : ℕ)
      → IsBytes m.envelope
      → read_message level config db (message_key did message_id) ≡ some m
      → read_message level config
          (mark_inflight level config db message_id did now)
          (message_key did message_id)
        ≡ some (tried now m)
  unfolding mark_inflight update
  read-mark_inflight db message_id did m now b h =
      let key = message_key did message_id in
      ap (λ o. read_message level config (update level config (tried now) db key o) key) h
      ∙ read_put db key (tried now m) b

  abbrev IsAckedOnce : Db → String → Option QueuedMessage → Type 0
  IsAckedOnce db key o =
      let (after, m) = take_out level config db key o in
      (m ≡ o)
      × (take_out level config after key (read_message level config after key) ≡ (after, none))

  take_out_once :
      (db : Db) (key : String) (o : Option QueuedMessage)
      → read_message level config db key ≡ o
      → IsAckedOnce db key o
  unfolding take_out
  take_out_once db key none h = (refl, rw h)
  take_out_once db key (some m) h = (refl, ap (take_out level config _ key) (read_del db key))

  -- An acknowledged message is handed back once and is gone: a second acknowledgement finds none
  -- and changes nothing.
  pub mark_acked_once :
      (db : Db) (message_id did : String)
      → let (after, m) = mark_acked level config db message_id did in
        (m ≡ read_message level config db (message_key did message_id))
        × (mark_acked level config after message_id did ≡ (after, none))
  unfolding mark_acked
  mark_acked_once db message_id did = take_out_once db (message_key did message_id) _ refl

  get_queue_size-put :
      (db : Db) (did key : String) (m : StoredQueuedMessage)
      → get_queue_size level config (put db key m) did ≤ get_queue_size level config db did + 1
  unfolding get_queue_size
  get_queue_size-put db did key m =
      let p : String × StoredQueuedMessage → Bool = λ e. starts_with e.0 (join (did ∷ ":" ∷ [])) in
      let permuted = count_by-perm p (level.entries-put db key m) in
      let fewer = delete-count p key (entries db) in
      let one = count_by-cons-le p (key, m) (delete key (entries db)) in omega arith

  -- Accepting a message never takes an agent's queue past the configured size.
  pub get_queue_size-enqueue :
      (db db' : Db) (to_did from_did message_id id : String) (envelope : List JsonValue) (now : ℕ)
      → enqueue level config db to_did from_did envelope message_id now ≡ ok (db', id)
      → get_queue_size level config db' to_did ≤ config.max_messages_per_did
  unfolding enqueue get_queue_size
  get_queue_size-enqueue db db' to_did from_did message_id id envelope now h =
      elim (Bool-cases (ltb (get_queue_size level config db to_did) config.max_messages_per_did)) [
        | inl room ↦
            let (bytes, _, f) = >>=-eq-ok (serialize_queued_envelope envelope) _ (rw room at h) in
            let made = fresh_message config message_id to_did from_did bytes now in
            let same : put db (message_key to_did message_id) (stored made) ≡ db' = cc in
            let size : get_queue_size level config db to_did < config.max_messages_per_did =
              ltb→lt _ _ room in
            let grown =
              get_queue_size-put db to_did (message_key to_did message_id) (stored made) in
            subst (λ d. get_queue_size level config d to_did ≤ config.max_messages_per_did) same
              (omega arith)
        | inr full ↦
            let failed : Path (Result QueueError (Db × String)) (err queue_full) (ok (db', id)) =
              rw full at h in
            absurd (cc failed)
      ]
