-- ===== src/Relay/Queue.antt =====
-- js/relay/src/queue.ts: the relay's queue of messages for agents that are offline. Message ids are
-- random and given as arguments, as is the clock; logging and the clean-up timer are left out.
pub mod Envelope
pub mod Cleanup
pub mod Lifecycle
pub mod Selection
use text.Mathlib.Text.{starts_with}
use a.Base.{
  ltb, leb, nat_beq, if◌then◌else◌, join, length, filter, Result, ◌>>=◌, ◌>>◌, guard, or_throw, ok,
  err, sort_by, count_by, ℕ, ◌+◌, ◌*◌, String, Bool, true, false, not, ◌&&◌, ◌||◌, Option, none,
  some, List, [], ◌∷◌, map,
}
use a.Relay.Level.{Level}

-- A JSON value where a byte may stand: a whole number from 0 on, or anything else.
pub data JsonValue : Type 0 where
  whole : ℕ → JsonValue
  other : JsonValue

abbrev pub QueuedEnvelope : Type 0
QueuedEnvelope = List ℕ

-- An array, the JSON of a Buffer, or an object. A key of an object is what `Number` makes of it, if
-- that is a whole number from 0 on.
pub data StoredQueuedEnvelope : Type 0 where
  array : List JsonValue → StoredQueuedEnvelope
  buffer : List JsonValue → StoredQueuedEnvelope
  object : List (Option ℕ × JsonValue) → StoredQueuedEnvelope

pub data QueuedMessageStatus : Type 0 where
  queued inflight expired : QueuedMessageStatus

pub data StoredQueuedMessageStatus : Type 0 where
  status : QueuedMessageStatus → StoredQueuedMessageStatus
  delivered acked : StoredQueuedMessageStatus

pub data QueueError : Type 0 where
  invalid_envelope queue_full : QueueError

pub record QueuedMessage : Type 0 where
  pub message_id : String
  pub to_did : String
  pub from_did : String
  pub envelope : QueuedEnvelope
  pub queued_at : ℕ
  pub expires_at : ℕ
  pub delivery_attempts : ℕ
  pub last_attempt_at : Option ℕ
  pub status : QueuedMessageStatus

pub record StoredQueuedMessage : Type 0 where
  pub message_id : String
  pub to_did : String
  pub from_did : String
  pub envelope : StoredQueuedEnvelope
  pub queued_at : ℕ
  pub expires_at : ℕ
  pub delivery_attempts : ℕ
  pub last_attempt_at : Option ℕ
  pub status : StoredQueuedMessageStatus

pub record MessageQueueConfig : Type 0 where
  pub max_messages_per_did : ℕ
  pub ttl_ms : ℕ
  pub max_retries : ℕ

abbrev pub default_config : MessageQueueConfig
default_config = record {
  max_messages_per_did = 1000;
  ttl_ms = 24 * 60 * 60 * 1000;
  max_retries = 3;
}

-- The byte that a value is, by `isByte`.
abbrev pub as_byte : JsonValue → Option ℕ
as_byte (whole n) = if leb n 255 then some n else none
as_byte other = none

-- `every(isByte)`, and the bytes.
unfoldable pub all_bytes : List JsonValue → Result QueueError (List ℕ)
all_bytes [] = ok []
all_bytes (v ∷ vs) = do b ← or_throw (as_byte v) invalid_envelope; bs ← all_bytes vs; ok (b ∷ bs)

unfoldable pub serialize_queued_envelope : List JsonValue → Result QueueError QueuedEnvelope
serialize_queued_envelope envelope = all_bytes envelope

-- The loop that reads an object's entries as index and byte.
unfoldable pub indexed_bytes : List (Option ℕ × JsonValue) → Result QueueError (List (ℕ × ℕ))
indexed_bytes [] = ok []
indexed_bytes ((key, v) ∷ es) = do
  i ← or_throw key invalid_envelope
  b ← or_throw (as_byte v) invalid_envelope
  rest ← indexed_bytes es
  ok ((i, b) ∷ rest)

-- `indexed.every(([index], expected) => index == expected)`
unfoldable pub is_dense : ℕ → List (ℕ × ℕ) → Bool
is_dense expected [] = true
is_dense expected ((i, b) ∷ es) = nat_beq i expected && is_dense (expected + 1) es

unfoldable pub deserialize_queued_envelope : StoredQueuedEnvelope → Result QueueError QueuedEnvelope
unfolding all_bytes
deserialize_queued_envelope (array vs) = all_bytes vs
deserialize_queued_envelope (buffer vs) = all_bytes vs
deserialize_queued_envelope (object es) = do
  indexed ← indexed_bytes es
  let sorted = sort_by (λ e. e.0) indexed
  guard (is_dense 0 sorted) invalid_envelope
  ok (map (λ e. e.1) sorted)

abbrev pub normalize_queued_status : StoredQueuedMessageStatus → QueuedMessageStatus
normalize_queued_status (status s) = s
normalize_queued_status delivered = inflight
normalize_queued_status acked = expired

unfoldable pub normalize_queued_message : StoredQueuedMessage → Result QueueError QueuedMessage
normalize_queued_message m = do
  envelope ← deserialize_queued_envelope m.envelope
  ok (record {
    message_id = m.message_id;
    to_did = m.to_did;
    from_did = m.from_did;
    envelope = envelope;
    queued_at = m.queued_at;
    expires_at = m.expires_at;
    delivery_attempts = m.delivery_attempts;
    last_attempt_at = m.last_attempt_at;
    status = normalize_queued_status m.status;
  })

-- A message as it is stored again: its envelope is an array by now.
abbrev pub stored : QueuedMessage → StoredQueuedMessage
stored m = record {
  message_id = m.message_id;
  to_did = m.to_did;
  from_did = m.from_did;
  envelope = array (map whole m.envelope);
  queued_at = m.queued_at;
  expires_at = m.expires_at;
  delivery_attempts = m.delivery_attempts;
  last_attempt_at = m.last_attempt_at;
  status = status m.status;
}

abbrev pub is_outstanding : QueuedMessageStatus → Bool
is_outstanding queued = true
is_outstanding inflight = true
is_outstanding expired = false

abbrev pub is_queued : QueuedMessageStatus → Bool
is_queued queued = true
is_queued _ = false

abbrev pub is_inflight : QueuedMessageStatus → Bool
is_inflight inflight = true
is_inflight _ = false

abbrev pub is_expired : QueuedMessageStatus → Bool
is_expired expired = true
is_expired _ = false

abbrev pub message_key : String → String → String
message_key did message_id = join (did ∷ ":" ∷ message_id ∷ [])

-- The message if it can be read, before the others.
unfoldable pub keep : Result QueueError QueuedMessage → List QueuedMessage → List QueuedMessage
keep (ok message) rest = message ∷ rest
keep (err e) rest = rest

-- The messages that can be read; those with an invalid envelope are passed over with a warning.
unfoldable pub readable : List (String × StoredQueuedMessage) → List QueuedMessage
unfolding keep
readable [] = []
readable ((k, m) ∷ es) = keep (normalize_queued_message m) (readable es)

unfoldable pub read_stored : Option StoredQueuedMessage → Option QueuedMessage
read_stored none = none
read_stored (some m) = elim (normalize_queued_message m) [
  | ok message ↦ some message
  | err e ↦ none
]

abbrev pub retry_threshold : ℕ
retry_threshold = 60 * 1000

-- `value.lastAttemptAt && now - value.lastAttemptAt > retryThreshold`
abbrev pub waited : Option ℕ → ℕ → Bool
waited none now = false
waited (some t) now = not (nat_beq t 0) && ltb (t + retry_threshold) now

pub record QueueStats : Type 0 where
  pub total : ℕ
  pub queued : ℕ
  pub inflight : ℕ
  pub expired : ℕ

module _ (level : Level StoredQueuedMessage) (config : MessageQueueConfig) where
  open level use {Db, get, put, del, entries}

  unfoldable pub get_queue_size : Db → String → ℕ
  get_queue_size db did = count_by (λ e. starts_with e.0 (join (did ∷ ":" ∷ []))) (entries db)

  unfoldable pub enqueue :
      Db → String → String → List JsonValue → String → ℕ → Result QueueError (Db × String)
  enqueue db to_did from_did envelope message_id now = do
    guard (ltb (get_queue_size db to_did) config.max_messages_per_did) queue_full
    bytes ← serialize_queued_envelope envelope
    ok (
      put db (message_key to_did message_id) (record {
        message_id = message_id;
        to_did = to_did;
        from_did = from_did;
        envelope = array (map whole bytes);
        queued_at = now;
        expires_at = now + config.ttl_ms;
        delivery_attempts = 0;
        last_attempt_at = none;
        status = status queued;
      }),
      message_id,
    )

  unfoldable pub get_queued_messages : Db → String → List QueuedMessage
  get_queued_messages db did =
      sort_by (λ m. m.queued_at)
        (readable (
          filter
            (λ e.
              starts_with e.0 (join (did ∷ ":" ∷ []))
              && is_outstanding (normalize_queued_status e.1.status))
            (entries db)))

  -- The stored message under a key, read; both errors are caught with a warning.
  unfoldable pub read_message : Db → String → Option QueuedMessage
  read_message db key = read_stored (get db key)

  -- Puts back what is read under a key, changed; nothing happens if it cannot be read.
  unfoldable pub update : (QueuedMessage → QueuedMessage) → Db → String → Option QueuedMessage → Db
  update change db key none = db
  update change db key (some m) = put db key (stored (change m))

  unfoldable pub mark_inflight : Db → String → String → ℕ → Db
  unfolding update
  mark_inflight db message_id did now =
      let key = message_key did message_id in
      update
        (λ m. record m {
          status = inflight;
          delivery_attempts = m.delivery_attempts + 1;
          last_attempt_at = some now;
        })
        db key (read_message db key)

  -- Deletes what is read under a key, and hands it back.
  unfoldable pub take_out : Db → String → Option QueuedMessage → Db × Option QueuedMessage
  take_out db key none = (db, none)
  take_out db key (some m) = (del db key, some m)

  unfoldable pub mark_acked : Db → String → String → Db × Option QueuedMessage
  unfolding take_out
  mark_acked db message_id did =
      let key = message_key did message_id in take_out db key (read_message db key)

  unfoldable pub get_messages_for_retry : Db → ℕ → List QueuedMessage
  get_messages_for_retry db now = readable (
      filter
        (λ e.
          is_inflight (normalize_queued_status e.1.status)
          && (waited e.1.last_attempt_at now && ltb e.1.delivery_attempts config.max_retries))
        (entries db))

  unfoldable pub mark_expired : Db → String → String → Db
  unfolding update
  mark_expired db message_id did =
      let key = message_key did message_id in
      update (λ m. record m { status = expired }) db key (read_message db key)

  abbrev pub is_stale : ℕ → String × StoredQueuedMessage → Bool
  is_stale now e = ltb e.1.expires_at now || is_expired (normalize_queued_status e.1.status)

  unfoldable pub del_all : Db → List (String × StoredQueuedMessage) → Db
  del_all db [] = db
  del_all db (e ∷ es) = del_all (del db e.0) es

  unfoldable pub cleanup_expired_messages : Db → ℕ → Db
  unfolding del_all
  cleanup_expired_messages db now = del_all db (filter (is_stale now) (entries db))

  unfoldable pub get_stats : Db → QueueStats
  get_stats db = record {
    total = length (entries db);
    queued = count_by (λ e. is_queued (normalize_queued_status e.1.status)) (entries db);
    inflight = count_by (λ e. is_inflight (normalize_queued_status e.1.status)) (entries db);
    expired = count_by (λ e. is_expired (normalize_queued_status e.1.status)) (entries db);
  }
