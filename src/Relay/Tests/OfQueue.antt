-- ===== src/Relay/Tests/OfQueue.antt =====
-- The theorems on the queue at work on a queue with one message.
use a.Base.{filter, lookup, delete, ok, count_by, String, ◌≡◌, refl, some, [], ◌∷◌, string_eq}
use a.Relay.Level.{Level}
use a.Relay.Level.Model.{model}
use a.Relay.Queue.{
  whole, StoredQueuedMessage, QueuedMessage, default_config, all_bytes, serialize_queued_envelope,
  deserialize_queued_envelope, normalize_queued_message, stored, enqueue, read_message, read_stored,
  get_queue_size, cleanup_expired_messages, message_key,
}
use a.Relay.Queue.Cleanup.{IsCleaned, get-cleanup}
use a.Relay.Queue.Lifecycle.{fresh_message, read-enqueue}

abbrev level : Level StoredQueuedMessage
level = model StoredQueuedMessage

abbrev empty : level.Db
empty = ([], tt)

abbrev the_id : String
the_id = "m"

abbrev fresh : QueuedMessage
fresh = fresh_message default_config "m" "did:b" "did:a" (7 ∷ 255 ∷ []) 1000

abbrev one : level.Db
one = level.put empty (message_key "did:b" "m") (stored fresh)

serialized : serialize_queued_envelope (whole 7 ∷ whole 255 ∷ []) ≡ ok (7 ∷ 255 ∷ [])
unfolding serialize_queued_envelope all_bytes
serialized = refl

accepted :
    enqueue level default_config empty "did:b" "did:a" (whole 7 ∷ whole 255 ∷ []) "m" 1000
    ≡ ok (one, "m")
unfolding enqueue serialize_queued_envelope all_bytes get_queue_size count_by filter
accepted = refl

read_one : read_message level default_config one (message_key "did:b" "m") ≡ some fresh
unfolding read_message read_stored normalize_queued_message deserialize_queued_envelope all_bytes
    lookup delete
read_one = refl

get-cleanup_example :
    IsCleaned level default_config 86402000
      (level.get one "did:b:m")
      (level.get (cleanup_expired_messages level default_config one 86402000) "did:b:m")
get-cleanup_example = get-cleanup level default_config one 86402000 "did:b:m"

read-enqueue_example :
    (the_id ≡ the_id)
    × (read_message level default_config one (message_key "did:b" "m") ≡ some fresh)
read-enqueue_example =
    read-enqueue level default_config empty one "did:b" "did:a" "m" "m" (whole 7 ∷ whole 255 ∷ [])
      (7 ∷ 255 ∷ []) 1000 serialized accepted
