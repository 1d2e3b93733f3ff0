-- ===== src/Relay/Queue/Selection.antt =====
-- Which messages queue.ts hands out: for an agent that connects, and for another attempt.
use a.Base.{All, ok, ℕ, ◌+◌, ◌<◌, String, ◌≡◌, some, List, nat_eq, bytes_eq}
use mathlib.Core.List.{Memᴰ}
use a.Relay.Level.{Level}
use a.Relay.Queue.{
  QueuedMessage, StoredQueuedMessage, inflight, is_inflight, normalize_queued_status,
  normalize_queued_message, is_inflight,
}

module _ (level : Level StoredQueuedMessage) where
  open level use {Db, get, entries}

  -- The messages picked are those that are stored, can be read and are wanted, all of them.
  abbrev pub IsPicked : (String → QueuedMessage → Type 0) → Db → List QueuedMessage → Type 0
  IsPicked Wanted db picked =
      All
        (λ r.
          (k : String) × (m : StoredQueuedMessage) × (get db k ≡ some m)
          × (normalize_queued_message m ≡ ok r)
          × Wanted k r)
        picked
      × ((k : String) (m : StoredQueuedMessage) (r : QueuedMessage)
          → get db k ≡ some m
          → normalize_queued_message m ≡ ok r
          → Wanted k r
          → Memᴰ r picked)

-- What reading a stored message keeps.
abbrev IsReading : StoredQueuedMessage → QueuedMessage → Type 0
IsReading m r =
    (r.status ≡ normalize_queued_status m.status)
    × (r.last_attempt_at ≡ m.last_attempt_at)
    × (r.delivery_attempts ≡ m.delivery_attempts)

-- In flight, last tried more than a minute ago, and tried less often than the limit.
abbrev pub IsDue : ℕ → ℕ → QueuedMessage → Type 0
IsDue max_retries now r =
    (r.status ≡ inflight)
    × ((t : ℕ) × (r.last_attempt_at ≡ some t) × (0 < t) × (t + 60000 < now))
    × (r.delivery_attempts < max_retries)
