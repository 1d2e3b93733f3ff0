-- ===== src/Messaging/Defense.antt =====
-- js/core/protocol/src/messaging/defense.ts: the checks on an incoming message.
-- The block list, the allow list and the stored buckets of the message store are maps in the state;
-- its copy of the seen cache is only written, and left out. One reading of the clock stands for all
-- those of a call. Scores and rates are in thousandths. The trust system is an interface.
pub mod Seen
pub mod Verdicts
use text.Mathlib.Text.{starts_with}
use a.Base.{
  ltb, leb, nat_beq, if◌then◌else◌, ◌==◌, or_else, is_some, length, filter, Map, lookup, insert,
  delete, ℤ, ℕ, ◌+◌, ◌*◌, String, Bool, true, false, not, ◌&&◌, Option, none, some, [], ◌∷◌, nat_eq,
  string_eq, bytes_eq,
}
use a.Messaging.RateLimiter.{
  TokenBucket, TokenBucketConfig, RateLimitTiers, new_bucket, consume, get_remaining,
  get_reset_time, get_tier_config,
}

pub data TrustStatus : Type 0 where
  unknown known suspicious blocked allowed : TrustStatus

-- The fields of a `TrustScore` that are read.
pub record TrustScore : Type 0 where
  pub interaction_score : ℕ
  pub total_interactions : Option ℕ
  pub recent_success_rate : Option ℕ
  pub status : TrustStatus

-- `trustSystem`: `none` where the lookup of a score throws.
pub record TrustSystem : Type 0 where
  pub is_rate_limited : String → Bool
  pub get_trust_score : String → Option TrustScore

pub record BlocklistEntry : Type 0 where
  pub reason : String
  pub blocked_at : ℕ
  pub blocked_by : String

pub record AllowlistEntry : Type 0 where
  pub added_at : ℕ
  pub note : Option String

pub record RateLimitState : Type 0 where
  pub tokens : ℤ
  pub last_refill : ℕ

pub record MessageEnvelope : Type 0 where
  pub id : String
  pub from : String

pub data RejectReason : Type 0 where
  is_blocked rate_limited duplicate trust_too_low : RejectReason

pub record DefenseResult : Type 0 where
  pub allowed : Bool
  pub reason : Option RejectReason
  pub trust_score : Option ℕ
  pub trust_status : Option TrustStatus
  pub remaining_tokens : Option ℤ
  pub reset_time : Option (Option ℕ)

pub record RateLimitResult : Type 0 where
  pub allowed : Bool
  pub remaining : ℤ
  pub reset_time : Option ℕ
  pub limit : ℕ

-- The middleware with its configuration and the store's tables.
pub record Defense : Type 0 where
  pub min_trust_score : ℕ
  pub tiers : RateLimitTiers
  pub seen_ttl_ms : ℕ
  pub seen_cache : Map String ℕ
  pub buckets : Map String TokenBucket
  pub recently_unblocked : Map String ℕ
  pub blocks : Map String BlocklistEntry
  pub allows : Map String AllowlistEntry
  pub rate_limits : Map String RateLimitState

abbrev pub max_seen_cache : ℕ
max_seen_cache = 10000

abbrev pub unblock_grace_period_ms : ℕ
unblock_grace_period_ms = 60 * 60 * 1000

abbrev pub rejected : RejectReason → DefenseResult
rejected reason = record {
  allowed = false;
  reason = some reason;
  trust_score = none;
  trust_status = none;
  remaining_tokens = none;
  reset_time = none;
}

unfoldable pub block_agent : Defense → String → String → String → ℕ → Defense
block_agent s did reason blocked_by now = record s {
  blocks =
      insert did (record { reason = reason; blocked_at = now; blocked_by = blocked_by }) s.blocks;
}

unfoldable pub unblock_agent : Defense → String → ℕ → Defense
unblock_agent s did now = record s {
  blocks = delete did s.blocks;
  recently_unblocked = insert did now s.recently_unblocked;
}

unfoldable pub allow_agent : Defense → String → Option String → ℕ → Defense
allow_agent s did note now = record s {
  allows = insert did (record { added_at = now; note = note }) s.allows;
}

unfoldable pub remove_from_allowlist : Defense → String → Defense
remove_from_allowlist s did = record s { allows = delete did s.allows }

unfoldable pub is_allowed : Defense → String → Bool
is_allowed s did = is_some (lookup did s.allows)

unfoldable pub has_seen : Defense → String → Bool
has_seen s message_id = is_some (lookup message_id s.seen_cache)

-- `keys().next().value`, deleted unless it is the empty text.
unfoldable pub drop_first : Map String ℕ → Map String ℕ
drop_first [] = []
drop_first ((k, t) ∷ m) = if k == "" then (k, t) ∷ m else delete k ((k, t) ∷ m)

unfoldable pub mark_as_seen : Defense → String → ℕ → Defense
mark_as_seen s message_id now =
    let evicted =
      if leb max_seen_cache (length s.seen_cache) then drop_first s.seen_cache else s.seen_cache in
    record s { seen_cache = insert message_id now evicted }

module _ (unit : ℕ) where
  -- The bucket that `checkRateLimit` works on.
  unfoldable pub load_bucket : Defense → String → TokenBucketConfig → ℕ → TokenBucket
  load_bucket s did config now = elim (lookup did s.buckets) [
    | some bucket ↦ bucket
    | none ↦ elim (lookup did s.rate_limits) [
      | some persisted ↦ new_bucket config (some persisted.tokens) (some persisted.last_refill) now
      | none ↦ new_bucket config none none now
    ]
  ]

  unfoldable pub check_rate_limit : Defense → String → ℕ → ℕ → Defense × RateLimitResult
  unfolding load_bucket
  check_rate_limit s did trust_score now =
      let config = get_tier_config trust_score s.tiers in
      let (spent, passed) = consume unit (load_bucket s did config now) now in
      let (rested, remaining) = get_remaining unit spent now in
      let (bucket, reset_time) = get_reset_time unit rested now in
      (
        record s {
          buckets = insert did bucket s.buckets;
          rate_limits =
              insert did (record { tokens = spent.tokens; last_refill = spent.last_refill })
                s.rate_limits;
        },
        record {
          allowed = passed;
          remaining = remaining;
          reset_time = reset_time;
          limit = config.capacity;
        },
      )

-- What the trust check decides: a rejection, or the score and status to go on with.
pub data TrustCheck : Type 0 where
  auto_block : ℕ → TrustCheck
  too_low : ℕ → TrustCheck
  go_on : ℕ → TrustStatus → TrustCheck

unfoldable pub in_grace_period : Defense → String → ℕ → Bool
in_grace_period s did now = elim (lookup did s.recently_unblocked) [
  | none ↦ false
  | some t ↦ not (nat_beq t 0) && ltb now (t + unblock_grace_period_ms)
]

-- `1 - rate > level`, for a rate in thousandths
abbrev pub fails_more : ℕ → ℕ → Bool
fails_more rate level = ltb (rate + level) 1000

unfoldable pub check_trust : Defense → String → Bool → Option TrustScore → ℕ → TrustCheck
check_trust s did solicited none now = go_on 0 unknown
check_trust s did solicited (some score) now =
    let total = or_else score.total_interactions 0 in
    let rate = or_else score.recent_success_rate 1000 in
    let trust_score =
      if not solicited && (leb 10 total && fails_more rate 500)
      then 0
      else score.interaction_score in
    if not solicited && (leb 20 total && (fails_more rate 700 && not (in_grace_period s did now)))
    then auto_block rate
    else if not solicited && ltb trust_score s.min_trust_score
    then too_low trust_score
    else go_on trust_score score.status

abbrev pub auto_block_prefix : String
auto_block_prefix = "Auto-blocked: "

module _ (unit : ℕ) (auto_block_text : ℕ → String) (trust : TrustSystem) where
  abbrev pub accepted :
      Defense
      → MessageEnvelope
      → ℕ
      → TrustStatus
      → Option RateLimitResult
      → ℕ
      → Defense × DefenseResult
  accepted s envelope score status limits now = (
    mark_as_seen s envelope.id now,
    record {
      allowed = true;
      reason = none;
      trust_score = some score;
      trust_status = some status;
      remaining_tokens = elim limits [ none ↦ none | some l ↦ some l.remaining ];
      reset_time = elim limits [ none ↦ none | some l ↦ some l.reset_time ];
    },
  )

  -- Step 5 and the end of `checkMessage`.
  unfoldable pub limit_rate :
      Defense → MessageEnvelope → Bool → ℕ → TrustStatus → ℕ → Defense × DefenseResult
  limit_rate s envelope true score status now = accepted s envelope score status none now
  limit_rate s envelope false score status now =
      let (limited, limits) = check_rate_limit unit s envelope.from score now in
      if limits.allowed then accepted limited envelope score status (some limits) now else (
        limited,
        record (rejected rate_limited) {
          remaining_tokens = some limits.remaining;
          reset_time = some limits.reset_time;
        },
      )

  -- Steps 4 and 5 of `checkMessage`.
  unfoldable pub judge : TrustCheck → Defense → MessageEnvelope → Bool → ℕ → Defense × DefenseResult
  unfolding limit_rate
  judge (auto_block rate) s envelope solicited now =
      (block_agent s envelope.from (auto_block_text rate) "local" now, rejected is_blocked)
  judge (too_low score) s envelope solicited now =
      (s, record (rejected trust_too_low) { trust_score = some score })
  judge (go_on score status) s envelope solicited now =
      limit_rate s envelope solicited score status now

  -- Whether a block of the sender is passed over.
  abbrev pub bypasses : Bool → BlocklistEntry → Bool
  bypasses solicited entry = solicited && starts_with entry.reason auto_block_prefix

  -- Whether the sender's entry in the block list stops the message.
  unfoldable pub stops : Bool → Option BlocklistEntry → Bool
  stops solicited none = false
  stops solicited (some entry) = not (bypasses solicited entry)

  unfoldable pub check_message : Defense → MessageEnvelope → Bool → ℕ → Defense × DefenseResult
  unfolding judge
  check_message s envelope solicited now =
      let did = envelope.from in
      if is_allowed s did
      then (
        mark_as_seen s envelope.id now,
        record {
          allowed = true;
          reason = none;
          trust_score = none;
          trust_status = some allowed;
          remaining_tokens = none;
          reset_time = none;
        },
      )
      else if stops solicited (lookup did s.blocks)
      then (s, rejected is_blocked)
      else if not solicited && trust.is_rate_limited did
      then (s, rejected rate_limited)
      else if has_seen s envelope.id
      then (s, rejected duplicate)
      else judge (check_trust s did solicited (trust.get_trust_score did) now) s envelope solicited
          now

-- The periodic clean-ups; a time is older than a limit if it is before the clock less the limit.
unfoldable pub cleanup_seen : Defense → ℕ → Defense
cleanup_seen s now = record s {
  seen_cache = filter (λ e. leb now (e.1 + s.seen_ttl_ms)) s.seen_cache;
  recently_unblocked = filter (λ e. leb now (e.1 + unblock_grace_period_ms)) s.recently_unblocked;
}

unfoldable pub cleanup_rate_limits : Defense → ℕ → Defense
cleanup_rate_limits s now = record s {
  buckets = filter (λ e. leb now (e.1.last_refill + 24 * 60 * 60 * 1000)) s.buckets;
  rate_limits = filter (λ e. leb now (e.1.last_refill + 24 * 60 * 60 * 1000)) s.rate_limits;
}
