-- ===== src/Messaging/Tests.antt =====
-- The theorems on the rate limiter and the defence at work on small states.
use a.Base.{
  lookup, pos, ℕ, ◌+◌, ◌-◌, ◌*◌, ◌≤◌, String, ◌≡◌, refl, ◌⊎◌, true, false, none, some, [], ◌∷◌,
  arith, string_eq,
}
use a.Messaging.RateLimiter.{
  TokenBucket, default_rate_limit_tiers, new_bucket, consume, get_remaining, get_reset_time,
  get_tier_config,
}
use a.Messaging.RateLimiter.Burst.{allowed, allowed_burst}
use text.Mathlib.Text.{starts_with}
use a.Messaging.Defense.{
  AllowlistEntry, BlocklistEntry, Defense, MessageEnvelope, TrustSystem, check_message, check_trust,
  check_rate_limit, load_bucket, judge, limit_rate, is_allowed, has_seen, stops,
}
use a.Messaging.Defense.Seen.{IsCache}
use a.Messaging.Defense.Verdicts.{
  check_message_guards, check_message_twice, check_message-IsCache, check_rate_limit_keeps_tier,
}

abbrev bucket : TokenBucket
bucket = record { tokens = pos 120000; last_refill = 0; capacity = 600000; refill_rate = 10 }

allowed_burst_example :
    60000 * allowed 60000 bucket (100 ∷ 200 ∷ 6000 ∷ []) ≤ 600000 + (6000 - 100) * 10
allowed_burst_example =
    allowed_burst 60000 bucket 120000 100 (200 ∷ 6000 ∷ []) refl (omega arith)
      (omega arith, (omega arith, tt))

abbrev nobody : TrustSystem
nobody = record { is_rate_limited = λ did. false; get_trust_score = λ did. none }

abbrev start : Defense
start = record {
  min_trust_score = 200;
  tiers = default_rate_limit_tiers;
  seen_ttl_ms = 3600000;
  seen_cache = [];
  buckets = [];
  recently_unblocked = [];
  blocks = [];
  allows = [];
  rate_limits = [];
}

abbrev one_bucket : Defense
one_bucket = record start { buckets = ("did:x", bucket) ∷ [] }

abbrev block_text : ℕ → String
block_text rate = "Auto-blocked"

abbrev envelope : MessageEnvelope
envelope = record { id = "m1"; from = "did:x" }

passes : (check_message 60000 block_text nobody start envelope false 5).1.allowed ≡ true
unfolding check_message is_allowed has_seen stops check_trust judge limit_rate check_rate_limit
    load_bucket new_bucket consume get_remaining get_reset_time get_tier_config
    default_rate_limit_tiers lookup
passes = refl

check_message_guards_example :
    ((entry : AllowlistEntry) × (lookup "did:x" start.allows ≡ some entry))
    ⊎ (((entry : BlocklistEntry)
          → lookup "did:x" start.blocks ≡ some entry
          → (false ≡ true) × (starts_with entry.reason "Auto-blocked: " ≡ true))
        × (lookup "m1" start.seen_cache ≡ none)
        × ((false ≡ true) ⊎ (nobody.is_rate_limited "did:x" ≡ false)))
check_message_guards_example =
    check_message_guards 60000 block_text nobody start envelope false 5 passes

check_message_twice_example :
    (check_message 60000 block_text nobody
      (check_message 60000 block_text nobody start envelope false 5).0
      envelope
      true
      6).1.allowed
    ≡ false
unfolding is_allowed lookup
check_message_twice_example =
    check_message_twice 60000 block_text nobody start envelope envelope false true 5 6 passes refl
      refl

check_message-IsCache_example :
    IsCache (check_message 60000 block_text nobody start envelope false 5).0
check_message-IsCache_example =
    check_message-IsCache 60000 block_text nobody start envelope false 5 refl
      (record { bounded = omega arith; named = tt })

check_rate_limit_keeps_tier_example :
    ((check_rate_limit 60000 one_bucket "did:x" 900 5).0
      ≡ (check_rate_limit 60000 one_bucket "did:x" 0 5).0)
    × ((check_rate_limit 60000 one_bucket "did:x" 900 5).1.allowed
        ≡ (check_rate_limit 60000 one_bucket "did:x" 0 5).1.allowed)
    × ((check_rate_limit 60000 one_bucket "did:x" 900 5).1.remaining
        ≡ (check_rate_limit 60000 one_bucket "did:x" 0 5).1.remaining)
unfolding lookup
check_rate_limit_keeps_tier_example =
    check_rate_limit_keeps_tier 60000 one_bucket "did:x" bucket 900 0 5 refl
