-- ===== src/Messaging/RateLimiter.antt =====
-- js/core/protocol/src/messaging/rate-limiter.ts. The code counts tokens in floating point; here an
-- amount is a whole number of units, `unit` of them to a token, and a refill rate is in units per
-- millisecond, so that no rounding takes place: with 60000 units to a token the default rates are
-- 10, 60 and 600. The clock is an argument of each call, and may step back.
pub mod Burst
use a.Base.{
  leb, nat_beq, if◌then◌else◌, or_else, ℤ, pos_part, sub_ℕ, ◌+ℤ◌, ◌-ℤ◌, scale, leb_ℤ, min_ℤ,
  div_floor, pos, ℕ, ◌+◌, ◌-◌, ◌*◌, ◌/◌, Bool, true, false, Option, none, some,
}

pub record TokenBucketConfig : Type 0 where
  pub capacity : ℕ
  pub refill_rate : ℕ

pub record TokenBucket : Type 0 where
  pub tokens : ℤ
  pub last_refill : ℕ
  pub capacity : ℕ
  pub refill_rate : ℕ

-- The constructor: `initial_tokens ?? capacity`, `last_refill ?? Date.now()`.
unfoldable pub new_bucket : TokenBucketConfig → Option ℤ → Option ℕ → ℕ → TokenBucket
new_bucket config initial_tokens last_refill now = record {
  tokens = or_else initial_tokens (pos config.capacity);
  last_refill = or_else last_refill now;
  capacity = config.capacity;
  refill_rate = config.refill_rate;
}

abbrev pub refill : TokenBucket → ℕ → TokenBucket
refill b now =
    let elapsed = sub_ℕ now b.last_refill in
    let new_tokens = scale elapsed b.refill_rate in
    record b { tokens = min_ℤ (pos b.capacity) (b.tokens +ℤ new_tokens); last_refill = now }

module _ (unit : ℕ) where
  unfoldable pub consume : TokenBucket → ℕ → TokenBucket × Bool
  consume b now =
      let r = refill b now in
      if leb_ℤ (pos unit) r.tokens
      then (record r { tokens = r.tokens -ℤ pos unit }, true)
      else (r, false)

  unfoldable pub get_remaining : TokenBucket → ℕ → TokenBucket × ℤ
  get_remaining b now = let r = refill b now in (r, div_floor r.tokens unit)

  -- `Math.ceil(needed / refillRate)`; `none` is the infinity of a division by 0. The code divides in
  -- floating point, so that the wait that it reports may differ by a little.
  unfoldable pub get_reset_time : TokenBucket → ℕ → TokenBucket × Option ℕ
  get_reset_time b now =
      let r = refill b now in
      let needed = pos_part (pos unit -ℤ r.tokens) in
      if leb_ℤ (pos unit) r.tokens
      then (r, some 0)
      else if nat_beq r.refill_rate 0
      then (r, none)
      else (r, some ((needed + r.refill_rate - 1) / r.refill_rate))

pub record RateLimitTiers : Type 0 where
  pub new_agent : TokenBucketConfig
  pub established : TokenBucketConfig
  pub trusted : TokenBucketConfig

-- With 60000 units to a token.
unfoldable pub default_rate_limit_tiers : RateLimitTiers
default_rate_limit_tiers = record {
  new_agent = record { capacity = 10 * 60000; refill_rate = 10 };
  established = record { capacity = 100 * 60000; refill_rate = 60 };
  trusted = record { capacity = 1000 * 60000; refill_rate = 600 };
}

-- The trust score in thousandths.
unfoldable pub get_tier_config : ℕ → RateLimitTiers → TokenBucketConfig
get_tier_config trust_score tiers =
    if leb 600 trust_score
    then tiers.trusted
    else if leb 300 trust_score
    then tiers.established
    else tiers.new_agent
