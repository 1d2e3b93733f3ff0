-- ===== src/Messaging/RateLimiter/Burst.antt =====
-- How much a token bucket of rate-limiter.ts lets through, and when it opens again.
use a.Base.{
  if◌then◌else◌, sub_ℕ, leb_ℤ, pos, ℕ, ◌+◌, ◌-◌, ◌*◌, ◌≤◌, min, ◌≡◌, subst, true, false, List, [],
  ◌∷◌, arith, dec_lt,
}
use a.Messaging.RateLimiter.{TokenBucket, refill, consume}

-- Times that never fall, from `t` on.
abbrev pub IsClock : ℕ → List ℕ → Type 0
IsClock t [] = Unit
IsClock t (now ∷ times) = (t ≤ now) × IsClock now times

abbrev pub last_time : ℕ → List ℕ → ℕ
last_time t [] = t
last_time t (now ∷ times) = last_time now times

last_time-le : (t : ℕ) (times : List ℕ) → IsClock t times → t ≤ last_time t times
last_time-le t [] h = omega arith
last_time-le t (now ∷ times) h = omega (arith, last_time-le now times h.1)

elapsed_add : (t u v r : ℕ) → t ≤ u → u ≤ v → (u - t) * r + (v - u) * r ≡ (v - t) * r
elapsed_add t u v r h k = let e : v - t ≡ (u - t) + (v - u) = omega arith in rw e (omega arith)

-- The units in the bucket after a refill, where the clock has not stepped back.
abbrev pub filled : TokenBucket → ℕ → ℕ → ℕ
filled b n now = min b.capacity (n + (now - b.last_refill) * b.refill_rate)

pub refill_forward :
    (b : TokenBucket) (n now : ℕ)
    → b.tokens ≡ pos n
    → b.last_refill ≤ now
    → (refill b now).tokens ≡ pos (filled b n now)
refill_forward b n now e le =
    let forward : sub_ℕ now b.last_refill ≡ pos (now - b.last_refill) = ground arith in
    rw (e, forward) (ground arith)

module _ (unit : ℕ) where
  -- The number of calls that are let through.
  unfoldable pub allowed : TokenBucket → List ℕ → ℕ
  allowed b [] = 0
  allowed b (now ∷ times) =
      let (b', passed) = consume unit b now in (if passed then 1 else 0) + allowed b' times

  -- One call: what is left, together with what was taken.
  record Taken (b : TokenBucket) (n now : ℕ) : Type 0 where
    left : ℕ
    tokens : (consume unit b now).0.tokens ≡ pos left
    balance : left + unit * (if (consume unit b now).1 then 1 else 0) ≡ filled b n now
    time : (consume unit b now).0.last_refill ≡ now
    capacity : (consume unit b now).0.capacity ≡ b.capacity
    rate : (consume unit b now).0.refill_rate ≡ b.refill_rate

  consume-Taken :
      (b : TokenBucket) (n now : ℕ) → b.tokens ≡ pos n → b.last_refill ≤ now → Taken b n now
  unfolding consume
  consume-Taken b n now e le =
      let full = refill_forward b n now e le in
      elim (dec_lt (filled b n now) unit) [
        | yes short ↦
            let test : leb_ℤ (pos unit) (refill b now).tokens ≡ false = rw full (ground arith) in
            record {
              left = filled b n now;
              tokens = rw test full;
              balance = rw test (omega arith);
              time = rw test;
              capacity = rw test;
              rate = rw test;
            }
        | no enough ↦
            let test : leb_ℤ (pos unit) (refill b now).tokens ≡ true = rw full (ground arith) in
            record {
              left = filled b n now - unit;
              tokens = rw (test, full) (ground arith);
              balance = rw test (omega arith);
              time = rw test;
              capacity = rw test;
              rate = rw test;
            }
      ]

  -- However calls are spread over a stretch of time in which the clock does not step back, the
  -- tokens that they are granted number at most those in the bucket at its start and those that
  -- the elapsed time refills.
  pub allowed_bound :
      (b : TokenBucket) (n : ℕ) (times : List ℕ)
      → b.tokens ≡ pos n
      → IsClock b.last_refill times
      → unit * allowed b times ≤ n + (last_time b.last_refill times - b.last_refill) * b.refill_rate
  unfolding allowed
  allowed_bound b n [] e c = omega arith
  allowed_bound b n (now ∷ times) e c =
      let t = consume-Taken b n now e c.0 in
      let rest = allowed_bound (consume unit b now).0 t.left times t.tokens (rw t.time c.1) in
      let rest' : unit * allowed (consume unit b now).0 times
          ≤ t.left + (last_time now times - now) * b.refill_rate =
        subst
          (λ r.
            unit * allowed (consume unit b now).0 times ≤ t.left + (last_time now times - now) * r)
          t.rate
          (subst
            (λ u.
              unit * allowed (consume unit b now).0 times
              ≤ t.left + (last_time u times - u) * (consume unit b now).0.refill_rate)
            t.time rest) in
      omega (
        arith,
        rest',
        t.balance,
        elapsed_add b.last_refill now (last_time now times) b.refill_rate c.0
            (last_time-le now times c.1),
      )

  -- However long the bucket has rested, and whatever the calls before, calls from `now` on are
  -- granted at most its capacity and what the time since `now` refills.
  pub allowed_burst :
      (b : TokenBucket) (n now : ℕ) (times : List ℕ)
      → b.tokens ≡ pos n
      → b.last_refill ≤ now
      → IsClock now times
      → unit * allowed b (now ∷ times) ≤ b.capacity + (last_time now times - now) * b.refill_rate
  unfolding allowed
  allowed_burst b n now times e le c =
      let t = consume-Taken b n now e le in
      let rest = allowed_bound (consume unit b now).0 t.left times t.tokens (rw t.time c) in
      let rest' : unit * allowed (consume unit b now).0 times
          ≤ t.left + (last_time now times - now) * b.refill_rate =
        subst
          (λ r.
            unit * allowed (consume unit b now).0 times ≤ t.left + (last_time now times - now) * r)
          t.rate
          (subst
            (λ u.
              unit * allowed (consume unit b now).0 times
              ≤ t.left + (last_time u times - u) * (consume unit b now).0.refill_rate)
            t.time rest) in
      omega (arith, rest', t.balance)
