-- ===== src/Messaging/Defense/Verdicts.antt =====
-- The verdicts of `checkMessage` in defense.ts.
use a.Base.{
  leb, if◌then◌else◌, ◌==◌, Bool-cases, Option-cases, is_some, length, Map, lookup, insert, ℕ,
  String, ◌≡◌, refl, sym, ap, subst, ◌∙◌, ◌⊎◌, inl, inr, Bool, true, false, not, ◌&&◌, Option, none,
  some, arith, bytes_eq, nat_eq, string_eq,
}
use text.Mathlib.Text.{starts_with}
use a.Messaging.RateLimiter.{get_tier_config, TokenBucket}
use a.Messaging.Defense.{
  BlocklistEntry, AllowlistEntry, Defense, DefenseResult, MessageEnvelope, TrustSystem, TrustCheck,
  auto_block, too_low, go_on, TrustStatus, mark_as_seen, has_seen, is_allowed, stops, judge,
  limit_rate, check_message, check_trust, check_rate_limit, load_bucket, block_agent, drop_first,
  max_seen_cache,
}
use a.Messaging.Defense.Seen.{mark_as_seen-has_seen, mark_as_seen-IsCache, IsCache, HasNames}

-- The cache after a message is marked as seen.
abbrev remember : String → ℕ → Map String ℕ → Map String ℕ
remember id now m = insert id now (if leb max_seen_cache (length m) then drop_first m else m)

IsCache-same : (t s : Defense) → t.seen_cache ≡ s.seen_cache → IsCache s → IsCache t
IsCache-same t s e c = record { bounded = rw e c.bounded; named = subst HasNames (sym e) c.named }

module _ (unit : ℕ) (auto_block_text : ℕ → String) (trust : TrustSystem) where
  -- The tables of the state that a rejection leaves alone, and what an acceptance adds.
  record Effect (s : Defense) (id : String) (now : ℕ) (r : Defense × DefenseResult) : Type 0 where
    accepted_seen : r.1.allowed ≡ true → has_seen r.0 id ≡ true
    rejected_keeps : r.1.allowed ≡ false → r.0.seen_cache ≡ s.seen_cache
    allows_kept : r.0.allows ≡ s.allows
    shape : (r.0.seen_cache ≡ s.seen_cache) ⊎ (r.0.seen_cache ≡ (mark_as_seen s id now).seen_cache)

  Effect-accept :
      (s t : Defense) (id : String) (now : ℕ) (v : DefenseResult)
      → v.allowed ≡ true
      → t.seen_cache ≡ s.seen_cache
      → t.allows ≡ s.allows
      → Effect s id now (mark_as_seen t id now, v)
  unfolding mark_as_seen
  Effect-accept s t id now v h c e = record {
    accepted_seen = λ _. mark_as_seen-has_seen t id now;
    rejected_keeps = λ k. cc;
    allows_kept = e;
    shape = inr (ap (remember id now) c);
  }

  Effect-reject :
      (s t : Defense) (id : String) (now : ℕ) (v : DefenseResult)
      → v.allowed ≡ false
      → t.seen_cache ≡ s.seen_cache
      → t.allows ≡ s.allows
      → Effect s id now (t, v)
  Effect-reject s t id now v h c e = record {
    accepted_seen = λ k. cc;
    rejected_keeps = λ _. c;
    allows_kept = e;
    shape = inl c;
  }

  check_rate_limit-keeps :
      (s : Defense) (did : String) (score now : ℕ)
      → ((check_rate_limit unit s did score now).0.seen_cache ≡ s.seen_cache)
        × ((check_rate_limit unit s did score now).0.allows ≡ s.allows)
  unfolding check_rate_limit
  check_rate_limit-keeps s did score now = (refl, refl)

  limit_rate-Effect :
      (s : Defense) (envelope : MessageEnvelope) (solicited : Bool) (score : ℕ)
      (status : TrustStatus) (now : ℕ)
      → Effect s envelope.id now
          (limit_rate unit auto_block_text trust s envelope solicited score status now)
  unfolding limit_rate
  limit_rate-Effect s envelope true score status now =
      Effect-accept s s envelope.id now _ refl refl refl
  limit_rate-Effect s envelope false score status now =
      let t = check_rate_limit unit s envelope.from score now in
      let (seen, allows) = check_rate_limit-keeps s envelope.from score now in
      elim (Bool-cases t.1.allowed) [
        | inl pass ↦ rw pass (Effect-accept s t.0 envelope.id now _ refl seen allows)
        | inr stop ↦ rw stop (Effect-reject s t.0 envelope.id now _ refl seen allows)
      ]

  judge-Effect :
      (c : TrustCheck) (s : Defense) (envelope : MessageEnvelope) (solicited : Bool) (now : ℕ)
      → Effect s envelope.id now (judge unit auto_block_text trust c s envelope solicited now)
  unfolding judge block_agent
  judge-Effect (auto_block rate) s envelope solicited now =
      Effect-reject s _ envelope.id now _ refl refl refl
  judge-Effect (too_low score) s envelope solicited now =
      Effect-reject s _ envelope.id now _ refl refl refl
  judge-Effect (go_on score status) s envelope solicited now =
      limit_rate-Effect s envelope solicited score status now

  check_message-Effect :
      (s : Defense) (envelope : MessageEnvelope) (solicited : Bool) (now : ℕ)
      → Effect s envelope.id now (check_message unit auto_block_text trust s envelope solicited now)
  unfolding check_message
  check_message-Effect s envelope solicited now = elim (Bool-cases (is_allowed s envelope.from)) [
    | inl e ↦ rw e (Effect-accept s s envelope.id now _ refl refl refl)
    | inr e ↦
        elim (Bool-cases
          (stops unit auto_block_text trust solicited (lookup envelope.from s.blocks))) [
            | inl f ↦ rw (e, f) (Effect-reject s s envelope.id now _ refl refl refl)
            | inr f ↦ elim (Bool-cases (not solicited && trust.is_rate_limited envelope.from)) [
              | inl g ↦ rw (e, f, g) (Effect-reject s s envelope.id now _ refl refl refl)
              | inr g ↦ elim (Bool-cases (has_seen s envelope.id)) [
                | inl h ↦ rw (e, f, g, h) (Effect-reject s s envelope.id now _ refl refl refl)
                | inr h ↦
                    rw (e, f, g, h)
                      (judge-Effect
                        (check_trust s envelope.from solicited (trust.get_trust_score envelope.from)
                          now)
                        s envelope solicited now)
              ]
            ]
          ]
  ]

  is_allowed_same :
      (s t : Defense) (did : String) → t.allows ≡ s.allows → is_allowed t did ≡ is_allowed s did
  unfolding is_allowed
  is_allowed_same s t did e = ap (λ m. is_some (lookup did m)) e

  -- What the guards left over.
  check_message_passed :
      (s : Defense) (envelope : MessageEnvelope) (solicited : Bool) (now : ℕ)
      → (check_message unit auto_block_text trust s envelope solicited now).1.allowed ≡ true
      → (is_allowed s envelope.from ≡ true)
        ⊎ ((stops unit auto_block_text trust solicited (lookup envelope.from s.blocks) ≡ false)
            × (has_seen s envelope.id ≡ false)
            × ((solicited ≡ true) ⊎ (trust.is_rate_limited envelope.from ≡ false)))
  unfolding check_message
  check_message_passed s envelope solicited now = ground arith

  block_lem :
      (solicited : Bool) (o : Option BlocklistEntry) (entry : BlocklistEntry)
      → stops unit auto_block_text trust solicited o ≡ false
      → o ≡ some entry
      → (solicited ≡ true) × (starts_with entry.reason "Auto-blocked: " ≡ true)
  unfolding stops
  block_lem solicited none entry h e = absurd (cc e)
  block_lem solicited (some b) entry h e =
      let same : b ≡ entry = cc e in
      let reason : starts_with b.reason "Auto-blocked: "
          ≡ starts_with entry.reason "Auto-blocked: " =
        ap (λ x. starts_with x.reason "Auto-blocked: ") same in
      (ground (arith, h), sym reason ∙ ground (arith, h))

  seen_lem : (s : Defense) (id : String) → has_seen s id ≡ false → lookup id s.seen_cache ≡ none
  unfolding has_seen
  seen_lem s id h = elim (Option-cases (lookup id s.seen_cache)) [
    | inl e ↦ e
    | inr (t, e) ↦ absurd (cc (rw e at h))
  ]

  listed_lem :
      (s : Defense) (did : String)
      → is_allowed s did ≡ true
      → (entry : AllowlistEntry) × (lookup did s.allows ≡ some entry)
  unfolding is_allowed
  listed_lem s did h = elim (Option-cases (lookup did s.allows)) [
    | inl e ↦ absurd (cc (rw e at h))
    | inr (entry, e) ↦ (entry, e)
  ]

  -- A message is let through only if its sender is on the allow list, or else: the sender is not
  -- blocked, or the message is a solicited reply and the block's reason begins as that of an
  -- automatic block does; no message with its id is remembered; and the sender is not held back by
  -- the sybil defence, unless the message is a reply.
  pub check_message_guards :
      (s : Defense) (envelope : MessageEnvelope) (solicited : Bool) (now : ℕ)
      → (check_message unit auto_block_text trust s envelope solicited now).1.allowed ≡ true
      → ((entry : AllowlistEntry) × (lookup envelope.from s.allows ≡ some entry))
        ⊎ (((entry : BlocklistEntry)
              → lookup envelope.from s.blocks ≡ some entry
              → (solicited ≡ true) × (starts_with entry.reason "Auto-blocked: " ≡ true))
            × (lookup envelope.id s.seen_cache ≡ none)
            × ((solicited ≡ true) ⊎ (trust.is_rate_limited envelope.from ≡ false)))
  check_message_guards s envelope solicited now h =
      elim (check_message_passed s envelope solicited now h) [
        | inl listed ↦ inl (listed_lem s envelope.from listed)
        | inr (open_, fresh, held) ↦ inr (
          λ entry e. block_lem solicited (lookup envelope.from s.blocks) entry open_ e,
          seen_lem s envelope.id fresh,
          held,
        )
      ]

  -- When the check of a message let it through, a check made in the state that it left rejects every
  -- message with the same id whose sender is not on the allow list.
  pub check_message_twice :
      (s : Defense) (envelope again : MessageEnvelope) (solicited solicited' : Bool) (now later : ℕ)
      → (check_message unit auto_block_text trust s envelope solicited now).1.allowed ≡ true
      → again.id ≡ envelope.id
      → is_allowed s again.from ≡ false
      → (check_message unit auto_block_text trust
          (check_message unit auto_block_text trust s envelope solicited now).0
          again
          solicited'
          later).1.allowed
        ≡ false
  check_message_twice s envelope again solicited solicited' now later passed same stranger =
      let t = (check_message unit auto_block_text trust s envelope solicited now).0 in
      let effect = check_message-Effect s envelope solicited now in
      let seen : has_seen t again.id ≡ true = rw same (effect.accepted_seen passed) in
      let unknown_still : is_allowed t again.from ≡ false =
        is_allowed_same s t again.from effect.allows_kept ∙ stranger in
      elim (Bool-cases
        (check_message unit auto_block_text trust t again solicited' later).1.allowed) [
          | inr stopped ↦ stopped
          | inl through ↦ elim (check_message_passed t again solicited' later through) [
            | inl listed ↦ cc
            | inr (open_, fresh, ok_) ↦ cc
          ]
        ]

  -- The seen cache keeps within its bound through any check, if no message has the empty id.
  pub check_message-IsCache :
      (s : Defense) (envelope : MessageEnvelope) (solicited : Bool) (now : ℕ)
      → (envelope.id == "") ≡ false
      → IsCache s
      → IsCache (check_message unit auto_block_text trust s envelope solicited now).0
  check_message-IsCache s envelope solicited now named c =
      elim (check_message-Effect s envelope solicited now).shape [
        | inl same ↦ IsCache-same _ s same c
        | inr marked ↦ IsCache-same _ _ marked (mark_as_seen-IsCache s envelope.id now named c)
      ]

-- Once a sender has a token bucket, the trust score changes nothing of what the rate limit grants
-- it: the tier of its first message stays in force. Only the reported limit follows the score.
pub check_rate_limit_keeps_tier :
    (unit : ℕ) (s : Defense) (did : String) (b : TokenBucket) (score score' now : ℕ)
    → lookup did s.buckets ≡ some b
    → ((check_rate_limit unit s did score now).0 ≡ (check_rate_limit unit s did score' now).0)
      × ((check_rate_limit unit s did score now).1.allowed
          ≡ (check_rate_limit unit s did score' now).1.allowed)
      × ((check_rate_limit unit s did score now).1.remaining
          ≡ (check_rate_limit unit s did score' now).1.remaining)
unfolding check_rate_limit
check_rate_limit_keeps_tier unit s did b score score' now e =
    let same : load_bucket unit s did (get_tier_config score s.tiers) now
        ≡ load_bucket unit s did (get_tier_config score' s.tiers) now =
      rw (e, load_bucket) in
    rw same (refl, refl, refl)
