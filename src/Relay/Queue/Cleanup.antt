-- ===== src/Relay/Queue/Cleanup.antt =====
-- What the clean-up of queue.ts deletes.
use a.Base.{
  ltb, if◌then◌else◌, ◌==◌, string_eq, Bool-cases, filter, any, Map, lookup, ℕ, ◌≤◌, ◌<◌, String,
  ◌≡◌, refl, sym, ap, subst, ◌∙◌, ◌≢◌, inl, inr, Bool, false, ◌||◌, Option, none, some, List, [],
  ◌∷◌, arith, nat_eq, bytes_eq,
}
use a.Relay.Level.{Level, IsUnique, passes}
use a.Relay.Queue.{
  StoredQueuedMessage, StoredQueuedMessageStatus, status, delivered, acked, queued, inflight,
  expired, is_expired, normalize_queued_status, MessageQueueConfig, is_stale, del_all,
  cleanup_expired_messages,
}

any-filter :
    (p : String × StoredQueuedMessage → Bool) (k : String) (m : Map String StoredQueuedMessage)
    → IsUnique m
    → any (λ e. e.0 == k) (filter p m) ≡ passes p k (lookup k m)
unfolding filter lookup
any-filter p k [] u = refl
any-filter p k ((j, v) ∷ m) u = elim (Bool-cases (j == k)) [
  | inl same ↦
      let e : j ≡ k = (string_eq.beq_iff j k).0 same in
      let absent : lookup k m ≡ none = ap (λ i. lookup i m) (sym e) ∙ u.0 in
      let test : p (k, v) ≡ p (j, v) = ap (λ i. p (i, v)) (sym e) in
      let rest : any (λ e. e.0 == k) (filter p m) ≡ false =
        any-filter p k m u.1 ∙ ap (passes p k) absent in
      elim (Bool-cases (p (j, v))) [
        | inl kept ↦ rw (kept, same) (sym (test ∙ kept))
        | inr dropped ↦ rw (dropped, same) (rest ∙ sym (test ∙ dropped))
      ]
  | inr other ↦ ground (arith, other, any-filter p k m u.1)
]

module _ (level : Level StoredQueuedMessage) (config : MessageQueueConfig) where
  open level use {Db, get, del, entries}

  get-del_all :
      (db : Db) (es : List (String × StoredQueuedMessage)) (k : String)
      → get (del_all level config db es) k ≡ (if any (λ e. e.0 == k) es then none else get db k)
  unfolding del_all
  get-del_all db [] k = refl
  get-del_all db (e ∷ es) k = ground (arith, get-del_all (del db e.0) es k, level.get-del db e.0 k)

  get-cleanup_passes :
      (db : Db) (now : ℕ) (k : String)
      → get (cleanup_expired_messages level config db now) k
        ≡ (if passes (is_stale level config now) k (get db k) then none else get db k)
  unfolding cleanup_expired_messages
  get-cleanup_passes db now k =
      get-del_all db (filter (is_stale level config now) (entries db)) k
      ∙ rw (
        any-filter (is_stale level config now) k (entries db) (level.entries-IsUnique db),
        ← level.get-entries db k,
      )

  -- What a clean-up leaves of what was stored under a key.
  abbrev pub IsCleaned : ℕ → Option StoredQueuedMessage → Option StoredQueuedMessage → Type 0
  IsCleaned now none after = after ≡ none
  IsCleaned now (some m) after =
      (m.expires_at < now → after ≡ none)
      × (m.status ≡ status expired → after ≡ none)
      × (m.status ≡ acked → after ≡ none)
      × (now ≤ m.expires_at → m.status ≢ status expired → m.status ≢ acked → after ≡ some m)

  stale_lem :
      (now : ℕ) (k : String) (m : StoredQueuedMessage) (s : StoredQueuedMessageStatus)
      → m.status ≡ s
      → IsCleaned now
          (some m)
          (if ltb m.expires_at now || is_expired (normalize_queued_status s) then none else some m)
  stale_lem now k m (status queued) e =
      (λ h. ground arith, λ x. absurd (cc (e, x)), λ x. absurd (cc (e, x)), λ le x y. ground arith)
  stale_lem now k m (status inflight) e =
      (λ h. ground arith, λ x. absurd (cc (e, x)), λ x. absurd (cc (e, x)), λ le x y. ground arith)
  stale_lem now k m (status expired) e =
      (λ h. ground arith, λ x. ground arith, λ x. absurd (cc (e, x)), λ le x y. absurd (x e))
  stale_lem now k m delivered e =
      (λ h. ground arith, λ x. absurd (cc (e, x)), λ x. absurd (cc (e, x)), λ le x y. ground arith)
  stale_lem now k m acked e =
      (λ h. ground arith, λ x. absurd (cc (e, x)), λ x. ground arith, λ le x y. absurd (y e))

  cleaned_lem :
      (now : ℕ) (k : String) (o : Option StoredQueuedMessage)
      → IsCleaned now o (if passes (is_stale level config now) k o then none else o)
  cleaned_lem now k none = refl
  cleaned_lem now k (some m) = stale_lem now k m m.status refl

  -- The clean-up deletes a message if its expiry is before the clock or it is marked as expired or
  -- acknowledged, and leaves every other message as it was.
  pub get-cleanup :
      (db : Db) (now : ℕ) (k : String)
      → IsCleaned now (get db k) (get (cleanup_expired_messages level config db now) k)
  get-cleanup db now k =
      subst (IsCleaned now (get db k)) (sym (get-cleanup_passes db now k))
        (cleaned_lem now k (get db k))
