-- ===== src/Relay/Federation/Handshakes/Quarantine.antt =====
-- When federation-manager.ts turns a relay away after failed handshakes.
use a.Base.{
  leb, Bool-cases, length, All, Map, lookup, insert, lookup-insert_same, ℕ, suc, ◌+◌, ◌≤◌, ◌<◌,
  String, ◌≡◌, refl, sym, ap, subst, inl, inr, true, false, Option, none, some, List, [], ◌∷◌,
  arith, string_eq,
}
use a.Relay.Directory.{Texts}
use a.Relay.Federation.Handshakes.{
  SlidingWindowCounter, FederationConfig, Handshakes, quarantined, normalize_source_key,
  next_counter, check_quarantines, is_quarantined, guard_unless, guard_keys,
  increment_window_counter, guard_incoming_federation_handshake, record_failure, set_key,
  record_incoming_federation_failure,
}

-- The state after failures of one relay, each with its address and its time.
unfoldable pub fail_all :
    Texts → FederationConfig → Handshakes → String → List (Option String × ℕ) → Handshakes
unfolding record_incoming_federation_failure
fail_all texts config h relay_did [] = h
fail_all texts config h relay_did ((ip, now) ∷ fs) =
    fail_all texts config (record_incoming_federation_failure texts config h relay_did ip now)
      relay_did fs

abbrev pub last_time : ℕ → List (Option String × ℕ) → ℕ
last_time now [] = now
last_time now ((ip, later) ∷ fs) = last_time later fs

-- So many failures are counted in a window that began at `t` or later.
abbrev Counts : ℕ → ℕ → Option SlidingWindowCounter → Type 0
Counts c t none = c ≡ 0
Counts c t (some counter) = (counter.count ≡ c) × (t ≤ counter.window_start)

next-Counts :
    (c t window now : ℕ) (o : Option SlidingWindowCounter)
    → Counts c t o
    → t ≤ now
    → now < t + window
    → Counts (suc c) t (some (next_counter o window now))
next-Counts c t window now none h from until = (omega (arith, h), from)
next-Counts c t window now (some counter) h from until =
    (ground (arith, h.0, h.1), ground (arith, h.1))

module _ (config : FederationConfig) (key : String) where
  -- A failure below the threshold is counted.
  record_failure_below :
      (counters : Map String SlidingWindowCounter) (quarantine : Map String ℕ) (c t now : ℕ)
      → Counts c t (lookup key counters)
      → t ≤ now
      → now < t + config.failed_handshake_window_ms
      → suc c < config.failed_handshake_threshold
      → Counts (suc c) t (lookup key (record_failure config counters quarantine (some key) now).0)
  unfolding record_failure increment_window_counter
  record_failure_below counters quarantine c t now h from until below =
      let n =
        next-Counts c t config.failed_handshake_window_ms now (lookup key counters) h from until in
      let next = next_counter (lookup key counters) config.failed_handshake_window_ms now in
      let small : leb config.failed_handshake_threshold next.count ≡ false =
        ground (arith, n.0, below) in
      let there : lookup key (insert key next counters) ≡ some next =
        lookup-insert_same key next counters in
      rw (small, there) n

  -- The failure that reaches the threshold puts the key in quarantine.
  record_failure_last :
      (counters : Map String SlidingWindowCounter) (quarantine : Map String ℕ) (c t now : ℕ)
      → Counts c t (lookup key counters)
      → t ≤ now
      → now < t + config.failed_handshake_window_ms
      → config.failed_handshake_threshold ≡ suc c
      → lookup key (record_failure config counters quarantine (some key) now).1
        ≡ some (now + config.failed_handshake_quarantine_ms)
  unfolding record_failure increment_window_counter set_key
  record_failure_last counters quarantine c t now h from until reached =
      let n =
        next-Counts c t config.failed_handshake_window_ms now (lookup key counters) h from until in
      let next = next_counter (lookup key counters) config.failed_handshake_window_ms now in
      let enough : leb config.failed_handshake_threshold next.count ≡ true =
        ground (arith, n.0, reached) in
      rw enough (lookup-insert_same key (now + config.failed_handshake_quarantine_ms) quarantine)

is_quarantined-eq-true :
    (key : String) (m : Map String ℕ) (now expires_at : ℕ)
    → lookup key m ≡ some expires_at
    → now < expires_at
    → (is_quarantined m (some key) now).1 ≡ true
unfolding is_quarantined
is_quarantined-eq-true key m now expires_at held until = rw held (ground arith)

guard_keys-quarantined :
    (config : FederationConfig) (key : String) (h : Handshakes) (ip : Option String)
    (now expires_at : ℕ)
    → lookup key h.quarantined_relay_dids ≡ some expires_at
    → now < expires_at
    → (guard_keys config h ip (some key) now).1 ≡ quarantined
unfolding guard_keys
guard_keys-quarantined config key h ip now expires_at held until =
    let checked = check_quarantines h ip (some key) now in
    let did_on = is_quarantined-eq-true key h.quarantined_relay_dids now expires_at held until in
    let on : checked.1 ≡ true =
      elim (Bool-cases (is_quarantined h.quarantined_source_ips ip now).1) [
        | inl ip_on ↦ rw ip_on refl
        | inr ip_off ↦ rw ip_off did_on
      ] in
    ap (λ b. (guard_unless b config checked.0 ip (some key) now).1) on

module _ (texts : Texts) (config : FederationConfig) (relay_did key : String)
    (named : normalize_source_key texts (some relay_did) ≡ some key) where
  fail_all_lem :
      (h : Handshakes) (ip : Option String) (now : ℕ) (fs : List (Option String × ℕ)) (c t : ℕ)
      → Counts c t (lookup key h.failures_by_did)
      → All (λ f. (t ≤ f.1) × (f.1 < t + config.failed_handshake_window_ms)) ((ip, now) ∷ fs)
      → config.failed_handshake_threshold ≡ c + suc (length fs)
      → lookup key (fail_all texts config h relay_did ((ip, now) ∷ fs)).quarantined_relay_dids
        ≡ some (last_time now fs + config.failed_handshake_quarantine_ms)
  unfolding fail_all record_incoming_federation_failure
  fail_all_lem h ip now [] c t counts times reached = rw named (
      record_failure_last config key h.failures_by_did h.quarantined_relay_dids c t now counts
        times.0.0 times.0.1 (omega (arith, reached)))
  fail_all_lem h ip now ((ip', later) ∷ fs) c t counts times reached =
      let counted =
        record_failure_below config key h.failures_by_did h.quarantined_relay_dids c t now counts
          times.0.0 times.0.1 (omega (arith, reached)) in
      fail_all_lem (record_incoming_federation_failure texts config h relay_did ip now) ip' later fs
        (suc c) t (rw named counted) times.1 (omega (arith, reached))

  -- A relay whose DID had no failures counted is, after as many failures as the threshold within
  -- less than the window's time, whatever their addresses, turned away as in quarantine at every
  -- time before the last failure's with the quarantine added, whatever the address.
  pub guard_after_failures :
      (h : Handshakes) (ip : Option String) (first : ℕ) (fs : List (Option String × ℕ))
      (remote_ip : Option String) (now : ℕ)
      → lookup key h.failures_by_did ≡ none
      → All
          (λ f. (first ≤ f.1) × (f.1 < first + config.failed_handshake_window_ms))
          ((ip, first) ∷ fs)
      → config.failed_handshake_threshold ≡ suc (length fs)
      → now < last_time first fs + config.failed_handshake_quarantine_ms
      → (guard_incoming_federation_handshake texts config
          (fail_all texts config h relay_did ((ip, first) ∷ fs))
          remote_ip
          relay_did
          now).1
        ≡ quarantined
  unfolding guard_incoming_federation_handshake
  guard_after_failures h ip first fs remote_ip now absent times reached until =
      let held =
        fail_all_lem h ip first fs 0 first (subst (Counts 0 first) (sym absent) refl) times
          (omega (arith, reached)) in
      let h' = fail_all texts config h relay_did ((ip, first) ∷ fs) in
      subst
        (λ k. (guard_keys config h' (normalize_source_key texts remote_ip) k now).1 ≡ quarantined)
        (sym named)
        (guard_keys-quarantined config key h' (normalize_source_key texts remote_ip) now
          (last_time first fs + config.failed_handshake_quarantine_ms) held until)
