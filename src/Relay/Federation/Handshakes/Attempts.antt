-- ===== src/Relay/Federation/Handshakes/Attempts.antt =====
-- How many handshakes of one relay federation-manager.ts lets through.
use a.Base.{
  leb, if◌then◌else◌, ◌==◌, string_eq, Bool-cases, All, lookup, lookup-insert, ℕ, ◌+◌, ◌-◌, ◌*◌,
  ◌≤◌, ◌<◌, String, ◌≡◌, refl, ap, subst, inl, inr, Bool, true, false, ◌&&◌, Option, none, some,
  List, [], ◌∷◌, arith, nat_eq, bytes_eq,
}
use a.Relay.Directory.{Texts}
use a.Relay.Federation.Handshakes.{
  SlidingWindowCounter, FederationConfig, Handshakes, is_passed, normalize_source_key, next_counter,
  check_quarantines, is_quarantined, count_attempt, guard_unless, guard_keys,
  increment_window_counter, guard_incoming_federation_handshake,
}

pub record Attempt : Type 0 where
  pub remote_ip : Option String
  pub relay_did : String
  pub now : ℕ

abbrev is_key : String → Option String → Bool
is_key key none = false
is_key key (some other) = other == key

-- The attempts under one DID that are let through.
unfoldable pub passed_for : Texts → FederationConfig → String → Handshakes → List Attempt → ℕ
unfolding guard_incoming_federation_handshake
passed_for texts config key h [] = 0
passed_for texts config key h (a ∷ more) =
    let r = guard_incoming_federation_handshake texts config h a.remote_ip a.relay_did a.now in
    (if is_passed r.1 && is_key key (normalize_source_key texts (some a.relay_did)) then 1 else 0)
    + passed_for texts config key r.0 more

-- What a counter still lets through in a window's time from `t` on.
abbrev left : FederationConfig → ℕ → Option SlidingWindowCounter → ℕ
left config t none = config.handshake_rate_limit_max_attempts
left config t (some c) =
    if leb t c.window_start
    then config.handshake_rate_limit_max_attempts - c.count
    else config.handshake_rate_limit_max_attempts
      + (config.handshake_rate_limit_max_attempts - c.count)

attempts-check :
    (h : Handshakes) (ip did : Option String) (now : ℕ)
    → (check_quarantines h ip did now).0.attempts_by_did ≡ h.attempts_by_did
attempts-check h ip did now = elim (Bool-cases (is_quarantined h.quarantined_source_ips ip now).1) [
  | inl on ↦ rw on refl
  | inr off ↦ rw off refl
]

left-next :
    (config : FederationConfig) (t now : ℕ) (o : Option SlidingWindowCounter)
    → t ≤ now
    → now < t + config.handshake_rate_limit_window_ms
    → let next = next_counter o config.handshake_rate_limit_window_ms now in
      (if leb next.count config.handshake_rate_limit_max_attempts then 1 else 0)
        + left config t (some next)
      ≤ left config t o
left-next config t now none from until = ground arith
left-next config t now (some c) from until = ground arith

left-le :
    (config : FederationConfig) (t : ℕ) (o : Option SlidingWindowCounter)
    → left config t o ≤ 2 * config.handshake_rate_limit_max_attempts
left-le config t none = ground arith
left-le config t (some c) = ground arith

-- One counted attempt takes what it is let through from what its key is left.
left-count_attempt :
    (config : FederationConfig) (h : Handshakes) (ip did : Option String) (t now : ℕ) (key : String)
    → t ≤ now
    → now < t + config.handshake_rate_limit_window_ms
    → let r = count_attempt config h ip did now in
      (if is_passed r.1 && is_key key did then 1 else 0)
        + left config t (lookup key r.0.attempts_by_did)
      ≤ left config t (lookup key h.attempts_by_did)
unfolding count_attempt increment_window_counter
left-count_attempt config h ip none t now key from until = ground arith
left-count_attempt config h ip (some did) t now key from until =
    let window = config.handshake_rate_limit_window_ms in
    let o = lookup did h.attempts_by_did in
    let next = next_counter o window now in
    elim (Bool-cases (did == key)) [
      | inl same ↦
          let e : did ≡ key = (string_eq.beq_iff did key).0 same in
          let put = lookup-insert did key next h.attempts_by_did in
          rw (put, same)
            (ground
              (arith, left-next config t now o from until, ap (λ k. lookup k h.attempts_by_did) e))
      | inr other ↦ rw (lookup-insert did key next h.attempts_by_did, other) (ground arith)
    ]

left-guard_unless :
    (b : Bool) (config : FederationConfig) (h : Handshakes) (ip did : Option String) (t now : ℕ)
    (key : String)
    → t ≤ now
    → now < t + config.handshake_rate_limit_window_ms
    → let r = guard_unless b config h ip did now in
      (if is_passed r.1 && is_key key did then 1 else 0)
        + left config t (lookup key r.0.attempts_by_did)
      ≤ left config t (lookup key h.attempts_by_did)
left-guard_unless true config h ip did t now key from until = omega arith
left-guard_unless false config h ip did t now key from until =
    left-count_attempt config h ip did t now key from until

left-guard :
    (config : FederationConfig) (h : Handshakes) (ip did : Option String) (t now : ℕ) (key : String)
    → t ≤ now
    → now < t + config.handshake_rate_limit_window_ms
    → let r = guard_keys config h ip did now in
      (if is_passed r.1 && is_key key did then 1 else 0)
        + left config t (lookup key r.0.attempts_by_did)
      ≤ left config t (lookup key h.attempts_by_did)
unfolding guard_keys
left-guard config h ip did t now key from until =
    let checked = check_quarantines h ip did now in
    let r = guard_unless checked.1 config checked.0 ip did now in
    subst
      (λ m.
        (if is_passed r.1 && is_key key did then 1 else 0)
          + left config t (lookup key r.0.attempts_by_did)
        ≤ left config t (lookup key m))
      (attempts-check h ip did now)
      (left-guard_unless checked.1 config checked.0 ip did t now key from until)

passed-left :
    (texts : Texts) (config : FederationConfig) (key : String) (t : ℕ) (h : Handshakes)
    (attempts : List Attempt)
    → All (λ a. (t ≤ a.now) × (a.now < t + config.handshake_rate_limit_window_ms)) attempts
    → passed_for texts config key h attempts ≤ left config t (lookup key h.attempts_by_did)
unfolding passed_for guard_incoming_federation_handshake
passed-left texts config key t h [] times = omega arith
passed-left texts config key t h (a ∷ more) times =
    let ip = normalize_source_key texts a.remote_ip in
    let did = normalize_source_key texts (some a.relay_did) in
    let r = guard_keys config h ip did a.now in
    omega (
      arith,
      left-guard config h ip did t a.now key times.0.0 times.0.1,
      passed-left texts config key t r.0 more times.1,
    )

-- Of the handshakes under one DID that arrive within less than the window's time, whatever their
-- addresses and whatever else arrives, at most twice the limit are let through, and at most the
-- limit where the DID had no counter.
pub passed_bound :
    (texts : Texts) (config : FederationConfig) (key : String) (t : ℕ) (h : Handshakes)
    (attempts : List Attempt)
    → All (λ a. (t ≤ a.now) × (a.now < t + config.handshake_rate_limit_window_ms)) attempts
    → (passed_for texts config key h attempts ≤ 2 * config.handshake_rate_limit_max_attempts)
      × (lookup key h.attempts_by_did ≡ none
          → passed_for texts config key h attempts ≤ config.handshake_rate_limit_max_attempts)
passed_bound texts config key t h attempts times =
    let bound = passed-left texts config key t h attempts times in
    (
      omega (arith, bound, left-le config t (lookup key h.attempts_by_did)),
      λ absent. subst (λ o. passed_for texts config key h attempts ≤ left config t o) absent bound,
    )
