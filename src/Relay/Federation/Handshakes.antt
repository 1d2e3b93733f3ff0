-- ===== src/Relay/Federation/Handshakes.antt =====
-- js/relay/src/federation-manager.ts: the limits on the handshakes of other relays. Attempts and
-- failures are counted by address and by DID in windows of time, and repeated failures put either in
-- quarantine. The clock and the language's `trim` are arguments.
pub mod Attempts
pub mod Quarantine
use a.Base.{
  ltb, leb, nat_beq, if◌then◌else◌, ◌==◌, Map, lookup, insert, delete, ℕ, ◌+◌, String, Bool, true,
  false, ◌||◌, Option, none, some, [], string_eq, nat_eq, bytes_eq,
}
use a.Relay.Directory.{Texts}

pub record SlidingWindowCounter : Type 0 where
  pub count : ℕ
  pub window_start : ℕ

abbrev pub Counters : Type 0
Counters = Map String SlidingWindowCounter

pub record FederationConfig : Type 0 where
  pub handshake_rate_limit_window_ms : ℕ
  pub handshake_rate_limit_max_attempts : ℕ
  pub failed_handshake_window_ms : ℕ
  pub failed_handshake_threshold : ℕ
  pub failed_handshake_quarantine_ms : ℕ

abbrev pub default_federation_config : FederationConfig
default_federation_config = record {
  handshake_rate_limit_window_ms = 60000;
  handshake_rate_limit_max_attempts = 5;
  failed_handshake_window_ms = 300000;
  failed_handshake_threshold = 3;
  failed_handshake_quarantine_ms = 300000;
}

-- The manager's maps of inbound handshakes.
pub record Handshakes : Type 0 where
  pub attempts_by_ip : Counters
  pub attempts_by_did : Counters
  pub failures_by_ip : Counters
  pub failures_by_did : Counters
  pub quarantined_source_ips : Map String ℕ
  pub quarantined_relay_dids : Map String ℕ

abbrev pub no_handshakes : Handshakes
no_handshakes = record {
  attempts_by_ip = [];
  attempts_by_did = [];
  failures_by_ip = [];
  failures_by_did = [];
  quarantined_source_ips = [];
  quarantined_relay_dids = [];
}

abbrev pub known_key : String → Option String
known_key normalized = if normalized == "" || normalized == "unknown" then none else some normalized

abbrev pub normalize_source_key : Texts → Option String → Option String
normalize_source_key texts none = none
normalize_source_key texts (some value) = known_key (texts.trim value)

-- Whether the expiry found, if any, is ahead, and the map without one that is past.
abbrev pub quarantine_check : Map String ℕ → String → Option ℕ → ℕ → Map String ℕ × Bool
quarantine_check m key none now = (m, false)
quarantine_check m key (some expires_at) now =
    if nat_beq expires_at 0
    then (m, false)
    else if leb expires_at now
    then (delete key m, false)
    else (m, true)

unfoldable pub is_quarantined : Map String ℕ → Option String → ℕ → Map String ℕ × Bool
unfolding lookup delete
is_quarantined m none now = (m, false)
is_quarantined m (some key) now = quarantine_check m key (lookup key m) now

abbrev pub next_counter : Option SlidingWindowCounter → ℕ → ℕ → SlidingWindowCounter
next_counter none window_ms now = record { count = 1; window_start = now }
next_counter (some current) window_ms now =
    if leb (current.window_start + window_ms) now
    then record { count = 1; window_start = now }
    else record current { count = current.count + 1 }

-- The counters and the new count, 0 where there is no key.
unfoldable pub increment_window_counter : Counters → Option String → ℕ → ℕ → Counters × ℕ
unfolding lookup insert
increment_window_counter m none window_ms now = (m, 0)
increment_window_counter m (some key) window_ms now =
    let next = next_counter (lookup key m) window_ms now in (insert key next m, next.count)

-- `clearCounter`, `clearQuarantine`
unfoldable pub clear_key {ℓ} : {V : Type ℓ} → Map String V → Option String → Map String V
unfolding delete
clear_key m none = m
clear_key m (some key) = delete key m

unfoldable pub set_key {ℓ} : {V : Type ℓ} → Map String V → Option String → V → Map String V
unfolding insert
set_key m none v = m
set_key m (some key) v = insert key v m

pub data GuardResult : Type 0 where
  passed quarantined rate_limited : GuardResult

abbrev pub is_passed : GuardResult → Bool
is_passed passed = true
is_passed quarantined = false
is_passed rate_limited = false

-- The check of the quarantines; the second is not looked at where the first holds.
abbrev pub check_quarantines : Handshakes → Option String → Option String → ℕ → Handshakes × Bool
check_quarantines h ip did now =
    let by_ip = is_quarantined h.quarantined_source_ips ip now in
    let by_did = is_quarantined h.quarantined_relay_dids did now in
    if by_ip.1 then (record h { quarantined_source_ips = by_ip.0 }, true) else (
      record h { quarantined_source_ips = by_ip.0; quarantined_relay_dids = by_did.0 },
      by_did.1,
    )

-- Counts the attempt by address and by DID.
unfoldable pub count_attempt :
    FederationConfig → Handshakes → Option String → Option String → ℕ → Handshakes × GuardResult
unfolding increment_window_counter
count_attempt config h ip did now =
    let window = config.handshake_rate_limit_window_ms in
    let ip_attempts = increment_window_counter h.attempts_by_ip ip window now in
    let did_attempts = increment_window_counter h.attempts_by_did did window now in
    (
      record h { attempts_by_ip = ip_attempts.0; attempts_by_did = did_attempts.0 },
      if ltb config.handshake_rate_limit_max_attempts ip_attempts.1
            || ltb config.handshake_rate_limit_max_attempts did_attempts.1
          then rate_limited
          else passed,
    )

abbrev pub guard_unless :
    Bool
    → FederationConfig
    → Handshakes
    → Option String
    → Option String
    → ℕ
    → Handshakes × GuardResult
guard_unless true config h ip did now = (h, quarantined)
guard_unless false config h ip did now = count_attempt config h ip did now

-- `guardIncomingFederationHandshake`, for the keys of the address and the DID.
unfoldable pub guard_keys :
    FederationConfig → Handshakes → Option String → Option String → ℕ → Handshakes × GuardResult
unfolding is_quarantined count_attempt
guard_keys config h ip did now =
    let checked = check_quarantines h ip did now in
    guard_unless checked.1 config checked.0 ip did now

unfoldable pub guard_incoming_federation_handshake :
    Texts → FederationConfig → Handshakes → Option String → String → ℕ → Handshakes × GuardResult
unfolding guard_keys
guard_incoming_federation_handshake texts config h remote_ip relay_did now =
    guard_keys config h (normalize_source_key texts remote_ip)
      (normalize_source_key texts (some relay_did)) now

-- One half of a failure: counts it, and quarantines the key when the threshold is reached.
unfoldable pub record_failure :
    FederationConfig → Counters → Map String ℕ → Option String → ℕ → Counters × Map String ℕ
unfolding increment_window_counter clear_key set_key
record_failure config counters quarantine key now =
    let failures = increment_window_counter counters key config.failed_handshake_window_ms now in
    if leb config.failed_handshake_threshold failures.1
    then (
      clear_key failures.0 key,
      set_key quarantine key (now + config.failed_handshake_quarantine_ms),
    )
    else (failures.0, quarantine)

unfoldable pub record_incoming_federation_failure :
    Texts → FederationConfig → Handshakes → String → Option String → ℕ → Handshakes
unfolding record_failure
record_incoming_federation_failure texts config h relay_did remote_ip now =
    let by_ip =
      record_failure config h.failures_by_ip h.quarantined_source_ips
        (normalize_source_key texts remote_ip) now in
    let by_did =
      record_failure config h.failures_by_did h.quarantined_relay_dids
        (normalize_source_key texts (some relay_did)) now in
    record h {
      failures_by_ip = by_ip.0;
      quarantined_source_ips = by_ip.1;
      failures_by_did = by_did.0;
      quarantined_relay_dids = by_did.1;
    }

unfoldable pub record_successful_incoming_federation_admission :
    Texts → Handshakes → String → Option String → Handshakes
unfolding clear_key
record_successful_incoming_federation_admission texts h relay_did remote_ip =
    let ip = normalize_source_key texts remote_ip in
    let did = normalize_source_key texts (some relay_did) in
    record h {
      failures_by_ip = clear_key h.failures_by_ip ip;
      failures_by_did = clear_key h.failures_by_did did;
      quarantined_source_ips = clear_key h.quarantined_source_ips ip;
      quarantined_relay_dids = clear_key h.quarantined_relay_dids did;
    }
