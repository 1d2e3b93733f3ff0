-- ===== src/Trust/Sybil.antt =====
-- js/core/protocol/src/trust/sybil-defense.ts. The clock is an argument of each call; SHA-256 over
-- the UTF-8 text of a challenge is a parameter, and gives a list of bytes.
pub mod ZeroBits
pub mod Limits
use a.Base.{
  ltb, leb, nat_beq, if◌then◌else◌, or_else, is_some, join, length, filter, Map, lookup, insert, ℕ,
  zero, suc, ◌+◌, ◌*◌, ◌/◌, ◌%◌, String, Bool, false, not, none, some, List, [], ◌∷◌, ◌++◌,
  string_eq,
}

pub record Challenge : Type 0 where
  pub did : String
  pub difficulty : ℕ
  pub nonce : String
  pub timestamp : ℕ

pub record ChallengeSolution : Type 0 where
  pub challenge : Challenge
  pub solution : String

pub record RateLimitRecord : Type 0 where
  pub did : String
  pub requests : List ℕ
  pub first_seen : ℕ

pub data PeerTrustLevel : Type 0 where
  new established trusted : PeerTrustLevel

pub record SybilDefense : Type 0 where
  pub rate_limits : Map String RateLimitRecord
  pub peer_first_seen : Map String ℕ

abbrev pub new_agent_window : ℕ
new_agent_window = 24 * 60 * 60 * 1000

abbrev pub rate_limit_window : ℕ
rate_limit_window = 60 * 60 * 1000

abbrev pub max_requests_new : ℕ
max_requests_new = 10

abbrev pub established_threshold : ℕ
established_threshold = 7 * 24 * 60 * 60 * 1000

-- `(b & 0x80) === 0`, and the inner loop of `countLeadingZeroBits` on fuel.
unfoldable pub zero_bits : ℕ → ℕ → ℕ
zero_bits zero b = 0
zero_bits (suc fuel) b =
    let rest = suc (zero_bits fuel (b * 2)) in if nat_beq (b / 128 % 2) 0 then rest else 0

-- A byte other than 0 shows a bit within eight rounds.
unfoldable pub count_leading_zero_bits : List ℕ → ℕ
unfolding zero_bits
count_leading_zero_bits [] = 0
count_leading_zero_bits (b ∷ bytes) =
    let rest = 8 + count_leading_zero_bits bytes in if nat_beq b 0 then rest else zero_bits 8 b

module _ (sha256 : String → List ℕ) where
  unfoldable pub verify_challenge : ChallengeSolution → ℕ → Bool
  verify_challenge s now =
      let c = s.challenge in
      let text = join (c.did ∷ ":" ∷ c.nonce ∷ ":" ∷ s.solution ∷ []) in
      if ltb (c.timestamp + 60 * 60 * 1000) now
      then false
      else leb c.difficulty (count_leading_zero_bits (sha256 text))

abbrev pub is_recent : ℕ → ℕ → Bool
is_recent now t = ltb now (t + rate_limit_window)

unfoldable pub is_rate_limited : SybilDefense → String → ℕ → Bool
is_rate_limited s did now = elim (lookup did s.rate_limits) [
  | none ↦ false
  | some r ↦
      if ltb (r.first_seen + new_agent_window) now
      then false
      else leb max_requests_new (length (filter (is_recent now) r.requests))
]

unfoldable pub record_request : SybilDefense → String → ℕ → SybilDefense
record_request s did now =
    let r =
      or_else (lookup did s.rate_limits) (record { did = did; requests = []; first_seen = now }) in
    record s {
      rate_limits =
          insert did (record r { requests = filter (is_recent now) (r.requests ++ now ∷ []) })
            s.rate_limits;
    }

-- `!firstSeen` holds of a missing time and of 0.
unfoldable pub get_peer_trust_level : SybilDefense → String → ℕ → PeerTrustLevel
get_peer_trust_level s peer_id now =
    let first_seen = or_else (lookup peer_id s.peer_first_seen) 0 in
    if nat_beq first_seen 0
    then new
    else if ltb now (first_seen + new_agent_window)
    then new
    else if ltb now (first_seen + established_threshold)
    then established
    else trusted

unfoldable pub record_peer_seen : SybilDefense → String → ℕ → SybilDefense
record_peer_seen s peer_id now =
    if is_some (lookup peer_id s.peer_first_seen)
    then s
    else record s { peer_first_seen = insert peer_id now s.peer_first_seen }

-- `firstSeen < now - NEW_AGENT_WINDOW`
unfoldable pub cleanup : SybilDefense → ℕ → SybilDefense
cleanup s now = record s {
  rate_limits = filter (λ e. not (ltb (e.1.first_seen + new_agent_window) now)) s.rate_limits;
}
