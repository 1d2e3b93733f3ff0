-- ===== src/Trust/Sybil/Limits.antt =====
-- When sybil-defense.ts holds an agent back, and how a peer's level grows.
use mathlib.Core.List.{append-nil, append_assoc}
use a.Base.{
  leb, lt→ltb, ltb-eq-false, beq_refl, or_else, length, filter, All, All-mono, filter_kept, lookup,
  lookup-insert, ℕ, ◌+◌, ◌≤◌, ◌<◌, String, ◌≡◌, refl, sym, subst, true, none, some, List, [], ◌∷◌,
  ◌++◌, arith, string_eq,
}
use a.Trust.Sybil.{
  SybilDefense, RateLimitRecord, PeerTrustLevel, new, established, trusted, new_agent_window,
  rate_limit_window, max_requests_new, is_recent, is_rate_limited, record_request,
  get_peer_trust_level,
}

unfoldable pub record_all : SybilDefense → String → List ℕ → SybilDefense
record_all s did [] = s
record_all s did (now ∷ times) = record_all (record_request s did now) did times

-- Times within one hour of `start`.
abbrev pub IsWithinHour : ℕ → List ℕ → Type 0
IsWithinHour start = All (λ t. (start ≤ t) × (t < start + rate_limit_window))

within-recent :
    (start now : ℕ) (times : List ℕ)
    → now < start + rate_limit_window
    → IsWithinHour start times
    → All (λ t. is_recent now t ≡ true) times
within-recent start now times h =
    All-mono (λ t w. lt→ltb now (t + rate_limit_window) (omega (arith, w.0, h))) times

-- What is recorded of an agent that has made the requests `done` within an hour.
record Recorded (s : SybilDefense) (did : String) (start : ℕ) (done : List ℕ) : Type 0 where
  entry : RateLimitRecord
  found : lookup did s.rate_limits ≡ some entry
  requests : entry.requests ≡ done
  first : (start ≤ entry.first_seen) × (entry.first_seen < start + rate_limit_window)

All-prefix : (start : ℕ) (xs ys : List ℕ) → IsWithinHour start (xs ++ ys) → IsWithinHour start xs
All-prefix start [] ys w = tt
All-prefix start (x ∷ xs) ys w = (w.0, All-prefix start xs ys w.1)

All-last :
    (start : ℕ) (done : List ℕ) (now : ℕ)
    → IsWithinHour start (done ++ now ∷ [])
    → now < start + rate_limit_window
All-last start [] now w = w.0.1
All-last start (t ∷ done) now w = All-last start done now w.1

record_request-Recorded :
    (s : SybilDefense) (did : String) (start now : ℕ) (done : List ℕ)
    → IsWithinHour start (done ++ now ∷ [])
    → Recorded s did start done
    → Recorded (record_request s did now) did start (done ++ now ∷ [])
unfolding record_request
record_request-Recorded s did start now done w r =
    let kept : filter (is_recent now) (done ++ now ∷ []) ≡ done ++ now ∷ [] =
      filter_kept (is_recent now) (done ++ now ∷ [])
        (within-recent start now (done ++ now ∷ []) (All-last start done now w) w) in
    record {
      entry = record r.entry { requests = done ++ now ∷ [] };
      found = rw (lookup-insert did did _ s.rate_limits, beq_refl did, r.found, r.requests, kept);
      requests = refl;
      first = r.first;
    }

first_Recorded :
    (s : SybilDefense) (did : String) (start now : ℕ)
    → lookup did s.rate_limits ≡ none
    → IsWithinHour start (now ∷ [])
    → Recorded (record_request s did now) did start (now ∷ [])
unfolding record_request
first_Recorded s did start now e w =
    let kept : filter (is_recent now) (now ∷ []) ≡ now ∷ [] =
      filter_kept (is_recent now) (now ∷ []) (within-recent start now (now ∷ []) w.0.1 w) in
    record {
      entry = record { did = did; requests = now ∷ []; first_seen = now };
      found = rw (lookup-insert did did _ s.rate_limits, beq_refl did, e, kept);
      requests = refl;
      first = w.0;
    }

record_all-Recorded :
    (s : SybilDefense) (did : String) (start : ℕ) (done times : List ℕ)
    → IsWithinHour start (done ++ times)
    → Recorded s did start done
    → Recorded (record_all s did times) did start (done ++ times)
unfolding record_all
record_all-Recorded s did start done [] w r = subst (Recorded s did start) (sym (append-nil done)) r
record_all-Recorded s did start done (now ∷ times) w r =
    let regroup : (done ++ now ∷ []) ++ times ≡ done ++ now ∷ times =
      append_assoc done (now ∷ []) times in
    let w' : IsWithinHour start ((done ++ now ∷ []) ++ times) = rw regroup w in
    subst (Recorded (record_all (record_request s did now) did times) did start) regroup (
      record_all-Recorded (record_request s did now) did start (done ++ now ∷ []) times w' (
        record_request-Recorded s did start now done (All-prefix start (done ++ now ∷ []) times w')
          r))

limited_of :
    (t : SybilDefense) (did : String) (start now : ℕ) (times : List ℕ)
    → Recorded t did start times
    → IsWithinHour start times
    → start ≤ now
    → now < start + rate_limit_window
    → is_rate_limited t did now ≡ leb max_requests_new (length times)
unfolding is_rate_limited
limited_of t did start now times r w after before = rw (
  r.found,
  is_rate_limited,
  ltb-eq-false (r.entry.first_seen + new_agent_window) now (omega (arith, r.first)),
  r.requests,
  filter_kept (is_recent now) times (within-recent start now times before w),
)

-- An agent that was unknown and whose requests all fall within one hour is held back, at any time
-- of that hour, exactly from its tenth request on.
pub limited_from_tenth :
    (s : SybilDefense) (did : String) (start now first : ℕ) (times : List ℕ)
    → lookup did s.rate_limits ≡ none
    → IsWithinHour start (first ∷ times)
    → start ≤ now
    → now < start + rate_limit_window
    → is_rate_limited (record_all s did (first ∷ times)) did now
      ≡ leb max_requests_new (length (first ∷ times))
unfolding record_all
limited_from_tenth s did start now first times e w after before =
    let r =
      record_all-Recorded (record_request s did first) did start (first ∷ []) times w
        (first_Recorded s did start first e (w.0, tt)) in
    limited_of (record_all s did (first ∷ times)) did start now (first ∷ times) r w after before

abbrev pub rank : PeerTrustLevel → ℕ
rank new = 0
rank established = 1
rank trusted = 2

-- A peer's level never falls as time goes by.
pub get_peer_trust_level_mono :
    (s : SybilDefense) (peer_id : String) (now later : ℕ)
    → now ≤ later
    → rank (get_peer_trust_level s peer_id now) ≤ rank (get_peer_trust_level s peer_id later)
unfolding get_peer_trust_level
get_peer_trust_level_mono s peer_id now later h =
    let first = or_else (lookup peer_id s.peer_first_seen) 0 in ground (arith, h)
