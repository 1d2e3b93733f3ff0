-- ===== src/Relay/Federation/Peers.antt =====
-- js/relay/src/federation-manager.ts: the other relays, from the connection to their admission and
-- back. Which sockets are open is the argument `is_open`; whether a timer runs is a flag.
use a.Base.{
  ltb, if◌then◌else◌, ◌==◌, length, filter, any, all, Result, ◌>>=◌, guard, ok, String, Bool, true,
  false, not, ◌&&◌, ◌||◌, Option, none, some, List, [], ◌∷◌, ◌++◌, map, nat_eq, string_eq, bytes_eq,
}
use text.Mathlib.Text.{starts_with}
use a.Relay.Directory.{AgentCard, Texts}
use a.Relay.Federation.Types.{FederationAdmissionState, is_admitted, FederatedRelay}

abbrev pub required_relay_capabilities : List String
required_relay_capabilities =
    "relay/message-routing" ∷ "relay/discovery" ∷ "relay/health-check" ∷ "relay/federation" ∷ []

unfoldable pub is_locally_admitted : Option FederatedRelay → Bool
is_locally_admitted none = false
is_locally_admitted (some relay) = relay.connected && admitted_or_unset relay.admission_state
  where
    admitted_or_unset : Option FederationAdmissionState → Bool
    admitted_or_unset none = true
    admitted_or_unset (some s) = is_admitted s

-- A relay without a state counts as admitted on both sides.
abbrev pub is_mutual : Option FederationAdmissionState → Bool → Bool
is_mutual none by_peer = true
is_mutual (some s) by_peer = is_admitted s && by_peer

abbrev pub is_active : FederatedRelay → Bool
is_active relay = relay.connected && is_mutual relay.admission_state relay.admitted_by_peer

unfoldable pub is_data_plane_active : Option FederatedRelay → Bool
is_data_plane_active none = false
is_data_plane_active (some relay) = is_active relay

abbrev pub is_web_socket_endpoint : String → Bool
is_web_socket_endpoint endpoint = starts_with endpoint "ws://" || starts_with endpoint "wss://"

-- `new Set`
unfoldable pub without_repeats : List String → List String → List String
without_repeats seen [] = []
without_repeats seen (x ∷ xs) =
    let rest = without_repeats (x ∷ seen) xs in
    if any (λ y. y == x) seen then without_repeats seen xs else x ∷ rest

unfoldable pub normalize_relay_endpoints : Texts → List String → List String
unfolding filter without_repeats
normalize_relay_endpoints texts endpoints = without_repeats [] (
    filter is_web_socket_endpoint (filter (λ e. not (e == "")) (map (λ e. texts.trim e) endpoints)))

pub data EligibilityError : Type 0 where
  did_mismatch missing_capabilities no_web_socket_endpoint : EligibilityError

abbrev pub has_capability : AgentCard → String → Bool
has_capability card id = any (λ c. c.id == id) card.capabilities

unfoldable pub validate_relay_eligibility :
    Texts → String → AgentCard → List String → Result EligibilityError (List String)
unfolding normalize_relay_endpoints
validate_relay_eligibility texts relay_did card announced = do
  _ ← guard (card.did == relay_did) did_mismatch
  _ ← guard (all (has_capability card) required_relay_capabilities) missing_capabilities
  let endpoints = normalize_relay_endpoints texts (announced ++ card.endpoints)
  _ ← guard (ltb 0 (length endpoints)) no_web_socket_endpoint
  ok endpoints
