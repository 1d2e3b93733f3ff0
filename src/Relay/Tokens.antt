-- ===== src/Relay/Tokens.antt =====
-- js/relay/src/token.ts, revocation.ts and token-store.ts: invite tokens, their signatures and the
-- lists of revoked and issued ones. JSON, base64url, the splitting at dots and the Ed25519 functions
-- of node:crypto are the fields of `Platform`. Bytes are natural numbers; clocks are arguments.
pub mod Der
pub mod Signing
pub mod Revocations
use a.Base.{
  ltb, if◌then◌else◌, ◌==◌, is_some, length, take, filter, Map, lookup, insert, delete, values,
  Result, ◌>>=◌, ◌>>◌, guard, or_throw, ok, err, ℕ, ◌/◌, ◌%◌, String, ◌≡◌, Bool, true, not, ◌&&◌,
  Option, none, some, List, [], ◌∷◌, ◌++◌, string_eq, bytes_eq, nat_eq,
}

abbrev pub Bytes : Type 0
Bytes = List ℕ

pub record TokenPayload : Type 0 where
  pub iss : String
  pub sub : String
  pub realm : String
  pub exp : ℕ
  pub iat : ℕ
  pub jti : String
  pub note : Option String
  pub max_agents : Option ℕ

pub record TokenHeader : Type 0 where
  pub alg : String
  pub typ : String

pub data TokenError : Type 0 where
  three_parts invalid_header unsupported_type invalid_signature invalid_payload expired : TokenError

-- `Buffer.from([0x06, 0x03, 0x2b, 0x65, 0x70])`, the OID 1.3.101.112 of Ed25519
abbrev pub oid : Bytes
oid = 6 ∷ 3 ∷ 43 ∷ 101 ∷ 112 ∷ []

-- A byte of a Buffer is its value modulo 256.
unfoldable pub der_length : ℕ → Bytes
der_length len =
    if ltb len 128
    then len ∷ []
    else if ltb len 256
    then 129 ∷ len ∷ []
    else 130 ∷ (len / 256) % 256 ∷ len % 256 ∷ []

unfoldable pub der_sequence : Bytes → Bytes
der_sequence content = 48 ∷ der_length (length content) ++ content

unfoldable pub der_octet_string : Bytes → Bytes
der_octet_string content = 4 ∷ der_length (length content) ++ content

unfoldable pub der_bit_string : Bytes → Bytes
der_bit_string content = let payload = 0 ∷ content in 3 ∷ der_length (length payload) ++ payload

unfoldable pub build_ed25519_pkcs8 : Bytes → Bytes
build_ed25519_pkcs8 seed =
    der_sequence
      ((2 ∷ 1 ∷ 0 ∷ []) ++ (der_sequence oid ++ der_octet_string (der_octet_string seed)))

unfoldable pub build_ed25519_spki : Bytes → Bytes
build_ed25519_spki pub_key = der_sequence (der_sequence oid ++ der_bit_string pub_key)

-- What the code takes from the language and from node:crypto: buffers of JSON and of signatures,
-- texts in base64url with dots between them, and Ed25519.
pub record Platform : Type 1 where
  pub Buffer : Type 0
  pub Text : Type 0
  pub stringify_header : TokenHeader → Buffer
  pub parse_header : Buffer → Option TokenHeader
  pub stringify_payload : TokenPayload → Buffer
  pub parse_payload : Buffer → Option TokenPayload
  pub to_base64url : Buffer → Text
  pub from_base64url : Text → Buffer
  -- `${left}.${right}`
  pub dotted : Text → Text → Text
  pub split_dots : Text → List Text
  -- signing by the private key in PKCS#8, and checking by the public key in SPKI
  pub crypto_sign : Bytes → Text → Buffer
  pub crypto_verify : Bytes → Text → Buffer → Bool
  -- `JSON.parse` reads what `JSON.stringify` wrote, and base64url likewise, which has no dots.
  pub parse_header-stringify : (h : TokenHeader) → parse_header (stringify_header h) ≡ some h
  pub parse_payload-stringify : (p : TokenPayload) → parse_payload (stringify_payload p) ≡ some p
  pub from-to_base64url : (b : Buffer) → from_base64url (to_base64url b) ≡ b
  pub split-dotted :
      (x y z : Buffer)
      → split_dots (dotted (dotted (to_base64url x) (to_base64url y)) (to_base64url z))
        ≡ to_base64url x ∷ to_base64url y ∷ to_base64url z ∷ []

module _ (platform : Platform) where
  open platform use {
    Text, stringify_header, parse_header, stringify_payload, parse_payload, to_base64url,
    from_base64url, dotted, split_dots, crypto_sign, crypto_verify,
  }

  abbrev pub header : Text
  header = to_base64url (stringify_header (record { alg = "EdDSA"; typ = "HW1-TOKEN" }))

  unfoldable pub create_invite_token : TokenPayload → Bytes → Text
  create_invite_token payload private_key =
      let input = dotted header (to_base64url (stringify_payload payload)) in
      let pkcs8_der = build_ed25519_pkcs8 (take 32 private_key) in
      dotted input (to_base64url (crypto_sign pkcs8_der input))

  abbrev pub is_supported : TokenHeader → Bool
  is_supported h = h.alg == "EdDSA" && h.typ == "HW1-TOKEN"

  unfoldable pub verify_parts : List Text → Bytes → ℕ → Result TokenError TokenPayload
  verify_parts (header_b64 ∷ payload_b64 ∷ sig_b64 ∷ []) public_key now = do
    h ← or_throw (parse_header (from_base64url header_b64)) invalid_header
    _ ← guard (is_supported h) unsupported_type
    _ ←
        guard
          (crypto_verify (build_ed25519_spki public_key) (dotted header_b64 payload_b64)
            (from_base64url sig_b64))
          invalid_signature
    payload ← or_throw (parse_payload (from_base64url payload_b64)) invalid_payload
    _ ← guard (not (ltb payload.exp now)) expired
    ok payload
  verify_parts _ public_key now = err three_parts

  -- The time is in seconds.
  unfoldable pub verify_invite_token : Text → Bytes → ℕ → Result TokenError TokenPayload
  verify_invite_token token public_key now = verify_parts (split_dots token) public_key now

pub record RevocationEntry : Type 0 where
  pub jti : String
  pub revoked_at : ℕ
  pub reason : Option String
  pub original_exp : ℕ

abbrev pub Revocations : Type 0
Revocations = Map String RevocationEntry

unfoldable pub gc : Revocations → ℕ → Revocations
unfolding filter
gc entries now = filter (λ e. not (ltb e.1.original_exp now)) entries

-- `new Map(list.map(...))`
unfoldable pub map_of {ℓ} : {V : Type ℓ} → (V → String) → List V → Map String V → Map String V
unfolding insert
map_of key [] m = m
map_of key (v ∷ vs) m = map_of key vs (insert (key v) v m)

-- The file's list, none where there is no file.
unfoldable pub load_revocations : Option (List RevocationEntry) → ℕ → Revocations
unfolding map_of gc
load_revocations none now = []
load_revocations (some list) now = gc (map_of (λ e. e.jti) list []) now

-- The entries kept, and the file's list.
unfoldable pub save_revocations : Revocations → ℕ → Revocations × List RevocationEntry
unfolding gc
save_revocations entries now = let kept = gc entries now in (kept, values kept)

unfoldable pub revoke : Revocations → String → Option String → ℕ → ℕ → Revocations
unfolding insert
revoke entries jti reason original_exp now =
    insert jti
      (record { jti = jti; revoked_at = now; reason = reason; original_exp = original_exp }) entries

unfoldable pub is_revoked : Revocations → String → Bool
unfolding lookup
is_revoked entries jti = is_some (lookup jti entries)

pub record TokenMetadata : Type 0 where
  pub jti : String
  pub realm : String
  pub sub : String
  pub exp : ℕ
  pub iat : ℕ
  pub permissions : Option (List String)
  pub max_agents : Option ℕ
  pub note : Option String
  pub created_by : String
  pub token : String

abbrev pub TokenStore : Type 0
TokenStore = Map String TokenMetadata

unfoldable pub load_tokens : Option (List TokenMetadata) → TokenStore
unfolding map_of
load_tokens none = []
load_tokens (some list) = map_of (λ t. t.jti) list []

-- The store and the file's list.
abbrev pub persist : TokenStore → TokenStore × List TokenMetadata
persist tokens = (tokens, values tokens)

unfoldable pub save_token : TokenStore → TokenMetadata → TokenStore × List TokenMetadata
unfolding insert
save_token tokens metadata = persist (insert metadata.jti metadata tokens)

abbrev pub in_realm : Option String → TokenMetadata → Bool
in_realm none t = true
in_realm (some realm) t = if realm == "" then true else t.realm == realm

unfoldable pub list_tokens : TokenStore → Option String → List TokenMetadata
unfolding filter
list_tokens tokens realm = filter (in_realm realm) (values tokens)

unfoldable pub get_token : TokenStore → String → Option TokenMetadata
unfolding lookup
get_token tokens jti = lookup jti tokens

unfoldable pub delete_token : TokenStore → String → TokenStore × List TokenMetadata
unfolding delete
delete_token tokens jti = persist (delete jti tokens)
