-- ===== src/Relay/Tests/OfTokens.antt =====
-- The theorems on invite tokens at work, with a platform in which a text is the list of its parts and
-- the public key is the seed.
use a.Base.{
  string_eq, list_beq, drop, ok, ℕ, zero, suc, ◌≡◌, refl, sym, ◌∙◌, Bool, true, false, Option, none,
  some, List, [], ◌∷◌, ◌++◌, arith,
}
use a.Relay.Tokens.{
  TokenHeader, TokenPayload, Platform, create_invite_token, verify_invite_token, der_sequence,
  der_octet_string, der_bit_string, der_length, Bytes, build_ed25519_pkcs8, build_ed25519_spki,
  revoke, is_revoked,
}
use a.Relay.Tokens.Der.{rfc8410_private_prefix, rfc8410_public_prefix, build_ed25519_lem}
use a.Relay.Tokens.Signing.{IsKeyPair, verify-create}
use a.Relay.Tokens.Revocations.{
  Change, revoking, saving, restarting, apply_all, revoked_while_valid,
}

abbrev zeros : ℕ → Bytes
zeros zero = []
zeros (suc n) = 0 ∷ zeros n

build_ed25519_lem_example :
    (build_ed25519_pkcs8 (zeros 32) ≡ rfc8410_private_prefix ++ zeros 32)
    × (build_ed25519_spki (zeros 32) ≡ rfc8410_public_prefix ++ zeros 32)
build_ed25519_lem_example = build_ed25519_lem (zeros 32) (zeros 32) refl refl

data Buffer : Type 0 where
  header_of : TokenHeader → Buffer
  payload_of : TokenPayload → Buffer
  signature_of : Bytes → Buffer

abbrev as_header : Buffer → Option TokenHeader
as_header (header_of h) = some h
as_header _ = none

abbrev as_payload : Buffer → Option TokenPayload
as_payload (payload_of p) = some p
as_payload _ = none

abbrev first_part : List Buffer → Buffer
first_part [] = signature_of []
first_part (b ∷ bs) = b

abbrev parts : List Buffer → List (List Buffer)
parts [] = []
parts (b ∷ bs) = (b ∷ []) ∷ parts bs

abbrev signed_by : Bytes → Buffer → Bool
signed_by key (signature_of k) = list_beq key k
signed_by key _ = false

abbrev platform : Platform
platform = record {
  Buffer = Buffer;
  Text = List Buffer;
  stringify_header = header_of;
  parse_header = as_header;
  stringify_payload = payload_of;
  parse_payload = as_payload;
  to_base64url = λ b. b ∷ [];
  from_base64url = first_part;
  dotted = λ x y. x ++ y;
  split_dots = parts;
  crypto_sign = λ der input. signature_of (drop 16 der);
  crypto_verify = λ der input b. signed_by (drop 12 der) b;
  parse_header-stringify = λ h. refl;
  parse_payload-stringify = λ p. refl;
  from-to_base64url = λ b. refl;
  split-dotted = λ x y z. refl;
}

abbrev payload : TokenPayload
payload = record {
  iss = "did:o";
  sub = "*";
  realm = "public";
  exp = 100;
  iat = 1;
  jti = "t1";
  note = none;
  max_agents = none;
}

key_pair : IsKeyPair platform (zeros 64) (zeros 32)
unfolding build_ed25519_pkcs8 build_ed25519_spki der_sequence der_octet_string der_bit_string
    der_length
key_pair input = refl

verify-create_example :
    verify_invite_token platform (create_invite_token platform payload (zeros 64)) (zeros 32) 100
    ≡ ok payload
verify-create_example = verify-create platform payload (zeros 64) (zeros 32) 100 key_pair

abbrev changes : List Change
changes = saving 50 ∷ revoking "t2" none 70 60 ∷ restarting 80 90 ∷ []

other : string_eq.beq "t2" "t1" ≡ false
other = refl

revoked_while_valid_example :
    is_revoked (apply_all (revoke [] "t1" none 100 10) changes) "t1" ≡ true
revoked_while_valid_example =
    revoked_while_valid [] "t1" none 100 10 changes (tt, tt)
      (
        omega arith,
        (
          λ e. absurd (cc (sym other ∙ (string_eq.beq_iff "t2" "t1").1 e)),
          ((omega arith, omega arith), tt),
        ),
      )
