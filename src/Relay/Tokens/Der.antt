-- ===== src/Relay/Tokens/Der.antt =====
-- The DER encodings of keys in token.ts, against those that RFC 8410 fixes for Ed25519.
use a.Base.{ltb, length, ℕ, suc, ◌≡◌, refl, true, [], ◌∷◌, ◌++◌, arith}
use a.Relay.Tokens.{
  Bytes, oid, der_length, der_sequence, der_octet_string, der_bit_string, build_ed25519_pkcs8,
  build_ed25519_spki,
}

-- PrivateKeyInfo up to the seed: version 0, the algorithm, and the heads of the octet strings.
abbrev pub rfc8410_private_prefix : Bytes
rfc8410_private_prefix =
    48 ∷ 46 ∷ 2 ∷ 1 ∷ 0 ∷ 48 ∷ 5 ∷ 6 ∷ 3 ∷ 43 ∷ 101 ∷ 112 ∷ 4 ∷ 34 ∷ 4 ∷ 32 ∷ []

-- SubjectPublicKeyInfo up to the key: the algorithm, and the head of the bit string.
abbrev pub rfc8410_public_prefix : Bytes
rfc8410_public_prefix = 48 ∷ 42 ∷ 48 ∷ 5 ∷ 6 ∷ 3 ∷ 43 ∷ 101 ∷ 112 ∷ 3 ∷ 33 ∷ 0 ∷ []

-- The encodings of short contents, of the length given.
sequence-short :
    (n : ℕ) (content : Bytes)
    → length content ≡ n
    → ltb n 128 ≡ true
    → der_sequence content ≡ 48 ∷ n ∷ content
unfolding der_sequence der_length
sequence-short n content e short = rw (e, short) refl

octet_string-short :
    (n : ℕ) (content : Bytes)
    → length content ≡ n
    → ltb n 128 ≡ true
    → der_octet_string content ≡ 4 ∷ n ∷ content
unfolding der_octet_string der_length
octet_string-short n content e short = rw (e, short) refl

bit_string-short :
    (n : ℕ) (content : Bytes)
    → suc (length content) ≡ n
    → ltb n 128 ≡ true
    → der_bit_string content ≡ 3 ∷ n ∷ 0 ∷ content
unfolding der_bit_string der_length
bit_string-short n content e short = rw (e, short) refl

sequence-oid : der_sequence oid ≡ 48 ∷ 5 ∷ oid
sequence-oid = sequence-short 5 oid refl refl

pkcs8_lem :
    (seed : Bytes) → length seed ≡ 32 → build_ed25519_pkcs8 seed ≡ rfc8410_private_prefix ++ seed
unfolding build_ed25519_pkcs8
pkcs8_lem seed e =
    let inner = octet_string-short 32 seed e refl in
    let outer = octet_string-short 34 (4 ∷ 32 ∷ seed) (omega (arith, e)) refl in
    rw (sequence-oid, inner, outer)
      (sequence-short 46 ((2 ∷ 1 ∷ 0 ∷ []) ++ ((48 ∷ 5 ∷ oid) ++ (4 ∷ 34 ∷ 4 ∷ 32 ∷ seed)))
        (omega (arith, e)) refl)

spki_lem :
    (pub_key : Bytes)
    → length pub_key ≡ 32
    → build_ed25519_spki pub_key ≡ rfc8410_public_prefix ++ pub_key
unfolding build_ed25519_spki
spki_lem pub_key e =
    let bits = bit_string-short 33 pub_key (omega (arith, e)) refl in
    rw (sequence-oid, bits)
      (sequence-short 42 ((48 ∷ 5 ∷ oid) ++ (3 ∷ 33 ∷ 0 ∷ pub_key)) (omega (arith, e)) refl)

-- The encodings that the tokens' keys go through are those of RFC 8410, if the seed and the public
-- key have 32 bytes.
pub build_ed25519_lem :
    (seed pub_key : Bytes)
    → length seed ≡ 32
    → length pub_key ≡ 32
    → (build_ed25519_pkcs8 seed ≡ rfc8410_private_prefix ++ seed)
      × (build_ed25519_spki pub_key ≡ rfc8410_public_prefix ++ pub_key)
build_ed25519_lem seed pub_key s p = (pkcs8_lem seed s, spki_lem pub_key p)
