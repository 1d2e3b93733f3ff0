-- ===== src/Trust/Sybil/ZeroBits.antt =====
-- `countLeadingZeroBits` of sybil-defense.ts against the number that the hash spells.
use native.Mathlib.Nat.{pow-suc, mul-le-mul_right, add_assoc}
use a.Base.{
  leb, nat_beq, Bool-cases, &&-eq-true, length, All, ℕ, zero, suc, ◌+◌, ◌*◌, ◌^◌, ◌≤◌, ◌<◌, ◌≡◌,
  refl, ap, subst, ◌≢◌, inl, inr, Bool, true, ◌&&◌, ◌||◌, List, [], ◌∷◌, arith, dec_lt,
}
use a.Trust.Sybil.{zero_bits, count_leading_zero_bits}

-- The bytes as one number, the first byte highest.
unfoldable pub value : List ℕ → ℕ
value [] = 0
value (b ∷ bytes) = b * 256 ^ length bytes + value bytes

abbrev pub IsBytes : List ℕ → Type 0
IsBytes = All (λ b. b < 256)

-- The test holds of every number from `b` on, as many as `count`.
holds_from : (ℕ → Bool) → ℕ → ℕ → Bool
holds_from test b zero = true
holds_from test b (suc count) = holds_from test (b + 1) count && test b

holds_from_lem :
    (test : ℕ → Bool) (b count x : ℕ)
    → b ≤ x
    → holds_from test b count ≡ true
    → x < b + count
    → test x ≡ true
unfolding holds_from
holds_from_lem test b zero x le h lt = absurd (omega arith)
holds_from_lem test b (suc count) x le h lt =
    let (rest, here) = &&-eq-true (holds_from test (b + 1) count) (test b) h in
    elim (dec_lt b x) [
      | yes later ↦ holds_from_lem test (b + 1) count x (omega arith) rest (omega arith)
      | no equal ↦ let e : b ≡ x = omega arith in subst (λ k. test k ≡ true) e here
    ]

abbrev byte_test : ℕ → Bool
byte_test b =
    nat_beq b 0 || (leb ((b + 1) * 2 ^ zero_bits 8 b) 256 && leb 256 (b * 2 ^ (zero_bits 8 b + 1)))

byte_table : holds_from byte_test 0 256 ≡ true
unfolding holds_from zero_bits
byte_table = refl

byte_bounds :
    (b : ℕ)
    → b < 256
    → b ≢ 0
    → ((b + 1) * 2 ^ zero_bits 8 b ≤ 256) × (256 ≤ b * 2 ^ (zero_bits 8 b + 1))
byte_bounds b h n =
    let t = holds_from_lem byte_test 0 256 b (omega arith) byte_table (omega arith) in
    ground (arith, t)

value-lt : (bytes : List ℕ) → IsBytes bytes → value bytes < 256 ^ length bytes
unfolding value
value-lt [] h = omega arith
value-lt (b ∷ bytes) h =
    let rest = value-lt bytes h.1 in
    let head : suc b * 256 ^ length bytes ≤ 256 * 256 ^ length bytes =
      mul-le-mul_right (256 ^ length bytes) h.0 in
    omega (arith, rest, head, pow-suc 256 (length bytes))

pow_eight : (c : ℕ) → 2 ^ (8 + c) ≡ 256 * 2 ^ c
pow_eight c =
    let e : 8 + c ≡ suc (suc (suc (suc (suc (suc (suc (suc c))))))) = omega arith in
    rw e (simp pow-suc (omega arith))

-- The hash's number, and what the count of its leading zero bits says of it.
abbrev pub HasZeroBits : ℕ → List ℕ → Type 0
HasZeroBits c bytes =
    (value bytes * 2 ^ c < 256 ^ length bytes)
    × (value bytes ≢ 0 → 256 ^ length bytes ≤ value bytes * 2 ^ (c + 1))

zero_head : (c : ℕ) (bytes : List ℕ) → HasZeroBits c bytes → HasZeroBits (8 + c) (0 ∷ bytes)
unfolding value
zero_head c bytes h = (
  omega (
    arith,
    h.0,
    pow_eight c,
    pow-suc 256 (length bytes),
    ap (λ (t : ℕ). value bytes * t) (pow_eight c),
  ),
  λ n.
      let low = h.1 (λ e. n (omega arith)) in
      omega (
        arith,
        low,
        pow-suc 256 (length bytes),
        ap (λ (t : ℕ). value bytes * t) (pow_eight (c + 1)),
        ap (λ (t : ℕ). value bytes * 2 ^ t) (add_assoc 8 c 1),
      ),
)

pow_pos : (c : ℕ) → 0 < 2 ^ c
pow_pos zero = omega arith
pow_pos (suc c) = omega (arith, pow_pos c, pow-suc 2 c)

other_head :
    (b : ℕ) (bytes : List ℕ) → IsBytes (b ∷ bytes) → b ≢ 0 → HasZeroBits (zero_bits 8 b) (b ∷ bytes)
unfolding value
other_head b bytes h n =
    let c = zero_bits 8 b in
    let P = 256 ^ length bytes in
    let bounds = byte_bounds b h.0 n in
    let tail = mul-le-mul_right (2 ^ c) (value-lt bytes h.1) in
    let head = mul-le-mul_right P bounds.0 in
    let low = mul-le-mul_right P bounds.1 in
    (
      omega (arith, tail, head, pow_pos c, pow-suc 256 (length bytes)),
      λ _. omega (arith, low, pow-suc 256 (length bytes)),
    )

-- The count for a hash of bytes is the number of leading zero bits: shifting the hash's number up
-- by the count keeps it within the hash's width, and one bit further does not unless it is 0.
pub count_leading_zero_bits_lem :
    (bytes : List ℕ) → IsBytes bytes → HasZeroBits (count_leading_zero_bits bytes) bytes
unfolding count_leading_zero_bits value
count_leading_zero_bits_lem [] h = (omega arith, λ n. absurd (n refl))
count_leading_zero_bits_lem (b ∷ bytes) h = elim (Bool-cases (nat_beq b 0)) [
  | inl none_ ↦
      let e : b ≡ 0 = ground arith in
      rw (none_, e)
        (zero_head (count_leading_zero_bits bytes) bytes (count_leading_zero_bits_lem bytes h.1))
  | inr some_ ↦ rw some_ (other_head b bytes h (ground arith))
]
