-- ===== src/Trust/Tests.antt =====
-- The theorems on the sybil defence at work on small values.
use a.Base.{leb, lookup, ◌≡◌, refl, [], ◌∷◌, arith}
use a.Trust.Sybil.{SybilDefense, is_rate_limited, count_leading_zero_bits}
use a.Trust.Sybil.ZeroBits.{HasZeroBits, count_leading_zero_bits_lem}
use a.Trust.Sybil.Limits.{record_all, limited_from_tenth}

abbrev start : SybilDefense
start = record { rate_limits = []; peer_first_seen = ("p", 5) ∷ [] }

count_leading_zero_bits_lem_example :
    HasZeroBits (count_leading_zero_bits (0 ∷ 12 ∷ 255 ∷ [])) (0 ∷ 12 ∷ 255 ∷ [])
count_leading_zero_bits_lem_example =
    count_leading_zero_bits_lem (0 ∷ 12 ∷ 255 ∷ []) (omega arith, (omega arith, (omega arith, tt)))

limited_from_tenth_example :
    is_rate_limited (record_all start "did:a" (10 ∷ 20 ∷ [])) "did:a" 30 ≡ leb 10 2
unfolding lookup
limited_from_tenth_example =
    limited_from_tenth start "did:a" 10 30 10 (20 ∷ []) refl
      ((omega arith, omega arith), ((omega arith, omega arith), tt)) (omega arith) (omega arith)
