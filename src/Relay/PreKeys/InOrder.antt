-- ===== src/Relay/PreKeys/InOrder.antt =====
-- The one-time keys of a bundle as prekey-store.ts puts them in order.
use a.Base.{
  nat_beq, ltb→lt, ◌==◌, string_eq, Bool-cases, &&-eq-true, filter, any, All, All-filter, All-mono,
  All-zip, All-filter_test, sort_by, IsSortedFrom, sort_by-IsSorted, sort_by-perm, All-perm,
  mem-filter, mem-perm, All-self, ℕ, ◌≤◌, ◌<◌, String, ◌≡◌, refl, sym, ap, ◌∙◌, ◌≢◌, inl, inr, Bool,
  true, false, Option, none, some, List, [], ◌∷◌, arith, bytes_eq, nat_eq,
}
use mathlib.Core.List.{Memᴰ}
use a.Relay.PreKeys.{
  PublishedOneTimePreKey, id_number, is_usable, unseen, KeyId, whole, other, number_of, is_positive,
  is_given, normalize_one_time_pre_keys,
}

-- The numbers grow strictly along the keys, from above `n` on.
abbrev pub AreRising : ℕ → List PublishedOneTimePreKey → Type 0
AreRising n [] = Unit
AreRising n (k ∷ ks) = (n < id_number k) × AreRising (id_number k) ks

unseen-AreRising :
    (n : ℕ) (seen : List ℕ) (ks : List PublishedOneTimePreKey)
    → any (λ m. nat_beq m n) seen ≡ true
    → IsSortedFrom id_number n ks
    → AreRising n (unseen seen ks)
unfolding unseen
unseen-AreRising n seen [] h s = tt
unseen-AreRising n seen (k ∷ ks) h s = elim (Bool-cases (any (λ m. nat_beq m (id_number k)) seen)) [
  | inl known ↦ rw known (unseen-AreRising n seen ks h (later n (id_number k) ks s.0 s.1))
  | inr new ↦ rw new (
    above n (id_number k) s.0
        (λ e. true_is_not_false (sym h ∙ ap (λ i. any (λ m. nat_beq m i) seen) e ∙ new)),
    unseen-AreRising (id_number k) (id_number k ∷ seen) ks (rw (nat_beq_refl (id_number k))) s.1,
  )
]
  where
    later :
        (a b : ℕ) (ks : List PublishedOneTimePreKey)
        → a ≤ b
        → IsSortedFrom id_number b ks
        → IsSortedFrom id_number a ks
    later a b [] h s = tt
    later a b (k ∷ ks) h s = (omega (arith, s.0), s.1)

    above : (a b : ℕ) → a ≤ b → a ≢ b → a < b
    above a b h k = ground arith

    true_is_not_false : true ≢ false
    true_is_not_false e = cc e

    nat_beq_refl : (a : ℕ) → nat_beq a a ≡ true
    nat_beq_refl a = ground arith

is_positive-number : (i : KeyId) → is_positive i ≡ true → 0 < number_of i
is_positive-number (whole n) h = ltb→lt 0 n h
is_positive-number other h = absurd (cc h)

is_usable-positive : (k : PublishedOneTimePreKey) → is_usable k ≡ true → 0 < id_number k
is_usable-positive k h =
    is_positive-number k.key_id (&&-eq-true (is_positive k.key_id) (is_given k.public_key) h).0

unseen-first :
    (ks : List PublishedOneTimePreKey)
    → All (λ k. 0 < id_number k) ks
    → IsSortedFrom id_number 0 ks
    → AreRising 0 (unseen [] ks)
unfolding unseen
unseen-first [] h s = tt
unseen-first (k ∷ ks) h s =
    (h.0, unseen-AreRising (id_number k) (id_number k ∷ []) ks (ground arith) s.1)

-- The one-time keys that are stored have strictly rising numbers from 1 on, so no number twice.
pub normalize-AreRising :
    (ks : List PublishedOneTimePreKey) → AreRising 0 (normalize_one_time_pre_keys ks)
unfolding normalize_one_time_pre_keys
normalize-AreRising ks =
    unseen-first (sort_by id_number (filter is_usable ks))
      (All-perm _ (sort_by-perm id_number _)
        (All-mono is_usable-positive _ (All-filter_test is_usable ks)))
      (sort_by-IsSorted id_number _)

-- A key with a whole positive number and a text that is not empty.
abbrev pub IsUsable : PublishedOneTimePreKey → Type 0
IsUsable k =
    ((n : ℕ) × (k.key_id ≡ whole n) × (0 < n)) × ((t : String) × (k.public_key ≡ some t) × (t ≢ ""))

positive_lem :
    (i : KeyId)
    → (is_positive i ≡ true → (n : ℕ) × (i ≡ whole n) × (0 < n))
      × ((n : ℕ) × (i ≡ whole n) × (0 < n) → is_positive i ≡ true)
positive_lem (whole n) = (
  λ h. (n, refl, ltb→lt 0 n h),
  λ h. let same : n ≡ h.0 = number_of_whole n h.0 h.1 in ground (arith, same, h.2),
)
  where
    number_of_whole : (m n : ℕ) → whole m ≡ whole n → m ≡ n
    number_of_whole m n e = cc e
positive_lem other = (λ h. absurd (cc h), λ h. absurd (cc h.1))

given_lem :
    (o : Option String)
    → (is_given o ≡ true → (t : String) × (o ≡ some t) × (t ≢ ""))
      × ((t : String) × (o ≡ some t) × (t ≢ "") → is_given o ≡ true)
given_lem none = (λ h. absurd (cc h), λ h. absurd (cc h.1))
given_lem (some t) = (
  λ h. (t, refl, λ e. absurd (cc (rw ((string_eq.beq_iff t "").1 e) at h))),
  λ h. elim (Bool-cases (t == "")) [
    | inl e ↦ absurd (h.2 (sym (some_injective h.1) ∙ (string_eq.beq_iff t "").0 e))
    | inr e ↦ rw e refl
  ],
)
  where
    some_injective : {x y : String} → some x ≡ some y → x ≡ y
    some_injective h = cc h

usable_lem :
    (k : PublishedOneTimePreKey)
    → (is_usable k ≡ true → IsUsable k) × (IsUsable k → is_usable k ≡ true)
usable_lem k = (
  λ h.
      let (number, key) = &&-eq-true (is_positive k.key_id) (is_given k.public_key) h in
      ((positive_lem k.key_id).0 number, (given_lem k.public_key).0 key),
  λ h. rw ((positive_lem k.key_id).1 h.0, (given_lem k.public_key).1 h.1),
)

All-unseen :
    (P : PublishedOneTimePreKey → Type 0) (seen : List ℕ) (ks : List PublishedOneTimePreKey)
    → All P ks
    → All P (unseen seen ks)
unfolding unseen
All-unseen P seen [] h = tt
All-unseen P seen (k ∷ ks) h = elim (Bool-cases (any (λ m. nat_beq m (id_number k)) seen)) [
  | inl known ↦ rw known (All-unseen P seen ks h.1)
  | inr new ↦ rw new (h.0, All-unseen P (id_number k ∷ seen) ks h.1)
]

abbrev pub has_number : ℕ → List PublishedOneTimePreKey → Bool
has_number n ks = any (λ k. nat_beq (id_number k) n) ks

-- A key's number was seen before or is among those that are kept.
unseen-has_number :
    (seen : List ℕ) (k : PublishedOneTimePreKey) (ks : List PublishedOneTimePreKey)
    → Memᴰ k ks
    → any (λ m. nat_beq m (id_number k)) seen ≡ false
    → has_number (id_number k) (unseen seen ks) ≡ true
unfolding unseen
unseen-has_number seen k [] m new = elim m [ ]
unseen-has_number seen k (j ∷ ks) (Memᴰ.head e) new =
    let at : id_number k ≡ id_number j = ap id_number e in
    let new' : any (λ m. nat_beq m (id_number j)) seen ≡ false =
      ap (λ n. any (λ m. nat_beq m n) seen) (sym at) ∙ new in
    rw new' (ground (arith, at))
unseen-has_number seen k (j ∷ ks) (Memᴰ.tail m) new =
    elim (Bool-cases (any (λ i. nat_beq i (id_number j)) seen)) [
      | inl known ↦ rw known (unseen-has_number seen k ks m new)
      | inr fresh ↦ rw fresh (elim (Bool-cases (nat_beq (id_number j) (id_number k))) [
        | inl same ↦ rw same refl
        | inr differs ↦ rw differs (unseen-has_number (id_number j ∷ seen) k ks m (rw differs new))
      ])
    ]

-- The keys are the usable ones of those published, each number once and in rising order.
abbrev pub IsInOrder : List PublishedOneTimePreKey → List PublishedOneTimePreKey → Type 0
IsInOrder published ks =
    AreRising 0 ks
    × All (λ k. IsUsable k × Memᴰ k published) ks
    × ((k : PublishedOneTimePreKey)
        → Memᴰ k published
        → IsUsable k
        → has_number (id_number k) ks ≡ true)

pub normalize-IsInOrder :
    (published : List PublishedOneTimePreKey)
    → IsInOrder published (normalize_one_time_pre_keys published)
unfolding normalize_one_time_pre_keys
normalize-IsInOrder published =
    let usable = filter is_usable published in
    let moved = sort_by-perm id_number usable in
    let good : All (λ k. IsUsable k × Memᴰ k published) usable =
      All-zip (λ k u m. ((usable_lem k).0 u, m)) usable (All-filter_test is_usable published)
        (All-filter (λ k. Memᴰ k published) is_usable published (All-self published)) in
    (
      normalize-AreRising published,
      All-unseen (λ k. IsUsable k × Memᴰ k published) [] (sort_by id_number usable)
          (All-perm (λ k. IsUsable k × Memᴰ k published) moved good),
      λ k m u.
          unseen-has_number [] k (sort_by id_number usable)
            (mem-perm k moved (mem-filter is_usable k published m ((usable_lem k).1 u))) refl,
    )
