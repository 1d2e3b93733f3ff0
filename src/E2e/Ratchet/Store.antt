-- ===== src/E2e/Ratchet/Store.antt =====
-- The store of skipped message keys of ratchet.ts.
use a.Base.{
  nat_beq, if◌then◌else◌, list_beq, list_beq_iff, Bool-cases, length, All, ℕ, ◌+◌, ◌≤◌, ◌<◌, ◌≡◌,
  refl, subst, ◌≢◌, inl, inr, Bool, true, false, ◌&&◌, Option, none, some, List, [], ◌∷◌, ◌++◌,
  arith,
}
use a.E2e.Types.{Hex}
use a.E2e.Session.{SkippedMessageKeyState, take_entry}

abbrev pub is_entry : Hex → ℕ → SkippedMessageKeyState → Bool
is_entry key n e = list_beq e.ratchet_public_key key && nat_beq e.message_number n

-- The store has a key for the message.
unfoldable pub holds : Hex → ℕ → List SkippedMessageKeyState → Bool
holds key n [] = false
holds key n (e ∷ es) = if is_entry key n e then true else holds key n es

pub holds-append :
    (key : Hex) (n : ℕ) (xs ys : List SkippedMessageKeyState)
    → holds key n (xs ++ ys) ≡ (if holds key n xs then true else holds key n ys)
unfolding holds
holds-append key n [] ys = refl
holds-append key n (x ∷ xs) ys = ground (arith, holds-append key n xs ys)

-- What taking the key of message `n` gives: it is the message's, and all others stay.
pub record Taken (P : SkippedMessageKeyState → Type 0) (key : Hex) (n : ℕ)
    (xs : List SkippedMessageKeyState) : Type 0 where
  pub entry : SkippedMessageKeyState
  pub rest : List SkippedMessageKeyState
  pub found : take_entry key n xs ≡ some (entry, rest)
  pub its_key : entry.ratchet_public_key ≡ key
  pub its_number : entry.message_number ≡ n
  pub good : P entry
  pub rest_good : All P rest
  pub shorter : length rest + 1 ≡ length xs
  pub others : (k : ℕ) → k ≢ n → holds key k rest ≡ holds key k xs

Taken-skip :
    (P : SkippedMessageKeyState → Type 0) (key : Hex) (n : ℕ) (x : SkippedMessageKeyState)
    (xs : List SkippedMessageKeyState)
    → is_entry key n x ≡ false
    → P x
    → Taken P key n xs
    → Taken P key n (x ∷ xs)
unfolding take_entry holds
Taken-skip P key n x xs e p t = record {
  entry = t.entry;
  rest = x ∷ t.rest;
  found = rw (e, t.found);
  its_key = t.its_key;
  its_number = t.its_number;
  good = t.good;
  rest_good = (p, t.rest_good);
  shorter = omega (arith, t.shorter);
  others = λ k h. rw (t.others k h);
}

Taken-here :
    (P : SkippedMessageKeyState → Type 0) (key : Hex) (n : ℕ) (x : SkippedMessageKeyState)
    (xs : List SkippedMessageKeyState)
    → is_entry key n x ≡ true
    → P x
    → All P xs
    → Taken P key n (x ∷ xs)
unfolding take_entry holds
Taken-here P key n x xs e p h = record {
  entry = x;
  rest = xs;
  found = rw e;
  its_key = ground (arith, list_beq_iff x.ratchet_public_key key);
  its_number = ground arith;
  good = p;
  rest_good = h;
  shorter = omega arith;
  others = λ k ne. ground arith;
}

pub take_entry_holds :
    (P : SkippedMessageKeyState → Type 0) (key : Hex) (n : ℕ) (xs : List SkippedMessageKeyState)
    → All P xs
    → holds key n xs ≡ true
    → Taken P key n xs
unfolding holds
take_entry_holds P key n [] h e = cc
take_entry_holds P key n (x ∷ xs) h e = elim (Bool-cases (is_entry key n x)) [
  | inl here ↦ Taken-here P key n x xs here h.0 h.1
  | inr there ↦ Taken-skip P key n x xs there h.0 (take_entry_holds P key n xs h.1 (rw there at e))
]

pub take_entry_missing :
    (key : Hex) (n : ℕ) (xs : List SkippedMessageKeyState)
    → holds key n xs ≡ false
    → take_entry key n xs ≡ none
unfolding holds take_entry
take_entry_missing key n [] h = refl
take_entry_missing key n (x ∷ xs) h = ground (arith, take_entry_missing key n xs)

-- Entries of the chain with numbers below `k` hold no key at or above it.
pub holds_above :
    (key : Hex) (k n : ℕ) (xs : List SkippedMessageKeyState)
    → All (λ e. e.ratchet_public_key ≡ key → e.message_number < k) xs
    → k ≤ n
    → holds key n xs ≡ false
unfolding holds
holds_above key k n [] h le = refl
holds_above key k n (x ∷ xs) h le = elim (Bool-cases (is_entry key n x)) [
  | inl here ↦
      let same : x.ratchet_public_key ≡ key =
        ground (arith, list_beq_iff x.ratchet_public_key key) in
      let number : x.message_number ≡ n = ground arith in absurd (omega (arith, h.0 same))
  | inr there ↦ rw there (holds_above key k n xs h.1 le)
]

-- No message has two stored keys.
abbrev pub AreOnce : List SkippedMessageKeyState → Type 0
AreOnce [] = Unit
AreOnce (e ∷ es) = (holds e.ratchet_public_key e.message_number es ≡ false) × AreOnce es

is_entry-lem :
    (key : Hex) (n : ℕ) (e : SkippedMessageKeyState)
    → is_entry key n e ≡ true
    → (e.ratchet_public_key ≡ key) × (e.message_number ≡ n)
is_entry-lem key n e h = (ground (arith, list_beq_iff e.ratchet_public_key key), ground arith)

-- A key that is taken is not there any more.
pub take_entry_gone :
    (key : Hex) (n : ℕ) (xs : List SkippedMessageKeyState)
    → AreOnce xs
    → holds key n xs ≡ true
    → (entry : SkippedMessageKeyState) (rest : List SkippedMessageKeyState)
    → take_entry key n xs ≡ some (entry, rest)
    → holds key n rest ≡ false
unfolding holds take_entry
take_entry_gone key n [] once h entry rest found = absurd (cc h)
take_entry_gone key n (x ∷ xs) once h entry rest found = elim (Bool-cases (is_entry key n x)) [
  | inl here ↦
      let same : xs ≡ rest = cc (rw here at found) in
      let its = is_entry-lem key n x here in
      subst (λ l. holds key n l ≡ false) same
        (subst (λ k. holds k n xs ≡ false) its.0
          (subst (λ i. holds x.ratchet_public_key i xs ≡ false) its.1 once.0))
  | inr there ↦
      go (take_entry key n xs) there refl
        (λ y r e. take_entry_gone key n xs once.1 (rw there at h) y r e)
]
  where
    go :
        (o : Option (SkippedMessageKeyState × List SkippedMessageKeyState))
        → is_entry key n x ≡ false
        → take_entry key n xs ≡ o
        → ((y : SkippedMessageKeyState) (r : List SkippedMessageKeyState)
            → o ≡ some (y, r)
            → holds key n r ≡ false)
        → holds key n rest ≡ false
    go none there e step = absurd (cc (rw (there, e) at found))
    go (some (y, r)) there e step =
        let same : x ∷ r ≡ rest = cc (rw (there, e) at found) in
        subst (λ l. holds key n l ≡ false) same (rw there (step y r refl))
