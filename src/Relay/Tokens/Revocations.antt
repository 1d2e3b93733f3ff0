-- ===== src/Relay/Tokens/Revocations.antt =====
-- Revoked tokens of revocation.ts stay revoked as long as they could be used.
use a.Base.{
  ltb, leb, ◌==◌, string_eq, Bool-cases, is_some, filter, All, All-filter, lookup, insert,
  lookup-insert, lookup-insert_same, All-insert, values, IsKeyed, insert-IsKeyed, ℕ, ◌≤◌, String,
  ◌≡◌, refl, sym, ap, subst, ◌∙◌, inl, inr, Bool, true, false, not, Option, none, some, List, [],
  ◌∷◌, arith, bytes_eq, nat_eq,
}
use a.Relay.Tokens.{
  Revocations, RevocationEntry, gc, map_of, load_revocations, save_revocations, revoke, is_revoked,
}

-- What happens to the list: a revocation, the writing of the file, a restart after it was written.
pub data Change : Type 0 where
  revoking : String → Option String → ℕ → ℕ → Change
  saving : ℕ → Change
  restarting : ℕ → ℕ → Change

unfoldable pub apply : Revocations → Change → Revocations
unfolding revoke save_revocations load_revocations
apply entries (revoking jti reason exp now) = revoke entries jti reason exp now
apply entries (saving now) = (save_revocations entries now).0
apply entries (restarting saved now) =
    load_revocations (some (save_revocations entries saved).1) now

unfoldable pub apply_all : Revocations → List Change → Revocations
unfolding apply
apply_all entries [] = entries
apply_all entries (c ∷ cs) = apply_all (apply entries c) cs

-- The change happens while a token of this id and expiry is valid, and does not revoke it for less.
abbrev pub IsWhileValid : String → ℕ → Change → Type 0
IsWhileValid jti exp (revoking other reason other_exp now) = other ≡ jti → exp ≤ other_exp
IsWhileValid jti exp (saving now) = now ≤ exp
IsWhileValid jti exp (restarting saved now) = (saved ≤ exp) × (now ≤ exp)

-- The entry revokes the token at least until the expiry.
abbrev pub covers : ℕ → Option RevocationEntry → Bool
covers exp none = false
covers exp (some e) = leb exp e.original_exp

-- Every entry stands under its id, and no id twice.
abbrev pub IsList : Revocations → Type 0
IsList entries = IsKeyed entries × All (λ p. p.0 ≡ p.1.jti) entries

lookup-gc :
    (jti : String) (entries : Revocations) (now exp : ℕ)
    → IsKeyed entries
    → now ≤ exp
    → covers exp (lookup jti entries) ≡ true
    → covers exp (lookup jti (gc entries now)) ≡ true
unfolding gc lookup
lookup-gc jti [] now exp u early h = h
lookup-gc jti ((k, e) ∷ entries) now exp u early h = elim (Bool-cases (k == jti)) [
  | inl same ↦
      let far : covers exp (some e) ≡ true = ground (arith, same, h) in
      let kept : ltb e.original_exp now ≡ false = ground (arith, far, early) in
      rw kept (ground (arith, same, far))
  | inr other ↦
      let rest = lookup-gc jti entries now exp u.1 early (ground (arith, other, h)) in
      elim (Bool-cases (ltb e.original_exp now)) [
        | inl gone ↦ rw gone rest
        | inr kept ↦ rw kept (ground (arith, other, rest))
      ]
]

abbrev or_other : Option RevocationEntry → Option RevocationEntry → Option RevocationEntry
or_other none o = o
or_other (some e) o = some e

lookup-map_of :
    (jti : String) (entries m : Revocations)
    → IsList entries
    → lookup jti (map_of (λ e. e.jti) (values entries) m)
      ≡ or_other (lookup jti entries) (lookup jti m)
unfolding map_of lookup
lookup-map_of jti [] m l = refl
lookup-map_of jti ((k, e) ∷ entries) m l =
    let own : k ≡ e.jti = l.1.0 in
    let rest = lookup-map_of jti entries (insert e.jti e m) (l.0.1, l.1.1) in
    let put = lookup-insert e.jti jti e m in
    let absent : lookup e.jti entries ≡ none = subst (λ i. lookup i entries ≡ none) own l.0.0 in
    rest ∙ elim (Bool-cases (e.jti == jti)) [
      | inl same ↦
          let here : lookup jti entries ≡ none =
            subst (λ i. lookup i entries ≡ none) ((string_eq.beq_iff e.jti jti).0 same) absent in
          let found : (k == jti) ≡ true = subst (λ i. (i == jti) ≡ true) (sym own) same in
          rw (here, found) (put ∙ ground (arith, same))
      | inr other ↦
          let off : (k == jti) ≡ false = subst (λ i. (i == jti) ≡ false) (sym own) other in
          rw off (ap (or_other (lookup jti entries)) (put ∙ ground (arith, other)))
    ]

lookup-filter-none :
    (jti : String) (test : String × RevocationEntry → Bool) (entries : Revocations)
    → lookup jti entries ≡ none
    → lookup jti (filter test entries) ≡ none
unfolding filter lookup
lookup-filter-none jti test [] h = refl
lookup-filter-none jti test ((k, e) ∷ entries) h =
    let rest = lookup-filter-none jti test entries (ground (arith, h)) in
    elim (Bool-cases (test (k, e))) [
      | inl kept ↦ rw kept (ground (arith, h, rest))
      | inr gone ↦ rw gone rest
    ]

filter-IsKeyed :
    (test : String × RevocationEntry → Bool) (entries : Revocations)
    → IsKeyed entries
    → IsKeyed (filter test entries)
unfolding filter
filter-IsKeyed test [] u = tt
filter-IsKeyed test ((k, e) ∷ entries) u = elim (Bool-cases (test (k, e))) [
  | inl kept ↦ rw kept (lookup-filter-none k test entries u.0, filter-IsKeyed test entries u.1)
  | inr gone ↦ rw gone (filter-IsKeyed test entries u.1)
]

gc-IsList : (entries : Revocations) (now : ℕ) → IsList entries → IsList (gc entries now)
unfolding gc
gc-IsList entries now l = (
  filter-IsKeyed (λ e. not (ltb e.1.original_exp now)) entries l.0,
  All-filter (λ p. p.0 ≡ p.1.jti) (λ e. not (ltb e.1.original_exp now)) entries l.1,
)

map_of-IsList :
    (list : List RevocationEntry) (m : Revocations) → IsList m → IsList (map_of (λ e. e.jti) list m)
unfolding map_of
map_of-IsList [] m l = l
map_of-IsList (e ∷ list) m l =
    map_of-IsList list (insert e.jti e m)
      (insert-IsKeyed e.jti e m l.0, All-insert (λ p. p.0 ≡ p.1.jti) e.jti e m l.1 refl)

apply-IsList : (entries : Revocations) (c : Change) → IsList entries → IsList (apply entries c)
unfolding apply revoke save_revocations load_revocations
apply-IsList entries (revoking jti reason exp now) l =
    let e : RevocationEntry = record {
      jti = jti;
      revoked_at = now;
      reason = reason;
      original_exp = exp;
    } in
    (insert-IsKeyed jti e entries l.0, All-insert (λ p. p.0 ≡ p.1.jti) jti e entries l.1 refl)
apply-IsList entries (saving now) l = gc-IsList entries now l
apply-IsList entries (restarting saved now) l =
    gc-IsList (map_of (λ e. e.jti) (values (gc entries saved)) []) now
      (map_of-IsList (values (gc entries saved)) [] (tt, tt))

covers-or_other :
    (exp : ℕ) (o other : Option RevocationEntry)
    → covers exp o ≡ true
    → covers exp (or_other o other) ≡ true
covers-or_other exp none other h = absurd (cc h)
covers-or_other exp (some e) other h = h

apply-covers :
    (jti : String) (exp : ℕ) (entries : Revocations) (c : Change)
    → IsList entries
    → IsWhileValid jti exp c
    → covers exp (lookup jti entries) ≡ true
    → covers exp (lookup jti (apply entries c)) ≡ true
unfolding apply revoke save_revocations load_revocations
apply-covers jti exp entries (revoking other reason other_exp now) l valid h =
    let e : RevocationEntry = record {
      jti = other;
      revoked_at = now;
      reason = reason;
      original_exp = other_exp;
    } in
    ap (covers exp) (lookup-insert other jti e entries) ∙ elim (Bool-cases (other == jti)) [
      | inl same ↦
          let far = valid ((string_eq.beq_iff other jti).0 same) in ground (arith, same, far)
      | inr apart ↦ ground (arith, apart, h)
    ]
apply-covers jti exp entries (saving now) l valid h = lookup-gc jti entries now exp l.0 valid h
apply-covers jti exp entries (restarting saved now) l valid h =
    let kept = gc entries saved in
    let read = map_of (λ e. e.jti) (values kept) [] in
    let before = lookup-gc jti entries saved exp l.0 valid.0 h in
    let same = lookup-map_of jti kept [] (gc-IsList entries saved l) in
    lookup-gc jti read now exp (map_of-IsList (values kept) [] (tt, tt)).0 valid.1
      (ap (covers exp) same ∙ covers-or_other exp (lookup jti kept) (lookup jti []) before)

covers_throughout :
    (jti : String) (exp : ℕ) (entries : Revocations) (cs : List Change)
    → IsList entries
    → All (IsWhileValid jti exp) cs
    → covers exp (lookup jti entries) ≡ true
    → covers exp (lookup jti (apply_all entries cs)) ≡ true
unfolding apply_all
covers_throughout jti exp entries [] l valid h = h
covers_throughout jti exp entries (c ∷ cs) l valid h =
    covers_throughout jti exp (apply entries c) cs (apply-IsList entries c l) valid.1
      (apply-covers jti exp entries c l valid.0 h)

covers-revoked : (exp : ℕ) (o : Option RevocationEntry) → covers exp o ≡ true → is_some o ≡ true
covers-revoked exp none h = absurd (cc h)
covers-revoked exp (some e) h = refl

-- A token that was revoked with its expiry stays revoked through whatever is revoked, saved and
-- reloaded up to that time, unless the same id is revoked again for a shorter time.
pub revoked_while_valid :
    (entries : Revocations) (jti : String) (reason : Option String) (exp now : ℕ) (cs : List Change)
    → IsList entries
    → All (IsWhileValid jti exp) cs
    → is_revoked (apply_all (revoke entries jti reason exp now) cs) jti ≡ true
unfolding is_revoked revoke
revoked_while_valid entries jti reason exp now cs l valid =
    let e : RevocationEntry = record {
      jti = jti;
      revoked_at = now;
      reason = reason;
      original_exp = exp;
    } in
    covers-revoked exp _ (
      covers_throughout jti exp (insert jti e entries) cs
        (insert-IsKeyed jti e entries l.0, All-insert (λ p. p.0 ≡ p.1.jti) jti e entries l.1 refl)
        valid (ap (covers exp) (lookup-insert_same jti e entries) ∙ ground arith))
