-- ===== src/Relay/Endorsements/Summaries.antt =====
-- What the answers of endorsement-index.ts hold.
use a.Base.{
  leb, leb→le, Eq, ◌==◌, string_eq, Bool-cases, &&-eq-true, length, take, drop, filter, length-take,
  take-drop, All, All-take, All-mono, All-filter_test, values, perm_refl, All-perm, mem-filter, ℕ,
  zero, suc, ◌≤◌, ◌<◌, min, String, ◌≡◌, refl, sym, ap, subst, ◌∙◌, ◌⊎◌, inl, inr, true, Option,
  none, some, List, [], ◌∷◌, ◌++◌, map, arith, bytes_eq, nat_eq,
}
use mathlib.Core.List.{Memᴰ, Permᴰ}
use a.Relay.Endorsements.{StoredEndorsement, EndorsementIndex, target_map, expiry}
use a.Relay.Endorsements.Queries.{
  is_unexpired, is_of_domain, is_since, is_asked, matching, query, insert_newest, sort_newest,
  sum_of,
}

All-drop {ℓ κ} : {A : Type ℓ} (P : A → Type κ) (n : ℕ) (xs : List A) → All P xs → All P (drop n xs)
All-drop P zero xs h = h
All-drop P (suc n) [] h = tt
All-drop P (suc n) (x ∷ xs) h = All-drop P n xs h.1

module _ {ℓ} {A : Type ℓ} (key : A → ℕ) where
  -- No element comes after one with a smaller key.
  abbrev pub IsNewestFirst : List A → Type 0
  IsNewestFirst [] = Unit
  IsNewestFirst (x ∷ xs) = All (λ y. key y ≤ key x) xs × IsNewestFirst xs

  insert_newest-perm : (x : A) (xs : List A) → Permᴰ (x ∷ xs) (insert_newest key x xs)
  unfolding insert_newest
  insert_newest-perm x [] = perm_refl (x ∷ [])
  insert_newest-perm x (y ∷ ys) = elim (Bool-cases (leb (key y) (key x))) [
    | inl le ↦ rw le (perm_refl (x ∷ y ∷ ys))
    | inr gt ↦
        rw gt (Permᴰ.trans (Permᴰ.swap refl refl) (Permᴰ.cons refl (insert_newest-perm x ys)))
  ]

  sort_newest-perm : (xs : List A) → Permᴰ xs (sort_newest key xs)
  unfolding sort_newest
  sort_newest-perm [] = Permᴰ.nil
  sort_newest-perm (x ∷ xs) =
      Permᴰ.trans (Permᴰ.cons refl (sort_newest-perm xs))
        (insert_newest-perm x (sort_newest key xs))

  insert_newest-IsNewestFirst :
      (x : A) (xs : List A) → IsNewestFirst xs → IsNewestFirst (insert_newest key x xs)
  unfolding insert_newest
  insert_newest-IsNewestFirst x [] s = (tt, tt)
  insert_newest-IsNewestFirst x (y ∷ ys) s = elim (Bool-cases (leb (key y) (key x))) [
    | inl le ↦
        let lower = leb→le (key y) (key x) le in
        rw le ((lower, All-mono (λ z h. omega (arith, h, lower)) ys s.0), s)
    | inr gt ↦ rw gt (
      All-perm (λ z. key z ≤ key y) (insert_newest-perm x ys) (ground (arith, gt), s.0),
      insert_newest-IsNewestFirst x ys s.1,
    )
  ]

  sort_newest-IsNewestFirst : (xs : List A) → IsNewestFirst (sort_newest key xs)
  unfolding sort_newest
  sort_newest-IsNewestFirst [] = tt
  sort_newest-IsNewestFirst (x ∷ xs) =
      insert_newest-IsNewestFirst x (sort_newest key xs) (sort_newest-IsNewestFirst xs)

  take-IsNewestFirst : (n : ℕ) (xs : List A) → IsNewestFirst xs → IsNewestFirst (take n xs)
  take-IsNewestFirst zero xs s = tt
  take-IsNewestFirst (suc n) [] s = tt
  take-IsNewestFirst (suc n) (x ∷ xs) s =
      (All-take (λ y. key y ≤ key x) n xs s.0, take-IsNewestFirst n xs s.1)

  -- What is taken from the front is no older than what is left.
  take-IsNewer :
      (n : ℕ) (xs : List A)
      → IsNewestFirst xs
      → All (λ x. All (λ y. key y ≤ key x) (drop n xs)) (take n xs)
  take-IsNewer zero xs s = tt
  take-IsNewer (suc n) [] s = tt
  take-IsNewer (suc n) (x ∷ xs) s = (All-drop (λ y. key y ≤ key x) n xs s.0, take-IsNewer n xs s.1)

length-perm {ℓ} : {A : Type ℓ} {xs ys : List A} → Permᴰ xs ys → length xs ≡ length ys
length-perm Permᴰ.nil = refl
length-perm (Permᴰ.cons e d) = ap suc (length-perm d)
length-perm (Permᴰ.swap e f) = refl
length-perm (Permᴰ.trans d e) = length-perm d ∙ length-perm e

sum_of-perm {ℓ} :
    {A : Type ℓ} (f : A → ℕ) {xs ys : List A} → Permᴰ xs ys → sum_of (map f xs) ≡ sum_of (map f ys)
sum_of-perm f Permᴰ.nil = refl
sum_of-perm f (Permᴰ.cons e d) = omega (arith, ap f e, sum_of-perm f d)
sum_of-perm f (Permᴰ.swap e g) = omega (arith, ap f e, ap f g)
sum_of-perm f (Permᴰ.trans d e) = sum_of-perm f d ∙ sum_of-perm f e

unexpired_lem :
    (now : ℕ) (o : Option ℕ)
    → (is_unexpired now o ≡ true → (t : ℕ) → o ≡ some t → now < t)
      × (((t : ℕ) → o ≡ some t → now < t) → is_unexpired now o ≡ true)
unexpired_lem now none = (λ h t e. absurd (cc e), λ h. refl)
unexpired_lem now (some s) = (
  λ h t e. let same : s ≡ t = cc e in ground (arith, h, same),
  λ h. let before = h s refl in ground (arith, before),
)

-- None given, the domain that is asked for, or any.
abbrev pub IsOfDomain : Option String → Option String → Type 0
IsOfDomain none given = Unit
IsOfDomain (some domain) given = (given ≡ none) ⊎ (given ≡ some domain) ⊎ (given ≡ some "*")

domain_lem :
    (domain given : Option String)
    → (is_of_domain domain given ≡ true → IsOfDomain domain given)
      × (IsOfDomain domain given → is_of_domain domain given ≡ true)
domain_lem none given = (λ h. tt, λ h. refl)
domain_lem (some c) none = (λ h. inl refl, λ h. refl)
domain_lem (some c) (some g) = (
  λ h. elim (Bool-cases (g == c)) [
    | inl is_it ↦ inr (inl (ap some ((string_eq.beq_iff g c).0 is_it)))
    | inr other ↦ inr (inr (ap some ((string_eq.beq_iff g "*").0 (rw other at h))))
  ],
  λ h. elim h [
    | inl e ↦ absurd (cc e)
    | inr (inl e) ↦
        let is_it : (g == c) ≡ true = (string_eq.beq_iff g c).1 (some_injective e) in rw is_it refl
    | inr (inr e) ↦
        let any_of : (g == "*") ≡ true = (string_eq.beq_iff g "*").1 (some_injective e) in
        elim (Bool-cases (g == c)) [
          | inl is_it ↦ rw is_it refl
          | inr other ↦ rw (other, any_of) refl
        ]
  ],
)
  where
    some_injective : {x y : String} → some x ≡ some y → x ≡ y
    some_injective h = cc h

since_lem :
    (since : Option ℕ) (at : ℕ)
    → (is_since since at ≡ true → (t : ℕ) → since ≡ some t → t ≤ at)
      × (((t : ℕ) → since ≡ some t → t ≤ at) → is_since since at ≡ true)
since_lem none at = (λ h t e. absurd (cc e), λ h. refl)
since_lem (some s) at = (
  λ h t e. let same : s ≡ t = cc e in ground (arith, h, same),
  λ h. let before = h s refl in ground (arith, before),
)

module _ {Hash : Type 0} ⦃ids : Eq Hash⦄ where
  -- The target's endorsements that are asked for, in no order.
  abbrev pub asked :
      EndorsementIndex Hash → String → Option String → Option ℕ → ℕ → List (StoredEndorsement Hash)
  unfolding filter target_map
  asked idx target domain since now =
      filter (is_asked domain since now) (values (target_map idx target))

  matching-perm :
      (idx : EndorsementIndex Hash) (target : String) (domain : Option String) (since : Option ℕ)
      (now : ℕ)
      → Permᴰ (asked idx target domain since now) (matching idx target domain since now)
  unfolding matching asked
  matching-perm idx target domain since now =
      sort_newest-perm (λ e. e.endorsement.timestamp) (asked idx target domain since now)

  matching-IsNewestFirst :
      (idx : EndorsementIndex Hash) (target : String) (domain : Option String) (since : Option ℕ)
      (now : ℕ)
      → IsNewestFirst (λ e. e.endorsement.timestamp) (matching idx target domain since now)
  unfolding matching asked
  matching-IsNewestFirst idx target domain since now =
      sort_newest-IsNewestFirst (λ e. e.endorsement.timestamp) (asked idx target domain since now)

  asked-All :
      (idx : EndorsementIndex Hash) (target : String) (domain : Option String) (since : Option ℕ)
      (now : ℕ)
      → All (λ e. is_asked domain since now e ≡ true) (asked idx target domain since now)
  unfolding asked
  asked-All idx target domain since now =
      All-filter_test (is_asked domain since now) (values (target_map idx target))

  -- It has no expiry that counts or one that is to come, the domain or any, and is not too old.
  abbrev pub IsAsked : Option String → Option ℕ → ℕ → StoredEndorsement Hash → Type 0
  IsAsked domain since now e =
      ((t : ℕ) → expiry e.endorsement.expires ≡ some t → now < t)
      × IsOfDomain domain e.endorsement.domain
      × ((t : ℕ) → since ≡ some t → t ≤ e.endorsement.timestamp)

  is_asked-IsAsked :
      (domain : Option String) (since : Option ℕ) (now : ℕ) (e : StoredEndorsement Hash)
      → is_asked domain since now e ≡ true
      → IsAsked domain since now e
  is_asked-IsAsked domain since now e h =
      let (more, later) = &&-eq-true _ (is_since since e.endorsement.timestamp) h in
      let (fresh, its_domain) =
        &&-eq-true (is_unexpired now (expiry e.endorsement.expires))
          (is_of_domain domain e.endorsement.domain) more in
      (
        (unexpired_lem now (expiry e.endorsement.expires)).0 fresh,
        (domain_lem domain e.endorsement.domain).0 its_domain,
        (since_lem since e.endorsement.timestamp).0 later,
      )

  is_asked-if_IsAsked :
      (domain : Option String) (since : Option ℕ) (now : ℕ) (e : StoredEndorsement Hash)
      → IsAsked domain since now e
      → is_asked domain since now e ≡ true
  is_asked-if_IsAsked domain since now e h = rw (
    (unexpired_lem now (expiry e.endorsement.expires)).1 h.0,
    (domain_lem domain e.endorsement.domain).1 h.1,
    (since_lem since e.endorsement.timestamp).1 h.2,
  )

  -- A query's answer: its total and its average count every endorsement of the target that is
  -- unexpired, of the domain and not before the time asked for; of those it lists the newest, as
  -- many as the limit allows, newest first.
  pub query_lem :
      (idx : EndorsementIndex Hash) (target : String) (domain : Option String) (since : Option ℕ)
      (limit now : ℕ)
      → let answer = query idx target domain since limit now in
        let all_asked = asked idx target domain since now in
        ((e : StoredEndorsement Hash)
          → Memᴰ e (values (target_map idx target))
          → IsAsked domain since now e
          → Memᴰ e all_asked)
        × (answer.total ≡ length all_asked)
        × (answer.average_score.count ≡ length all_asked)
        × (answer.average_score.sum ≡ sum_of (map (λ e. e.endorsement.score) all_asked))
        × (length answer.endorsements ≡ min limit (length all_asked))
        × All (IsAsked domain since now) answer.endorsements
        × IsNewestFirst (λ e. e.endorsement.timestamp) answer.endorsements
        × ((xs : List (StoredEndorsement Hash)) × Permᴰ all_asked (answer.endorsements ++ xs)
            × All
                (λ e. All (λ x. x.endorsement.timestamp ≤ e.endorsement.timestamp) xs)
                answer.endorsements)
  unfolding query
  query_lem idx target domain since limit now =
      let found = matching idx target domain since now in
      let moved = matching-perm idx target domain since now in
      let sorted : IsNewestFirst (λ e. e.endorsement.timestamp) found =
        matching-IsNewestFirst idx target domain since now in
      let kept : All (λ e. is_asked domain since now e ≡ true) (asked idx target domain since now) =
        asked-All idx target domain since now in
      (
        λ e at h.
            mem-filter (is_asked domain since now) e (values (target_map idx target)) at
              (is_asked-if_IsAsked domain since now e h),
        sym (length-perm moved),
        sym (length-perm moved),
        sym (sum_of-perm (λ e. e.endorsement.score) moved),
        length-take limit found ∙ ap (min limit) (sym (length-perm moved)),
        All-take (IsAsked domain since now) limit found (
            All-perm (IsAsked domain since now) moved
              (All-mono (is_asked-IsAsked domain since now) _ kept)),
        take-IsNewestFirst (λ e. e.endorsement.timestamp) limit found sorted,
        (
          drop limit found,
          subst (λ l. Permᴰ (asked idx target domain since now) l) (sym (take-drop limit found))
              moved,
          take-IsNewer (λ e. e.endorsement.timestamp) limit found sorted,
        ),
      )
