-- ===== src/Base/Maps.antt =====
-- The language's `Map` as an association list in insertion order: writing a known key keeps its
-- place, a new key goes last.
use Prim.Native.Nat.{◌+◌, ◌≤◌}
use mathlib.Core.Path.{◌≡◌, refl, sym, subst, ap, ◌∙◌}
use mathlib.Core.Logic.{inl, inr}
use mathlib.Core.Bool.{Bool, true, false}
use mathlib.Core.Option.{Option, none, some}
use mathlib.Core.List.{List, [], ◌∷◌, map}
use native.Mathlib.Omega.{arith}
use a.Base.Tests.{Eq, if◌then◌else◌, Bool-cases, beq_refl}
use a.Base.Lists.{length, All, any}

abbrev pub Map {ℓ κ} : Type ℓ → Type κ → Type (ℓ ⊔ κ)
Map K V = List (K × V)

module _ {ℓ κ} {K : Type ℓ} {V : Type κ} ⦃e : Eq K⦄ where
  unfoldable pub lookup : K → Map K V → Option V
  lookup k [] = none
  lookup k ((j, v) ∷ m) = if e.beq j k then some v else lookup k m

  unfoldable pub insert : K → V → Map K V → Map K V
  insert k v [] = (k, v) ∷ []
  insert k v ((j, w) ∷ m) = if e.beq j k then (j, v) ∷ m else (j, w) ∷ insert k v m

  unfoldable pub delete : K → Map K V → Map K V
  delete k [] = []
  delete k ((j, w) ∷ m) = if e.beq j k then delete k m else (j, w) ∷ delete k m

  pub lookup-insert :
      (k j : K) (v : V) (m : Map K V)
      → lookup j (insert k v m) ≡ (if e.beq k j then some v else lookup j m)
  unfolding lookup insert
  lookup-insert k j v [] = refl
  lookup-insert k j v ((i, w) ∷ m) =
      ground (arith, e.beq_iff k j, e.beq_iff i k, e.beq_iff i j, lookup-insert k j v m)

  pub lookup-insert_same : (k : K) (v : V) (m : Map K V) → lookup k (insert k v m) ≡ some v
  lookup-insert_same k v m =
      lookup-insert k k v m ∙ ap (λ b. if b then some v else lookup k m) (beq_refl k)

  pub lookup-delete :
      (k j : K) (m : Map K V) → lookup j (delete k m) ≡ (if e.beq k j then none else lookup j m)
  unfolding lookup delete
  lookup-delete k j [] = ground arith
  lookup-delete k j ((i, w) ∷ m) =
      ground (arith, e.beq_iff k j, e.beq_iff i k, e.beq_iff i j, lookup-delete k j m)

  pub lookup-delete_same : (k : K) (m : Map K V) → lookup k (delete k m) ≡ none
  lookup-delete_same k m =
      lookup-delete k k m ∙ ap (λ b. if b then none else lookup k m) (beq_refl k)

  pub length-delete-le : (k : K) (m : Map K V) → length (delete k m) ≤ length m
  unfolding delete
  length-delete-le k [] = omega arith
  length-delete-le k ((j, w) ∷ m) = ground (arith, length-delete-le k m)

  pub length-insert-le : (k : K) (v : V) (m : Map K V) → length (insert k v m) ≤ length m + 1
  unfolding insert
  length-insert-le k v [] = omega arith
  length-insert-le k v ((j, w) ∷ m) = ground (arith, length-insert-le k v m)

-- What holds of every entry, through lookups and changes.
module _ {ℓ κ ι} {K : Type ℓ} {V : Type κ} ⦃e : Eq K⦄ (P : K × V → Type ι) where
  pub All-lookup : (k : K) (v : V) (m : Map K V) → All P m → lookup k m ≡ some v → P (k, v)
  unfolding lookup
  All-lookup k v [] h found = absurd (cc found)
  All-lookup k v ((j, w) ∷ m) h found = elim (Bool-cases (e.beq j k)) [
    | inl same ↦
        let here : w ≡ v = ground (arith, same, found) in
        subst (λ i. P (i, v)) ((e.beq_iff j k).0 same) (subst (λ x. P (j, x)) here h.0)
    | inr other ↦ All-lookup k v m h.1 (ground (arith, other, found))
  ]

  pub All-insert : (k : K) (v : V) (m : Map K V) → All P m → P (k, v) → All P (insert k v m)
  unfolding insert
  All-insert k v [] h new = (new, tt)
  All-insert k v ((j, w) ∷ m) h new = elim (Bool-cases (e.beq j k)) [
    | inl same ↦ rw same (subst (λ i. P (i, v)) (sym ((e.beq_iff j k).0 same)) new, h.1)
    | inr other ↦ rw other (h.0, All-insert k v m h.1 new)
  ]

  pub All-delete :
      (k : K) (m : Map K V) → All P m → All (λ p. P p × (e.beq p.0 k ≡ false)) (delete k m)
  unfolding delete
  All-delete k [] h = tt
  All-delete k ((j, w) ∷ m) h = elim (Bool-cases (e.beq j k)) [
    | inl same ↦ rw same (All-delete k m h.1)
    | inr other ↦ rw other ((h.0, other), All-delete k m h.1)
  ]

module _ {ℓ κ} {K : Type ℓ} {V : Type κ} where
  -- `Map.values`
  abbrev pub values : Map K V → List V
  values m = map (λ p. p.1) m

  pub any-values-eq-false :
      (test : V → Bool) (m : Map K V) → All (λ p. test p.1 ≡ false) m → any test (values m) ≡ false
  any-values-eq-false test [] h = refl
  any-values-eq-false test (p ∷ m) h = ground (arith, h.0, any-values-eq-false test m h.1)

-- No key twice.
abbrev pub IsKeyed {ℓ κ} : {K : Type ℓ} {V : Type κ} ⦃e : Eq K⦄ → Map K V → Type κ
IsKeyed [] = Unit
IsKeyed ((k, v) ∷ m) = (lookup k m ≡ none) × IsKeyed m

module _ {ℓ κ} {K : Type ℓ} {V : Type κ} ⦃e : Eq K⦄ where
  pub any-values-eq-true :
      (test : V → Bool) (k : K) (v : V) (m : Map K V)
      → lookup k m ≡ some v
      → test v ≡ true
      → any test (values m) ≡ true
  unfolding lookup
  any-values-eq-true test k v [] found h = absurd (cc found)
  any-values-eq-true test k v ((j, w) ∷ m) found h = elim (Bool-cases (e.beq j k)) [
    | inl same ↦
        let here : w ≡ v = ground (arith, same, found) in
        let holds : test w ≡ true = ap test here ∙ h in ground (arith, holds)
    | inr other ↦
        let rest = any-values-eq-true test k v m (ground (arith, other, found)) h in
        ground (arith, rest)
  ]

  -- A key that is not found differs from every key there.
  pub other_keys : (k : K) (m : Map K V) → lookup k m ≡ none → All (λ p. e.beq p.0 k ≡ false) m
  unfolding lookup
  other_keys k [] absent = tt
  other_keys k ((j, w) ∷ m) absent = elim (Bool-cases (e.beq j k)) [
    | inl same ↦ absurd (ground (arith, same, absent))
    | inr other ↦ (other, other_keys k m (ground (arith, other, absent)))
  ]

  pub insert-IsKeyed : (k : K) (v : V) (m : Map K V) → IsKeyed m → IsKeyed (insert k v m)
  unfolding insert lookup
  insert-IsKeyed k v [] u = (refl, tt)
  insert-IsKeyed k v ((j, w) ∷ m) u = elim (Bool-cases (e.beq j k)) [
    | inl same ↦ rw same u
    | inr other ↦ rw other (
      ground (arith, lookup-insert k j v m, e.beq_iff k j, e.beq_iff j k, other, u.0),
      insert-IsKeyed k v m u.1,
    )
  ]

  pub delete-IsKeyed : (k : K) (m : Map K V) → IsKeyed m → IsKeyed (delete k m)
  unfolding delete
  delete-IsKeyed k [] u = tt
  delete-IsKeyed k ((j, w) ∷ m) u = elim (Bool-cases (e.beq j k)) [
    | inl same ↦ rw same (delete-IsKeyed k m u.1)
    | inr other ↦ rw other (ground (arith, lookup-delete k j m, u.0), delete-IsKeyed k m u.1)
  ]
