-- ===== src/Base/Sorting.antt =====
-- `Array.sort` with a numeric key: a stable sort, and that it sorts and only permutes.
use mathlib.Core.List.{Permᴰ}
use mathlib.Core.Path.{refl}
use mathlib.Core.List.{List, [], ◌∷◌}
use mathlib.Core.Logic.{inl, inr}
use Prim.Native.Nat.{ℕ, ◌≤◌}
use native.Mathlib.Omega.{arith}
use a.Base.Tests.{leb, leb→le, if◌then◌else◌, Bool-cases}
use a.Base.Perms.{perm_refl}

module _ {ℓ} {A : Type ℓ} (key : A → ℕ) where
  unfoldable pub insert_sorted : A → List A → List A
  insert_sorted x [] = x ∷ []
  insert_sorted x (y ∷ ys) = if leb (key x) (key y) then x ∷ y ∷ ys else y ∷ insert_sorted x ys

  -- Elements with equal keys keep their order.
  unfoldable pub sort_by : List A → List A
  sort_by [] = []
  sort_by (x ∷ xs) = insert_sorted x (sort_by xs)

  -- The keys do not fall along the list, from `n` on.
  abbrev pub IsSortedFrom : ℕ → List A → Type 0
  IsSortedFrom n [] = Unit
  IsSortedFrom n (x ∷ xs) = (n ≤ key x) × IsSortedFrom (key x) xs

  insert-IsSortedFrom :
      (n : ℕ) (x : A) (xs : List A)
      → n ≤ key x
      → IsSortedFrom n xs
      → IsSortedFrom n (insert_sorted x xs)
  unfolding insert_sorted
  insert-IsSortedFrom n x [] h s = (h, tt)
  insert-IsSortedFrom n x (y ∷ ys) h s = elim (Bool-cases (leb (key x) (key y))) [
    | inl le ↦ rw le (h, (leb→le (key x) (key y) le, s.1))
    | inr gt ↦ rw gt (s.0, insert-IsSortedFrom (key y) x ys (ground arith) s.1)
  ]

  pub sort_by-IsSorted : (xs : List A) → IsSortedFrom 0 (sort_by xs)
  unfolding sort_by
  sort_by-IsSorted [] = tt
  sort_by-IsSorted (x ∷ xs) =
      insert-IsSortedFrom 0 x (sort_by xs) (omega arith) (sort_by-IsSorted xs)

  insert-perm : (x : A) (xs : List A) → Permᴰ (x ∷ xs) (insert_sorted x xs)
  unfolding insert_sorted
  insert-perm x [] = Permᴰ.cons refl Permᴰ.nil
  insert-perm x (y ∷ ys) = elim (Bool-cases (leb (key x) (key y))) [
    | inl le ↦ rw le (Permᴰ.cons refl (Permᴰ.cons refl (perm_refl ys)))
    | inr gt ↦ rw gt (Permᴰ.trans (Permᴰ.swap refl refl) (Permᴰ.cons refl (insert-perm x ys)))
  ]

  pub sort_by-perm : (xs : List A) → Permᴰ xs (sort_by xs)
  unfolding sort_by
  sort_by-perm [] = Permᴰ.nil
  sort_by-perm (x ∷ xs) =
      Permᴰ.trans (Permᴰ.cons refl (sort_by-perm xs)) (insert-perm x (sort_by xs))
