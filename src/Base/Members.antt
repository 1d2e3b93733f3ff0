-- ===== src/Base/Members.antt =====
-- Membership in lists, and in lists that are filtered or permuted.
use mathlib.Core.Path.{◌≡◌, refl, sym, ap, subst, ◌∙◌}
use mathlib.Core.Logic.{inl, inr}
use mathlib.Core.Bool.{Bool, true}
use mathlib.Core.List.{List, [], ◌∷◌, Memᴰ, Permᴰ}
use a.Base.Tests.{Bool-cases}
use a.Base.Lists.{filter, All, All-mono}

module _ {ℓ} {A : Type ℓ} where
  pub mem-filter :
      (p : A → Bool) (x : A) (xs : List A) → Memᴰ x xs → p x ≡ true → Memᴰ x (filter p xs)
  unfolding filter
  mem-filter p x [] m h = elim m [ ]
  mem-filter p x (y ∷ xs) (Memᴰ.head e) h =
      let kept : p y ≡ true = ap p (sym e) ∙ h in rw kept (Memᴰ.head e)
  mem-filter p x (y ∷ xs) (Memᴰ.tail m) h = elim (Bool-cases (p y)) [
    | inl kept ↦ rw kept (Memᴰ.tail (mem-filter p x xs m h))
    | inr dropped ↦ rw dropped (mem-filter p x xs m h)
  ]

  pub All-mem {κ} : (P : A → Type κ) (x : A) (xs : List A) → All P xs → Memᴰ x xs → P x
  All-mem P x [] h m = elim m [ ]
  All-mem P x (y ∷ xs) h (Memᴰ.head e) = subst P (sym e) h.0
  All-mem P x (y ∷ xs) h (Memᴰ.tail m) = All-mem P x xs h.1 m

  pub mem-perm : {xs ys : List A} (x : A) → Permᴰ xs ys → Memᴰ x xs → Memᴰ x ys
  mem-perm x Permᴰ.nil m = elim m [ ]
  mem-perm x (Permᴰ.cons e d) (Memᴰ.head p) = Memᴰ.head (p ∙ e)
  mem-perm x (Permᴰ.cons e d) (Memᴰ.tail m) = Memᴰ.tail (mem-perm x d m)
  mem-perm x (Permᴰ.swap e f) (Memᴰ.head p) = Memᴰ.tail (Memᴰ.head (p ∙ e))
  mem-perm x (Permᴰ.swap e f) (Memᴰ.tail (Memᴰ.head p)) = Memᴰ.head (p ∙ f)
  mem-perm x (Permᴰ.swap e f) (Memᴰ.tail (Memᴰ.tail m)) = Memᴰ.tail (Memᴰ.tail m)
  mem-perm x (Permᴰ.trans d e) m = mem-perm x e (mem-perm x d m)

  pub All-self : (xs : List A) → All (λ x. Memᴰ x xs) xs
  All-self [] = tt
  All-self (x ∷ xs) = (Memᴰ.head refl, All-mono (λ y m. Memᴰ.tail m) xs (All-self xs))
