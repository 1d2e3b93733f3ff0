-- ===== src/Base/Perms.antt =====
-- What a permutation keeps.
use mathlib.Core.List.{Permᴰ}
use mathlib.Core.Path.{◌≡◌, refl, subst, ◌∙◌, ap}
use mathlib.Core.Bool.{Bool}
use mathlib.Core.List.{List, [], ◌∷◌}
use Prim.Native.Nat.{ℕ, ◌+◌, ◌≤◌}
use native.Mathlib.Omega.{arith}
use a.Base.Tests.{if◌then◌else◌}
use a.Base.Lists.{All, length, filter, any}

pub perm_refl {ℓ} : {A : Type ℓ} (xs : List A) → Permᴰ xs xs
perm_refl [] = Permᴰ.nil
perm_refl (x ∷ xs) = Permᴰ.cons refl (perm_refl xs)

pub All-perm {ℓ κ} :
    {A : Type ℓ} (P : A → Type κ) {xs ys : List A} → Permᴰ xs ys → All P xs → All P ys
All-perm P Permᴰ.nil h = h
All-perm P (Permᴰ.cons e d) h = (subst P e h.0, All-perm P d h.1)
All-perm P (Permᴰ.swap e f) h = (subst P f h.1.0, (subst P e h.0, h.1.1))
All-perm P (Permᴰ.trans d e) h = All-perm P e (All-perm P d h)

-- The number of elements that pass a test.
unfoldable pub count_by {ℓ} : {A : Type ℓ} → (A → Bool) → List A → ℕ
count_by p xs = length (filter p xs)

count_by-cons {ℓ} :
    {A : Type ℓ} (p : A → Bool) (x : A) (xs : List A)
    → count_by p (x ∷ xs) ≡ (if p x then 1 else 0) + count_by p xs
unfolding count_by filter
count_by-cons p x xs = ground arith

pub count_by-cons-le {ℓ} :
    {A : Type ℓ} (p : A → Bool) (x : A) (xs : List A) → count_by p (x ∷ xs) ≤ count_by p xs + 1
unfolding count_by filter
count_by-cons-le p x xs = ground arith

pub count_by-perm {ℓ} :
    {A : Type ℓ} (p : A → Bool) {xs ys : List A} → Permᴰ xs ys → count_by p xs ≡ count_by p ys
count_by-perm p Permᴰ.nil = refl
count_by-perm p (Permᴰ.cons {a} {b} {l₁} {l₂} e d) = omega (
  arith,
  count_by-cons p a l₁,
  count_by-cons p b l₂,
  count_by-perm p d,
  ap {B = ℕ} (λ x. if p x then 1 else 0) e,
)
count_by-perm p (Permᴰ.swap {a} {b} {a'} {b'} {l} e f) = omega (
  arith,
  count_by-cons p a (b ∷ l),
  count_by-cons p b l,
  count_by-cons p a' (b' ∷ l),
  count_by-cons p b' l,
  ap {B = ℕ} (λ x. if p x then 1 else 0) e,
  ap {B = ℕ} (λ x. if p x then 1 else 0) f,
)
count_by-perm p (Permᴰ.trans d e) = count_by-perm p d ∙ count_by-perm p e

pub any-perm {ℓ} : {A : Type ℓ} (p : A → Bool) {xs ys : List A} → Permᴰ xs ys → any p xs ≡ any p ys
any-perm p Permᴰ.nil = refl
any-perm p (Permᴰ.cons {a} {b} {l₁} {l₂} e d) = ground (arith, ap p e, any-perm p d)
any-perm p (Permᴰ.swap {a} {b} {a'} {b'} {l} e f) = ground (arith, ap p e, ap p f)
any-perm p (Permᴰ.trans d e) = any-perm p d ∙ any-perm p e
