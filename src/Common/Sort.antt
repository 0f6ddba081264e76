-- ===== src/Common/Sort.antt =====
-- `sort.Slice`: the elements in an order in which none comes before its predecessor.
use mathlib.Core.Path.{◌≡◌, refl}
use mathlib.Core.Bool.{Bool}
use mathlib.Core.List.{List, [], ◌∷◌, ◌++◌}
use native.Mathlib.Omega.{arith}
use Prim.Native.String.{String, compare}
use Prim.Native.Nat.{ℕ, ◌+◌}
use text.Mathlib.Text.{is_lt}
use sbox_manager.Common.Tests.{if◌then◌else◌}

-- `a < b` on texts.
abbrev pub text_lt : String → String → Bool
text_lt a b = is_lt (compare a b)

-- The sum of a measure.
abbrev pub total {ℓ} : {A : Type ℓ} → (A → ℕ) → List A → ℕ
total f [] = 0
total f (x ∷ xs) = f x + total f xs

module _ {ℓ} {A : Type ℓ} (less : A → A → Bool) where
  -- Behind the elements that it does not come before.
  unfoldable pub place : A → List A → List A
  place a [] = a ∷ []
  place a (x ∷ xs) = let rest = place a xs in if less a x then a ∷ x ∷ xs else x ∷ rest

  unfoldable pub sort : List A → List A
  unfolding place
  sort [] = []
  sort (x ∷ xs) = place x (sort xs)

  total-place : (f : A → ℕ) (a : A) (xs : List A) → total f (place a xs) ≡ f a + total f xs
  unfolding place
  total-place f a [] = refl
  total-place f a (x ∷ xs) = ground (arith, total-place f a xs)

  -- Sorting keeps every sum.
  pub total-sort : (f : A → ℕ) (xs : List A) → total f (sort xs) ≡ total f xs
  unfolding sort
  total-sort f [] = refl
  total-sort f (x ∷ xs) = omega (arith, total-place f x (sort xs), total-sort f xs)

pub total-append {ℓ} :
    {A : Type ℓ} (f : A → ℕ) (xs ys : List A) → total f (xs ++ ys) ≡ total f xs + total f ys
total-append f [] ys = omega arith
total-append f (x ∷ xs) ys = omega (arith, total-append f xs ys)
