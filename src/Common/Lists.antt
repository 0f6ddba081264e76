-- ===== src/Common/Lists.antt =====
-- Lists: tests, predicates and lengths over the native numbers.
use Prim.Native.Nat.{ℕ, suc, ◌+◌}
use Prim.Native.String.{String}
use mathlib.Core.Path.{◌≡◌, refl}
use mathlib.Core.Bool.{Bool, true, false, ◌||◌}
use mathlib.Core.Option.{Option, none, some}
use mathlib.Core.List.{List, [], ◌∷◌, ◌++◌}
use native.Mathlib.Omega.{arith}
use text.Mathlib.Text.{◌==◌}
use text.Mathlib.TextEquality.{eq_iff}
use sbox_manager.Common.Tests.{if◌then◌else◌}

module _ {ℓ} {A : Type ℓ} where
  abbrev pub length : List A → ℕ
  length [] = 0
  length (x ∷ xs) = suc (length xs)

  abbrev pub is_empty : List A → Bool
  is_empty [] = true
  is_empty (x ∷ xs) = false

  -- The elements that pass a Boolean test, in order.
  abbrev pub keep : (A → Bool) → List A → List A
  keep p [] = []
  keep p (x ∷ xs) = let rest = keep p xs in if p x then x ∷ rest else rest

  abbrev pub any : (A → Bool) → List A → Bool
  any p [] = false
  any p (x ∷ xs) = p x || any p xs

  abbrev pub find_first : (A → Bool) → List A → Option A
  find_first p [] = none
  find_first p (x ∷ xs) = let rest = find_first p xs in if p x then some x else rest

  pub length-append : (xs ys : List A) → length (xs ++ ys) ≡ length xs + length ys
  length-append [] ys = omega arith
  length-append (x ∷ xs) ys = omega (arith, length-append xs ys)

module _ {ℓ κ} {A : Type ℓ} (P : A → Type κ) where
  abbrev pub All : List A → Type κ
  All [] = Unit
  All (x ∷ xs) = P x × All xs

  pub All-append : (xs ys : List A) → All xs → All ys → All (xs ++ ys)
  All-append [] ys _ hy = hy
  All-append (x ∷ xs) ys (px, hx) hy = (px, All-append xs ys hx hy)

-- Membership of a text by the Boolean test, as in `_, exists := set[key]`.
abbrev pub has : List String → String → Bool
has [] k = false
has (x ∷ xs) k = x == k || has xs k

-- No text occurs twice.
abbrev pub Distinct : List String → Type 0
Distinct [] = Unit
Distinct (x ∷ xs) = (has xs x ≡ false) × Distinct xs

module _ {ℓ} {V : Type ℓ} where
  -- A Go map with text keys, as an association list whose first entry for a key counts.
  abbrev pub lookup : String → List (String × V) → Option V
  lookup k [] = none
  lookup k ((j, v) ∷ m) = let rest = lookup k m in if j == k then some v else rest

  abbrev pub insert : String → V → List (String × V) → List (String × V)
  insert k v [] = (k, v) ∷ []
  insert k v ((j, w) ∷ m) = let rest = insert k v m in if j == k then (k, v) ∷ m else (j, w) ∷ rest

  pub lookup-insert :
      (k j : String) (v : V) (m : List (String × V))
      → lookup j (insert k v m) ≡ (if k == j then some v else lookup j m)
  lookup-insert k j v [] = refl
  lookup-insert k j v ((i, w) ∷ m) =
      ground (arith, eq_iff k j, eq_iff i k, eq_iff i j, lookup-insert k j v m)

pub append-eq-nil {ℓ} : {A : Type ℓ} (xs ys : List A) → xs ++ ys ≡ [] → (xs ≡ []) × (ys ≡ [])
append-eq-nil [] ys h = (refl, h)
append-eq-nil (x ∷ xs) ys h = cc

module _ {ℓ} {A : Type ℓ} where
  pub append3-eq-nil : (a b c : List A) → a ++ b ++ c ≡ [] → (a ≡ []) × (b ≡ []) × (c ≡ [])
  append3-eq-nil a b c h =
      let (ab, hc) = append-eq-nil (a ++ b) c h in
      let (ha, hb) = append-eq-nil a b ab in (ha, hb, hc)

  pub append4-eq-nil :
      (a b c d : List A) → a ++ b ++ c ++ d ≡ [] → (a ≡ []) × (b ≡ []) × (c ≡ []) × (d ≡ [])
  append4-eq-nil a b c d h =
      let (abc, hd) = append-eq-nil (a ++ b ++ c) d h in
      let (ha, hb, hc) = append3-eq-nil a b c abc in (ha, hb, hc, hd)

  pub append5-eq-nil :
      (a b c d e : List A)
      → a ++ b ++ c ++ d ++ e ≡ []
      → (a ≡ []) × (b ≡ []) × (c ≡ []) × (d ≡ []) × (e ≡ [])
  append5-eq-nil a b c d e h =
      let (abcd, he) = append-eq-nil (a ++ b ++ c ++ d) e h in
      let (ha, hb, hc, hd) = append4-eq-nil a b c d abcd in (ha, hb, hc, hd, he)

  pub append9-eq-nil :
      (a b c d e f g h i : List A)
      → a ++ b ++ c ++ d ++ e ++ f ++ g ++ h ++ i ≡ []
      → ((a ≡ []) × (b ≡ []) × (c ≡ []) × (d ≡ []) × (e ≡ []))
        × (f ≡ [])
        × (g ≡ [])
        × (h ≡ [])
        × (i ≡ [])
  append9-eq-nil a b c d e f g h i p =
      let (front, hf, hg, hh, hi) = append5-eq-nil (a ++ b ++ c ++ d ++ e) f g h i p in
      (append5-eq-nil a b c d e front, hf, hg, hh, hi)
