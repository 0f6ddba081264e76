-- ===== src/Common/Keys.antt =====
-- Keys that are put into a set one after the other: each is fresh if it is not there yet. A set is
-- its membership test.
use mathlib.Core.Path.{◌≡◌, refl, fun_ext}
use mathlib.Core.Logic.{◌↔◌, inl, inr}
use mathlib.Core.Bool.{Bool, true, false, not, ◌||◌}
use mathlib.Core.Option.{Option, none, some}
use native.Mathlib.Omega.{arith}
use sbox_manager.Common.Tests.{if◌then◌else◌, is_none, Bool-cases}
use mathlib.Core.List.{List, [], ◌∷◌, ◌++◌}

module _ {ℓ} {K : Type ℓ} (eq : K → K → Bool) where
  abbrev pub put : K → (K → Bool) → K → Bool
  put k f q = eq k q || f q

  abbrev pub put_all : List K → (K → Bool) → K → Bool
  put_all [] f = f
  put_all (k ∷ ks) f = put_all ks (put k f)

  -- No key of the list is in the set, nor among the keys before it.
  abbrev pub Fresh : List K → (K → Bool) → Type 0
  Fresh [] f = Unit
  Fresh (k ∷ ks) f = (f k ≡ false) × Fresh ks (put k f)

  pub put_all-append :
      (ks ls : List K) (f : K → Bool) → put_all (ks ++ ls) f ≡ put_all ls (put_all ks f)
  put_all-append [] ls f = refl
  put_all-append (k ∷ ks) ls f = put_all-append ks ls (put k f)

  pub Fresh-append :
      (ks ls : List K) (f : K → Bool) → Fresh (ks ++ ls) f ↔ (Fresh ks f × Fresh ls (put_all ks f))
  Fresh-append [] ls f = (λ h. (tt, h), λ h. h.1)
  Fresh-append (k ∷ ks) ls f =
      let ih = Fresh-append ks ls (put k f) in
      (λ h. ((h.0, (ih.0 h.1).0), (ih.0 h.1).1), λ h. (h.0.0, ih.1 (h.0.1, h.1)))

module _ {ℓ κ} {K : Type ℓ} {V : Type κ} (eq : K → K → Bool) where
  -- A map as an association list; the first entry for a key counts.
  abbrev pub get : K → List (K × V) → Option V
  get k [] = none
  get k ((j, v) ∷ m) = let rest = get k m in if eq j k then some v else rest

  -- The keys of a map, as a set.
  abbrev pub known : List (K × V) → K → Bool
  known m k = not (is_none (get k m))

  pub known-put : (m : List (K × V)) (key : K) (v : V) → known ((key, v) ∷ m) ≡ put eq key (known m)
  known-put m key v = fun_ext λ q. ground arith

  -- A key that is there already adds nothing.
  pub known-put_old :
      ((a b : K) → eq a b ≡ true → a ≡ b)
      → (m : List (K × V)) (key : K) → known m key ≡ true
      → known m ≡ put eq key (known m)
  known-put_old exact m key h =
      fun_ext
        λ q. elim (Bool-cases (eq key q)) [ inl e ↦ rw e (rw (exact key q e) at h) | inr e ↦ rw e ]
