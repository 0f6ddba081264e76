-- ===== src/Common/Results.antt =====
-- A function that may return an error: its value, or the format of the error.
use Prim.Native.String.{String}
use mathlib.Core.Path.{◌≡◌, refl}
use mathlib.Core.Logic.{◌≢◌, ◌⊎◌, inl, inr}
use mathlib.Core.List.{List, [], ◌∷◌}

pub data Outcome {ℓ} (A : Type ℓ) : Type ℓ where
  success : A → Outcome A
  failure : String → Outcome A

-- `if err != nil { return …, err }`.
infixl 5 ◌>>=◌
abbrev pub ◌>>=◌ {ℓ κ} : {A : Type ℓ} {B : Type κ} → Outcome A → (A → Outcome B) → Outcome B
success a >>= f = f a
failure e >>= f = failure e

pub success_injective {ℓ} : {A : Type ℓ} {a b : A} → success a ≡ success b → a ≡ b
success_injective h = cc

-- Inversion of a step that succeeds.
pub >>=-eq-success {ℓ κ} :
    {A : Type ℓ} {B : Type κ} (m : Outcome A) (f : A → Outcome B) {b : B}
    → (m >>= f) ≡ success b
    → (a : A) × (m ≡ success a) × (f a ≡ success b)
>>=-eq-success (success a) f h = (a, refl, h)
>>=-eq-success (failure e) f h = cc

-- A loop that appends what each round returns, and ends at the first error.
abbrev pub traverse {ℓ κ} : {A : Type ℓ} {B : Type κ} → (A → Outcome B) → List A → Outcome (List B)
traverse f [] = success []
traverse f (x ∷ xs) = f x >>= λ y. traverse f xs >>= λ ys. success (y ∷ ys)

-- A result that is never an error is a value.
pub not_failure-success {ℓ} :
    {A : Type ℓ} (m : Outcome A) → ((e : String) → m ≢ failure e) → (a : A) × (m ≡ success a)
not_failure-success (success a) h = (a, refl)
not_failure-success (failure e) h = absurd (h e refl)

abbrev pub value_or {ℓ} : {A : Type ℓ} → A → Outcome A → A
value_or a (success b) = b
value_or a (failure e) = a

pub Outcome-cases {ℓ} :
    {A : Type ℓ} (m : Outcome A) → ((a : A) × (m ≡ success a)) ⊎ ((e : String) × (m ≡ failure e))
Outcome-cases (success a) = inl (a, refl)
Outcome-cases (failure e) = inr (e, refl)
