-- ===== src/Domain/Issues.antt =====
-- internal/domain/errors.go: a validator adds issues to a list that grows at its end. Here it
-- returns the issues that it adds, and `++` joins those of two calls in the order of the code.
use sbox_manager.Common.{
  Bool, List, String, [], false, if◌then◌else◌, is_empty, refl, suc, true, ℕ, ◌++◌, ◌∷◌, ◌≡◌,
}

-- The message is not printed: its format and its text arguments.
pub record ValidationIssue : Type 0 where
  pub path : String
  pub format : String
  pub args : List String

abbrev pub ValidationErrors : Type 0
ValidationErrors = List ValidationIssue

-- `errs.Add(path, format, args...)`.
abbrev pub add : String → String → List String → ValidationErrors
add path format args = record { path = path; format = format; args = args } ∷ []

-- `if test { errs.Add(…) }`.
abbrev pub add_if : Bool → String → String → List String → ValidationErrors
add_if test path format args = if test then add path format args else []

-- `errs.ErrOrNil() == nil`.
abbrev pub is_ok : ValidationErrors → Bool
is_ok = is_empty

-- Issues collected over the elements of a slice, with their indices.
abbrev pub each {ℓ} : {A : Type ℓ} → (ℕ → A → ValidationErrors) → ℕ → List A → ValidationErrors
each f i [] = []
each f i (x ∷ xs) = f i x ++ each f (suc i) xs

pub add_if-eq-nil :
    (b : Bool) (path format : String) (args : List String)
    → add_if b path format args ≡ []
    → b ≡ false
add_if-eq-nil true path format args h = cc
add_if-eq-nil false path format args h = refl
