-- ===== src/Domain/Outbounds/Accepted.antt =====
-- internal/domain/validation.go: what holds of outbounds that `validateOutbounds` accepts.
use sbox_manager.Common.{
  Bool, List, String, [], append4-eq-nil, false, has, if◌then◌else◌, not, refl, suc, true, ℕ, ◌∷◌,
  ◌≡◌,
}
use sbox_manager.Domain.Checks.{is_safe_name}
use sbox_manager.Domain.Checks.Names.{validate_safe_name-eq-nil}
use sbox_manager.Domain.Issues.{ValidationErrors, add, add_if-eq-nil}
use sbox_manager.Domain.Models.{Outbound}
use sbox_manager.Domain.Outbounds.{is_outbound_type, validate_outbounds, validate_outbounds_from}

abbrev pub OutboundOk : Outbound → Type 0
OutboundOk o = (is_safe_name o.name ≡ true) × (is_outbound_type o.type ≡ true)

abbrev pub OutboundsOk : List String → List Outbound → Type 0
OutboundsOk names [] = Unit
OutboundsOk names (o ∷ os) =
    OutboundOk o × (has names o.name ≡ false) × OutboundsOk (o.name ∷ names) os

typed :
    (ok : Bool) (path : String) (args : List String) (rest : ValidationErrors)
    → (if not ok then add path "unsupported outbound type %q" args else rest) ≡ []
    → ok ≡ true
typed true path args rest h = refl
typed false path args rest h = cc

validate_outbounds_from-eq-nil :
    (i : ℕ) (names : List String) (os : List Outbound)
    → validate_outbounds_from i names os ≡ []
    → OutboundsOk names os
unfolding validate_outbounds_from
validate_outbounds_from-eq-nil i names [] h = tt
validate_outbounds_from-eq-nil i names (o ∷ os) h =
    let (safe, twice, body, rest) = append4-eq-nil _ _ _ _ h in
    (
      (validate_safe_name-eq-nil _ o.name safe, typed _ _ _ _ body),
      add_if-eq-nil _ _ _ _ twice,
      validate_outbounds_from-eq-nil (suc i) (o.name ∷ names) os rest,
    )

pub validate_outbounds-eq-nil :
    (os : List Outbound) → (validate_outbounds os).0 ≡ [] → OutboundsOk [] os
unfolding validate_outbounds
validate_outbounds-eq-nil os h = validate_outbounds_from-eq-nil 0 [] os h
