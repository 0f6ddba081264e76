-- ===== src/Domain/Instances/Defaulted.antt =====
-- internal/domain/defaults.go: putting the defaults in twice is putting them in once.
use text.Mathlib.TextLemmas.{append-eq-nil_iff}
use sbox_manager.Common.{
  Bool-cases, List, Option, String, [], arith, eq_iff, false, inl, inr, map, none, refl, some, ◌<>◌,
  ◌==◌, ◌∷◌, ◌≡◌, ◌≢◌,
}
use sbox_manager.Domain.Defaults.{
  all_scopes, apply_group_defaults, apply_inbound_defaults, apply_instance_defaults, or_default,
}
use sbox_manager.Domain.Instances.{validate_instance}
use sbox_manager.Domain.Models.{GlobalConfig, Group, Inbound, Instance}

dash_not_empty : ◌≢◌ {A = String} "-" ""
dash_not_empty h = ground (arith, eq_iff "-" "")

append-ne-empty : (s t : String) → (s <> "-" <> t == "") ≡ false
append-ne-empty s t = elim (Bool-cases (s <> "-" <> t == "")) [
  | inl e ↦
      let whole : s <> "-" <> t ≡ "" = (eq_iff _ _).0 e in
      let dash : s <> "-" ≡ "" = (append-eq-nil_iff.0 whole).0 in
      let none' : ◌≡◌ {A = String} "-" "" = (append-eq-nil_iff.0 dash).1 in
      absurd (dash_not_empty none')
  | inr e ↦ e
]

apply_inbound_defaults_idem :
    (i : Inbound) → apply_inbound_defaults (apply_inbound_defaults i) ≡ apply_inbound_defaults i
unfolding apply_inbound_defaults
apply_inbound_defaults_idem i = ground (arith, append-ne-empty i.type i.name)

apply_group_defaults_idem :
    (g : Group) → apply_group_defaults (apply_group_defaults g) ≡ apply_group_defaults g
unfolding apply_group_defaults
apply_group_defaults_idem g = ground arith

map_idem {ℓ} :
    {A : Type ℓ} (f : A → A)
    → ((a : A) → f (f a) ≡ f a)
    → (xs : List A) → map f (map f xs) ≡ map f xs
map_idem f h [] = refl
map_idem f h (x ∷ xs) = rw (h x, map_idem f h xs)

or_default_idem {ℓ} :
    {A : Type ℓ} (o : Option A) (d : A) → or_default (or_default o d) d ≡ or_default o d
or_default_idem none d = refl
or_default_idem (some a) d = refl

-- `ApplyInstanceDefaults` changes nothing in an instance that it has completed.
pub apply_instance_defaults_idem :
    (i : Instance) → apply_instance_defaults (apply_instance_defaults i) ≡ apply_instance_defaults i
unfolding apply_instance_defaults
apply_instance_defaults_idem i = rw (
  map_idem apply_inbound_defaults apply_inbound_defaults_idem i.inbounds,
  map_idem apply_group_defaults apply_group_defaults_idem i.groups,
  or_default_idem i.labels [],
  or_default_idem i.traffic.scopes all_scopes,
)

-- Validating the completed instance again gives the same issues and the same instance.
pub validate_instance_again :
    (global : GlobalConfig) (i : Instance)
    → validate_instance global (validate_instance global i).1 ≡ validate_instance global i
unfolding validate_instance
validate_instance_again global i = rw (apply_instance_defaults_idem i)
