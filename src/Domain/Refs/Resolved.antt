-- ===== src/Domain/Refs/Resolved.antt =====
-- internal/domain/validation.go: what holds of the outbounds that `validateOutboundRefs` accepts.
use sbox_manager.Common.{
  All, Bool-cases, List, Option-cases, String, [], append-eq-nil, arith, false, inl, inr, is_none,
  some, suc, true, ℕ, ◌==◌, ◌||◌, ◌∷◌, ◌≡◌,
}
use sbox_manager.Domain.Issues.{ValidationErrors, each}
use sbox_manager.Domain.Models.{Inbound, Instance, Outbound}
use sbox_manager.Domain.Outbounds.{parse_outbound_ref}
use sbox_manager.Domain.Refs.{
  Target, by_name_from, check_target, find_inbound_by_name, resolve_outbound_ref_target,
  validate_outbound_refs, validate_ref,
}

-- An outbound of the type ref, whose text has the form of a ref, names a socks5 or http inbound of
-- another instance of the map.
abbrev pub RefOk : List (String × Instance) → Instance → Outbound → Type 0
RefOk m i o =
    (o.type == "ref") ≡ true
    → is_none (parse_outbound_ref o.ref) ≡ false
    → (t : Target) × (resolve_outbound_ref_target o.ref m ≡ some t)
      × ((t.instance_name == i.name) ≡ false)
      × (inbound : Inbound) × (find_inbound_by_name t.found.inbounds t.inbound_name ≡ some inbound)
      × ((inbound.type == "socks5" || inbound.type == "http") ≡ true)

each-eq-nil {ℓ} :
    {A : Type ℓ} (f : ℕ → A → ValidationErrors) (k : ℕ) (xs : List A)
    → each f k xs ≡ []
    → All (λ x. (j : ℕ) × (f j x ≡ [])) xs
each-eq-nil f k [] h = tt
each-eq-nil f k (x ∷ xs) h =
    let (here, rest) = append-eq-nil (f k x) (each f (suc k) xs) h in
    ((k, here), each-eq-nil f (suc k) xs rest)

pub All-map {ℓ κ λ'} :
    {A : Type ℓ} {P : A → Type κ} {Q : A → Type λ'} (f : (a : A) → P a → Q a) (xs : List A)
    → All P xs
    → All Q xs
All-map f [] h = tt
All-map f (x ∷ xs) (h, hs) = (f x h, All-map f xs hs)

check_target-eq-nil :
    (path : String) (i : Instance) (ref : String) (t : Target)
    → check_target path i ref t ≡ []
    → ((t.instance_name == i.name) ≡ false)
      × (inbound : Inbound) × (find_inbound_by_name t.found.inbounds t.inbound_name ≡ some inbound)
      × ((inbound.type == "socks5" || inbound.type == "http") ≡ true)
unfolding check_target
check_target-eq-nil path i ref t h = elim (Bool-cases (t.instance_name == i.name)) [
  | inl e ↦ let bad = rw (e, check_target) at h in cc
  | inr e ↦ elim (Option-cases (find_inbound_by_name t.found.inbounds t.inbound_name)) [
    | inl f ↦ let bad = rw (e, f, check_target) at h in cc
    | inr (inbound, f) ↦
        let kind = rw (e, f, check_target) at h in (e, inbound, f, ground (arith, kind))
  ]
]

validate_ref-RefOk :
    (m : List (String × Instance)) (path : String) (i : Instance) (o : Outbound)
    → validate_ref m path i o ≡ []
    → RefOk m i o
unfolding validate_ref
validate_ref-RefOk m path i o h r p = elim (Option-cases (resolve_outbound_ref_target o.ref m)) [
  | inl e ↦ elim (Option-cases (parse_outbound_ref o.ref)) [
    | inl q ↦ let bad = rw q at p in cc
    | inr (x, q) ↦ let bad = rw (r, e, q, validate_ref) at h in cc
  ]
  | inr (t, e) ↦
      let (other, inbound, found, kind) =
        check_target-eq-nil path i o.ref t (rw (r, e, validate_ref) at h) in
      (t, e, other, inbound, found, kind)
]

abbrev pub RefsOk : List Instance → Type 0
RefsOk is = All (λ (i : Instance). All (RefOk (by_name_from [] is) i) i.outbounds) is

pub validate_outbound_refs-eq-nil :
    (is : List Instance) → validate_outbound_refs is ≡ [] → RefsOk is
unfolding validate_outbound_refs
validate_outbound_refs-eq-nil is h =
    All-map
      (λ i (j, k).
        All-map (λ o (l, r). validate_ref-RefOk (by_name_from [] is) _ i o r) i.outbounds
          (each-eq-nil _ 0 i.outbounds k))
      is (each-eq-nil _ 0 is h)
