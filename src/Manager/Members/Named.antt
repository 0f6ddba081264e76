-- ===== src/Manager/Members/Named.antt =====
-- internal/instance/manager.go: the names of outbounds when members are added.
use sbox_manager.Common.{
  >>=-eq-success, Bool-cases, Distinct, Distinct-append, List, Option-cases, String, [], ap,
  find_first, has, inl, inr, map, refl, success, success_injective, ◌++◌, ◌==◌, ◌∷◌, ◌≡◌,
}
use sbox_manager.Domain.Models.{Instance, Outbound}
use sbox_manager.Manager.Members.{
  add_group_outbound, add_ref, add_ref_member_to_instance, find_instance_by_name,
  find_mutable_group, outbound_names, ref_member_ref, ref_outbound, ref_outbound_name, same_ref,
  select_ref_member_inbound,
}
use sbox_manager.Manager.Members.Names.{allocate_ref_outbound_name_total}

map-append : {A B : Type 0} (f : A → B) (xs ys : List A) → map f (xs ++ ys) ≡ map f xs ++ map f ys
map-append f [] ys = refl
map-append f (x ∷ xs) ys = ap (λ rest. f x ∷ rest) (map-append f xs ys)

add_group_outbound-outbounds :
    (i result : Instance) (group name : String)
    → add_group_outbound i group name ≡ success result
    → result.outbounds ≡ i.outbounds
unfolding add_group_outbound
add_group_outbound-outbounds i result group name h =
    let ((front, g, back), found, last) = >>=-eq-success (find_mutable_group i.groups group) _ h in
    elim (Bool-cases (has g.outbounds name)) [
      | inl e ↦ rw (← success_injective (rw e at last)) refl
      | inr e ↦ rw (← success_injective (rw e at last)) refl
    ]

-- The names after an addition: those before it, and a new one behind them where the outbound is new.
add_ref-Distinct :
    (short_hash : String → String) (i result : Instance) (group ref base_name : String)
    → Distinct (outbound_names i.outbounds)
    → add_ref short_hash i group ref base_name ≡ success result
    → Distinct (outbound_names result.outbounds)
unfolding add_ref
add_ref-Distinct short_hash i result group ref base_name apart ok =
    elim (Option-cases (find_first (same_ref ref) i.outbounds)) [
      | inr (o, e) ↦
          rw (add_group_outbound-outbounds i result group o.name (rw (e, add_ref) at ok)) apart
      | inl e ↦
          let (name, chosen, free) =
            allocate_ref_outbound_name_total short_hash i.outbounds base_name ref in
          let grown = record i { outbounds = i.outbounds ++ ref_outbound name ref ∷ [] } in
          rw
            (
              add_group_outbound-outbounds grown result group name (rw (e, chosen, add_ref) at ok),
              map-append (λ (o : Outbound). o.name) i.outbounds (ref_outbound name ref ∷ []),
            )
            (Distinct-append (outbound_names i.outbounds) (name ∷ []) apart (refl, tt) (free, tt))
    ]

-- The addition of a member to an instance whose outbounds have distinct names, when it succeeds,
-- leaves the names of the outbounds distinct.
pub add_ref_member_to_instance-Distinct :
    (short_hash : String → String) (i result : Instance) (existing : List Instance)
    (group member : String)
    → Distinct (outbound_names i.outbounds)
    → add_ref_member_to_instance short_hash i existing group member ≡ success result
    → Distinct (outbound_names result.outbounds)
unfolding add_ref_member_to_instance
add_ref_member_to_instance-Distinct short_hash i result existing group member apart ok =
    elim (Option-cases (find_instance_by_name existing member)) [
      | inl e ↦ let bad = rw (e, add_ref_member_to_instance) at ok in cc
      | inr (m, e) ↦ elim (Bool-cases (m.name == i.name)) [
        | inl f ↦ let bad = rw (e, f, add_ref_member_to_instance) at ok in cc
        | inr f ↦ elim (Option-cases (select_ref_member_inbound m)) [
          | inl g ↦ let bad = rw (e, f, g, add_ref_member_to_instance) at ok in cc
          | inr (x, g) ↦
              add_ref-Distinct short_hash i result group (ref_member_ref m.name x.name)
                (ref_outbound_name m.name x.name) apart
                (rw (e, f, g, add_ref_member_to_instance) at ok)
        ]
      ]
    ]
