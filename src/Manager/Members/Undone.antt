-- ===== src/Manager/Members/Undone.antt =====
-- internal/instance/manager.go: a member that is added and removed again.
use mathlib.Core.Path.{subst}
use sbox_manager.Common.{
  ==_comm, >>=-eq-success, All, Bool, Bool-cases, List, String, [], and-true, ap, arith, eq_iff,
  eq_refl, false, find_first, has, has-append, inl, inr, keep, keep-append, none, not, or-false,
  refl, some, success, success_injective, true, ◌&&◌, ◌++◌, ◌==◌, ◌∷◌, ◌≡◌,
}
use sbox_manager.Domain.Models.{Group, Inbound, Instance, Outbound}
use sbox_manager.Manager.Members.{
  add_group_outbound, add_ref, add_ref_member_to_instance, candidates, find_instance_by_name,
  find_mutable_group, member_of, names_member, outbound_names, ref_member_ref, ref_outbound,
  ref_outbound_name, referenced_group_outbounds, remove_ref_member_from_instance, same_ref,
  select_ref_member_inbound,
}
use sbox_manager.Manager.Members.Names.{allocate_ref_outbound_name_total}

-- A text that is not known is in no list of known texts.
unknown :
    (names xs : List String) (n : String)
    → has names n ≡ false
    → All (λ (x : String). has names x ≡ true) xs
    → has xs n ≡ false
unknown names [] n free h = refl
unknown names (x ∷ xs) n free (e, h) =
    ground (arith, eq_iff x n, e, free, unknown names xs n free h)

-- A split of groups at the one that is found, also where its outbounds are others.
abbrev Split : List Group → String → List Group × Group × List Group → Type 0
Split gs name p =
    (gs ≡ p.0 ++ p.1 ∷ p.2)
    × ((outbounds : List String)
        → find_mutable_group (p.0 ++ record (p.1) { outbounds = outbounds } ∷ p.2) name
          ≡ success (p.0, record (p.1) { outbounds = outbounds }, p.2))

find_mutable_group-Split :
    (gs : List Group) (name : String) (p : List Group × Group × List Group)
    → find_mutable_group gs name ≡ success p
    → Split gs name p
unfolding find_mutable_group
find_mutable_group-Split [] name p h = let bad = h in cc
find_mutable_group-Split (x ∷ xs) name p h = elim (Bool-cases (x.name == name)) [
  | inl e ↦ elim (Bool-cases (not (x.type == "selector") && not (x.type == "urltest"))) [
    | inl f ↦ let bad = rw (e, f, find_mutable_group) at h in cc
    | inr f ↦
        subst (Split (x ∷ xs) name) (success_injective (rw (e, f, find_mutable_group) at h))
          (refl, λ outbounds. rw (e, f, find_mutable_group) refl)
  ]
  | inr e ↦
      let (q, found, last) =
        >>=-eq-success (find_mutable_group xs name) _ (rw (e, find_mutable_group) at h) in
      let (same, again) = find_mutable_group-Split xs name q found in
      subst (Split (x ∷ xs) name) (success_injective last)
        (ap (λ rest. x ∷ rest) same, λ outbounds. rw (e, find_mutable_group, again outbounds) refl)
]

module _ (existing : List Instance) (member ref : String)
    (resolved : member_of existing ref ≡ some member) where
  no_candidate :
      (os : List Outbound)
      → candidates existing member os ≡ []
      → All (λ (o : Outbound). names_member existing member o ≡ false) os
  unfolding candidates
  no_candidate [] h = tt
  no_candidate (o ∷ os) h = elim (Bool-cases (names_member existing member o)) [
    | inl e ↦ let bad = rw (e, candidates) at h in cc
    | inr e ↦ (e, no_candidate os (rw (e, candidates) at h))
  ]

  other_ref : (o : Outbound) → names_member existing member o ≡ false → same_ref ref o ≡ false
  other_ref o h = elim (Bool-cases (same_ref ref o)) [
    | inr e ↦ e
    | inl e ↦
        let (kind, same) = and-true (o.type == "ref") _ e in
        let bad = rw (kind, (eq_iff o.ref ref).0 same, resolved, eq_refl member) at h in cc
  ]

  no_same_ref :
      (os : List Outbound)
      → All (λ (o : Outbound). names_member existing member o ≡ false) os
      → find_first (same_ref ref) os ≡ none
  no_same_ref [] h = refl
  no_same_ref (o ∷ os) (e, h) = rw (other_ref o e) (no_same_ref os h)

keep-none :
    {A : Type 0} (p : A → Bool) (xs : List A) → All (λ (x : A). p x ≡ false) xs → keep p xs ≡ []
keep-none p [] h = refl
keep-none p (x ∷ xs) (e, h) = rw e (keep-none p xs h)

apart_names :
    (xs : List String) (n : String)
    → has xs n ≡ false
    → All (λ (x : String). has (n ∷ []) x ≡ false) xs
apart_names [] n h = tt
apart_names (x ∷ xs) n h =
    let (head, tail) = or-false (x == n) (has xs n) h in
    (rw (==_comm n x, head) refl, apart_names xs n tail)

not_referenced :
    (front : List Group) (g : Group) (back : List Group) (n : String)
    → has (referenced_group_outbounds (front ++ g ∷ back)) n ≡ false
    → has g.outbounds n ≡ false
unfolding referenced_group_outbounds
not_referenced [] g back n h =
    (or-false _ (has (referenced_group_outbounds back) n) (rw (has-append) at h)).0
not_referenced (x ∷ xs) g back n h =
    not_referenced xs g back n (or-false (has x.outbounds n) _ (rw (has-append) at h)).1

module _ (n : String) where
  removed_name : (xs : List String) → has xs n ≡ false → keep (has (n ∷ [])) (xs ++ n ∷ []) ≡ n ∷ []
  removed_name xs h =
      rw
        (
          keep-append (has (n ∷ [])) xs (n ∷ []),
          keep-none (has (n ∷ [])) xs (apart_names xs n h),
          eq_refl n,
        )
        refl

  kept_names :
      (xs : List String)
      → has xs n ≡ false
      → keep (λ (x : String). not (has (n ∷ []) x)) (xs ++ n ∷ []) ≡ xs
  kept_names [] h = rw (eq_refl n) refl
  kept_names (x ∷ xs) h =
      let (head, tail) = or-false (x == n) (has xs n) h in
      rw (==_comm n x, head, kept_names xs tail) refl

  kept_outbounds :
      (referenced : List String) (ref : String) (os : List Outbound)
      → has referenced n ≡ false
      → has (outbound_names os) n ≡ false
      → keep
          (λ (o : Outbound). not (has (n ∷ []) o.name && not (has referenced o.name)))
          (os ++ ref_outbound n ref ∷ [])
        ≡ os
  kept_outbounds referenced ref [] unused h = rw (eq_refl n, unused) refl
  kept_outbounds referenced ref (o ∷ os) unused h =
      let (head, tail) = or-false (o.name == n) (has (outbound_names os) n) h in
      rw (==_comm n o.name, head, kept_outbounds referenced ref os unused tail) refl

-- The instance with a new outbound behind the others and its name behind those of a group.
abbrev pub with_member : Instance → List Group → Group → List Group → String → String → Instance
with_member i front g back name ref = record i {
  outbounds = i.outbounds ++ ref_outbound name ref ∷ [];
  groups = front ++ record g { outbounds = g.outbounds ++ name ∷ [] } ∷ back;
}

module _ (existing : List Instance) (member ref : String)
    (resolved : member_of existing ref ≡ some member) where
  -- The only outbound that names the member is the new one.
  candidates-with_member :
      (os : List Outbound) (name : String)
      → candidates existing member os ≡ []
      → candidates existing member (os ++ ref_outbound name ref ∷ []) ≡ name ∷ []
  unfolding candidates
  candidates-with_member os name h =
      rw (keep-append (names_member existing member) os (ref_outbound name ref ∷ [])) (
        rw
          (keep-none (names_member existing member) os
            (no_candidate existing member ref resolved os h))
          (rw (resolved, eq_refl member) refl))

  remove-with_member :
      (i : Instance) (group name : String) (front : List Group) (g : Group) (back : List Group)
      → candidates existing member i.outbounds ≡ []
      → Split i.groups group (front, g, back)
      → has (outbound_names i.outbounds) name ≡ false
      → has (referenced_group_outbounds i.groups) name ≡ false
      → remove_ref_member_from_instance (with_member i front g back name ref) existing group member
        ≡ success i
  unfolding remove_ref_member_from_instance
  remove-with_member i group name front g back h (same, again) free unused =
      let free_of_group = not_referenced front g back name (rw same at unused) in
      rw (again (g.outbounds ++ name ∷ []), candidates-with_member i.outbounds name h)
        (rw (removed_name name g.outbounds free_of_group, kept_names name g.outbounds free_of_group)
          (rw (← same) (
            rw
              (kept_outbounds name (referenced_group_outbounds i.groups) ref i.outbounds unused
                free)
              refl)))

  add_ref-undone :
      (short_hash : String → String) (i added : Instance) (group base_name : String)
      → candidates existing member i.outbounds ≡ []
      → All
          (λ (n : String). has (outbound_names i.outbounds) n ≡ true)
          (referenced_group_outbounds i.groups)
      → add_ref short_hash i group ref base_name ≡ success added
      → remove_ref_member_from_instance added existing group member ≡ success i
  unfolding add_ref add_group_outbound
  add_ref-undone short_hash i added group base_name h listed ok =
      let (name, chosen, free) =
        allocate_ref_outbound_name_total short_hash i.outbounds base_name ref in
      let unused =
        unknown (outbound_names i.outbounds) (referenced_group_outbounds i.groups) name free
          listed in
      let absent =
        no_same_ref existing member ref resolved i.outbounds
          (no_candidate existing member ref resolved i.outbounds h) in
      let grown = rw (absent, chosen, add_ref, add_group_outbound) at ok in
      let ((front, g, back), found, last) =
        >>=-eq-success (find_mutable_group i.groups group) _ grown in
      let around = find_mutable_group-Split i.groups group (front, g, back) found in
      let free_of_group = not_referenced front g back name (rw (around.0) at unused) in
      rw (← success_injective (rw free_of_group at last))
        (remove-with_member i group name front g back h around free unused)

-- When an instance whose groups list only its own outbounds, and none of whose outbounds refers to a
-- member, gets that member in a group, and the ref that is made for it resolves to the member, then
-- the removal of the member from the group gives back the instance as it was.
pub add_ref_member_to_instance-undone :
    (short_hash : String → String) (existing : List Instance) (i added m : Instance) (x : Inbound)
    (group member : String)
    → find_instance_by_name existing member ≡ some m
    → select_ref_member_inbound m ≡ some x
    → member_of existing (ref_member_ref m.name x.name) ≡ some member
    → candidates existing member i.outbounds ≡ []
    → All
        (λ (n : String). has (outbound_names i.outbounds) n ≡ true)
        (referenced_group_outbounds i.groups)
    → add_ref_member_to_instance short_hash i existing group member ≡ success added
    → remove_ref_member_from_instance added existing group member ≡ success i
unfolding add_ref_member_to_instance
add_ref_member_to_instance-undone short_hash existing i added m x group member found picked resolved
      h listed ok =
    elim (Bool-cases (m.name == i.name)) [
      | inl e ↦ let bad = rw (found, e, add_ref_member_to_instance) at ok in cc
      | inr e ↦
          add_ref-undone existing member (ref_member_ref m.name x.name) resolved short_hash i added
            group (ref_outbound_name m.name x.name) h listed
            (rw (found, e, picked, add_ref_member_to_instance) at ok)
    ]
