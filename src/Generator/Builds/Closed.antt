-- ===== src/Generator/Builds/Closed.antt =====
-- internal/generator/singbox/generator.go: the tags of a generated configuration, and what its
-- groups and its route name.
use sbox_manager.Common.{
  >>=-eq-success, All, All-append, Disjoint, Distinct, Distinct-append, List, NewNames,
  NewNames-Distinct, String, [], arith, has, has-append, map, refl, success, success_injective,
  traverse, true, ◌++◌, ◌∙◌, ◌∷◌, ◌≡◌,
}
use sbox_manager.Domain.Defaults.{apply_instance_defaults}
use sbox_manager.Domain.Instances.{validate_instance}
use sbox_manager.Domain.Instances.Accepted.{
  IsClosed, group_names_of, outbound_names_of, validate_instance-IsClosed,
}
use sbox_manager.Domain.Models.{GlobalConfig, Group, Instance, Outbound, RouteRule}
use sbox_manager.Domain.Outbounds.Accepted.{OutboundsOk}
use sbox_manager.Domain.Refs.Resolved.{All-map}
use sbox_manager.Domain.Routing.Closed.{GroupsOk, KnownMember, RuleOk}
use sbox_manager.Generator.Builds.{
  build_completed, build_config_with_instances, build_outbound, index_instances,
  resolve_outbound_ref,
}
use sbox_manager.Generator.Converts.{
  convert_group, convert_inbound, convert_outbound, convert_route_rule,
}
use sbox_manager.Generator.Model.{SingBoxConfig, SingBoxOutbound, SingBoxRule}

abbrev pub tags_of : SingBoxConfig → List String
tags_of c = map (λ (o : SingBoxOutbound). o.tag) c.outbounds

abbrev pub KnownMembers : List String → SingBoxOutbound → Type 0
KnownMembers tags o = All (λ (m : String). has tags m ≡ true) o.outbounds

-- The configuration names no tag that it does not define, and defines none twice.
pub record IsSelfContained (c : SingBoxConfig) : Type 0 where
  pub distinct : Distinct (tags_of c)
  pub final_known : has (tags_of c) c.route.final_tag ≡ true
  pub rules_known : All (λ (r : SingBoxRule). has (tags_of c) r.outbound ≡ true) c.route.rules
  pub members_known : All (KnownMembers (tags_of c)) c.outbounds

-- What the loop leaves: its name.
convert_outbound-tag :
    (o : Outbound) (s : SingBoxOutbound)
    → convert_outbound o ≡ success s
    → (s.tag ≡ o.name) × (s.outbounds ≡ [])
unfolding convert_outbound
convert_outbound-tag o s h = ground arith

resolve_outbound_ref-name :
    (current : String) (o : Outbound) (m : List (String × Instance)) (r : Outbound)
    → resolve_outbound_ref current o m ≡ success r
    → r.name ≡ o.name
unfolding resolve_outbound_ref
resolve_outbound_ref-name current o m r h = ground arith

build_outbound-tag :
    (current : String) (m : List (String × Instance)) (o : Outbound) (s : SingBoxOutbound)
    → build_outbound current m o ≡ success s
    → (s.tag ≡ o.name) × (s.outbounds ≡ [])
unfolding build_outbound
build_outbound-tag current m o s h =
    let (r, resolved, converted) = >>=-eq-success (resolve_outbound_ref current o m) _ h in
    let (tag, members) = convert_outbound-tag r s converted in
    (tag ∙ resolve_outbound_ref-name current o m r resolved, members)

convert_group-tag :
    (g : Group) (s : SingBoxOutbound)
    → convert_group g ≡ success s
    → (s.tag ≡ g.name) × (s.outbounds ≡ g.outbounds)
unfolding convert_group
convert_group-tag g s h = ground arith

build_outbounds-tags :
    (current : String) (m : List (String × Instance)) (os : List Outbound)
    (ss : List SingBoxOutbound)
    → traverse (build_outbound current m) os ≡ success ss
    → (map (λ (s : SingBoxOutbound). s.tag) ss ≡ map (λ (o : Outbound). o.name) os)
      × All (λ (s : SingBoxOutbound). s.outbounds ≡ []) ss
build_outbounds-tags current m [] ss h = rw (← success_injective h) (refl, tt)
build_outbounds-tags current m (o ∷ os) ss h =
    let (s, one_built, rest) = >>=-eq-success (build_outbound current m o) _ h in
    let (more, rest_built, e) = >>=-eq-success (traverse (build_outbound current m) os) _ rest in
    let (tag, members) = build_outbound-tag current m o s one_built in
    let (tags, no_members) = build_outbounds-tags current m os more rest_built in
    rw (← success_injective e) (cc (tag, tags), (members, no_members))

convert_groups-tags :
    (gs : List Group) (ss : List SingBoxOutbound) (names : List String)
    → traverse convert_group gs ≡ success ss
    → All (λ (g : Group). All (KnownMember names) g.outbounds) gs
    → (map (λ (s : SingBoxOutbound). s.tag) ss ≡ map (λ (g : Group). g.name) gs)
      × All (KnownMembers names) ss
convert_groups-tags [] ss names h found = rw (← success_injective h) (refl, tt)
convert_groups-tags (g ∷ gs) ss names h (here, found) =
    let (s, one_built, rest) = >>=-eq-success (convert_group g) _ h in
    let (more, rest_built, e) = >>=-eq-success (traverse convert_group gs) _ rest in
    let (tag, members) = convert_group-tag g s one_built in
    let (tags, all_known) = convert_groups-tags gs more names rest_built found in
    rw (← success_injective e) (cc (tag, tags), (rw members here, all_known))

no_members-known :
    (names : List String) (ss : List SingBoxOutbound)
    → All (λ (s : SingBoxOutbound). s.outbounds ≡ []) ss
    → All (KnownMembers names) ss
no_members-known names [] h = tt
no_members-known names (s ∷ ss) (e, h) = (rw e tt, no_members-known names ss h)

rules-known :
    (os gs : List String) (rules : List RouteRule)
    → All (RuleOk os gs) rules
    → All (λ (r : SingBoxRule). has (os ++ gs) r.outbound ≡ true) (map convert_route_rule rules)
unfolding convert_route_rule
rules-known os gs [] h = tt
rules-known os gs (r ∷ rs) ((_, (_, e)), h) =
    (rw (has-append os gs r.outbound) e, rules-known os gs rs h)

names-known : (os gs : List String) (m : String) → has os m ≡ true → has (os ++ gs) m ≡ true
names-known os gs m h = rw (has-append os gs m) (rw h refl)

members-known :
    (os names : List String) (gs : List Group)
    → GroupsOk os names gs
    → (All (λ (g : Group). All (KnownMember os) g.outbounds) gs)
      × NewNames names (map (λ (g : Group). g.name) gs)
      × Disjoint os (map (λ (g : Group). g.name) gs)
members-known os names [] h = (tt, tt, tt)
members-known os names (g ∷ gs) ((_, other, _, _, members, _), fresh, h) =
    let (found, new_names, apart) = members-known os (g.name ∷ names) gs h in
    ((members, found), (fresh, new_names), (other, apart))

outbounds-new :
    (seen : List String) (os : List Outbound)
    → OutboundsOk seen os
    → NewNames seen (map (λ (o : Outbound). o.name) os)
outbounds-new seen [] h = tt
outbounds-new seen (o ∷ os) (_, fresh, h) = (fresh, outbounds-new (o.name ∷ seen) os h)

All-known :
    (os gs : List String) (ss : List SingBoxOutbound)
    → All (KnownMembers os) ss
    → All (KnownMembers (os ++ gs)) ss
All-known os gs = All-map (λ (s : SingBoxOutbound). All-map (names-known os gs) s.outbounds)

map-append_tags :
    (xs ys : List SingBoxOutbound)
    → map (λ (o : SingBoxOutbound). o.tag) (xs ++ ys)
      ≡ map (λ (o : SingBoxOutbound). o.tag) xs ++ map (λ (o : SingBoxOutbound). o.tag) ys
map-append_tags [] ys = refl
map-append_tags (x ∷ xs) ys = cc (map-append_tags xs ys)

-- A configuration whose tags and members are known.
assembled :
    (i : Instance) (c : SingBoxConfig)
    → IsClosed i
    → tags_of c ≡ outbound_names_of i ++ group_names_of i
    → All (KnownMembers (outbound_names_of i ++ group_names_of i)) c.outbounds
    → c.route ≡ record { rules = map convert_route_rule i.route.rules; final_tag = i.route.default }
    → IsSelfContained c
assembled i c closed tags members route =
    let os = outbound_names_of i in
    let gs = group_names_of i in
    let (_, new_groups, apart) = members-known os [] i.groups closed.groups_ok in
    let new_outbounds = outbounds-new [] i.outbounds closed.outbounds_ok in
    let target : has (os ++ gs) i.route.default ≡ true =
      rw (has-append os gs i.route.default) (closed.default_ok.1) in
    record {
      distinct = rw tags (
          Distinct-append os gs (NewNames-Distinct [] os new_outbounds).0
            (NewNames-Distinct [] gs new_groups).0 apart);
      final_known = rw (tags, route) target;
      rules_known = rw (tags, route) (rules-known os gs i.route.rules closed.rules_ok);
      members_known = rw tags members;
    }

pub build_completed-IsSelfContained :
    (global : GlobalConfig) (m : List (String × Instance)) (i : Instance) (c : SingBoxConfig)
    → IsClosed i
    → build_completed global m i ≡ success c
    → (tags_of c ≡ outbound_names_of i ++ group_names_of i) × IsSelfContained c
unfolding build_completed
build_completed-IsSelfContained global m i c closed h =
    let (ins, _, h1) = >>=-eq-success (traverse convert_inbound i.inbounds) _ h in
    let (os, os_built, h2) = >>=-eq-success (traverse (build_outbound i.name m) i.outbounds) _ h1 in
    let (gs, gs_built, h3) = >>=-eq-success (traverse convert_group i.groups) _ h2 in
    let outbound_names = outbound_names_of i in
    let (members, _, _) = members-known outbound_names [] i.groups closed.groups_ok in
    let (os_tags, plain) = build_outbounds-tags i.name m i.outbounds os os_built in
    let (gs_tags, grouped) = convert_groups-tags i.groups gs outbound_names gs_built members in
    let tags : tags_of c ≡ outbound_names ++ group_names_of i =
      rw (← success_injective h3) (map-append_tags os gs ∙ cc (os_tags, gs_tags)) in
    (
      tags,
      assembled i c closed tags
          (rw (← success_injective h3) (
            All-known outbound_names (group_names_of i) (os ++ gs)
              (All-append _ os gs (no_members-known outbound_names os plain) grouped)))
          (rw (← success_injective h3) refl),
    )

-- A configuration that is built for an instance that `ValidateInstance` accepts has as its tags the
-- names of the completed instance's outbounds and then of its groups, none twice; and the final tag of
-- its route, the outbound of each rule and each member of a group are among them.
pub build_config_with_instances-IsSelfContained :
    (global : GlobalConfig) (instances : List Instance) (given : Instance) (c : SingBoxConfig)
    → (validate_instance global given).0 ≡ []
    → build_config_with_instances global instances given ≡ success c
    → (tags_of c
        ≡ outbound_names_of (apply_instance_defaults given)
          ++ group_names_of (apply_instance_defaults given))
      × IsSelfContained c
unfolding build_config_with_instances validate_instance
build_config_with_instances-IsSelfContained global instances given c ok h =
    build_completed-IsSelfContained global (index_instances instances)
      (apply_instance_defaults given) c (validate_instance-IsClosed global given ok) h
