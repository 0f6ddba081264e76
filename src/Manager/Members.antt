-- ===== src/Manager/Members.antt =====
-- internal/instance/manager.go: the members of groups. The short hash of a ref, the eight hexadecimal
-- digits of its FNV-1a hash, is a parameter.
pub mod Names
pub mod Named
pub mod Undone
use sbox_manager.Common.{
  Bool, List, Option, Outcome, String, [], failure, false, find_first, has, if◌then◌else◌, is_empty,
  itoa, keep, length, map, none, not, pos, some, suc, success, zero, ℕ, ◌&&◌, ◌++◌, ◌+◌, ◌<>◌, ◌==◌,
  ◌>>=◌, ◌∷◌,
}
use sbox_manager.Domain.Defaults.{zero_tls, zero_transport}
use sbox_manager.Domain.Models.{Group, Inbound, Instance, Outbound}
use sbox_manager.Domain.Outbounds.{parse_outbound_ref}
use sbox_manager.Domain.Refs.{resolve_outbound_ref_target}

unfoldable pub find_instance_by_name : List Instance → String → Option Instance
find_instance_by_name instances name = find_first (λ (i : Instance). i.name == name) instances

-- `selectRefMemberInbound`: a socks5 inbound, or else an http inbound.
unfoldable pub select_ref_member_inbound : Instance → Option Inbound
select_ref_member_inbound i = elim (find_first (λ (x : Inbound). x.type == "socks5") i.inbounds) [
  | some x ↦ some x
  | none ↦ find_first (λ (x : Inbound). x.type == "http") i.inbounds
]

abbrev pub ref_member_ref : String → String → String
ref_member_ref instance_name inbound_name = instance_name <> "." <> inbound_name

abbrev pub ref_outbound_name : String → String → String
ref_outbound_name instance_name inbound_name = instance_name <> "-" <> inbound_name

abbrev pub outbound_names : List Outbound → List String
outbound_names = map (λ (o : Outbound). o.name)

unfoldable pub outbound_name_available : List Outbound → String → Bool
outbound_name_available outbounds name = not (has (outbound_names outbounds) name)

-- The loop of `allocateRefOutboundName`; `none` where the fuel runs out.
unfoldable pub next_available : ℕ → List Outbound → String → ℕ → Option String
next_available zero outbounds prefix index = none
next_available (suc fuel) outbounds prefix index =
    let later = next_available fuel outbounds prefix (index + 1) in
    if outbound_name_available outbounds (prefix <> itoa index)
    then some (prefix <> itoa index)
    else later

module _ (short_hash : String → String) where
  -- `allocateRefOutboundName`: the loop tries one name more than there are outbounds.
  unfoldable pub allocate_ref_outbound_name : List Outbound → String → String → Option String
  allocate_ref_outbound_name outbounds base_name ref =
      let hashed = base_name <> "-" <> short_hash ref in
      if outbound_name_available outbounds base_name
      then some base_name
      else if outbound_name_available outbounds hashed
      then some hashed
      else next_available (suc (length outbounds)) outbounds (hashed <> "-") 2

-- `findMutableGroup`: the groups before it, the group, and those behind it.
abbrev pub behind_group :
    Group → Outcome (List Group × Group × List Group) → Outcome (List Group × Group × List Group)
behind_group g rest = rest >>= λ found. success (g ∷ found.0, found.1, found.2)

unfoldable pub find_mutable_group : List Group → String → Outcome (List Group × Group × List Group)
find_mutable_group [] name = failure "group %q does not exist"
find_mutable_group (g ∷ gs) name =
    let later = behind_group g (find_mutable_group gs name) in
    if not (g.name == name)
    then later
    else if not (g.type == "selector") && not (g.type == "urltest")
    then failure "group %q is not selector or urltest"
    else success ([], g, gs)

unfoldable pub add_group_outbound : Instance → String → String → Outcome Instance
add_group_outbound i group_name outbound_name = do
  (front, g, back) ← find_mutable_group i.groups group_name
  success (
      if has g.outbounds outbound_name then i else record i {
        groups = front ++ record g { outbounds = g.outbounds ++ outbound_name ∷ [] } ∷ back;
      })

abbrev pub ref_outbound : String → String → Outbound
ref_outbound name ref = record {
  name = name;
  type = "ref";
  ref = ref;
  server = "";
  port = pos 0;
  uuid = "";
  password = "";
  method = "";
  security = "";
  flow = "";
  alter_id = pos 0;
  auth = record { type = ""; username = ""; password = "" };
  tls = zero_tls;
  network = "";
  transport = zero_transport;
}

-- The outbound that already is the ref.
abbrev pub same_ref : String → Outbound → Bool
same_ref ref o = o.type == "ref" && o.ref == ref

-- `parseRefMemberWithInstances`, or else `parseRefMember`: the instance that a ref names.
unfoldable pub member_of : List Instance → String → Option String
member_of existing ref =
    elim (resolve_outbound_ref_target ref (map (λ (i : Instance). (i.name, i)) existing)) [
      | some t ↦ some t.instance_name
      | none ↦ elim (parse_outbound_ref ref) [ none ↦ none | some parsed ↦ some (parsed.0) ]
    ]

abbrev pub names_member : List Instance → String → Outbound → Bool
names_member existing member o =
    o.type == "ref" && elim (member_of existing o.ref) [ none ↦ false | some name ↦ name == member ]

-- The names of the refs to a member.
unfoldable pub candidates : List Instance → String → List Outbound → List String
candidates existing member outbounds =
    outbound_names (keep (names_member existing member) outbounds)

-- `referencedGroupOutbounds`.
unfoldable pub referenced_group_outbounds : List Group → List String
referenced_group_outbounds [] = []
referenced_group_outbounds (g ∷ gs) = g.outbounds ++ referenced_group_outbounds gs

-- `removeRefMemberFromInstance`.
unfoldable pub remove_ref_member_from_instance :
    Instance → List Instance → String → String → Outcome Instance
remove_ref_member_from_instance i existing group_name member = do
  (front, g, back) ← find_mutable_group i.groups group_name
  let refs = candidates existing member i.outbounds
  let removed = keep (has refs) g.outbounds
  let groups = front ++ record g { outbounds = keep (λ n. not (has refs n)) g.outbounds } ∷ back
  let referenced = referenced_group_outbounds groups
  success (
      if is_empty refs then i else if is_empty removed then i else record i {
        groups = groups;
        outbounds =
            keep (λ (o : Outbound). not (has removed o.name && not (has referenced o.name)))
              i.outbounds;
      })

module _ (short_hash : String → String) where
  -- The end of `addRefMemberToInstance`: an outbound for the ref, the one that is there or a new one.
  unfoldable pub add_ref : Instance → String → String → String → Outcome Instance
  add_ref i group_name ref base_name = elim (find_first (same_ref ref) i.outbounds) [
    | some o ↦ add_group_outbound i group_name o.name
    | none ↦ elim (allocate_ref_outbound_name short_hash i.outbounds base_name ref) [
      | none ↦ failure "no name is left"
      | some name ↦
          add_group_outbound (record i { outbounds = i.outbounds ++ ref_outbound name ref ∷ [] })
            group_name name
    ]
  ]

  -- `addRefMemberToInstance`.
  unfoldable pub add_ref_member_to_instance :
      Instance → List Instance → String → String → Outcome Instance
  add_ref_member_to_instance i existing group_name member =
      elim (find_instance_by_name existing member) [
        | none ↦ failure "member instance %q does not exist"
        | some m ↦
            if m.name == i.name
            then failure "member instance cannot reference itself"
            else elim (select_ref_member_inbound m) [
              | none ↦ failure "member instance %q must include a socks5 or http inbound"
              | some inbound ↦
                  add_ref i group_name (ref_member_ref m.name inbound.name)
                    (ref_outbound_name m.name inbound.name)
            ]
      ]

-- The map from names to outbounds of `MemberList`: a later outbound replaces an earlier one.
last_named : String → List Outbound → Option Outbound
last_named name [] = none
last_named name (o ∷ os) = elim (last_named name os) [
  | some later ↦ some later
  | none ↦ if o.name == name then some o else none
]

-- A member as `MemberList` shows it.
member_shown : List Instance → List Outbound → String → String
unfolding last_named
member_shown existing outbounds name = elim (last_named name outbounds) [
  | none ↦ name
  | some o ↦
      if not (o.type == "ref")
      then name
      else elim (member_of existing o.ref) [ none ↦ name | some member ↦ member ]
]

-- `MemberList`.
unfoldable pub member_list : List Instance → String → String → Outcome (List String)
unfolding member_shown
member_list instances name group_name = elim (find_instance_by_name instances name) [
  | none ↦ failure "instance %q does not exist"
  | some i ↦ do
    (front, g, back) ← find_mutable_group i.groups group_name
    success (map (member_shown instances i.outbounds) g.outbounds)
]

module _ (short_hash : String → String) where
  -- `updateMember` between the loading of the configuration and the writing of the instance.
  unfoldable pub update_member : List Instance → String → String → String → Bool → Outcome Instance
  update_member instances name group_name member added =
      elim (find_instance_by_name instances name) [
        | none ↦ failure "instance %q does not exist"
        | some i ↦
            if added
            then add_ref_member_to_instance short_hash i instances group_name member
            else remove_ref_member_from_instance i instances group_name member
      ]
