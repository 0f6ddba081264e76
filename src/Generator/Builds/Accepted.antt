-- ===== src/Generator/Builds/Accepted.antt =====
-- internal/generator/singbox/generator.go: configurations that internal/domain accepts are built.
use sbox_manager.Common.{
  All, Bool, List, String, [], append-eq-nil, append4-eq-nil, append9-eq-nil, at_index, false, has,
  if◌then◌else◌, map, not, refl, suc, success, true, ℕ, ◌<>◌, ◌==◌, ◌∷◌, ◌≡◌,
}
use sbox_manager.Domain.Checks.{allowed_value, validate_api_config, validate_safe_name}
use sbox_manager.Domain.Defaults.{apply_instance_defaults}
use sbox_manager.Domain.Globals.{validate_global_config}
use sbox_manager.Domain.Inbounds.{validate_inbounds}
use sbox_manager.Domain.Inbounds.Accepted.{validate_inbounds-typed}
use sbox_manager.Domain.Instances.{
  validate_config_set, validate_instance, validate_instances, validate_port_conflicts,
}
use sbox_manager.Domain.Instances.Accepted.{
  group_names_of, outbound_names_of, validate_instance-IsClosed,
}
use sbox_manager.Domain.Instances.Whole.{validate_config_set-eq-nil}
use sbox_manager.Domain.Issues.{ValidationErrors, add, add_if}
use sbox_manager.Domain.Models.{GlobalConfig, Group, Instance, Outbound}
use sbox_manager.Domain.Outbounds.{
  is_outbound_type, validate_outbound_remote, validate_outbounds, validate_outbounds_from,
}
use sbox_manager.Domain.Outbounds.Accepted.{OutboundOk, OutboundsOk}
use sbox_manager.Domain.Platform.{Platform}
use sbox_manager.Domain.Refs.{validate_outbound_refs}
use sbox_manager.Domain.Refs.Resolved.{RefOk}
use sbox_manager.Domain.Routing.{validate_groups, validate_instance_traffic, validate_route}
use sbox_manager.Domain.Routing.Closed.{GroupsOk}
use sbox_manager.Generator.Builds.{build_config_with_instances, index_instances}
use sbox_manager.Generator.Builds.Closed.{
  IsSelfContained, build_config_with_instances-IsSelfContained,
}
use sbox_manager.Generator.Builds.Succeeds.{
  IsBuildable, RefFormed, build_completed_total, ref_formed,
}
use sbox_manager.Generator.Model.{SingBoxConfig}

typed :
    (ok : Bool) (path : String) (args : List String) (rest : ValidationErrors)
    → (if not ok then add path "unsupported outbound type %q" args else rest) ≡ []
    → rest ≡ []
typed true path args rest h = h
typed false path args rest h = cc

outbounds_formed :
    (k : ℕ) (names : List String) (os : List Outbound)
    → validate_outbounds_from k names os ≡ []
    → All (λ (o : Outbound). RefFormed o) os
unfolding validate_outbounds_from
outbounds_formed k names [] h = tt
outbounds_formed k names (o ∷ os) h =
    let path = at_index "outbounds" k in
    let (_, _, body, rest) =
      append4-eq-nil (validate_safe_name (path <> ".name") o.name)
        (add_if (has names o.name) (path <> ".name") "duplicate outbound name" [])
        (if not (is_outbound_type o.type)
          then add (path <> ".type") "unsupported outbound type %q" (o.type ∷ [])
          else validate_outbound_remote path o)
        (validate_outbounds_from (suc k) (o.name ∷ names) os) h in
    let remote = typed (is_outbound_type o.type) _ _ (validate_outbound_remote path o) body in
    (ref_formed path o remote, outbounds_formed (suc k) (o.name ∷ names) os rest)

outbounds_both :
    (names : List String) (os : List Outbound)
    → OutboundsOk names os
    → All (λ (o : Outbound). RefFormed o) os
    → All (λ (o : Outbound). RefFormed o × OutboundOk o) os
outbounds_both names [] h f = tt
outbounds_both names (o ∷ os) (ok, _, h) (formed, f) =
    ((formed, ok), outbounds_both (o.name ∷ names) os h f)

groups_typed :
    (os names : List String) (gs : List Group)
    → GroupsOk os names gs
    → All (λ (g : Group). allowed_value g.type ("selector" ∷ "urltest" ∷ []) ≡ true) gs
groups_typed os names [] h = tt
groups_typed os names (g ∷ gs) ((_, _, ok, _, _, _), _, h) =
    (ok, groups_typed os (g.name ∷ names) gs h)

-- An accepted instance whose refs are accepted has what its building needs.
validate_instance-IsBuildable :
    (global : GlobalConfig) (m : List (String × Instance)) (given : Instance)
    → (validate_instance global given).0 ≡ []
    → All (RefOk m (validate_instance global given).1) (validate_instance global given).1.outbounds
    → IsBuildable m (validate_instance global given).1
unfolding validate_instance validate_outbounds validate_groups
validate_instance-IsBuildable global m given h refs =
    let i = apply_instance_defaults given in
    let closed = validate_instance-IsClosed global given h in
    let role =
      add_if (not (allowed_value i.role ("edge" ∷ "relay" ∷ "urltest" ∷ []))) "role"
        "unsupported role %q" (i.role ∷ []) in
    let ((_, _, _, _, inbounds), outbounds, _, _, _) =
      append9-eq-nil (validate_safe_name "name" i.name)
        (add_if (i.name == "ALL") "name" "ALL is reserved" []) role
        (validate_api_config "api" i.api) (validate_inbounds global i.inbounds)
        (validate_outbounds i.outbounds).0 (validate_groups i.groups (outbound_names_of i)).0
        (validate_route i.route (outbound_names_of i) (group_names_of i))
        (validate_instance_traffic i.traffic) h in
    record {
      inbounds_typed = validate_inbounds-typed global i.inbounds inbounds;
      outbounds_ok =
          outbounds_both [] i.outbounds closed.outbounds_ok
            (outbounds_formed 0 [] i.outbounds outbounds);
      refs_ok = refs;
      groups_typed = groups_typed (outbound_names_of i) [] i.groups closed.groups_ok;
    }

validate_instances-completed :
    (global : GlobalConfig) (given : List Instance)
    → (validate_instances global given).1 ≡ map apply_instance_defaults given
unfolding validate_instances validate_instance
validate_instances-completed global [] = refl
validate_instances-completed global (i ∷ is) = cc (validate_instances-completed global is)

-- That an accepted instance has a configuration, and that it is self-contained.
abbrev pub Built : GlobalConfig → List Instance → Instance → Type 0
Built global instances i =
    (c : SingBoxConfig) × (build_config_with_instances global instances i ≡ success c)
    × IsSelfContained c

instances-Built :
    (global : GlobalConfig) (instances given : List Instance)
    → (validate_instances global given).0 ≡ []
    → All
        (λ (i : Instance). All (RefOk (index_instances instances) i) i.outbounds)
        (map apply_instance_defaults given)
    → All (Built global instances) given
unfolding validate_instances validate_instance build_config_with_instances
instances-Built global instances [] h refs = tt
instances-Built global instances (i ∷ is) h (refs, later) =
    let (here, rest) =
      append-eq-nil (validate_instance global i).0 (validate_instances global is).0 h in
    (
      let (c, built) =
            build_completed_total global (index_instances instances) (apply_instance_defaults i)
              (validate_instance-IsBuildable global (index_instances instances) i here refs) in
          (
            c,
            built,
            (build_config_with_instances-IsSelfContained global instances i c here built).1,
          ),
      instances-Built global instances is rest later,
    )

-- Where `ValidateConfigSet` accepts a configuration, `BuildConfigWithInstances` returns, without an
-- error, a configuration for each of its instances; and each of these names only tags that it
-- defines, none of them twice.
pub validate_config_set-Built :
    (platform : Platform) (global : GlobalConfig) (given : List Instance)
    → (validate_config_set platform global given).0 ≡ []
    → All (Built global given) given
unfolding validate_config_set
validate_config_set-Built platform global given h =
    let is = (validate_instances global given).1 in
    let (_, instances, _, _) =
      append4-eq-nil (validate_global_config platform global) (validate_instances global given).0
        (validate_outbound_refs is) (validate_port_conflicts is) h in
    let (_, refs, _) = validate_config_set-eq-nil platform global given h in
    instances-Built global given given instances
      (rw (validate_instances-completed global given) at refs)
