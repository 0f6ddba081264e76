-- ===== src/Domain/Instances.antt =====
-- internal/domain/validation.go: one instance, the ports of all instances, the configuration set and
-- the warnings.
pub mod Ports
pub mod Accepted
pub mod Defaulted
pub mod Whole
use sbox_manager.Common.{
  List, String, [], at_index, eqb_ℤ, get, if◌then◌else◌, itoa, none, not, pos_part, some, suc, ℕ, ℤ,
  ◌++◌, ◌<>◌, ◌==◌, ◌∷◌,
}
use sbox_manager.Domain.Checks.{
  allowed_value, host_port, is_port, refused, split_listen_address, validate_api_config,
  validate_safe_name,
}
use sbox_manager.Domain.Defaults.{apply_instance_defaults}
use sbox_manager.Domain.Globals.{validate_global_config}
use sbox_manager.Domain.Inbounds.{inbound_auth_warnings, validate_inbounds}
use sbox_manager.Domain.Issues.{ValidationErrors, add, add_if, each}
use sbox_manager.Domain.Models.{ApiConfig, GlobalConfig, Inbound, Instance}
use sbox_manager.Domain.Outbounds.{validate_outbounds}
use sbox_manager.Domain.Platform.{Platform}
use sbox_manager.Domain.Refs.{validate_outbound_refs}
use sbox_manager.Domain.Routing.{validate_groups, validate_instance_traffic, validate_route}

-- `ValidateInstance` puts the defaults in and checks the result: the instance is a pointer, so the
-- caller keeps the completed instance.
unfoldable pub validate_instance : GlobalConfig → Instance → ValidationErrors × Instance
validate_instance global given =
    let instance' = apply_instance_defaults given in
    let (outbound_issues, outbound_names) = validate_outbounds instance'.outbounds in
    let (group_issues, group_names) = validate_groups instance'.groups outbound_names in
    (
      validate_safe_name "name" instance'.name
          ++ add_if (instance'.name == "ALL") "name" "ALL is reserved" []
          ++ add_if (not (allowed_value instance'.role ("edge" ∷ "relay" ∷ "urltest" ∷ []))) "role"
              "unsupported role %q" (instance'.role ∷ [])
          ++ validate_api_config "api" instance'.api
          ++ validate_inbounds global instance'.inbounds
          ++ outbound_issues
          ++ group_issues
          ++ validate_route instance'.route outbound_names group_names
          ++ validate_instance_traffic instance'.traffic,
      instance',
    )

-- `addPortUse`: the issue of one use, and the map after it.
unfoldable pub add_port_use : List (ℤ × String) → ℤ → String → ValidationErrors × List (ℤ × String)
add_port_use used port owner = elim (get eqb_ℤ port used) [
  | none ↦ ([], (port, owner) ∷ used)
  | some previous ↦
      (add owner "port %d conflicts with %s" (itoa (pos_part port) ∷ previous ∷ []), used)
]

-- The inbounds of an enabled instance whose port is a port number.
unfoldable pub use_inbounds :
    ℕ → ℕ → List (ℤ × String) → List Inbound → ValidationErrors × List (ℤ × String)
unfolding add_port_use
use_inbounds index inbound_index used [] = ([], used)
use_inbounds index inbound_index used (inbound ∷ rest) =
    let owner = at_index (at_index "instances" index <> ".inbounds") inbound_index in
    let (issues, used') =
      if is_port inbound.port then add_port_use used inbound.port owner else ([], used) in
    let (later, final) = use_inbounds index (suc inbound_index) used' rest in
    (issues ++ later, final)

-- The API of an enabled instance, if it is enabled and its address is well formed.
unfoldable pub use_api : ℕ → List (ℤ × String) → ApiConfig → ValidationErrors × List (ℤ × String)
unfolding add_port_use
use_api index used api =
    if not api.enabled then ([], used) else elim (split_listen_address api.listen) [
      | refused message ↦ ([], used)
      | host_port host port ↦ add_port_use used port (at_index "instances" index <> ".api")
    ]

-- One instance: nothing where it is not enabled.
unfoldable pub use_instance :
    ℕ → List (ℤ × String) → Instance → ValidationErrors × List (ℤ × String)
use_instance index used instance' =
    let (inbound_issues, used') = use_inbounds index 0 used instance'.inbounds in
    let (api_issues, final) = use_api index used' instance'.api in
    if instance'.enabled then (inbound_issues ++ api_issues, final) else ([], used)

unfoldable pub use_instances :
    ℕ → List (ℤ × String) → List Instance → ValidationErrors × List (ℤ × String)
use_instances index used [] = ([], used)
use_instances index used (instance' ∷ rest) =
    let (issues, used') = use_instance index used instance' in
    let (later, final) = use_instances (suc index) used' rest in (issues ++ later, final)

-- `validatePortConflicts`.
unfoldable pub validate_port_conflicts : List Instance → ValidationErrors
unfolding use_instances use_instance use_inbounds use_api
validate_port_conflicts instances = (use_instances 0 [] instances).0

-- Every instance is validated and completed in place.
unfoldable pub validate_instances : GlobalConfig → List Instance → ValidationErrors × List Instance
validate_instances global [] = ([], [])
validate_instances global (given ∷ rest) =
    let (issues, instance') = validate_instance global given in
    let (later, completed) = validate_instances global rest in
    (issues ++ later, instance' ∷ completed)

module _ (platform : Platform) where
  -- `ValidateConfigSet`, with the completed instances.
  unfoldable pub validate_config_set :
      GlobalConfig → List Instance → ValidationErrors × List Instance
  validate_config_set global given =
      let (issues, instances) = validate_instances global given in
      (
        validate_global_config platform global
            ++ issues
            ++ validate_outbound_refs instances
            ++ validate_port_conflicts instances,
        instances,
      )

-- `collectInstanceWarnings`.
unfoldable pub collect_from : GlobalConfig → String → Instance → ValidationErrors
collect_from global path instance' =
    each (λ index. inbound_auth_warnings global (at_index (path <> ".inbounds") index)) 0
      instance'.inbounds

unfoldable pub collect_instance_warnings : GlobalConfig → Instance → ValidationErrors
unfolding collect_from
collect_instance_warnings global given =
    collect_from global "instance" (apply_instance_defaults given)

unfoldable pub collect_config_warnings : GlobalConfig → List Instance → ValidationErrors
unfolding collect_from
collect_config_warnings global [] = []
collect_config_warnings global (given ∷ rest) =
    let instance' = apply_instance_defaults given in
    collect_from global ("instances[" <> instance'.name <> "]") instance'
    ++ collect_config_warnings global rest
