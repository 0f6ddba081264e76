-- ===== src/Domain/Instances/Accepted.antt =====
-- internal/domain/validation.go: what holds of an instance that `ValidateInstance` accepts.
use sbox_manager.Common.{
  All, List, String, [], append9-eq-nil, arith, eq_iff, map, not, true, ◌==◌, ◌∷◌, ◌≡◌, ◌≢◌,
}
use sbox_manager.Domain.Checks.{allowed_value, is_safe_name, validate_api_config}
use sbox_manager.Domain.Checks.Names.{validate_safe_name-eq-nil}
use sbox_manager.Domain.Defaults.{apply_instance_defaults}
use sbox_manager.Domain.Inbounds.{validate_inbounds}
use sbox_manager.Domain.Instances.{validate_instance}
use sbox_manager.Domain.Issues.{add_if}
use sbox_manager.Domain.Models.{GlobalConfig, Group, Instance, Outbound}
use sbox_manager.Domain.Outbounds.{validate_outbounds}
use sbox_manager.Domain.Outbounds.Accepted.{OutboundsOk, validate_outbounds-eq-nil}
use sbox_manager.Domain.Routing.{validate_groups, validate_instance_traffic, validate_route}
use sbox_manager.Domain.Routing.Closed.{
  GroupsOk, IsRouteTarget, RuleOk, validate_groups-eq-nil, validate_route-eq-nil,
}

abbrev pub outbound_names_of : Instance → List String
outbound_names_of i = map (λ (o : Outbound). o.name) i.outbounds

abbrev pub group_names_of : Instance → List String
group_names_of i = map (λ (g : Group). g.name) i.groups

-- The instance refers to nothing that is missing, and each of its names means one thing.
pub record IsClosed (i : Instance) : Type 0 where
  pub name_safe : is_safe_name i.name ≡ true
  pub name_not_all : i.name ≢ "ALL"
  pub outbounds_ok : OutboundsOk [] i.outbounds
  pub groups_ok : GroupsOk (outbound_names_of i) [] i.groups
  pub default_ok : IsRouteTarget (outbound_names_of i) (group_names_of i) i.route.default
  pub rules_ok : All (RuleOk (outbound_names_of i) (group_names_of i)) i.route.rules

reserved : (name : String) → add_if (name == "ALL") "name" "ALL is reserved" [] ≡ [] → name ≢ "ALL"
reserved name h = ground (arith, eq_iff name "ALL")

-- An instance that `ValidateInstance` accepts has, once its defaults are put in: a safe name other
-- than ALL; outbounds of known types with safe names, none twice; groups with safe names, none twice
-- and none that an outbound has, of known types, each with members that are outbounds, and with a URL
-- and a positive interval if its type is urltest; a default target and targets of rules, all with
-- values, that are not blank and are outbounds or groups.
pub validate_instance-IsClosed :
    (global : GlobalConfig) (given : Instance)
    → (validate_instance global given).0 ≡ []
    → IsClosed (validate_instance global given).1
unfolding validate_instance validate_outbounds validate_groups
validate_instance-IsClosed global given h =
    let i = apply_instance_defaults given in
    let role =
      add_if (not (allowed_value i.role ("edge" ∷ "relay" ∷ "urltest" ∷ []))) "role"
        "unsupported role %q" (i.role ∷ []) in
    let ((safe, all, _, _, _), outbounds, groups, route, _) =
      append9-eq-nil _ _ role (validate_api_config "api" i.api)
        (validate_inbounds global i.inbounds) (validate_outbounds i.outbounds).0
        (validate_groups i.groups (outbound_names_of i)).0
        (validate_route i.route (outbound_names_of i) (group_names_of i))
        (validate_instance_traffic i.traffic) h in
    let (default, rules) =
      validate_route-eq-nil i.route (outbound_names_of i) (group_names_of i) route in
    record {
      name_safe = validate_safe_name-eq-nil "name" i.name safe;
      name_not_all = reserved i.name all;
      outbounds_ok = validate_outbounds-eq-nil i.outbounds outbounds;
      groups_ok = validate_groups-eq-nil i.groups (outbound_names_of i) groups;
      default_ok = default;
      rules_ok = rules;
    }
