-- ===== src/Domain/Routing.antt =====
-- internal/domain/validation.go: groups, the route and the traffic scopes of an instance.
pub mod Closed
-- The names of a group that are no outbounds.
use sbox_manager.Common.{
  Bool, List, String, [], at_index, has, if◌then◌else◌, is_blank, is_empty, leb_ℤ, map, none, not,
  pos, some, suc, ℕ, ◌++◌, ◌<>◌, ◌==◌, ◌||◌, ◌∷◌,
}
use sbox_manager.Domain.Checks.{allowed_value, validate_safe_name}
use sbox_manager.Domain.Issues.{ValidationErrors, add, add_if, each}
use sbox_manager.Domain.Models.{Group, InstanceTrafficConfig, RouteConfig, RouteRule}

unfoldable pub missing_members : String → List String → ℕ → List String → ValidationErrors
missing_members path outbound_names index [] = []
missing_members path outbound_names index (name ∷ rest) =
    add_if (not (has outbound_names name)) (at_index (path <> ".outbounds") index)
      "referenced outbound %q does not exist" (name ∷ [])
    ++ missing_members path outbound_names (suc index) rest

-- The body of the loop behind the type check.
unfoldable pub validate_group : String → List String → Group → ValidationErrors
validate_group path outbound_names group =
    add_if (is_empty group.outbounds) (path <> ".outbounds")
      "at least one outbound must be referenced" []
    ++ missing_members path outbound_names 0 group.outbounds
    ++ (if group.type == "urltest"
        then add_if (is_blank group.url) (path <> ".url") "urltest group requires url" []
          ++ add_if (leb_ℤ group.interval (pos 0)) (path <> ".interval")
              "urltest group interval must be greater than 0" []
        else [])

-- The loop of `validateGroups` with the names of the groups so far.
unfoldable pub validate_groups_from : List String → ℕ → List String → List Group → ValidationErrors
validate_groups_from outbound_names index names [] = []
validate_groups_from outbound_names index names (group ∷ rest) =
    let path = at_index "groups" index in
    validate_safe_name (path <> ".name") group.name
    ++ add_if (has outbound_names group.name) (path <> ".name")
        "must not have the same name as an outbound" []
    ++ add_if (has names group.name) (path <> ".name") "duplicate group name" []
    ++ (if not (allowed_value group.type ("selector" ∷ "urltest" ∷ []))
        then add (path <> ".type") "unsupported group type %q" (group.type ∷ [])
        else validate_group path outbound_names group)
    ++ validate_groups_from outbound_names (suc index) (group.name ∷ names) rest

-- The issues, and the set of names.
unfoldable pub validate_groups : List Group → List String → ValidationErrors × List String
unfolding validate_groups_from validate_group
validate_groups groups outbound_names =
    (validate_groups_from outbound_names 0 [] groups, map (λ (g : Group). g.name) groups)

abbrev pub has_route_target : String → List String → List String → Bool
has_route_target name outbound_names group_names = has outbound_names name || has group_names name

-- An outbound or group that the route names: neither blank nor unknown.
unfoldable pub route_target : String → String → List String → List String → ValidationErrors
route_target path name outbound_names group_names =
    if is_blank name
    then add path "cannot be empty" []
    else add_if (not (has_route_target name outbound_names group_names)) path
        "referenced outbound/group %q does not exist" (name ∷ [])

unfoldable pub validate_rule : List String → List String → String → RouteRule → ValidationErrors
validate_rule outbound_names group_names path rule =
    if not (
      allowed_value rule.type
        ("domain" ∷ "domain_suffix" ∷ "domain_keyword" ∷ "ip_cidr" ∷ "geoip" ∷ "geosite" ∷ []))
    then add (path <> ".type") "unsupported route rule type %q" (rule.type ∷ [])
    else add_if (is_empty rule.values) (path <> ".values") "cannot be empty" []
      ++ route_target (path <> ".outbound") rule.outbound outbound_names group_names

unfoldable pub validate_route : RouteConfig → List String → List String → ValidationErrors
validate_route route outbound_names group_names =
    route_target "route.default" route.default outbound_names group_names
    ++ each (λ index. validate_rule outbound_names group_names (at_index "route.rules" index)) 0
        route.rules

-- A scope list that is `nil` has no elements.
abbrev scopes_of : InstanceTrafficConfig → List String
scopes_of traffic = elim traffic.scopes [ none ↦ [] | some scopes ↦ scopes ]

unfoldable pub validate_instance_traffic : InstanceTrafficConfig → ValidationErrors
validate_instance_traffic traffic =
    each
      (λ index scope.
        add_if (not (allowed_value scope ("user" ∷ "inbound" ∷ "outbound" ∷ [])))
          (at_index "traffic.scopes" index) "unsupported traffic scope %q" (scope ∷ []))
      0 (scopes_of traffic)
