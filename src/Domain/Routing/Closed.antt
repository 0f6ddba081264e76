-- ===== src/Domain/Routing/Closed.antt =====
-- internal/domain/validation.go: an instance whose groups and route are accepted refers to nothing
-- that is missing.
use sbox_manager.Common.{
  All, Bool, List, String, [], append-eq-nil, append5-eq-nil, arith, at_index, eq_iff, false, has,
  if◌then◌else◌, is_blank, is_empty, leb_ℤ, not, pos, refl, suc, true, ℕ, ◌++◌, ◌<>◌, ◌<ℤ◌, ◌==◌,
  ◌∷◌, ◌≡◌,
}
use sbox_manager.Domain.Checks.{allowed_value, is_safe_name}
use sbox_manager.Domain.Checks.Names.{validate_safe_name-eq-nil}
use sbox_manager.Domain.Issues.{ValidationErrors, add, add_if, add_if-eq-nil, each}
use sbox_manager.Domain.Models.{Group, RouteConfig, RouteRule}
use sbox_manager.Domain.Routing.{
  has_route_target, missing_members, route_target, validate_group, validate_groups,
  validate_groups_from, validate_route, validate_rule,
}

abbrev pub KnownMember : List String → String → Type 0
KnownMember outbound_names name = has outbound_names name ≡ true

-- What an accepted group satisfies; `urltest` groups have a URL and a positive interval.
abbrev pub GroupOk : List String → Group → Type 0
GroupOk outbound_names g =
    (is_safe_name g.name ≡ true)
    × (has outbound_names g.name ≡ false)
    × (allowed_value g.type ("selector" ∷ "urltest" ∷ []) ≡ true)
    × (is_empty g.outbounds ≡ false)
    × All (KnownMember outbound_names) g.outbounds
    × (g.type ≡ "urltest" → (is_blank g.url ≡ false) × (pos 0 <ℤ g.interval))

not-eq-false : (b : Bool) → not b ≡ false → b ≡ true
not-eq-false true h = cc
not-eq-false false h = cc

missing_members-eq-nil :
    (path : String) (outbound_names : List String) (i : ℕ) (names : List String)
    → missing_members path outbound_names i names ≡ []
    → All (KnownMember outbound_names) names
unfolding missing_members
missing_members-eq-nil path outbound_names i [] h = tt
missing_members-eq-nil path outbound_names i (n ∷ ns) h =
    let (a, b) = append-eq-nil (add_if (not (has outbound_names n)) _ _ _) _ h in
    (
      not-eq-false _ (add_if-eq-nil _ _ _ _ a),
      missing_members-eq-nil path outbound_names (suc i) ns b,
    )

urltest_ok :
    (path : String) (g : Group)
    → (if g.type == "urltest"
        then add_if (is_blank g.url) (path <> ".url") "urltest group requires url" []
          ++ add_if
              (leb_ℤ g.interval (pos 0))
              (path <> ".interval")
              "urltest group interval must be greater than 0"
              []
        else [])
      ≡ []
    → g.type ≡ "urltest"
    → (is_blank g.url ≡ false) × (pos 0 <ℤ g.interval)
urltest_ok path g h e = ground (arith, eq_iff g.type "urltest")

members_ok :
    (path : String) (outbound_names : List String) (g : Group)
    → validate_group path outbound_names g ≡ []
    → (is_empty g.outbounds ≡ false)
      × All (KnownMember outbound_names) g.outbounds
      × (g.type ≡ "urltest" → (is_blank g.url ≡ false) × (pos 0 <ℤ g.interval))
unfolding validate_group
members_ok path outbound_names g h =
    let (ab, c) = append-eq-nil (_ ++ missing_members path outbound_names 0 g.outbounds) _ h in
    let (a, b) = append-eq-nil (add_if (is_empty g.outbounds) _ _ _) _ ab in
    (
      add_if-eq-nil _ _ _ _ a,
      missing_members-eq-nil path outbound_names 0 g.outbounds b,
      urltest_ok path g c,
    )

-- Of the groups: each is accepted for itself, and its name is new.
abbrev pub GroupsOk : List String → List String → List Group → Type 0
GroupsOk outbound_names names [] = Unit
GroupsOk outbound_names names (g ∷ gs) =
    GroupOk outbound_names g
    × (has names g.name ≡ false)
    × GroupsOk outbound_names (g.name ∷ names) gs

typed :
    (ok : Bool) (path : String) (args : List String) (rest : ValidationErrors)
    → (if not ok then add path "unsupported group type %q" args else rest) ≡ []
    → (ok ≡ true) × (rest ≡ [])
typed true path args rest h = (refl, h)
typed false path args rest h = cc

validate_groups_from-eq-nil :
    (outbound_names : List String) (i : ℕ) (names : List String) (gs : List Group)
    → validate_groups_from outbound_names i names gs ≡ []
    → GroupsOk outbound_names names gs
unfolding validate_groups_from
validate_groups_from-eq-nil outbound_names i names [] h = tt
validate_groups_from-eq-nil outbound_names i names (g ∷ gs) h =
    let (safe, clash, twice, body, rest) = append5-eq-nil _ _ _ _ _ h in
    let (known_type, members) = typed _ _ _ _ body in
    let (some_member, all_known, urltest) = members_ok _ outbound_names g members in
    (
      (
        validate_safe_name-eq-nil _ g.name safe,
        add_if-eq-nil _ _ _ _ clash,
        known_type,
        some_member,
        all_known,
        urltest,
      ),
      add_if-eq-nil _ _ _ _ twice,
      validate_groups_from-eq-nil outbound_names (suc i) (g.name ∷ names) gs rest,
    )

-- A name that the route may use: not blank, and an outbound or a group.
abbrev pub IsRouteTarget : List String → List String → String → Type 0
IsRouteTarget outbound_names group_names name =
    (is_blank name ≡ false) × (has_route_target name outbound_names group_names ≡ true)

abbrev pub RuleOk : List String → List String → RouteRule → Type 0
RuleOk outbound_names group_names rule =
    (is_empty rule.values ≡ false) × IsRouteTarget outbound_names group_names rule.outbound

route_target-eq-nil :
    (path name : String) (outbound_names group_names : List String)
    → route_target path name outbound_names group_names ≡ []
    → IsRouteTarget outbound_names group_names name
unfolding route_target
route_target-eq-nil path name os gs h = ground arith

validate_rule-eq-nil :
    (os gs : List String) (path : String) (rule : RouteRule)
    → validate_rule os gs path rule ≡ []
    → RuleOk os gs rule
unfolding validate_rule
validate_rule-eq-nil os gs path rule h =
    let body = typed_rule _ _ _ _ h in
    let (values, target) = append-eq-nil _ _ body in
    (add_if-eq-nil _ _ _ _ values, route_target-eq-nil _ rule.outbound os gs target)
  where
    typed_rule :
        (b : Bool) (path : String) (args : List String) (rest : ValidationErrors)
        → (if b then add path "unsupported route rule type %q" args else rest) ≡ []
        → rest ≡ []
    typed_rule true path args rest h = cc
    typed_rule false path args rest h = h

rules_ok :
    (os gs : List String) (i : ℕ) (rules : List RouteRule)
    → each (λ index. validate_rule os gs (at_index "route.rules" index)) i rules ≡ []
    → All (RuleOk os gs) rules
rules_ok os gs i [] h = tt
rules_ok os gs i (r ∷ rs) h =
    let (a, b) = append-eq-nil (validate_rule os gs (at_index "route.rules" i) r) _ h in
    (validate_rule-eq-nil os gs _ r a, rules_ok os gs (suc i) rs b)

pub validate_groups-eq-nil :
    (groups : List Group) (outbound_names : List String)
    → (validate_groups groups outbound_names).0 ≡ []
    → GroupsOk outbound_names [] groups
unfolding validate_groups
validate_groups-eq-nil groups os h = validate_groups_from-eq-nil os 0 [] groups h

pub validate_route-eq-nil :
    (route : RouteConfig) (os gs : List String)
    → validate_route route os gs ≡ []
    → IsRouteTarget os gs route.default × All (RuleOk os gs) route.rules
unfolding validate_route
validate_route-eq-nil route os gs h =
    let (a, b) = append-eq-nil (route_target "route.default" route.default os gs) _ h in
    (route_target-eq-nil _ route.default os gs a, rules_ok os gs 0 route.rules b)
