-- ===== src/Subserver/Routes.antt =====
-- internal/subserver/server.go: the routes. The decoding of a part of a path (package net/url) is a
-- parameter; `none` where it fails.
use Prim.Native.Char.{code}
use sbox_manager.Common.{
  List, Option, String, [], if◌then◌else◌, nat_eq, none, some, ◌&&◌, ◌==◌, ◌∷◌,
}
use sbox_manager.Std.Cut.{split}

-- `strings.Trim(s, "/")`.
drop_left : String → String
drop_left String.[] = String.[]
drop_left (String.◌∷◌ c s) =
    let rest = drop_left s in if nat_eq (code c) b'/' then rest else String.◌∷◌ c s

drop_right : String → String
drop_right String.[] = String.[]
drop_right (String.◌∷◌ c s) =
    let rest = drop_right s in
    if nat_eq (code c) b'/' && rest == "" then String.[] else String.◌∷◌ c rest

unfoldable pub trim_slashes : String → String
unfolding drop_left drop_right
trim_slashes s = drop_right (drop_left s)

pub record SubscriptionRoute : Type 0 where
  pub format : String
  pub path_token : String
  pub user : String

-- `isSubscriptionPrefix`.
unfoldable pub is_subscription_prefix : String → Option String
is_subscription_prefix prefix =
    if prefix == "sub"
    then some "clash"
    else if prefix == "premium_sub"
    then some "premium-clash"
    else if prefix == "surge_sub"
    then some "surge"
    else if prefix == "sing-box"
    then some "sing-box"
    else none

module _ (path_unescape : String → Option String) where
  -- `parseRouteUser` and `parseRouteToken`: a decoded part that is not empty.
  unfoldable pub parse_route_user : String → Option String
  parse_route_user part = elim (path_unescape part) [
    | none ↦ none
    | some user ↦ if user == "" then none else some user
  ]

  unfoldable pub parse_route_token : String → Option String
  parse_route_token part = elim (path_unescape part) [
    | none ↦ none
    | some token ↦ if token == "" then none else some token
  ]

  unfoldable pub parse_route_prefix : String → Option String
  parse_route_prefix part = elim (path_unescape part) [
    | none ↦ none
    | some prefix ↦ if prefix == "" then none else is_subscription_prefix prefix
  ]

  -- `buildSubscriptionRoute`, behind the check of the number of parts.
  unfoldable pub build_subscription_route : List String → Option SubscriptionRoute
  build_subscription_route (prefix ∷ user ∷ []) = elim (parse_route_prefix prefix) [
    | none ↦ none
    | some format ↦ elim (parse_route_user user) [
      | none ↦ none
      | some name ↦ some (record { format = format; path_token = ""; user = name })
    ]
  ]
  build_subscription_route (prefix ∷ token ∷ user ∷ []) = elim (parse_route_prefix prefix) [
    | none ↦ none
    | some format ↦ elim (parse_route_token token) [
      | none ↦ none
      | some secret ↦ elim (parse_route_user user) [
        | none ↦ none
        | some name ↦ some (record { format = format; path_token = secret; user = name })
      ]
    ]
  ]
  build_subscription_route other = none

  unfoldable pub parse_subscription_route : String → Option SubscriptionRoute
  parse_subscription_route raw_path = build_subscription_route (split b'/' (trim_slashes raw_path))
