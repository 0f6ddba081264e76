-- ===== src/Subserver/Requests.antt =====
-- internal/subserver/server.go: the state of the index and the answers to requests. A response is a
-- rendered text, the health of the server, or an error with its status. The text of a status (package
-- net/http) and the renderer (internal/subscription/render.go) are parameters.
pub mod Own
use sbox_manager.Common.{
  List, Option, Outcome, String, failure, if◌then◌else◌, is_empty, length, none, not, some, success,
  ℕ, ℤ, ◌==◌,
}
use sbox_manager.Domain.Models.{AccessConfig, SubConfig, SubscriptionNode}
use sbox_manager.Subscription.Formats.{filter_nodes_for_format, parse_format}
use sbox_manager.Subscription.Index.{Index, nodes_for_user, user_count}
use sbox_manager.Subserver.Routes.{SubscriptionRoute, parse_subscription_route}

-- `State`.
pub record State : Type 0 where
  pub index : Option Index
  pub last_error : String

-- `Replace` and `MarkReloadError`.
unfoldable pub replace : State → Index → State
replace s index = record { index = some index; last_error = "" }

unfoldable pub mark_reload_error : State → String → State
mark_reload_error s message = record s { last_error = message }

pub record Request : Type 0 where
  pub method : String
  pub path : String
  pub query_token : String
  pub url : String

pub record Health : Type 0 where
  pub status : String
  pub users : ℕ
  pub indexed : Option (List String × ℕ × ℤ)
  pub reload_error : Option String

pub data Response : Type 0 where
  rendered : String → Response
  health : Health → Response
  refused : ℕ → String → String → Response

pub data Authorization : Type 0 where
  granted : Authorization
  token_missing : Authorization
  token_mismatch : Authorization

-- The token of the path, or else that of the query.
abbrev pub presented : String → String → String
presented path_token query_token = if not (path_token == "") then path_token else query_token

-- `authorize`.
unfoldable pub authorize : AccessConfig → String → String → Authorization
authorize access path_token query_token =
    let token = presented path_token query_token in
    if access.type == "none"
    then granted
    else if token == ""
    then token_missing
    else if not (token == access.token)
    then token_mismatch
    else granted

index_status : Option Index → String
index_status none = "error"
index_status (some index) = "ok"

index_summary : Option Index → Option (List String × ℕ × ℤ)
index_summary none = none
index_summary (some index) = some (index.sources, length index.nodes, index.built_at)

-- `handleHealth`.
unfoldable pub handle_health : State → Request → Response
unfolding index_status index_summary
handle_health s r =
    if not (r.method == "GET")
    then refused 405 "method_not_allowed" "method not allowed"
    else health (record {
      status = if not (s.last_error == "") then "degraded" else index_status s.index;
      users = user_count s.index;
      indexed = index_summary s.index;
      reload_error = if not (s.last_error == "") then some s.last_error else none;
    })

-- What the handlers use of net/url, net/http and the renderer: the text for a format, a user, the
-- nodes, the configuration, the URL of the request, the sources and the time.
pub record Web : Type 0 where
  pub path_unescape : String → Option String
  pub status_text : ℕ → String
  pub render :
      String
      → String
      → List SubscriptionNode
      → SubConfig
      → String
      → List String
      → ℤ
      → Outcome String

module _ (web : Web) where
  -- The answer to an authorized request for an index.
  unfoldable pub answer : SubConfig → ℤ → Index → Request → String → String → Response
  answer config now index r format user =
      let nodes = nodes_for_user (some index) user in
      let shown = filter_nodes_for_format format nodes in
      if is_empty nodes
      then refused 404 "user_not_found" "user not found"
      else if is_empty shown
      then refused 404 "user_not_found" "user not found"
      else elim (web.render format user shown config r.url index.sources now) [
        | failure e ↦ refused 503 "template_error" "template error"
        | success data' ↦ rendered data'
      ]

  unfoldable pub answer_indexed :
      SubConfig → ℤ → Option Index → Request → String → String → Response
  answer_indexed config now none r format user = refused 503 "index_unavailable" "index unavailable"
  answer_indexed config now (some index) r format user = answer config now index r format user

  unfoldable pub answer_route : SubConfig → ℤ → State → Request → SubscriptionRoute → Response
  answer_route config now s r route = elim (parse_format route.format) [
    | failure e ↦ refused 404 "not_found" "not found"
    | success format ↦ elim (authorize config.access route.path_token r.query_token) [
      | token_missing ↦ refused 401 "unauthorized" (web.status_text 401)
      | token_mismatch ↦ refused 403 "forbidden" (web.status_text 403)
      | granted ↦ answer_indexed config now s.index r format route.user
    ]
  ]

  -- `handleSubscription`.
  unfoldable pub handle_subscription : SubConfig → ℤ → State → Request → Response
  handle_subscription config now s r =
      if not (r.method == "GET")
      then refused 405 "method_not_allowed" "method not allowed"
      else elim (parse_subscription_route web.path_unescape r.path) [
        | none ↦ refused 404 "not_found" "not found"
        | some route ↦ answer_route config now s r route
      ]
