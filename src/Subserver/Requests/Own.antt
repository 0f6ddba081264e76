-- ===== src/Subserver/Requests/Own.antt =====
-- internal/subserver/server.go: who is served, and what.
use sbox_manager.Common.{
  All, All-keep, Bool-cases, List, Option-cases, Outcome-cases, String, [], ap, eq_iff, false, has,
  inl, inr, is_empty, keep, not, refl, some, success, success_injective, sym, ℤ, ◌==◌, ◌∙◌, ◌∷◌,
  ◌≡◌, ◌⊎◌,
}
use sbox_manager.Domain.Models.{AccessConfig, SubConfig, SubscriptionInput, SubscriptionNode}
use sbox_manager.Domain.Platform.{Platform}
use sbox_manager.Subscription.Formats.{filter_nodes_for_format, parse_format}
use sbox_manager.Subscription.Index.{Index, build_index_from_inputs, nodes_for_user}
use sbox_manager.Subscription.Index.Grouped.{build_index_from_inputs-nodes_for_user}
use sbox_manager.Subserver.Requests.{
  Authorization, Request, State, Web, answer, answer_indexed, answer_route, authorize, granted,
  handle_subscription, presented, rendered, token_mismatch, token_missing,
}
use sbox_manager.Subserver.Routes.{SubscriptionRoute, parse_subscription_route}

-- The access that a request needs: none, or the token of the configuration.
abbrev pub MayRead : AccessConfig → String → String → Type 0
MayRead access path_token query_token =
    (access.type ≡ "none")
    ⊎ ((presented path_token query_token ≡ access.token)
        × ((presented path_token query_token == "") ≡ false))

authorize-MayRead :
    (access : AccessConfig) (path_token query_token : String)
    → authorize access path_token query_token ≡ granted
    → MayRead access path_token query_token
unfolding authorize
authorize-MayRead access path_token query_token h = elim (Bool-cases (access.type == "none")) [
  | inl e ↦ inl ((eq_iff access.type "none").0 e)
  | inr e ↦ elim (Bool-cases (presented path_token query_token == "")) [
    | inl f ↦ let bad = rw (e, f, authorize) at h in cc
    | inr f ↦ elim (Bool-cases (presented path_token query_token == access.token)) [
      | inl g ↦ inr ((eq_iff _ access.token).0 g, f)
      | inr g ↦ let bad = rw (e, f, g, authorize) at h in cc
    ]
  ]
]

-- The text is the rendering of some of the nodes of the user, all of them that the format supports.
abbrev pub Renders : Web → SubConfig → ℤ → Index → Request → String → String → String → Type 0
Renders web config now index r format user body =
    let shown = filter_nodes_for_format format (nodes_for_user (some index) user) in
    (is_empty shown ≡ false)
    × (web.render format user shown config r.url index.sources now ≡ success body)

rendered_injective : {a b : String} → rendered a ≡ rendered b → a ≡ b
rendered_injective h = cc

answer-Renders :
    (web : Web) (config : SubConfig) (now : ℤ) (index : Index) (r : Request)
    (format user body : String)
    → answer web config now index r format user ≡ rendered body
    → Renders web config now index r format user body
unfolding answer
answer-Renders web config now index r format user body h =
    let nodes = nodes_for_user (some index) user in
    let shown = filter_nodes_for_format format nodes in
    elim (Bool-cases (is_empty nodes)) [
      | inl e ↦ let bad = rw (e, answer) at h in cc
      | inr e ↦ elim (Bool-cases (is_empty shown)) [
        | inl f ↦ let bad = rw (e, f, answer) at h in cc
        | inr f ↦
            elim (Outcome-cases (web.render format user shown config r.url index.sources now)) [
              | inl (text, done) ↦
                  let same = rw (e, f, done, answer) at h in
                  (f, done ∙ ap success (rendered_injective same))
              | inr (e', failed) ↦ let bad = rw (e, f, failed, answer) at h in cc
            ]
      ]
    ]

parse_format-same : (value format : String) → parse_format value ≡ success format → format ≡ value
unfolding parse_format
parse_format-same value format h =
    elim (Bool-cases (has ("clash" ∷ "premium-clash" ∷ "surge" ∷ "sing-box" ∷ []) value)) [
      | inl e ↦ sym (success_injective (rw (e, parse_format) at h))
      | inr e ↦ let bad = rw (e, parse_format) at h in cc
    ]

authorize_cases : (a : Authorization) → (a ≡ granted) ⊎ (a ≡ token_missing) ⊎ (a ≡ token_mismatch)
authorize_cases granted = inl refl
authorize_cases token_missing = inr (inl refl)
authorize_cases token_mismatch = inr (inr refl)

answer_route-Renders :
    (web : Web) (config : SubConfig) (now : ℤ) (s : State) (index : Index) (r : Request)
    (route : SubscriptionRoute) (body : String)
    → s.index ≡ some index
    → answer_route web config now s r route ≡ rendered body
    → MayRead config.access route.path_token r.query_token
      × Renders web config now index r route.format route.user body
unfolding answer_route answer_indexed
answer_route-Renders web config now s index r route body here h =
    elim (Outcome-cases (parse_format route.format)) [
      | inr (e, failed) ↦ let bad = rw (failed, answer_route) at h in cc
      | inl (format, parsed) ↦
          elim (authorize_cases (authorize config.access route.path_token r.query_token)) [
            | inl e ↦
                let same = parse_format-same route.format format parsed in
                let served = rw (parsed, e, here, answer_route, answer_indexed) at h in
                (
                  authorize-MayRead config.access route.path_token r.query_token e,
                  answer-Renders web config now index r route.format route.user body
                      (rw same at served),
                )
            | inr (inl e) ↦ let bad = rw (parsed, e, answer_route) at h in cc
            | inr (inr e) ↦ let bad = rw (parsed, e, answer_route) at h in cc
          ]
    ]

kept_users :
    (user : String) (nodes : List SubscriptionNode)
    → All
        (λ (n : SubscriptionNode). n.user ≡ user)
        (keep (λ (n : SubscriptionNode). n.user == user) nodes)
kept_users user [] = tt
kept_users user (n ∷ nodes) = elim (Bool-cases (n.user == user)) [
  | inl e ↦ rw e ((eq_iff n.user user).0 e, kept_users user nodes)
  | inr e ↦ rw e (kept_users user nodes)
]

All-filter_nodes_for_format :
    (format user : String) (nodes : List SubscriptionNode)
    → All (λ (n : SubscriptionNode). n.user ≡ user) nodes
    → All (λ (n : SubscriptionNode). n.user ≡ user) (filter_nodes_for_format format nodes)
unfolding filter_nodes_for_format
All-filter_nodes_for_format format user nodes h = elim (Bool-cases (format == "sing-box")) [
  | inl e ↦ rw (e, filter_nodes_for_format) h
  | inr e ↦ rw (e, filter_nodes_for_format) (All-keep (λ n. n.user ≡ user) _ nodes h)
]

-- A request that is answered with a text, by a server whose index was built of inputs, has a route;
-- unless no token is needed it shows the token of the configuration; and the text is the rendering of
-- a list of nodes that is not empty and has only nodes of the user of the route.
pub handle_subscription-rendered :
    (web : Web) (config : SubConfig) (platform : Platform) (now built : ℤ)
    (inputs : List SubscriptionInput) (s : State) (index : Index) (r : Request) (body : String)
    → s.index ≡ some index
    → build_index_from_inputs platform built inputs ≡ success index
    → handle_subscription web config now s r ≡ rendered body
    → (route : SubscriptionRoute) × (parse_subscription_route web.path_unescape r.path ≡ some route)
      × MayRead config.access route.path_token r.query_token
      × Renders web config now index r route.format route.user body
      × All
          (λ (n : SubscriptionNode). n.user ≡ route.user)
          (filter_nodes_for_format route.format (nodes_for_user (some index) route.user))
unfolding handle_subscription
handle_subscription-rendered web config platform now built inputs s index r body here indexed h =
    elim (Bool-cases (not (r.method == "GET"))) [
      | inl e ↦ let bad = rw (e, handle_subscription) at h in cc
      | inr e ↦ elim (Option-cases (parse_subscription_route web.path_unescape r.path)) [
        | inl f ↦ let bad = rw (e, f, handle_subscription) at h in cc
        | inr (route, f) ↦
            let (may, shown) =
              answer_route-Renders web config now s index r route body here
                (rw (e, f, handle_subscription) at h) in
            let nodes =
              build_index_from_inputs-nodes_for_user platform built inputs index route.user
                indexed in
            (
              route,
              f,
              may,
              shown,
              All-filter_nodes_for_format route.format route.user _
                  (rw nodes (kept_users route.user _)),
            )
      ]
    ]
