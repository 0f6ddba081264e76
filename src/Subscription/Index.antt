-- ===== src/Subscription/Index.antt =====
-- internal/subscription/index.go: the index that the server answers from. A map from users to nodes is
-- a list of its entries.
pub mod Grouped
use sbox_manager.Common.{
  List, Option, Outcome, String, [], failure, get, if◌then◌else◌, is_empty, length, none, some,
  success, ℕ, ℤ, ◌++◌, ◌==◌, ◌∷◌,
}
use sbox_manager.Domain.Merge.{nodes_of, validate_subscription_inputs}
use sbox_manager.Domain.Models.{SubscriptionInput, SubscriptionNode}
use sbox_manager.Domain.Platform.{Platform}

pub record Index : Type 0 where
  pub built_at : ℤ
  pub sources : List String
  pub nodes : List SubscriptionNode
  pub users : List (String × List SubscriptionNode)

-- `index.Users[user] = append(index.Users[user], node)`.
unfoldable pub push_node :
    String
    → SubscriptionNode
    → List (String × List SubscriptionNode)
    → List (String × List SubscriptionNode)
push_node user node [] = (user, node ∷ []) ∷ []
push_node user node ((key, nodes) ∷ m) =
    let rest = push_node user node m in
    if key == user then (key, nodes ++ node ∷ []) ∷ m else (key, nodes) ∷ rest

-- A node without a server has the host of its input.
unfoldable pub normalized : String → SubscriptionNode → SubscriptionNode
normalized host node = if node.server == "" then record node { server = host } else node

-- The inner loop of `BuildIndexFromInputs`.
unfoldable pub index_nodes : String → Index → List SubscriptionNode → Index
index_nodes host index [] = index
index_nodes host index (node ∷ rest) =
    let n = normalized host node in
    index_nodes host
      (record index { nodes = index.nodes ++ n ∷ []; users = push_node n.user n index.users }) rest

-- The outer loop.
unfoldable pub index_inputs : Index → List SubscriptionInput → Index
index_inputs index [] = index
index_inputs index (input ∷ rest) =
    index_inputs
      (index_nodes input.external_host
        (record index { sources = index.sources ++ input.source ∷ [] }) (nodes_of input))
      rest

abbrev pub empty_index : ℤ → Index
empty_index now = record { built_at = now; sources = []; nodes = []; users = [] }

-- `BuildIndexFromInputs`.
unfoldable pub build_index_from_inputs : Platform → ℤ → List SubscriptionInput → Outcome Index
build_index_from_inputs platform now inputs =
    if is_empty (validate_subscription_inputs platform inputs)
    then success (index_inputs (empty_index now) inputs)
    else failure "validation failed"

-- `NodesForUser`.
unfoldable pub nodes_for_user : Option Index → String → List SubscriptionNode
nodes_for_user none user = []
nodes_for_user (some index) user = elim (get ◌==◌ user index.users) [
  | none ↦ []
  | some nodes ↦ nodes
]

-- `UserCount`.
unfoldable pub user_count : Option Index → ℕ
user_count none = 0
user_count (some index) = length index.users

-- `redactSecret`.
unfoldable pub redact_secret : String → String
redact_secret value = if value == "" then "" else "[REDACTED]"
