-- ===== src/Subscription/Examples.antt =====
-- Inputs that internal/subscription indexes.
use sbox_manager.Common.{
  [], contains, contains_code, is_blank, keep, pos, refl, some, success, trim_left, trim_right,
  trim_space, ◌==◌, ◌∷◌, ◌≡◌,
}
use sbox_manager.Domain.Checks.{
  is_safe_name, validate_external_host, validate_port, validate_safe_name,
}
use sbox_manager.Domain.Examples.{bland, sample_input, sample_node}
use sbox_manager.Domain.Merge.{validate_merge_rules, validate_subscription_inputs}
use sbox_manager.Domain.Models.{SubscriptionInput, SubscriptionNode}
use sbox_manager.Domain.Nodes.{validate_input, validate_subscription_node}
use sbox_manager.Domain.Protocols.{validate_subscription_auth}
use sbox_manager.Subscription.Index.{
  Index, build_index_from_inputs, empty_index, index_inputs, nodes_for_user,
}
use sbox_manager.Subscription.Index.Grouped.{all_hosted, build_index_from_inputs-nodes_for_user}

-- A node with its own server and one that takes the host of the input, of two users.
abbrev pub shared_input : SubscriptionInput
shared_input = record (sample_input "n1") {
  input_schema = "sbox.subscription-input";
  source = "agent";
  external_host = "proxy.example.com";
  nodes = some (
      record (sample_node "n1") { tag = "t1" }
      ∷ record (sample_node "n2") { tag = "t2"; user = "anna"; server = "" }
      ∷ []);
}

abbrev pub shared_index : Index
shared_index = index_inputs (empty_index (pos 7)) (shared_input ∷ [])

shared_accepted : validate_subscription_inputs bland (shared_input ∷ []) ≡ []
unfolding validate_subscription_inputs validate_input is_blank validate_safe_name is_safe_name
    contains validate_external_host trim_space trim_right trim_left contains_code
    validate_subscription_node validate_port validate_subscription_auth validate_merge_rules
shared_accepted = refl

pub shared_built : build_index_from_inputs bland (pos 7) (shared_input ∷ []) ≡ success shared_index
unfolding build_index_from_inputs
shared_built = rw shared_accepted refl

build_index_from_inputs-nodes_for_user_example :
    nodes_for_user (some shared_index) "anna"
    ≡ keep (λ (n : SubscriptionNode). n.user == "anna") (all_hosted (shared_input ∷ []))
build_index_from_inputs-nodes_for_user_example =
    build_index_from_inputs-nodes_for_user bland (pos 7) (shared_input ∷ []) shared_index "anna"
      shared_built
