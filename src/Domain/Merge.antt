-- ===== src/Domain/Merge.antt =====
-- internal/domain/validation.go: the rules for the nodes of several inputs together, and
-- `ValidateSubscriptionInput`, `ValidateSubscriptionInputs`.
pub mod Unique
use sbox_manager.Common.{
  Bool, List, Option, String, [], at_index, get, if◌then◌else◌, is_blank, none, some, suc, ℕ, ◌&&◌,
  ◌++◌, ◌<>◌, ◌==◌, ◌||◌, ◌∷◌,
}
use sbox_manager.Domain.Issues.{ValidationErrors, add, each}
use sbox_manager.Domain.Models.{SubscriptionInput, SubscriptionNode}
use sbox_manager.Domain.Nodes.{validate_input}
use sbox_manager.Domain.Platform.{Platform}

-- The three maps of `validateSubscriptionMergeRules`. The nested map by user and remark is one map
-- whose keys are pairs.
pub record Seen : Type 0 where
  pub ids : List (String × String)
  pub tags : List (String × String)
  pub remarks : List ((String × String) × String)

abbrev pub seen_none : Seen
seen_none = record { ids = []; tags = []; remarks = [] }

abbrev pub pair_eq : String × String → String × String → Bool
pair_eq (a, b) (c, d) = a == c && b == d

-- A non-blank key that is there already is an issue; one that is not is put in.
duplicate : String → String → Bool → Option String → ValidationErrors
duplicate path format blank none = []
duplicate path format blank (some previous) = if blank then [] else add path format (previous ∷ [])

note {ℓ} : {K : Type ℓ} → K → String → Bool → Option String → List (K × String) → List (K × String)
note key path blank none m = if blank then m else (key, path) ∷ m
note key path blank (some previous) m = m

-- One round of the inner loop: its issues and the maps after it.
unfoldable pub merge_node : String → Seen → SubscriptionNode → ValidationErrors × Seen
unfolding duplicate note
merge_node path seen node =
    let id = get ◌==◌ node.id seen.ids in
    let tag = get ◌==◌ node.tag seen.tags in
    let remark = get pair_eq (node.user, node.remark) seen.remarks in
    let skip = is_blank node.user || is_blank node.remark in
    (
      duplicate (path <> ".id") "duplicate node id, already used at %s" (is_blank node.id) id
          ++ duplicate (path <> ".tag") "duplicate node tag, already used at %s" (is_blank node.tag)
              tag
          ++ duplicate (path <> ".remark")
              "duplicate subscription remark under the same user, already used at %s" skip remark,
      record {
        ids = note node.id path (is_blank node.id) id seen.ids;
        tags = note node.tag path (is_blank node.tag) tag seen.tags;
        remarks = note (node.user, node.remark) path skip remark seen.remarks;
      },
    )

unfoldable pub merge_nodes : ℕ → ℕ → Seen → List SubscriptionNode → ValidationErrors × Seen
merge_nodes input index seen [] = ([], seen)
merge_nodes input index seen (node ∷ rest) =
    let (issues, seen') =
      merge_node (at_index (at_index "inputs" input <> ".nodes") index) seen node in
    let (later, final) = merge_nodes input (suc index) seen' rest in (issues ++ later, final)

abbrev pub nodes_of : SubscriptionInput → List SubscriptionNode
nodes_of input = elim input.nodes [ none ↦ [] | some nodes ↦ nodes ]

unfoldable pub merge_inputs : ℕ → Seen → List SubscriptionInput → ValidationErrors × Seen
merge_inputs index seen [] = ([], seen)
merge_inputs index seen (input ∷ rest) =
    let (issues, seen') = merge_nodes index 0 seen (nodes_of input) in
    let (later, final) = merge_inputs (suc index) seen' rest in (issues ++ later, final)

-- `validateSubscriptionMergeRules`.
unfoldable pub validate_merge_rules : List SubscriptionInput → ValidationErrors
unfolding merge_inputs merge_nodes merge_node
validate_merge_rules inputs = (merge_inputs 0 seen_none inputs).0

module _ (platform : Platform) where
  unfoldable pub validate_subscription_input : SubscriptionInput → ValidationErrors
  validate_subscription_input input =
      validate_input platform "input" input ++ validate_merge_rules (input ∷ [])

  unfoldable pub validate_subscription_inputs : List SubscriptionInput → ValidationErrors
  validate_subscription_inputs inputs =
      each (λ index. validate_input platform (at_index "inputs" index)) 0 inputs
      ++ validate_merge_rules inputs
