-- ===== src/Subscription/Index/Grouped.antt =====
-- internal/subscription/index.go: the index has every node of the inputs under its user.
use sbox_manager.Common.{
  Bool, Bool-cases, List, String, [], ap, append-nil, append_assoc, eq_iff, eq_refl, get,
  if◌then◌else◌, inl, inr, is_empty, keep, keep-append, map, none, refl, some, success,
  success_injective, sym, ℤ, ◌++◌, ◌==◌, ◌∙◌, ◌∷◌, ◌≡◌,
}
use sbox_manager.Domain.Merge.{nodes_of, validate_subscription_inputs}
use sbox_manager.Domain.Models.{SubscriptionInput, SubscriptionNode}
use sbox_manager.Domain.Platform.{Platform}
use sbox_manager.Subscription.Index.{
  Index, build_index_from_inputs, empty_index, index_inputs, index_nodes, nodes_for_user,
  normalized, push_node,
}

abbrev of_user : String → SubscriptionNode → Bool
of_user user node = node.user == user

-- The nodes under a user.
abbrev filed : String → List (String × List SubscriptionNode) → List SubscriptionNode
filed user m = elim (get ◌==◌ user m) [ none ↦ [] | some nodes ↦ nodes ]

filed-push_node :
    (key user : String) (node : SubscriptionNode) (m : List (String × List SubscriptionNode))
    → filed user (push_node key node m) ≡ filed user m ++ (if key == user then node ∷ [] else [])
unfolding push_node
filed-push_node key user node [] = elim (Bool-cases (key == user)) [
  | inl e ↦ rw e (rw (e, filed) refl)
  | inr e ↦ rw e (rw (e, filed) refl)
]
filed-push_node key user node ((k, nodes) ∷ m) = elim (Bool-cases (k == key)) [
  | inl e ↦
      let same = (eq_iff k key).0 e in
      elim (Bool-cases (key == user)) [
        | inl f ↦ rw (e, f, same) (rw (f, filed) refl)
        | inr f ↦ rw (e, f, same) (rw (f, filed) (sym (append-nil (filed user m))))
      ]
  | inr e ↦ elim (Bool-cases (k == user)) [
    | inl f ↦ elim (Bool-cases (key == user)) [
      | inl g ↦
          let bad = rw ((eq_iff k user).0 f, sym ((eq_iff key user).0 g), eq_refl key) at e in cc
      | inr g ↦ rw (e, g) (rw (f, filed) (sym (append-nil nodes)))
    ]
    | inr f ↦ rw e (rw (f, filed) (filed-push_node key user node m))
  ]
]

-- An index whose users have their nodes, in the order of the nodes.
abbrev pub Grouped : Index → Type 0
Grouped index = (user : String) → filed user index.users ≡ keep (of_user user) index.nodes

Grouped-push_node :
    (index : Index) (node : SubscriptionNode)
    → Grouped index
    → Grouped (record index {
      nodes = index.nodes ++ node ∷ [];
      users = push_node node.user node index.users;
    })
Grouped-push_node index node h user =
    rw
      (
        filed-push_node node.user user node index.users,
        keep-append (of_user user) index.nodes (node ∷ []),
        h user,
      )
      refl

-- The nodes that are indexed, each with its host.
abbrev pub hosted : String → List SubscriptionNode → List SubscriptionNode
hosted host = map (normalized host)

abbrev pub all_hosted : List SubscriptionInput → List SubscriptionNode
all_hosted [] = []
all_hosted (input ∷ rest) = hosted input.external_host (nodes_of input) ++ all_hosted rest

index_nodes-Grouped :
    (host : String) (nodes : List SubscriptionNode) (index : Index)
    → Grouped index
    → Grouped (index_nodes host index nodes)
      × ((index_nodes host index nodes).nodes ≡ index.nodes ++ hosted host nodes)
unfolding index_nodes
index_nodes-Grouped host [] index h = (h, sym (append-nil index.nodes))
index_nodes-Grouped host (node ∷ rest) index h =
    let n = normalized host node in
    let (grouped, all) = index_nodes-Grouped host rest _ (Grouped-push_node index n h) in
    (grouped, all ∙ append_assoc index.nodes (n ∷ []) (hosted host rest))

index_inputs-Grouped :
    (inputs : List SubscriptionInput) (index : Index)
    → Grouped index
    → Grouped (index_inputs index inputs)
      × ((index_inputs index inputs).nodes ≡ index.nodes ++ all_hosted inputs)
unfolding index_inputs
index_inputs-Grouped [] index h = (h, sym (append-nil index.nodes))
index_inputs-Grouped (input ∷ rest) index h =
    let (grouped, all) =
      index_nodes-Grouped input.external_host (nodes_of input)
        (record index { sources = index.sources ++ input.source ∷ [] }) h in
    let (later, final) = index_inputs-Grouped rest _ grouped in
    (later, rw (final, all) (append_assoc index.nodes _ _))

-- The nodes that an index built of inputs gives for a user are the nodes of the inputs that have the
-- user, in their order, each with its own server or else the host of its input.
pub build_index_from_inputs-nodes_for_user :
    (platform : Platform) (now : ℤ) (inputs : List SubscriptionInput) (index : Index)
    (user : String)
    → build_index_from_inputs platform now inputs ≡ success index
    → nodes_for_user (some index) user ≡ keep (of_user user) (all_hosted inputs)
unfolding build_index_from_inputs nodes_for_user
build_index_from_inputs-nodes_for_user platform now inputs index user h =
    elim (Bool-cases (is_empty (validate_subscription_inputs platform inputs))) [
      | inr e ↦ let bad = rw (e, build_index_from_inputs) at h in cc
      | inl e ↦
          let (grouped, all) = index_inputs-Grouped inputs (empty_index now) (λ u. refl) in
          rw (← success_injective (rw (e, build_index_from_inputs) at h))
            (grouped user ∙ ap (keep (of_user user)) all)
    ]
