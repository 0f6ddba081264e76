-- ===== src/Generator/Inputs/Secrets.antt =====
-- internal/generator/singbox/subscription.go: which nodes are made, and what they do not carry.
use sbox_manager.Common.{
  >>=-eq-success, All, Bool-cases, List, String, [], arith, false, inl, inr, keep, map, pos, refl,
  some, success, success_injective, traverse, ◌<>◌, ◌==◌, ◌∷◌, ◌≡◌,
}
use sbox_manager.Domain.Models.{
  GlobalConfig, Inbound, InboundUser, Instance, SubscriptionInput, SubscriptionNode,
}
use sbox_manager.Generator.Inputs.{
  build_nodes, build_subscription_input, build_subscription_node, common_node, find_inbound_user,
  first_text, node_of,
}

-- A node for a client: an address, and no file, private key or handshake of the server.
pub record IsPublic (n : SubscriptionNode) : Type 0 where
  pub addressed : (n.server == "") ≡ false
  pub certificate : n.tls.certificate_path ≡ ""
  pub key : n.tls.key_path ≡ ""
  pub private_key : n.tls.reality.private_key ≡ ""
  pub handshake : n.tls.reality.handshake_server ≡ ""
  pub handshake_port : n.tls.reality.handshake_server_port ≡ pos 0
  pub time_difference : n.tls.reality.max_time_difference ≡ ""

abbrev pub node_id : Instance → Inbound → String
node_id i inbound = i.name <> ":" <> inbound.subscription.user <> ":" <> inbound.name

-- What the switch on the protocol leaves of the common node.
node_of-keeps :
    (inbound : Inbound) (user : InboundUser) (node n : SubscriptionNode)
    → node_of inbound user node ≡ success n
    → (n.id ≡ node.id)
      × (n.server ≡ node.server)
      × (n.tls.certificate_path ≡ node.tls.certificate_path)
      × (n.tls.key_path ≡ node.tls.key_path)
      × (n.tls.reality ≡ node.tls.reality)
unfolding node_of
node_of-keeps inbound user node n h = ground arith

build_subscription_node-IsPublic :
    (global : GlobalConfig) (i : Instance) (inbound : Inbound) (n : SubscriptionNode)
    → build_subscription_node global i inbound ≡ success n
    → (n.id ≡ node_id i inbound) × IsPublic n
unfolding build_subscription_node
build_subscription_node-IsPublic global i inbound n h =
    let server = first_text inbound.subscription.server global.external_host in
    let user = find_inbound_user inbound inbound.subscription.user in
    elim (Bool-cases (server == "")) [
      | inl e ↦ let bad = rw e at h in cc
      | inr e ↦
          let made : node_of inbound user (common_node server i inbound user) ≡ success n =
            rw e at h in
          let (id, from, certificate, key, reality) = node_of-keeps inbound user _ n made in
          (
            id,
            record {
              addressed = rw from e;
              certificate = certificate;
              key = key;
              private_key = rw reality refl;
              handshake = rw reality refl;
              handshake_port = rw reality refl;
              time_difference = rw reality refl;
            },
          )
    ]

nodes-IsPublic :
    (global : GlobalConfig) (i : Instance) (inbounds : List Inbound) (ns : List SubscriptionNode)
    → traverse (build_subscription_node global i) inbounds ≡ success ns
    → (map (λ (n : SubscriptionNode). n.id) ns ≡ map (node_id i) inbounds) × All IsPublic ns
nodes-IsPublic global i [] ns h = rw (← success_injective h) (refl, tt)
nodes-IsPublic global i (x ∷ xs) ns h =
    let (n, made, rest) = >>=-eq-success (build_subscription_node global i x) _ h in
    let (more, rest_made, e) =
      >>=-eq-success (traverse (build_subscription_node global i) xs) _ rest in
    let (id, is_public) = build_subscription_node-IsPublic global i x n made in
    let (ids, all_public) = nodes-IsPublic global i xs more rest_made in
    rw (← success_injective e) (cc (id, ids), (is_public, all_public))

-- The input that is built for an instance has the instance's name as its source and one node for each
-- inbound whose subscription is enabled, in their order, with the id instance:user:inbound; and each
-- node has a server, and no certificate or key path, private key, handshake server, handshake port
-- or time difference.
pub build_subscription_input-IsPublic :
    (global : GlobalConfig) (i : Instance) (at' : String) (input : SubscriptionInput)
    → build_subscription_input global i at' ≡ success input
    → (input.source ≡ i.name)
      × (ns : List SubscriptionNode) × (input.nodes ≡ some ns)
      × (map (λ (n : SubscriptionNode). n.id) ns
          ≡ map (node_id i) (keep (λ (x : Inbound). x.subscription.enabled) i.inbounds))
      × All IsPublic ns
unfolding build_subscription_input build_nodes
build_subscription_input-IsPublic global i at' input h =
    let (ns, made, e) = >>=-eq-success (build_nodes global i i.inbounds) _ h in
    let (ids, all_public) = nodes-IsPublic global i _ ns made in
    rw (← success_injective e) (refl, ns, refl, ids, all_public)
