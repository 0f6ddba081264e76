-- ===== src/Generator/Inputs.antt =====
-- internal/generator/singbox/subscription.go: subscription inputs. The text of the time is given.
pub mod Secrets
use sbox_manager.Common.{
  Bool, List, Outcome, String, [], failure, false, find_first, if◌then◌else◌, is_empty, keep, none,
  not, pos, some, success, traverse, true, ◌<>◌, ◌==◌, ◌>>=◌, ◌||◌,
}
use sbox_manager.Domain.Models.{
  GlobalConfig, Inbound, InboundUser, Instance, SubscriptionInput, SubscriptionNode, TlsConfig,
}

abbrev no_inbound_user : InboundUser
no_inbound_user = record {
  name = "";
  uuid = "";
  password = "";
  method = "";
  flow = "";
  alter_id = pos 0;
  remark = "";
  tag = "";
}

unfoldable pub find_inbound_user : Inbound → String → InboundUser
find_inbound_user inbound name =
    elim (find_first (λ (u : InboundUser). u.name == name) inbound.users) [
      | none ↦ no_inbound_user
      | some u ↦ u
    ]

-- The TLS of a node: without what only the server may know.
abbrev pub public_tls : TlsConfig → TlsConfig
public_tls tls = record tls {
  certificate_path = "";
  key_path = "";
  reality = record (tls.reality) {
    private_key = "";
    handshake_server = "";
    handshake_server_port = pos 0;
    max_time_difference = "";
  };
  utls =
      if tls.reality.enabled then record { enabled = true; fingerprint = "chrome" } else tls.utls;
}

abbrev pub first_text : String → String → String
first_text a b = if a == "" then b else a

-- The node before its protocol is looked at.
abbrev pub common_node : String → Instance → Inbound → InboundUser → SubscriptionNode
common_node server i inbound user = record {
  id = i.name <> ":" <> inbound.subscription.user <> ":" <> inbound.name;
  user = inbound.subscription.user;
  protocol = inbound.type;
  server = server;
  port = inbound.port;
  tag = if user.tag == "" then i.name <> "-" <> inbound.tag else user.tag;
  remark = first_text (first_text inbound.subscription.remark user.remark) inbound.name;
  region = inbound.subscription.region;
  uuid = "";
  network = "";
  security = "";
  flow = "";
  alter_id = pos 0;
  method = "";
  password = "";
  auth = record { type = ""; username = ""; password = "" };
  tls = public_tls inbound.tls;
  transport = inbound.transport;
  udp = inbound.udp;
  native = [];
}

unfoldable pub node_of : Inbound → InboundUser → SubscriptionNode → Outcome SubscriptionNode
node_of inbound user node =
    if inbound.type == "vmess"
    then success (record node { uuid = user.uuid; alter_id = user.alter_id; network = "tcp" })
    else if inbound.type == "vless"
    then success (record node { uuid = user.uuid; flow = user.flow })
    else if inbound.type == "anytls"
    then success
        (record node { password = user.password; tls = record (node.tls) { enabled = true } })
    else if inbound.type == "shadowsocks"
    then success (record node {
      method = if user.method == "" then inbound.method else user.method;
      password = user.password;
    })
    else if inbound.type == "socks5" || inbound.type == "http"
    then success (record node { auth = inbound.auth })
    else failure "unsupported subscription protocol %q"

unfoldable pub build_subscription_node :
    GlobalConfig → Instance → Inbound → Outcome SubscriptionNode
unfolding node_of
build_subscription_node global i inbound =
    let server = first_text inbound.subscription.server global.external_host in
    let user = find_inbound_user inbound inbound.subscription.user in
    if server == ""
    then failure "instance %s inbound %s missing external_host"
    else node_of inbound user (common_node server i inbound user)

unfoldable pub build_nodes :
    GlobalConfig → Instance → List Inbound → Outcome (List SubscriptionNode)
build_nodes global i inbounds =
    traverse (build_subscription_node global i)
      (keep (λ (x : Inbound). x.subscription.enabled) inbounds)

unfoldable pub build_subscription_input :
    GlobalConfig → Instance → String → Outcome SubscriptionInput
build_subscription_input global i generated_at = do
  nodes ← build_nodes global i i.inbounds
  success (record {
    input_schema = "sbox.subscription-input";
    input_version = pos 1;
    source = i.name;
    generated_at = generated_at;
    external_host = global.external_host;
    nodes = some nodes;
  })

abbrev has_nodes : SubscriptionInput → Bool
has_nodes input = elim input.nodes [ none ↦ false | some nodes ↦ not (is_empty nodes) ]

unfoldable pub build_subscription_inputs :
    GlobalConfig → List Instance → String → Outcome (List SubscriptionInput)
build_subscription_inputs global instances generated_at = do
  inputs ← traverse (λ i. build_subscription_input global i generated_at) instances
  success (keep has_nodes inputs)
