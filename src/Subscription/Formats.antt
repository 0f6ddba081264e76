-- ===== src/Subscription/Formats.antt =====
-- internal/subscription/render.go: the formats and the nodes that each supports.
use sbox_manager.Common.{
  Bool, List, Outcome, String, [], failure, has, if◌then◌else◌, keep, success, ◌==◌, ◌∷◌,
}
use sbox_manager.Domain.Models.{SubscriptionNode}

-- `ParseFormat`: the format has its name.
unfoldable pub parse_format : String → Outcome String
parse_format value =
    if has ("clash" ∷ "premium-clash" ∷ "surge" ∷ "sing-box" ∷ []) value
    then success value
    else failure "unsupported subscription format %q"

abbrev pub surge_supports_node : SubscriptionNode → Bool
surge_supports_node node =
    has ("vmess" ∷ "anytls" ∷ "shadowsocks" ∷ "socks5" ∷ "http" ∷ []) node.protocol

abbrev pub clash_supports_node : SubscriptionNode → Bool
clash_supports_node node = has ("vmess" ∷ "shadowsocks" ∷ "socks5" ∷ "http" ∷ []) node.protocol

-- `FilterNodesForFormat`.
unfoldable pub filter_nodes_for_format : String → List SubscriptionNode → List SubscriptionNode
filter_nodes_for_format format nodes =
    if format == "sing-box"
    then nodes
    else keep (if format == "surge" then surge_supports_node else clash_supports_node) nodes
