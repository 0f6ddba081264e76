-- ===== src/Domain/Nodes.antt =====
-- internal/domain/validation.go: one subscription input and its nodes.
use sbox_manager.Common.{
  Bool, String, [], at_index, eqb_ℤ, if◌then◌else◌, is_blank, is_empty, none, not, pos, some, ◌&&◌,
  ◌++◌, ◌<>◌, ◌==◌, ◌||◌, ◌∷◌,
}
use sbox_manager.Domain.Checks.{
  add_error, allowed_value, is_region, validate_external_host, validate_port, validate_safe_name,
}
use sbox_manager.Domain.Defaults.{default_version}
use sbox_manager.Domain.Issues.{ValidationErrors, add, add_if, each}
use sbox_manager.Domain.Models.{SubscriptionInput, SubscriptionNode}
use sbox_manager.Domain.Platform.{Platform}
use sbox_manager.Domain.Protocols.{
  required_uuid, validate_subscription_auth, validate_transport_config, validate_vmess_network,
}

vmess_node : String → SubscriptionNode → ValidationErrors
vmess_node path node =
    required_uuid (path <> ".uuid") node.uuid "vmess node requires uuid"
    ++ validate_vmess_network (path <> ".network") node.network
    ++ validate_transport_config (path <> ".transport") node.transport
    ++ add_if (not (is_blank node.flow)) (path <> ".flow") "vmess node does not support flow" []

vless_node : String → SubscriptionNode → ValidationErrors
vless_node path node =
    required_uuid (path <> ".uuid") node.uuid "vless node requires uuid"
    ++ add_if (not (is_blank node.network)) (path <> ".network")
        "vless node does not support network" []
    ++ validate_transport_config (path <> ".transport") node.transport
    ++ add_if (not (is_blank node.flow) && not (allowed_value node.flow ("xtls-rprx-vision" ∷ [])))
        (path <> ".flow") "unsupported vless flow %q" (node.flow ∷ [])
    ++ add_if (not (eqb_ℤ node.alter_id (pos 0))) (path <> ".alter_id")
        "vless node does not support alter_id" []

-- The `switch` on the protocol of a node.
by_protocol : String → SubscriptionNode → ValidationErrors
unfolding vmess_node vless_node
by_protocol path node =
    let protocol = node.protocol in
    if protocol == "vmess"
    then vmess_node path node
    else if protocol == "vless"
    then vless_node path node
    else if protocol == "anytls"
    then add_if (is_blank node.password) (path <> ".password") "anytls node requires password" []
      ++ add_if (not node.tls.enabled) (path <> ".tls.enabled")
          "anytls node requires TLS to be enabled" []
    else if protocol == "shadowsocks"
    then add_if (is_blank node.method) (path <> ".method") "shadowsocks node requires method" []
      ++ add_if (is_blank node.password) (path <> ".password") "shadowsocks node requires password"
          []
    else if protocol == "socks5" || protocol == "http"
    then validate_subscription_auth (path <> ".auth") node.auth
    else if protocol == "sing-box"
    then add_if (is_empty node.native) (path <> ".native") "sing-box node requires native" []
    else []

abbrev pub is_protocol : String → Bool
is_protocol protocol =
    allowed_value protocol
      ("vmess" ∷ "vless" ∷ "anytls" ∷ "shadowsocks" ∷ "socks5" ∷ "http" ∷ "sing-box" ∷ [])

-- A required text that has to be a safe basename too.
unfoldable pub required_safe_name : String → String → ValidationErrors
required_safe_name path value =
    if is_blank value then add path "cannot be empty" [] else validate_safe_name path value

unfoldable pub validate_subscription_node : String → String → SubscriptionNode → ValidationErrors
unfolding by_protocol required_safe_name
validate_subscription_node path external_host node =
    add_if (is_blank node.id) (path <> ".id") "cannot be empty" []
    ++ required_safe_name (path <> ".user") node.user
    ++ (if not (is_protocol node.protocol)
        then add (path <> ".protocol") "unsupported protocol %q" (node.protocol ∷ [])
        else add_if (is_blank node.server && is_blank external_host) (path <> ".server")
            "file-level external_host cannot be empty when server is empty" []
          ++ (if is_blank node.server
              then []
              else add_error (path <> ".server") (validate_external_host node.server))
          ++ validate_port (path <> ".port") node.port
          ++ required_safe_name (path <> ".tag") node.tag
          ++ add_if (is_blank node.remark) (path <> ".remark") "cannot be empty" []
          ++ add_if (not (node.region == "") && not (is_region node.region)) (path <> ".region")
              "must be a two-letter uppercase region code" []
          ++ by_protocol path node)

module _ (platform : Platform) where
  -- `validateSubscriptionInput`.
  unfoldable pub validate_input : String → SubscriptionInput → ValidationErrors
  unfolding required_safe_name
  validate_input path input =
      add_if (not (input.input_schema == "sbox.subscription-input")) (path <> ".input_schema")
        "must be sbox.subscription-input" []
      ++ add_if (not (eqb_ℤ input.input_version default_version)) (path <> ".input_version")
          "must be 1" []
      ++ required_safe_name (path <> ".source") input.source
      ++ add_if (not (platform.is_rfc3339 input.generated_at)) (path <> ".generated_at")
          "must be an RFC3339 timestamp" []
      ++ add_error (path <> ".external_host") (validate_external_host input.external_host)
      ++ elim input.nodes [
        | none ↦ add (path <> ".nodes") "cannot be empty" []
        | some nodes ↦
            each
              (λ index.
                validate_subscription_node (at_index (path <> ".nodes") index) input.external_host)
              0 nodes
      ]
