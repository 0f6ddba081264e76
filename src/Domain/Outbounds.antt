-- ===== src/Domain/Outbounds.antt =====
-- internal/domain/validation.go: outbounds.
pub mod Accepted
-- `parseOutboundRef`: the text before the last dot and behind it.
use sbox_manager.Common.{
  Bool, List, Option, String, [], at_index, eqb_ℤ, has, if◌then◌else◌, is_blank, is_none, map, none,
  not, pos, some, suc, trim_space, ℕ, ◌&&◌, ◌++◌, ◌<>◌, ◌==◌, ◌||◌, ◌∷◌,
}
use sbox_manager.Domain.Checks.{allowed_value, validate_port, validate_safe_name}
use sbox_manager.Domain.Issues.{ValidationErrors, add, add_if}
use sbox_manager.Domain.Models.{AuthConfig, Outbound}
use sbox_manager.Domain.Protocols.{
  password_fields, validate_outbound_tls, validate_transport_config, validate_vmess_network,
}
use sbox_manager.Std.Cut.{cut_last}

unfoldable pub parse_outbound_ref : String → Option (String × String)
parse_outbound_ref ref = elim (cut_last b'.' (trim_space ref)) [
  | none ↦ none
  | some (before, behind) ↦
      if before == "" || behind == "" then none else some (trim_space before, trim_space behind)
]

unfoldable pub validate_outbound_ref_format : String → String → ValidationErrors
validate_outbound_ref_format path ref =
    if is_none (parse_outbound_ref (trim_space ref))
    then add path "ref outbound must use <instance>.<inbound> format" []
    else validate_safe_name path (trim_space ref)

unfoldable pub validate_outbound_auth : String → AuthConfig → ValidationErrors
validate_outbound_auth path auth =
    if auth.type == ""
    then []
    else if not (allowed_value auth.type ("noauth" ∷ "password" ∷ []))
    then add (path <> ".auth.type") "unsupported auth type %q" (auth.type ∷ [])
    else if auth.type == "password"
    then password_fields (path <> ".auth") auth
    else []

vmess_outbound : String → Outbound → ValidationErrors
vmess_outbound path outbound =
    add_if (is_blank outbound.uuid) (path <> ".uuid") "vmess outbound requires uuid" []
    ++ validate_vmess_network (path <> ".network") outbound.network
    ++ add_if (not (is_blank outbound.flow)) (path <> ".flow")
        "vmess outbound does not support flow" []
    ++ validate_transport_config (path <> ".transport") outbound.transport

vless_outbound : String → Outbound → ValidationErrors
vless_outbound path outbound =
    add_if (is_blank outbound.uuid) (path <> ".uuid") "vless outbound requires uuid" []
    ++ add_if (not (is_blank outbound.network)) (path <> ".network")
        "vless outbound does not support network" []
    ++ add_if
        (not (is_blank outbound.flow)
          && not (allowed_value outbound.flow ("xtls-rprx-vision" ∷ [])))
        (path <> ".flow") "unsupported vless flow %q" (outbound.flow ∷ [])
    ++ add_if (not (is_blank outbound.flow) && not (is_blank outbound.transport.type))
        (path <> ".flow") "vless flow cannot be used with transport %q"
        (outbound.transport.type ∷ [])
    ++ add_if (not (eqb_ℤ outbound.alter_id (pos 0))) (path <> ".alter_id")
        "vless outbound does not support alter_id" []
    ++ validate_transport_config (path <> ".transport") outbound.transport

shadowsocks_outbound : String → Outbound → ValidationErrors
shadowsocks_outbound path outbound =
    add_if (is_blank outbound.method) (path <> ".method") "shadowsocks outbound requires method" []
    ++ add_if (is_blank outbound.password) (path <> ".password")
        "shadowsocks outbound requires password" []

password_outbound : String → Outbound → ValidationErrors
password_outbound path outbound =
    add_if (is_blank outbound.password) (path <> ".password") "%s outbound requires password"
      (outbound.type ∷ [])
    ++ add_if (outbound.type == "anytls" && not outbound.tls.enabled) (path <> ".tls.enabled")
        "anytls outbound requires TLS to be enabled" []

-- The `switch` on the type of a remote outbound.
by_type : String → Outbound → ValidationErrors
unfolding vmess_outbound vless_outbound shadowsocks_outbound password_outbound
by_type path outbound =
    let type = outbound.type in
    if type == "vmess"
    then vmess_outbound path outbound
    else if type == "vless"
    then vless_outbound path outbound
    else if type == "shadowsocks"
    then shadowsocks_outbound path outbound
    else if type == "trojan" || type == "hysteria2" || type == "anytls"
    then password_outbound path outbound
    else if type == "socks5" || type == "http"
    then validate_outbound_auth path outbound.auth
    else []

unfoldable pub validate_outbound_remote : String → Outbound → ValidationErrors
unfolding by_type
validate_outbound_remote path outbound =
    if outbound.type == "direct" || outbound.type == "block"
    then []
    else if outbound.type == "ref"
    then validate_outbound_ref_format (path <> ".ref") outbound.ref
    else add_if (is_blank outbound.server) (path <> ".server") "%s outbound requires server"
        (outbound.type ∷ [])
      ++ validate_port (path <> ".port") outbound.port
      ++ validate_outbound_tls (path <> ".tls") outbound.tls
      ++ by_type path outbound

abbrev pub is_outbound_type : String → Bool
is_outbound_type type = allowed_value type (
    "direct" ∷ "block" ∷ "ref" ∷ "shadowsocks" ∷ "vmess" ∷ "vless" ∷ "anytls" ∷ "trojan"
    ∷ "hysteria2" ∷ "socks5" ∷ "http" ∷ [])

-- The loop of `validateOutbounds` with the names so far.
unfoldable pub validate_outbounds_from : ℕ → List String → List Outbound → ValidationErrors
validate_outbounds_from index names [] = []
validate_outbounds_from index names (outbound ∷ rest) =
    let path = at_index "outbounds" index in
    validate_safe_name (path <> ".name") outbound.name
    ++ add_if (has names outbound.name) (path <> ".name") "duplicate outbound name" []
    ++ (if not (is_outbound_type outbound.type)
        then add (path <> ".type") "unsupported outbound type %q" (outbound.type ∷ [])
        else validate_outbound_remote path outbound)
    ++ validate_outbounds_from (suc index) (outbound.name ∷ names) rest

-- The issues, and the set of names.
unfoldable pub validate_outbounds : List Outbound → ValidationErrors × List String
unfolding validate_outbounds_from
validate_outbounds outbounds =
    (validate_outbounds_from 0 [] outbounds, map (λ (o : Outbound). o.name) outbounds)
