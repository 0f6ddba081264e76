-- ===== src/Domain/Inbounds.antt =====
-- internal/domain/validation.go: inbounds.
pub mod Accepted
use sbox_manager.Common.{
  Bool, List, String, [], any, at_index, eqb_ℤ, has, if◌then◌else◌, is_blank, is_empty, not, pos,
  suc, ℕ, ◌&&◌, ◌++◌, ◌<>◌, ◌==◌, ◌||◌, ◌∷◌,
}
use sbox_manager.Domain.Checks.{
  allowed_value, is_loopback_host, is_region, validate_host, validate_port, validate_safe_name,
}
use sbox_manager.Domain.Issues.{ValidationErrors, add, add_if, each}
use sbox_manager.Domain.Models.{GlobalConfig, Inbound, InboundUser}
use sbox_manager.Domain.Protocols.{
  inbound_supports_transport, password_fields, required_uuid, validate_inbound_tls,
  validate_transport_config,
}

vmess_user : String → InboundUser → ValidationErrors
vmess_user path user =
    validate_safe_name (path <> ".name") user.name
    ++ required_uuid (path <> ".uuid") user.uuid "vmess user requires uuid"
    ++ add_if (not (is_blank user.flow)) (path <> ".flow") "vmess user does not support flow" []

vless_user : String → Inbound → InboundUser → ValidationErrors
vless_user path inbound user =
    validate_safe_name (path <> ".name") user.name
    ++ required_uuid (path <> ".uuid") user.uuid "vless user requires uuid"
    ++ add_if (not (is_blank user.flow) && not (allowed_value user.flow ("xtls-rprx-vision" ∷ [])))
        (path <> ".flow") "unsupported vless flow %q" (user.flow ∷ [])
    ++ add_if (not (is_blank user.flow) && not (is_blank inbound.transport.type)) (path <> ".flow")
        "vless flow cannot be used with transport %q" (inbound.transport.type ∷ [])
    ++ add_if (not (eqb_ℤ user.alter_id (pos 0))) (path <> ".alter_id")
        "vless user does not support alter_id" []

anytls_user : String → InboundUser → ValidationErrors
anytls_user path user =
    validate_safe_name (path <> ".name") user.name
    ++ add_if (is_blank user.password) (path <> ".password") "anytls user requires password" []

shadowsocks_user : String → Inbound → InboundUser → ValidationErrors
shadowsocks_user path inbound user =
    validate_safe_name (path <> ".name") user.name
    ++ add_if (is_blank user.password) (path <> ".password") "shadowsocks user requires password" []
    ++ add_if (is_blank user.method && is_blank inbound.method) (path <> ".method")
        "shadowsocks user requires method or inherited inbound method" []

-- At least one user, and the checks of each.
all_users : String → Inbound → String → (String → InboundUser → ValidationErrors) → ValidationErrors
all_users path inbound missing check =
    add_if (is_empty inbound.users) (path <> ".users") missing []
    ++ each (λ index user. check (at_index (path <> ".users") index) user) 0 inbound.users

unfoldable pub validate_inbound_users : String → Inbound → ValidationErrors
unfolding vmess_user vless_user anytls_user shadowsocks_user all_users
validate_inbound_users path inbound =
    if inbound.type == "vmess"
    then all_users path inbound "vmess inbound requires users" vmess_user
    else if inbound.type == "vless"
    then all_users path inbound "vless inbound requires users" (λ p. vless_user p inbound)
    else if inbound.type == "anytls"
    then all_users path inbound "anytls inbound requires users" anytls_user
    else if inbound.type == "shadowsocks"
    then all_users path inbound "shadowsocks inbound requires users"
        (λ p. shadowsocks_user p inbound)
    else []

unfoldable pub validate_inbound_auth : GlobalConfig → String → Inbound → ValidationErrors
validate_inbound_auth global path inbound =
    if not (inbound.type == "socks5") && not (inbound.type == "http")
    then []
    else if not (allowed_value inbound.auth.type ("noauth" ∷ "password" ∷ []))
    then add (path <> ".auth.type") "unsupported auth type %q" (inbound.auth.type ∷ [])
    else if inbound.auth.type == "password"
    then password_fields (path <> ".auth") inbound.auth
    else add_if
        (global.security.require_auth_for_public_socks_http
          && not (is_loopback_host inbound.listen))
        (path <> ".auth") "public socks/http inbound requires password auth" []

-- `collectInboundAuthWarnings`.
unfoldable pub inbound_auth_warnings : GlobalConfig → String → Inbound → ValidationErrors
inbound_auth_warnings global path inbound =
    if not (inbound.type == "socks5") && not (inbound.type == "http")
    then []
    else if not (inbound.auth.type == "noauth")
    then []
    else if global.security.require_auth_for_public_socks_http || is_loopback_host inbound.listen
    then []
    else add (path <> ".auth")
        "public socks/http inbound uses noauth; set auth.type=password to restrict access" []

unfoldable pub validate_inbound_subscription : String → Inbound → ValidationErrors
validate_inbound_subscription path inbound =
    let subscription = inbound.subscription in
    if not subscription.enabled
    then []
    else add_if (is_blank subscription.user) (path <> ".subscription.user")
        "subscription requires user when enabled" []
      ++ add_if (is_blank subscription.remark) (path <> ".subscription.remark")
          "subscription requires remark when enabled" []
      ++ add_if (not (subscription.region == "") && not (is_region subscription.region))
          (path <> ".subscription.region") "must be a two-letter uppercase region code" []
      ++ (if subscription.user == "" || is_empty inbound.users
          then []
          else if any (λ (user : InboundUser). user.name == subscription.user) inbound.users
          then []
          else add (path <> ".subscription.user") "referenced user %q does not exist"
              (subscription.user ∷ []))

-- The body of the loop behind the type check; `tags` holds the tags so far.
unfoldable pub validate_inbound : GlobalConfig → String → List String → Inbound → ValidationErrors
validate_inbound global path tags inbound =
    (if inbound.tag == ""
      then []
      else validate_safe_name (path <> ".tag") inbound.tag
        ++ add_if (has tags inbound.tag) (path <> ".tag") "duplicate inbound tag" [])
    ++ validate_host (path <> ".listen") inbound.listen
    ++ validate_port (path <> ".port") inbound.port
    ++ add_if (inbound.type == "anytls" && not inbound.tls.enabled) (path <> ".tls.enabled")
        "anytls inbound requires TLS to be enabled" []
    ++ validate_inbound_tls (path <> ".tls") inbound.tls
    ++ (if inbound_supports_transport inbound.type
        then validate_transport_config (path <> ".transport") inbound.transport
        else [])
    ++ validate_inbound_auth global path inbound
    ++ validate_inbound_users path inbound
    ++ validate_inbound_subscription path inbound

abbrev pub is_inbound_type : String → Bool
is_inbound_type type =
    allowed_value type ("vmess" ∷ "vless" ∷ "anytls" ∷ "shadowsocks" ∷ "socks5" ∷ "http" ∷ [])

-- The loop of `validateInbounds` with its two sets, the names and the tags.
unfoldable pub validate_inbounds_from :
    GlobalConfig → ℕ → List String → List String → List Inbound → ValidationErrors
validate_inbounds_from global index names tags [] = []
validate_inbounds_from global index names tags (inbound ∷ rest) =
    let path = at_index "inbounds" index in
    let supported = is_inbound_type inbound.type in
    let later =
      validate_inbounds_from global (suc index) (inbound.name ∷ names)
        (if supported && not (inbound.tag == "") then inbound.tag ∷ tags else tags) rest in
    validate_safe_name (path <> ".name") inbound.name
    ++ add_if (has names inbound.name) (path <> ".name") "duplicate inbound name" []
    ++ (if not supported
        then add (path <> ".type") "unsupported inbound type %q" (inbound.type ∷ [])
        else validate_inbound global path tags inbound)
    ++ later

unfoldable pub validate_inbounds : GlobalConfig → List Inbound → ValidationErrors
unfolding validate_inbounds_from
validate_inbounds global [] = add "inbounds" "at least one inbound is required" []
validate_inbounds global (inbound ∷ rest) = validate_inbounds_from global 0 [] [] (inbound ∷ rest)
