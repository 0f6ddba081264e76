-- ===== src/Generator/Converts.antt =====
-- internal/generator/singbox/generator.go: inbounds, outbounds, groups and rules.
use sbox_manager.Common.{
  Bool, List, Outcome, String, [], failure, false, if◌then◌else◌, map, none, not, pos, success,
  true, ◌<>◌, ◌==◌, ◌||◌, ◌∷◌,
}
use sbox_manager.Domain.Checks.{allowed_value}
use sbox_manager.Domain.Models.{Group, Inbound, InboundUser, Outbound, RouteRule}
use sbox_manager.Generator.Model.{
  SingBoxInbound, SingBoxOutbound, SingBoxRule, SingBoxUser, no_outbound, no_user,
}
use sbox_manager.Generator.Transports.{convert_inbound_transport, convert_tls, convert_transport}
use sbox_manager.Std.Numbers.{itoa_ℤ}

-- `singBoxInboundType` and `singBoxOutboundType`.
abbrev pub sing_box_type : String → String
sing_box_type type' = if type' == "socks5" then "socks" else type'

-- `inboundSupportsTransport` and `outboundSupportsTransport`.
abbrev pub supports_transport : String → Bool
supports_transport type' = type' == "vmess" || type' == "vless"

abbrev pub vmess_users : List InboundUser → List SingBoxUser
vmess_users =
    map
      (λ (u : InboundUser). record no_user { name = u.name; uuid = u.uuid; alter_id = u.alter_id })

abbrev pub vless_users : List InboundUser → List SingBoxUser
vless_users =
    map (λ (u : InboundUser). record no_user { name = u.name; uuid = u.uuid; flow = u.flow })

abbrev pub password_users : List InboundUser → List SingBoxUser
password_users = map (λ (u : InboundUser). record no_user { name = u.name; password = u.password })

-- The method of a shadowsocks inbound: its own, or else the first method of a user that has one.
abbrev pub shadowsocks_method : String → List InboundUser → String
shadowsocks_method method [] = method
shadowsocks_method method (u ∷ us) =
    shadowsocks_method (if method == "" then u.method else method) us

abbrev pub only_password : List SingBoxUser → String
only_password [] = ""
only_password (u ∷ []) = u.password
only_password (u ∷ v ∷ us) = ""

unfoldable pub convert_inbound : Inbound → Outcome SingBoxInbound
convert_inbound inbound =
    let plain : SingBoxInbound = record {
      type = sing_box_type inbound.type;
      tag = inbound.tag;
      listen = inbound.listen;
      listen_port = inbound.port;
      tls = convert_tls inbound.tls (inbound.type == "anytls") true;
      transport =
          if supports_transport inbound.type
          then convert_inbound_transport inbound.transport
          else none;
      method = "";
      password = "";
      users = [];
    } in
    if inbound.type == "vmess"
    then success (record plain { users = vmess_users inbound.users })
    else if inbound.type == "vless"
    then success (record plain { users = vless_users inbound.users })
    else if inbound.type == "anytls"
    then success (record plain { users = password_users inbound.users })
    else if inbound.type == "shadowsocks"
    then success (record plain {
      method = shadowsocks_method inbound.method inbound.users;
      users = password_users inbound.users;
      password = only_password (password_users inbound.users);
    })
    else if inbound.type == "socks5" || inbound.type == "http"
    then success (record plain {
      users =
          if inbound.auth.type == "password"
          then record no_user { username = inbound.auth.username; password = inbound.auth.password }
            ∷ []
          else [];
    })
    else failure "unsupported inbound type %q"

abbrev pub is_plain_outbound : String → Bool
is_plain_outbound type' = allowed_value type' (
    "direct" ∷ "block" ∷ "shadowsocks" ∷ "vmess" ∷ "vless" ∷ "anytls" ∷ "trojan" ∷ "hysteria2"
    ∷ "socks5" ∷ "http" ∷ [])

unfoldable pub convert_outbound : Outbound → Outcome SingBoxOutbound
convert_outbound outbound =
    let vmess = outbound.type == "vmess" in
    let auth = outbound.auth.type == "password" in
    if not (is_plain_outbound outbound.type)
    then failure "unsupported outbound type %q"
    else success (record no_outbound {
      type = sing_box_type outbound.type;
      tag = outbound.name;
      server = outbound.server;
      server_port = outbound.port;
      uuid = outbound.uuid;
      password = if auth then outbound.auth.password else outbound.password;
      method = outbound.method;
      security = if vmess then outbound.security else "";
      flow = if outbound.type == "vless" then outbound.flow else "";
      alter_id = if vmess then outbound.alter_id else pos 0;
      username = if auth then outbound.auth.username else "";
      network = if vmess then outbound.network else "";
      tls = convert_tls outbound.tls (outbound.type == "anytls") false;
      transport =
          if supports_transport outbound.type then convert_transport outbound.transport else none;
    })

unfoldable pub convert_group : Group → Outcome SingBoxOutbound
convert_group group =
    let plain : SingBoxOutbound = record no_outbound {
      type = group.type;
      tag = group.name;
      outbounds = group.outbounds;
    } in
    if group.type == "selector"
    then success plain
    else if group.type == "urltest"
    then success (record plain {
      url = group.url;
      interval = itoa_ℤ group.interval <> "s";
      tolerance = group.tolerance;
    })
    else failure "unsupported group type %q"

unfoldable pub convert_route_rule : RouteRule → SingBoxRule
convert_route_rule rule =
    let values = λ (type' : String). if rule.type == type' then rule.values else [] in
    record {
      domain = values "domain";
      domain_suffix = values "domain_suffix";
      domain_keyword = values "domain_keyword";
      ip_cidr = values "ip_cidr";
      geoip = values "geoip";
      geosite = values "geosite";
      outbound = rule.outbound;
    }
