-- ===== src/Generator/Builds.antt =====
-- internal/generator/singbox/generator.go: `BuildConfigWithInstances`. The two functions on refs that
-- generator.go repeats from validation.go are those of `Domain`.
pub mod Closed
pub mod Succeeds
pub mod Accepted
use sbox_manager.Common.{
  List, Option, Outcome, String, [], failure, if◌then◌else◌, map, nat_eq, none, not, pos, some,
  success, traverse, trim_space, true, ℕ, ◌&&◌, ◌++◌, ◌+◌, ◌==◌, ◌>>=◌, ◌∷◌,
}
use sbox_manager.Domain.Defaults.{apply_instance_defaults, zero_tls, zero_transport}
use sbox_manager.Domain.Models.{GlobalConfig, Inbound, InboundUser, Instance, Outbound}
use sbox_manager.Domain.Outbounds.{parse_outbound_ref}
use sbox_manager.Domain.Refs.{by_name_from, find_inbound_by_name, resolve_outbound_ref_target}
use sbox_manager.Generator.Converts.{
  convert_group, convert_inbound, convert_outbound, convert_route_rule,
}
use sbox_manager.Generator.Model.{SingBoxConfig, SingBoxInbound, SingBoxOutbound, V2RayApi}
use sbox_manager.Std.Net.{parse_ip}

-- `indexInstances`.
abbrev pub index_instances : List Instance → List (String × Instance)
index_instances instances = by_name_from [] (map apply_instance_defaults instances)

any_address : List ℕ → Option String
any_address (a ∷ b ∷ c ∷ d ∷ e ∷ f ∷ g ∷ h ∷ []) =
    if not (nat_eq (a + b + c + d + e + g + h) 0)
    then none
    else if nat_eq f 0xffff
    then some "127.0.0.1"
    else if nat_eq f 0
    then some "::1"
    else none
any_address _ = none

-- `normalizeRefListen`: an address that stands for all becomes the loopback address.
unfoldable pub normalize_ref_listen : String → String
unfolding any_address
normalize_ref_listen listen = elim (parse_ip (trim_space listen)) [
  | none ↦ trim_space listen
  | some groups ↦ elim (any_address groups) [ none ↦ trim_space listen | some a ↦ a ]
]

-- The outbound of a ref whose inbound is found.
abbrev pub through : Outbound → Inbound → Outbound
through outbound inbound = record outbound {
  type = inbound.type;
  ref = "";
  server = normalize_ref_listen inbound.listen;
  port = inbound.port;
  uuid = "";
  password = "";
  method = "";
  security = "";
  flow = "";
  alter_id = pos 0;
  auth = inbound.auth;
  tls = zero_tls;
  network = "";
  transport = zero_transport;
}

unfoldable pub resolve_outbound_ref :
    String → Outbound → List (String × Instance) → Outcome Outbound
resolve_outbound_ref current outbound instances =
    if not (outbound.type == "ref")
    then success outbound
    else elim (parse_outbound_ref outbound.ref) [
      | none ↦ failure "ref outbound %q must use <instance>.<inbound> format"
      | some parsed ↦ elim (resolve_outbound_ref_target outbound.ref instances) [
        | none ↦ failure "ref outbound %q references missing instance %q"
        | some target ↦
            if target.instance_name == current
            then failure "ref outbound %q cannot reference the current instance"
            else elim (find_inbound_by_name target.found.inbounds target.inbound_name) [
              | none ↦ failure "ref outbound %q references missing inbound %q"
              | some inbound ↦
                  if not (inbound.type == "socks5") && not (inbound.type == "http")
                  then failure "ref outbound %q can only reference socks5/http inbound"
                  else success (through outbound inbound)
            ]
      ]
    ]

-- One round of the loop over the outbounds.
unfoldable pub build_outbound :
    String → List (String × Instance) → Outbound → Outcome SingBoxOutbound
build_outbound current instances outbound =
    resolve_outbound_ref current outbound instances >>= λ resolved. convert_outbound resolved

user_names : List InboundUser → List String
user_names [] = []
user_names (u ∷ us) = let rest = user_names us in if not (u.name == "") then u.name ∷ rest else rest

all_user_names : List Inbound → List String
unfolding user_names
all_user_names [] = []
all_user_names (i ∷ is) = user_names i.users ++ all_user_names is

unfoldable pub build_experimental : Instance → V2RayApi
unfolding all_user_names
build_experimental i = record {
  listen = i.api.listen;
  stats = record {
    enabled = true;
    inbounds = map (λ (x : Inbound). x.tag) i.inbounds;
    outbounds = map (λ (o : Outbound). o.name) i.outbounds;
    users = all_user_names i.inbounds;
  };
}

-- The configuration of converted parts.
abbrev pub assemble :
    GlobalConfig
    → Instance
    → List SingBoxInbound
    → List SingBoxOutbound
    → List SingBoxOutbound
    → SingBoxConfig
assemble global i inbounds outbounds groups = record {
  log_level = global.defaults.log_level;
  dns_servers = (record { type = "local"; tag = "local"; server = "" }) ∷ [];
  inbounds = inbounds;
  outbounds = outbounds ++ groups;
  route = record { rules = map convert_route_rule i.route.rules; final_tag = i.route.default };
  experimental = if i.api.enabled then some (build_experimental i) else none;
}

-- `BuildConfigWithInstances` of a completed instance.
unfoldable pub build_completed :
    GlobalConfig → List (String × Instance) → Instance → Outcome SingBoxConfig
build_completed global instances i = do
  inbounds ← traverse convert_inbound i.inbounds
  outbounds ← traverse (build_outbound i.name instances) i.outbounds
  groups ← traverse convert_group i.groups
  success (assemble global i inbounds outbounds groups)

unfoldable pub build_config_with_instances :
    GlobalConfig → List Instance → Instance → Outcome SingBoxConfig
unfolding build_completed
build_config_with_instances global instances given =
    build_completed global (index_instances instances) (apply_instance_defaults given)

-- `BuildConfig`.
unfoldable pub build_config : GlobalConfig → Instance → Outcome SingBoxConfig
build_config global given = build_config_with_instances global (given ∷ []) given
