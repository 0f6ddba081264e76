-- ===== src/Domain/Examples.antt =====
-- Configurations to which the theorems of internal/domain apply.
use sbox_manager.Common.{
  All, Fresh, List, Option, String, [], at_index, codes, contains, contains_code, eqb_ℤ, false,
  has_prefix, is_blank, itoa, length, none, not, pos, refl, some, strip_prefix, trim_left,
  trim_right, trim_space, true, ℤ, ◌<>◌, ◌==◌, ◌↔◌, ◌∷◌, ◌≡◌, ◌≤◌,
}
use sbox_manager.Domain.Checks.{
  is_loopback_host, is_region, is_safe_name, is_uuid, matches_safe_name, path_within,
  split_listen_address, validate_api_config, validate_external_host, validate_host, validate_port,
  validate_port_range, validate_safe_name,
}
use sbox_manager.Domain.Checks.Names.{is_safe_name_lem}
use sbox_manager.Domain.Defaults.{
  apply_group_defaults, apply_inbound_defaults, apply_instance_defaults, default_global_config,
  default_traffic_defaults_config,
}
use sbox_manager.Domain.Globals.{
  validate_global_config, validate_paths, validate_port_ranges, validate_traffic_defaults,
}
use sbox_manager.Domain.Inbounds.{
  inbound_auth_warnings, validate_inbound, validate_inbound_auth, validate_inbound_subscription,
  validate_inbound_users, validate_inbounds, validate_inbounds_from,
}
use sbox_manager.Domain.Inbounds.Accepted.{accepted_auth, exposed, exposed_reported}
use sbox_manager.Domain.Instances.{
  add_port_use, validate_config_set, validate_instance, validate_instances, validate_port_conflicts,
}
use sbox_manager.Domain.Instances.Accepted.{IsClosed, validate_instance-IsClosed}
use sbox_manager.Domain.Instances.Defaulted.{validate_instance_again}
use sbox_manager.Domain.Instances.Ports.{ports_in_use, validate_port_conflicts-eq-nil_iff}
use sbox_manager.Domain.Instances.Whole.{validate_config_set-eq-nil}
use sbox_manager.Domain.Issues.{is_ok}
use sbox_manager.Domain.Merge.{pair_eq, validate_merge_rules}
use sbox_manager.Domain.Merge.Unique.{
  all_nodes, ids_of, is_new, remarks_of, tags_of, validate_merge_rules-eq-nil_iff,
}
use sbox_manager.Domain.Models.{
  ApiConfig, AuthConfig, Group, Inbound, Instance, Outbound, SubscriptionInput, SubscriptionNode,
  TlsConfig, TransportConfig,
}
use sbox_manager.Domain.Outbounds.{
  parse_outbound_ref, validate_outbound_auth, validate_outbound_ref_format,
  validate_outbound_remote, validate_outbounds, validate_outbounds_from,
}
use sbox_manager.Domain.Platform.{Platform}
use sbox_manager.Domain.Protocols.{
  password_fields, validate_inbound_tls, validate_outbound_tls, validate_tls_reality,
  validate_transport_config,
}
use sbox_manager.Domain.Refs.{
  Target, by_name_from, find_inbound_by_name, resolve_outbound_ref_target, validate_outbound_refs,
  validate_ref,
}
use sbox_manager.Domain.Refs.Longest.{
  In, IsTarget, Names, found_length, resolve_outbound_ref_target_lem,
}
use sbox_manager.Domain.Refs.Resolved.{RefsOk}
use sbox_manager.Domain.Routing.{
  missing_members, route_target, validate_group, validate_groups, validate_groups_from,
  validate_instance_traffic, validate_route, validate_rule,
}
use sbox_manager.Std.Cut.{cut_first, cut_last, split}
use sbox_manager.Std.FilePaths.{clean, is_abs, rel}
use sbox_manager.Std.Net.{is_loopback_ip, parse_ip, split_host_port}
use sbox_manager.Std.Numbers.{atoi, decimal}

abbrev no_auth : AuthConfig
no_auth = record { type = "noauth"; username = ""; password = "" }

abbrev no_tls : TlsConfig
no_tls = record {
  enabled = false;
  server_name = "";
  insecure = false;
  alpn = [];
  certificate_path = "";
  key_path = "";
  reality = record {
    enabled = false;
    handshake_server = "";
    handshake_server_port = pos 0;
    private_key = "";
    public_key = "";
    short_id = "";
    short_ids = [];
    max_time_difference = "";
  };
  utls = record { enabled = false; fingerprint = "" };
}

abbrev no_transport : TransportConfig
no_transport = record {
  type = "";
  host = "";
  hosts = [];
  path = "";
  method = "";
  headers = [];
  idle_timeout = "";
  ping_timeout = "";
  max_early_data = pos 0;
  early_data_header_name = "";
  service_name = "";
  permit_without_stream = false;
}

abbrev pub socks : String → String → ℤ → Inbound
socks name listen port = record {
  name = name;
  type = "socks5";
  listen = listen;
  port = port;
  tag = "";
  udp = false;
  method = "";
  tls = no_tls;
  transport = no_transport;
  auth = no_auth;
  users = [];
  subscription = record { enabled = false; user = ""; server = ""; remark = ""; region = "" };
}

abbrev pub direct : Outbound
direct = record {
  name = "out";
  type = "direct";
  ref = "";
  server = "";
  port = pos 0;
  uuid = "";
  password = "";
  method = "";
  security = "";
  flow = "";
  alter_id = pos 0;
  auth = no_auth;
  tls = no_tls;
  network = "";
  transport = no_transport;
}

abbrev pub fastest : Group
fastest = record {
  name = "fast";
  type = "urltest";
  outbounds = "out" ∷ [];
  url = "";
  interval = pos 0;
  tolerance = pos 50;
}

abbrev api_at : String → ApiConfig
api_at listen = record { enabled = true; listen = listen; token = "" }

abbrev pub edge : String → ℤ → String → Instance
edge name port api = record {
  name = name;
  enabled = true;
  role = "edge";
  labels = none;
  api = api_at api;
  inbounds = socks "in" "127.0.0.1" port ∷ [];
  outbounds = direct ∷ [];
  groups = fastest ∷ [];
  route = record {
    default = "fast";
    rules = (record { type = "domain_suffix"; values = "example.com" ∷ []; outbound = "out" }) ∷ [];
  };
  traffic = record { enabled = true; scopes = none };
}

-- The API of the second instance listens where the first has its inbound.
abbrev clashing : List Instance
clashing = edge "a" (pos 24000) "127.0.0.1:10085" ∷ edge "b" (pos 24001) "127.0.0.1:24000" ∷ []

validate_port_conflicts-eq-nil_iff_example :
    (validate_port_conflicts clashing ≡ []) ↔ Fresh eqb_ℤ (ports_in_use clashing) (λ port. false)
validate_port_conflicts-eq-nil_iff_example = validate_port_conflicts-eq-nil_iff clashing

clashing_reported : length (validate_port_conflicts clashing) ≡ 1
unfolding validate_port_conflicts split_listen_address add_port_use split_host_port cut_last
    contains_code is_blank atoi
clashing_reported = refl

pub edge_accepted :
    (validate_instance default_global_config (edge "a" (pos 24000) "127.0.0.1:10085")).0 ≡ []
unfolding validate_outbound_remote validate_instance validate_safe_name is_safe_name
    apply_instance_defaults contains validate_api_config split_listen_address split_host_port
    cut_last contains_code is_blank atoi is_loopback_host is_loopback_ip split validate_inbounds
    apply_inbound_defaults validate_inbound at_index has_prefix itoa strip_prefix trim_left
    trim_right trim_space is_region is_uuid matches_safe_name validate_host validate_port
    apply_group_defaults validate_inbound_auth validate_inbound_subscription validate_inbound_users
    validate_inbounds_from validate_outbounds validate_outbounds_from password_fields
    validate_inbound_tls validate_outbound_tls validate_tls_reality validate_transport_config
    missing_members route_target validate_group validate_groups validate_groups_from
    validate_instance_traffic validate_route validate_rule cut_first parse_ip decimal
    default_global_config
edge_accepted = refl

validate_instance-IsClosed_example :
    IsClosed (validate_instance default_global_config (edge "a" (pos 24000) "127.0.0.1:10085")).1
validate_instance-IsClosed_example =
    validate_instance-IsClosed default_global_config (edge "a" (pos 24000) "127.0.0.1:10085")
      edge_accepted

validate_instance_again_example :
    validate_instance default_global_config
      (validate_instance default_global_config (edge "a" (pos 24000) "127.0.0.1:10085")).1
    ≡ validate_instance default_global_config (edge "a" (pos 24000) "127.0.0.1:10085")
validate_instance_again_example =
    validate_instance_again default_global_config (edge "a" (pos 24000) "127.0.0.1:10085")

-- Safe names.
node_is_safe : is_safe_name "node-1.tokyo_a" ≡ true
unfolding is_safe_name matches_safe_name contains has_prefix strip_prefix
node_is_safe = refl

is_safe_name_lem_example :
    (contains_code b'/' "node-1.tokyo_a" ≡ false)
    × (contains_code b'\\' "node-1.tokyo_a" ≡ false)
    × (contains_code 0 "node-1.tokyo_a" ≡ false)
    × (("node-1.tokyo_a" == ".") ≡ false)
    × (("node-1.tokyo_a" == "..") ≡ false)
    × (contains "node-1.tokyo_a" ".." ≡ false)
is_safe_name_lem_example = is_safe_name_lem "node-1.tokyo_a" node_is_safe

-- A public listener without a password.
abbrev public : Inbound
public = socks "in" "0.0.0.0" (pos 24000)

public_is_exposed : exposed public ≡ true
unfolding contains_code is_loopback_host is_loopback_ip parse_ip split trim_space trim_left
    trim_right decimal cut_first is_blank
public_is_exposed = refl

exposed_reported_example :
    (is_ok (validate_inbound_auth default_global_config "in" public)
      ≡ not default_global_config.security.require_auth_for_public_socks_http)
    × (is_ok (inbound_auth_warnings default_global_config "in" public)
        ≡ default_global_config.security.require_auth_for_public_socks_http)
exposed_reported_example = exposed_reported default_global_config "in" public public_is_exposed

abbrev guarded : Inbound
guarded = record public { auth = record { type = "password"; username = "u"; password = "p" } }

guarded_accepted : validate_inbound_auth default_global_config "in" guarded ≡ []
unfolding validate_inbound_auth password_fields is_blank
guarded_accepted = refl

guarded_far : is_loopback_host guarded.listen ≡ false
unfolding contains_code is_loopback_host is_loopback_ip parse_ip split trim_space trim_left
    trim_right decimal cut_first is_blank
guarded_far = refl

asks_for_auth : default_global_config.security.require_auth_for_public_socks_http ≡ true
unfolding default_global_config
asks_for_auth = refl

accepted_auth_example :
    (guarded.auth.type == "password" ≡ true)
    × (is_blank guarded.auth.username ≡ false)
    × (is_blank guarded.auth.password ≡ false)
accepted_auth_example =
    accepted_auth default_global_config "in" guarded guarded_accepted refl asks_for_auth guarded_far

-- A ref to an instance whose name holds the name of another.
abbrev dotted : List (String × Instance)
dotted =
    ("a", edge "a" (pos 24000) "127.0.0.1:10085")
    ∷ ("a.b", edge "a.b" (pos 24001) "127.0.0.1:10086")
    ∷ []

resolve_outbound_ref_target_lem_example :
    ((t : Target)
      → resolve_outbound_ref_target "a.b.in" dotted ≡ some t
      → IsTarget (trim_space "a.b.in") dotted t)
    × ((name : String) (i : Instance) (behind : String)
        → In name i dotted
        → Names (trim_space "a.b.in") name behind
        → length (codes name) ≤ found_length (resolve_outbound_ref_target "a.b.in" dotted))
resolve_outbound_ref_target_lem_example = resolve_outbound_ref_target_lem "a.b.in" dotted

abbrev target_names : Option Target → String
target_names none = ""
target_names (some t) = t.instance_name <> " " <> t.inbound_name

dotted_found : target_names (resolve_outbound_ref_target "a.b.in" dotted) ≡ "a.b in"
unfolding resolve_outbound_ref_target trim_space strip_prefix is_blank trim_left trim_right
dotted_found = refl

-- Two nodes of one user with the same remark.
abbrev pub sample_node : String → SubscriptionNode
sample_node id = record {
  id = id;
  user = "eric";
  protocol = "socks5";
  server = "127.0.0.1";
  port = pos 24000;
  tag = "";
  remark = "tokyo";
  region = "";
  uuid = "";
  network = "";
  security = "";
  flow = "";
  alter_id = pos 0;
  method = "";
  password = "";
  auth = no_auth;
  tls = no_tls;
  transport = no_transport;
  udp = false;
  native = [];
}

abbrev pub sample_input : String → SubscriptionInput
sample_input id = record {
  input_schema = "";
  input_version = pos 1;
  source = "";
  generated_at = "";
  external_host = "";
  nodes = some (sample_node id ∷ []);
}

abbrev two_inputs : List SubscriptionInput
two_inputs = sample_input "n1" ∷ sample_input "n2" ∷ []

validate_merge_rules-eq-nil_iff_example : (validate_merge_rules two_inputs ≡ []) ↔ (
    Fresh ◌==◌ (ids_of (all_nodes two_inputs)) is_new
    × Fresh ◌==◌ (tags_of (all_nodes two_inputs)) is_new
    × Fresh pair_eq (remarks_of (all_nodes two_inputs)) is_new)
validate_merge_rules-eq-nil_iff_example = validate_merge_rules-eq-nil_iff two_inputs

two_inputs_reported : length (validate_merge_rules two_inputs) ≡ 1
unfolding validate_merge_rules is_blank
two_inputs_reported = refl

-- A second instance goes out through the listener of the first.
abbrev linked_out : Outbound
linked_out = record direct { name = "up"; type = "ref"; ref = "a.in" }

abbrev pub linked : List Instance
linked =
    edge "a" (pos 24000) "127.0.0.1:10085"
    ∷ record (edge "b" (pos 24001) "127.0.0.1:10086") { outbounds = direct ∷ linked_out ∷ [] }
    ∷ []

abbrev pub bland : Platform
bland = record { is_rfc3339 = λ s. true; has_location = λ s. true; parse_url = λ s. none }

pub linked_accepted : (validate_config_set bland default_global_config linked).0 ≡ []
unfolding validate_config_set validate_instances validate_global_config validate_external_host
    validate_paths validate_port_ranges validate_port_range validate_traffic_defaults
    validate_outbound_refs validate_ref resolve_outbound_ref_target by_name_from
    find_inbound_by_name parse_outbound_ref validate_port_conflicts add_port_use is_abs clean rel
    path_within default_traffic_defaults_config validate_outbound_ref_format validate_outbound_auth
    validate_outbound_remote validate_instance validate_safe_name is_safe_name
    apply_instance_defaults contains validate_api_config split_listen_address split_host_port
    cut_last contains_code is_blank atoi is_loopback_host is_loopback_ip split validate_inbounds
    apply_inbound_defaults validate_inbound at_index has_prefix itoa strip_prefix trim_left
    trim_right trim_space is_region is_uuid matches_safe_name validate_host validate_port
    apply_group_defaults validate_inbound_auth validate_inbound_subscription validate_inbound_users
    validate_inbounds_from validate_outbounds validate_outbounds_from password_fields
    validate_inbound_tls validate_outbound_tls validate_tls_reality validate_transport_config
    missing_members route_target validate_group validate_groups validate_groups_from
    validate_instance_traffic validate_route validate_rule cut_first parse_ip decimal
    default_global_config
linked_accepted = refl

validate_config_set-eq-nil_example :
    All IsClosed (validate_config_set bland default_global_config linked).1
    × RefsOk (validate_config_set bland default_global_config linked).1
    × Fresh eqb_ℤ
        (ports_in_use (validate_config_set bland default_global_config linked).1)
        (λ port. false)
validate_config_set-eq-nil_example =
    validate_config_set-eq-nil bland default_global_config linked linked_accepted
