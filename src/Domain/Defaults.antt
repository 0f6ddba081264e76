-- ===== src/Domain/Defaults.antt =====
-- internal/domain/defaults.go: the default configurations, and the defaults that are put in where
-- a field is empty.
use sbox_manager.Common.{
  List, Option, String, [], eqb_ℤ, false, if◌then◌else◌, map, none, not, pos, some, true, ℤ, ◌&&◌,
  ◌<>◌, ◌==◌, ◌∷◌,
}
use sbox_manager.Domain.Models.{
  GlobalConfig, Group, Inbound, Instance, SubConfig, TlsConfig, TrafficConfig,
  TrafficDefaultsConfig, TransportConfig,
}

abbrev pub default_version : ℤ
default_version = pos 1

unfoldable pub default_traffic_defaults_config : TrafficDefaultsConfig
default_traffic_defaults_config = record {
  enabled = true;
  timezone = "Asia/Shanghai";
  retention_days = pos 180;
  daily_min_retention_days = pos 62;
  monthly_retention_months = pos 36;
  timeout_seconds = pos 30;
  timer = record { hourly = "0 * * * *"; daily = "10 0 * * *"; monthly = "30 0 1 * *" };
}

unfoldable pub default_global_config : GlobalConfig
unfolding default_traffic_defaults_config
default_global_config = record {
  version = default_version;
  external_host = "";
  paths = record {
    bin = "bin";
    rules = "rules";
    instances = "instances";
    runtime = "runtime";
    generated = "runtime/generated";
    publish = "publish";
    traffic = "traffic";
    downloads = "downloads";
    logs = "logs";
  };
  port_ranges = record {
    inbound = record { start = pos 24000; end = pos 24999 };
    local_socks = record { start = pos 17000; end = pos 17999 };
    local_http = record { start = pos 18000; end = pos 18999 };
    api = record { start = pos 10000; end = pos 10999 };
  };
  defaults = record {
    log_level = "info";
    api = record { enabled = true; listen = "127.0.0.1:10085"; token = "" };
    clash_api = record { enabled = false; listen = "127.0.0.1:19090"; token = "" };
    traffic = default_traffic_defaults_config;
  };
  security = record { require_auth_for_public_socks_http = true };
}

unfoldable pub default_traffic_config : TrafficConfig
unfolding default_traffic_defaults_config
default_traffic_config =
    let defaults = default_traffic_defaults_config in
    record {
      version = default_version;
      enabled = defaults.enabled;
      timezone = defaults.timezone;
      retention_days = defaults.retention_days;
      daily_min_retention_days = defaults.daily_min_retention_days;
      monthly_retention_months = defaults.monthly_retention_months;
      timeout_seconds = defaults.timeout_seconds;
      timer = defaults.timer;
    }

abbrev pub all_scopes : List String
all_scopes = "user" ∷ "inbound" ∷ "outbound" ∷ []

unfoldable pub default_instance : GlobalConfig → Instance
default_instance global = record {
  name = "";
  enabled = true;
  role = "edge";
  labels = some [];
  api = global.defaults.api;
  inbounds = [];
  outbounds = [];
  groups = [];
  route = record { default = ""; rules = [] };
  traffic = record { enabled = global.defaults.traffic.enabled; scopes = some all_scopes };
}

unfoldable pub default_sub_config : SubConfig
default_sub_config = record {
  version = default_version;
  listen = "127.0.0.1:3003";
  access = record { type = "none"; token = "" };
  templates_dir = "templates";
  watch_interval = pos 2000000000;
  watch_debounce = pos 300000000;
  managed_config = record {
    enabled = true;
    public_base_url = "";
    interval = pos 86400;
    strict = true;
  };
}

unfoldable pub apply_inbound_defaults : Inbound → Inbound
apply_inbound_defaults inbound = record inbound {
  listen = if inbound.listen == "" then "0.0.0.0" else inbound.listen;
  tag =
      if inbound.tag == "" && not (inbound.name == "") && not (inbound.type == "")
      then inbound.type <> "-" <> inbound.name
      else inbound.tag;
  auth = record (inbound.auth) {
    type = if inbound.auth.type == "" then "noauth" else inbound.auth.type;
  };
}

unfoldable pub apply_group_defaults : Group → Group
apply_group_defaults group =
    if group.type == "urltest"
    then record group {
      url = if group.url == "" then "http://www.gstatic.com/generate_204" else group.url;
      interval = if eqb_ℤ group.interval (pos 0) then pos 300 else group.interval;
    }
    else group

abbrev pub or_default {ℓ} : {A : Type ℓ} → Option A → A → Option A
or_default none d = some d
or_default (some a) d = some a

unfoldable pub apply_instance_defaults : Instance → Instance
apply_instance_defaults instance' = record instance' {
  inbounds = map apply_inbound_defaults instance'.inbounds;
  groups = map apply_group_defaults instance'.groups;
  labels = or_default instance'.labels [];
  traffic = record (instance'.traffic) { scopes = or_default instance'.traffic.scopes all_scopes };
}

-- The zero values of the nested structures.
abbrev pub zero_tls : TlsConfig
zero_tls = record {
  enabled = false;
  server_name = "";
  insecure = false;
  alpn = [];
  certificate_path = "";
  key_path = "";
  reality = record {
    enabled = false;
    handshake_server = "";
    handshake_server_port = pos 0;
    private_key = "";
    public_key = "";
    short_id = "";
    short_ids = [];
    max_time_difference = "";
  };
  utls = record { enabled = false; fingerprint = "" };
}

abbrev pub zero_transport : TransportConfig
zero_transport = record {
  type = "";
  host = "";
  hosts = [];
  path = "";
  method = "";
  headers = [];
  idle_timeout = "";
  ping_timeout = "";
  max_early_data = pos 0;
  early_data_header_name = "";
  service_name = "";
  permit_without_stream = false;
}

unfoldable pub default_inbound : String → String → Inbound
default_inbound name type' = apply_inbound_defaults (record {
  name = name;
  type = type';
  listen = "0.0.0.0";
  port = pos 0;
  tag = "";
  udp = false;
  method = "";
  tls = zero_tls;
  transport = zero_transport;
  auth = record { type = "noauth"; username = ""; password = "" };
  users = [];
  subscription = record { enabled = false; user = ""; server = ""; remark = ""; region = "" };
})

unfoldable pub default_group : String → String → Group
default_group name type' = apply_group_defaults (record {
  name = name;
  type = type';
  outbounds = [];
  url = "";
  interval = pos 0;
  tolerance = pos 0;
})
