-- ===== src/Domain/Models.antt =====
-- internal/domain/models.go: the configuration of the agent, of its instances and of the
-- subscription service. A field has the name of its JSON key. An `int` and a `time.Duration` are
-- integers; a slice that the code compares with `nil` is an `Option`; a map is an association list.
use sbox_manager.Common.{Bool, List, Option, String, ℤ}

pub record PathsConfig : Type 0 where
  pub bin : String
  pub rules : String
  pub instances : String
  pub runtime : String
  pub generated : String
  pub publish : String
  pub traffic : String
  pub downloads : String
  pub logs : String

pub record PortRange : Type 0 where
  pub start : ℤ
  pub end : ℤ

pub record PortRangesConfig : Type 0 where
  pub inbound : PortRange
  pub local_socks : PortRange
  pub local_http : PortRange
  pub api : PortRange

pub record ApiConfig : Type 0 where
  pub enabled : Bool
  pub listen : String
  pub token : String

pub record TrafficTimerConfig : Type 0 where
  pub hourly : String
  pub daily : String
  pub monthly : String

pub record TrafficDefaultsConfig : Type 0 where
  pub enabled : Bool
  pub timezone : String
  pub retention_days : ℤ
  pub daily_min_retention_days : ℤ
  pub monthly_retention_months : ℤ
  pub timeout_seconds : ℤ
  pub timer : TrafficTimerConfig

pub record DefaultsConfig : Type 0 where
  pub log_level : String
  pub api : ApiConfig
  pub clash_api : ApiConfig
  pub traffic : TrafficDefaultsConfig

pub record SecurityConfig : Type 0 where
  pub require_auth_for_public_socks_http : Bool

pub record GlobalConfig : Type 0 where
  pub version : ℤ
  pub external_host : String
  pub paths : PathsConfig
  pub port_ranges : PortRangesConfig
  pub defaults : DefaultsConfig
  pub security : SecurityConfig

pub record AuthConfig : Type 0 where
  pub type : String
  pub username : String
  pub password : String

pub record InboundUser : Type 0 where
  pub name : String
  pub uuid : String
  pub password : String
  pub method : String
  pub flow : String
  pub alter_id : ℤ
  pub remark : String
  pub tag : String

pub record SubscriptionConfig : Type 0 where
  pub enabled : Bool
  pub user : String
  pub server : String
  pub remark : String
  pub region : String

pub record RealityConfig : Type 0 where
  pub enabled : Bool
  pub handshake_server : String
  pub handshake_server_port : ℤ
  pub private_key : String
  pub public_key : String
  pub short_id : String
  pub short_ids : List String
  pub max_time_difference : String

pub record UtlsConfig : Type 0 where
  pub enabled : Bool
  pub fingerprint : String

pub record TlsConfig : Type 0 where
  pub enabled : Bool
  pub server_name : String
  pub insecure : Bool
  pub alpn : List String
  pub certificate_path : String
  pub key_path : String
  pub reality : RealityConfig
  pub utls : UtlsConfig

pub record TransportConfig : Type 0 where
  pub type : String
  pub host : String
  pub hosts : List String
  pub path : String
  pub method : String
  pub headers : List (String × String)
  pub idle_timeout : String
  pub ping_timeout : String
  pub max_early_data : ℤ
  pub early_data_header_name : String
  pub service_name : String
  pub permit_without_stream : Bool

pub record Inbound : Type 0 where
  pub name : String
  pub type : String
  pub listen : String
  pub port : ℤ
  pub tag : String
  pub udp : Bool
  pub method : String
  pub tls : TlsConfig
  pub transport : TransportConfig
  pub auth : AuthConfig
  pub users : List InboundUser
  pub subscription : SubscriptionConfig

pub record Outbound : Type 0 where
  pub name : String
  pub type : String
  pub ref : String
  pub server : String
  pub port : ℤ
  pub uuid : String
  pub password : String
  pub method : String
  pub security : String
  pub flow : String
  pub alter_id : ℤ
  pub auth : AuthConfig
  pub tls : TlsConfig
  pub network : String
  pub transport : TransportConfig

pub record Group : Type 0 where
  pub name : String
  pub type : String
  pub outbounds : List String
  pub url : String
  pub interval : ℤ
  pub tolerance : ℤ

pub record RouteRule : Type 0 where
  pub type : String
  pub values : List String
  pub outbound : String

pub record RouteConfig : Type 0 where
  pub default : String
  pub rules : List RouteRule

pub record InstanceTrafficConfig : Type 0 where
  pub enabled : Bool
  pub scopes : Option (List String)

pub record Instance : Type 0 where
  pub name : String
  pub enabled : Bool
  pub role : String
  pub labels : Option (List String)
  pub api : ApiConfig
  pub inbounds : List Inbound
  pub outbounds : List Outbound
  pub groups : List Group
  pub route : RouteConfig
  pub traffic : InstanceTrafficConfig

pub record AccessConfig : Type 0 where
  pub type : String
  pub token : String

pub record ManagedConfig : Type 0 where
  pub enabled : Bool
  pub public_base_url : String
  pub interval : ℤ
  pub strict : Bool

-- The durations are in nanoseconds.
pub record SubConfig : Type 0 where
  pub version : ℤ
  pub listen : String
  pub access : AccessConfig
  pub templates_dir : String
  pub watch_interval : ℤ
  pub watch_debounce : ℤ
  pub managed_config : ManagedConfig

pub record TrafficConfig : Type 0 where
  pub version : ℤ
  pub enabled : Bool
  pub timezone : String
  pub retention_days : ℤ
  pub daily_min_retention_days : ℤ
  pub monthly_retention_months : ℤ
  pub timeout_seconds : ℤ
  pub timer : TrafficTimerConfig

-- An `interface{}` that a decoder fills.
mutual
  pub data Json : Type 0 where
    null : Json
    bool : Bool → Json
    number : String → Json
    text : String → Json
    array : Items → Json
    object : Fields → Json

  pub data Items : Type 0 where
    nil : Items
    item : Json → Items → Items

  pub data Fields : Type 0 where
    end : Fields
    field : String → Json → Fields → Fields

pub record SubscriptionNode : Type 0 where
  pub id : String
  pub user : String
  pub protocol : String
  pub server : String
  pub port : ℤ
  pub tag : String
  pub remark : String
  pub region : String
  pub uuid : String
  pub network : String
  pub security : String
  pub flow : String
  pub alter_id : ℤ
  pub method : String
  pub password : String
  pub auth : AuthConfig
  pub tls : TlsConfig
  pub transport : TransportConfig
  pub udp : Bool
  pub native : List (String × Json)

pub record SubscriptionInput : Type 0 where
  pub input_schema : String
  pub input_version : ℤ
  pub source : String
  pub generated_at : String
  pub external_host : String
  pub nodes : Option (List SubscriptionNode)

pub record SubscriptionIndex : Type 0 where
  pub index_schema : String
  pub index_version : ℤ
  pub sources : List String
  pub nodes : List SubscriptionNode

pub record BundleManifest : Type 0 where
  pub bundle_schema : String
  pub bundle_version : ℤ
  pub source : String
  pub generated_at : String
  pub inputs_sha256 : List (String × String)
  pub template_version : String
  pub access : AccessConfig

pub record BackupManifest : Type 0 where
  pub backup_schema : String
  pub backup_version : ℤ
  pub generated_at : String
  pub files_sha256 : List (String × String)
