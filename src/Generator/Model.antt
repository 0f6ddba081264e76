-- ===== src/Generator/Model.antt =====
-- internal/generator/singbox/model.go: the structure of a sing-box configuration. A pointer that may
-- be nil is an option; a list that JSON leaves out when it is empty is a list.
use sbox_manager.Common.{Bool, List, Option, String, [], none, pos, ℤ}

-- An `interface{}` that holds a text or a list of texts.
pub data OneOrMany : Type 0 where
  one : String → OneOrMany
  many : List String → OneOrMany

pub record DnsServer : Type 0 where
  pub type : String
  pub tag : String
  pub server : String

pub record RealityHandshake : Type 0 where
  pub server : String
  pub server_port : ℤ

pub record SingBoxReality : Type 0 where
  pub enabled : Bool
  pub handshake : Option RealityHandshake
  pub private_key : String
  pub public_key : String
  pub short_id : Option OneOrMany
  pub max_time_difference : String

pub record SingBoxUtls : Type 0 where
  pub enabled : Bool
  pub fingerprint : String

pub record SingBoxTls : Type 0 where
  pub enabled : Bool
  pub server_name : String
  pub insecure : Bool
  pub alpn : List String
  pub certificate_path : String
  pub key_path : String
  pub reality : Option SingBoxReality
  pub utls : Option SingBoxUtls

pub record SingBoxTransport : Type 0 where
  pub type : String
  pub host : Option OneOrMany
  pub path : String
  pub method : String
  pub headers : List (String × String)
  pub idle_timeout : String
  pub ping_timeout : String
  pub max_early_data : ℤ
  pub early_data_header_name : String
  pub service_name : String
  pub permit_without_stream : Bool

pub record SingBoxUser : Type 0 where
  pub name : String
  pub uuid : String
  pub password : String
  pub username : String
  pub flow : String
  pub alter_id : ℤ

abbrev pub no_user : SingBoxUser
no_user = record { name = ""; uuid = ""; password = ""; username = ""; flow = ""; alter_id = pos 0 }

pub record SingBoxInbound : Type 0 where
  pub type : String
  pub tag : String
  pub listen : String
  pub listen_port : ℤ
  pub tls : Option SingBoxTls
  pub transport : Option SingBoxTransport
  pub method : String
  pub password : String
  pub users : List SingBoxUser

pub record SingBoxOutbound : Type 0 where
  pub type : String
  pub tag : String
  pub server : String
  pub server_port : ℤ
  pub uuid : String
  pub password : String
  pub method : String
  pub security : String
  pub flow : String
  pub alter_id : ℤ
  pub username : String
  pub network : String
  pub tls : Option SingBoxTls
  pub outbounds : List String
  pub url : String
  pub interval : String
  pub tolerance : ℤ
  pub transport : Option SingBoxTransport

abbrev pub no_outbound : SingBoxOutbound
no_outbound = record {
  type = "";
  tag = "";
  server = "";
  server_port = pos 0;
  uuid = "";
  password = "";
  method = "";
  security = "";
  flow = "";
  alter_id = pos 0;
  username = "";
  network = "";
  tls = none;
  outbounds = [];
  url = "";
  interval = "";
  tolerance = pos 0;
  transport = none;
}

pub record SingBoxRule : Type 0 where
  pub domain : List String
  pub domain_suffix : List String
  pub domain_keyword : List String
  pub ip_cidr : List String
  pub geoip : List String
  pub geosite : List String
  pub outbound : String

pub record SingBoxRoute : Type 0 where
  pub rules : List SingBoxRule
  pub final_tag : String

pub record V2RayStats : Type 0 where
  pub enabled : Bool
  pub inbounds : List String
  pub outbounds : List String
  pub users : List String

pub record V2RayApi : Type 0 where
  pub listen : String
  pub stats : V2RayStats

pub record SingBoxConfig : Type 0 where
  pub log_level : String
  pub dns_servers : List DnsServer
  pub inbounds : List SingBoxInbound
  pub outbounds : List SingBoxOutbound
  pub route : SingBoxRoute
  pub experimental : Option V2RayApi
