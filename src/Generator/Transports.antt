-- ===== src/Generator/Transports.antt =====
-- internal/generator/singbox/generator.go: TLS, REALITY, uTLS and transports.
use sbox_manager.Common.{
  Bool, List, Option, String, [], eqb_ℤ, if◌then◌else◌, is_empty, none, not, pos, some, true, ◌&&◌,
  ◌==◌, ◌||◌, ◌∷◌,
}
use sbox_manager.Domain.Models.{RealityConfig, TlsConfig, TransportConfig, UtlsConfig}
use sbox_manager.Generator.Model.{
  OneOrMany, SingBoxReality, SingBoxTls, SingBoxTransport, SingBoxUtls, many, one,
}

-- `realityShortIDs`.
abbrev pub reality_short_ids : RealityConfig → List String
reality_short_ids reality =
    if not (is_empty reality.short_ids)
    then reality.short_ids
    else if reality.short_id == ""
    then []
    else reality.short_id ∷ []

abbrev pub first_or_none : List String → Option OneOrMany
first_or_none [] = none
first_or_none (x ∷ xs) = some (one x)

unfoldable pub convert_reality : RealityConfig → Bool → Option SingBoxReality
convert_reality reality inbound =
    if not reality.enabled
    then none
    else if inbound
    then some (record {
      enabled = true;
      handshake =
          if not (reality.handshake_server == "")
            || not (eqb_ℤ reality.handshake_server_port (pos 0))
          then some (record {
            server = reality.handshake_server;
            server_port = reality.handshake_server_port;
          })
          else none;
      private_key = reality.private_key;
      public_key = "";
      short_id =
          if is_empty (reality_short_ids reality)
          then none
          else some (many (reality_short_ids reality));
      max_time_difference = reality.max_time_difference;
    })
    else some (record {
      enabled = true;
      handshake = none;
      private_key = "";
      public_key = reality.public_key;
      short_id =
          if not (reality.short_id == "")
          then some (one reality.short_id)
          else first_or_none reality.short_ids;
      max_time_difference = "";
    })

unfoldable pub convert_utls : UtlsConfig → Bool → Option SingBoxUtls
convert_utls utls inbound =
    if not utls.enabled || inbound
    then none
    else some (record { enabled = true; fingerprint = utls.fingerprint })

unfoldable pub convert_tls : TlsConfig → Bool → Bool → Option SingBoxTls
convert_tls tls force_enabled inbound =
    if not tls.enabled && not force_enabled && not tls.reality.enabled && not tls.utls.enabled
    then none
    else some (record {
      enabled = tls.enabled || force_enabled || tls.reality.enabled || tls.utls.enabled;
      server_name = tls.server_name;
      insecure = tls.insecure;
      alpn = tls.alpn;
      certificate_path = tls.certificate_path;
      key_path = tls.key_path;
      reality = convert_reality tls.reality inbound;
      utls = convert_utls tls.utls inbound;
    })

unfoldable pub convert_transport : TransportConfig → Option SingBoxTransport
convert_transport transport =
    if transport.type == ""
    then none
    else some (record {
      type = transport.type;
      host =
          if transport.type == "http" && not (is_empty transport.hosts)
          then some (many transport.hosts)
          else if transport.type == "httpupgrade" && not (transport.host == "")
          then some (one transport.host)
          else none;
      path = transport.path;
      method = if transport.type == "httpupgrade" then "" else transport.method;
      headers = transport.headers;
      idle_timeout = transport.idle_timeout;
      ping_timeout = transport.ping_timeout;
      max_early_data = transport.max_early_data;
      early_data_header_name = transport.early_data_header_name;
      service_name = transport.service_name;
      permit_without_stream = transport.permit_without_stream;
    })

-- `convertInboundTransport`: the same without a host.
unfoldable pub convert_inbound_transport : TransportConfig → Option SingBoxTransport
convert_inbound_transport transport = elim (convert_transport transport) [
  | none ↦ none
  | some t ↦ some (record t { host = none })
]
