-- ===== src/Domain/Protocols.antt =====
-- internal/domain/validation.go: the checks that inbounds, outbounds and nodes share.
use sbox_manager.Common.{
  Bool, String, [], false, if◌then◌else◌, is_blank, not, true, ◌&&◌, ◌++◌, ◌<>◌, ◌==◌, ◌||◌, ◌∷◌,
}
use sbox_manager.Domain.Checks.{allowed_value, is_uuid, validate_host, validate_port}
use sbox_manager.Domain.Issues.{ValidationErrors, add, add_if}
use sbox_manager.Domain.Models.{AuthConfig, RealityConfig, TlsConfig, TransportConfig}

unfoldable pub validate_transport_config : String → TransportConfig → ValidationErrors
validate_transport_config path transport =
    if is_blank transport.type
    then []
    else add_if
        (not (allowed_value transport.type ("http" ∷ "ws" ∷ "quic" ∷ "grpc" ∷ "httpupgrade" ∷ [])))
        (path <> ".type") "unsupported transport type %q" (transport.type ∷ [])

unfoldable pub validate_vmess_network : String → String → ValidationErrors
validate_vmess_network path network =
    if is_blank network
    then []
    else add_if (not (allowed_value network ("tcp" ∷ "udp" ∷ []))) path
        "vmess network only supports tcp or udp" []

abbrev pub inbound_supports_transport : String → Bool
inbound_supports_transport inbound_type = inbound_type == "vmess" || inbound_type == "vless"

-- The two required fields of password authentication.
unfoldable pub password_fields : String → AuthConfig → ValidationErrors
password_fields path auth =
    add_if (is_blank auth.username) (path <> ".username") "password auth requires username" []
    ++ add_if (is_blank auth.password) (path <> ".password") "password auth requires password" []

unfoldable pub validate_subscription_auth : String → AuthConfig → ValidationErrors
unfolding password_fields
validate_subscription_auth path auth =
    if not (allowed_value auth.type ("noauth" ∷ "password" ∷ []))
    then add (path <> ".type") "unsupported auth type %q" (auth.type ∷ [])
    else if not (auth.type == "password")
    then []
    else password_fields path auth

unfoldable pub validate_tls_reality : String → RealityConfig → Bool → ValidationErrors
validate_tls_reality path reality inbound =
    if not reality.enabled
    then []
    else if inbound
    then validate_host (path <> ".handshake_server") reality.handshake_server
      ++ validate_port (path <> ".handshake_server_port") reality.handshake_server_port
      ++ add_if (is_blank reality.private_key) (path <> ".private_key")
          "reality inbound requires private_key" []
    else add_if (is_blank reality.public_key) (path <> ".public_key")
        "reality outbound requires public_key" []

unfoldable pub validate_inbound_tls : String → TlsConfig → ValidationErrors
unfolding validate_tls_reality
validate_inbound_tls path tls =
    validate_tls_reality (path <> ".reality") tls.reality true
    ++ add_if tls.utls.enabled (path <> ".utls") "inbound tls does not support utls" []
    ++ (if not tls.enabled || tls.reality.enabled
        then []
        else add_if (is_blank tls.certificate_path) (path <> ".certificate_path")
            "tls inbound requires certificate_path" []
          ++ add_if (is_blank tls.key_path) (path <> ".key_path") "tls inbound requires key_path"
              [])

unfoldable pub validate_outbound_tls : String → TlsConfig → ValidationErrors
unfolding validate_tls_reality
validate_outbound_tls path tls =
    validate_tls_reality (path <> ".reality") tls.reality false
    ++ add_if (tls.utls.enabled && is_blank tls.utls.fingerprint) (path <> ".utls.fingerprint")
        "utls requires fingerprint" []

-- A required UUID: the messages differ by its owner.
unfoldable pub required_uuid : String → String → String → ValidationErrors
required_uuid path uuid missing =
    if is_blank uuid
    then add path missing []
    else add_if (not (is_uuid uuid)) path "must be a UUID" []
