-- ===== src/Config.antt =====
-- internal/config: what the configuration files hold beside plain fields.
pub mod PortRanges
pub mod Examples
