-- ===== src/Domain.antt =====
-- internal/domain: the configuration data, its defaults and its validation.
pub mod Models
pub mod Defaults
pub mod Examples
pub mod Issues
pub mod Checks
pub mod Platform
pub mod Protocols
pub mod Inbounds
pub mod Outbounds
pub mod Routing
pub mod Nodes
pub mod Merge
pub mod Manifests
pub mod Globals
pub mod Refs
pub mod Instances
