-- ===== src/Manager.antt =====
-- internal/instance: the changes of instances.
pub mod Ports
pub mod Members
pub mod Clones
pub mod Examples
