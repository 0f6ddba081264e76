-- ===== src/Generator.antt =====
-- internal/generator/singbox: the configuration of sing-box, and the subscription inputs, that are
-- made of an instance.
pub mod Model
pub mod Transports
pub mod Converts
pub mod Builds
pub mod Inputs
mod Examples
