-- ===== src/Runtime.antt =====
-- internal/runtime: the generated files of the instances, their plan and its application.
pub mod Model
pub mod Manifests
pub mod Plans
pub mod Applies
pub mod Lifecycle
pub mod Guarded
pub mod Converged
pub mod Scoped
mod Examples
