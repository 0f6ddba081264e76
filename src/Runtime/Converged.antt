-- ===== src/Runtime/Converged.antt =====
-- internal/runtime: a plan that is built again after its application has nothing to do.
pub mod Orderly
pub mod Content
pub mod Loading
pub mod Again
