-- ===== src/Subscription.antt =====
-- internal/subscription: the index of the nodes by user and the formats.
pub mod Index
pub mod Inputs
pub mod Formats
pub mod Examples
