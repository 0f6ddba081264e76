-- ===== src/Subserver.antt =====
-- internal/subserver: the server of subscriptions.
pub mod Routes
pub mod Requests
pub mod Watcher
pub mod Examples
