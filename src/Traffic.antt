-- ===== src/Traffic.antt =====
-- internal/traffic: counters of the running instances, the records made of them, and their cleanup.
pub mod Examples
pub mod Types
pub mod Windows
pub mod Stats
pub mod Tables
pub mod Repository
pub mod Records
pub mod Collector
pub mod Queries
pub mod Cleanup
