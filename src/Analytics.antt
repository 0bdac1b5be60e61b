-- ===== src/Analytics.antt =====
-- analytics/: deterministic metrics over canonical records.
pub mod Common
pub mod Transactions
pub mod Listings
