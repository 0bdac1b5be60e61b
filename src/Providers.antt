-- ===== src/Providers.antt =====
-- providers/: what a provider hands to the services.
pub mod Dto
pub mod Parsing
pub mod Fetch
pub mod Accounting
pub mod Judged
pub mod Lianjia
