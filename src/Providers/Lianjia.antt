-- ===== src/Providers/Lianjia.antt =====
-- providers/lianjia/: the field parsers of one source, and the providers that replay its snapshots.
pub mod Runtime
pub mod Numbers
pub mod Wording
pub mod Cells
pub mod Transactions
pub mod Listings
pub mod Recorded
