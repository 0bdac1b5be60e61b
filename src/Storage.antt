-- ===== src/Storage.antt =====
-- storage/: the tables of the database, and the repositories over them.
pub mod Table
pub mod Transactions
pub mod Listings
pub mod Market
pub mod Communities
