-- ===== src/Services.antt =====
-- services/: the workflows over providers, storage and analytics.
pub mod Normalization
pub mod TransactionIngestion
pub mod ListingIngestion
pub mod MarketObservations
pub mod Queries
pub mod Evidence
pub mod Resolution
