-- ===== src/Tests.antt =====
-- Runs on concrete records, and each theorem at a concrete input.
mod Samples
mod Normalizing
mod Ingesting
mod Metrics
mod Storing
mod Listing
mod Market
mod Querying
mod Parsing
mod Lianjia
mod Recorded
mod Resolving
mod Configuring
