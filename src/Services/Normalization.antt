-- ===== src/Services/Normalization.antt =====
-- services/transaction_normalization.py: the gates, their chain, and what the chain guarantees.
pub mod Gates
pub mod Chain
pub mod Order
pub mod Soundness
