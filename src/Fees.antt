-- ===== src/Fees.antt =====
-- Fees: what the protocol charges for a mint and a burn, and what it pays the Stellar network.
pub mod FeePolicy
pub mod FeeManager
