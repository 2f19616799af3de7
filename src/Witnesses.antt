-- ===== src/Witnesses.antt =====
-- The theorems at concrete inputs, one module for each part of the program.
mod Status
mod Breaker
mod WalletRequests
mod Money
mod Identifiers
mod Locks
mod RecoveryCodes
mod Batches
mod Transfers
mod Treasuries
mod Signins
