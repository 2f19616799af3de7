-- ===== src/Recovery.antt =====
-- Account recovery: the rate limits of src/services/recovery/rateLimitService.ts and the two-step
-- unlocking of src/services/recovery/recoveryService.ts.
pub mod RateLimit
pub mod Devices
pub mod Otp
pub mod Unlock
