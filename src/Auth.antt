-- ===== src/Auth.antt =====
-- Authentication: src/services/auth/authService.ts and src/utils/authBruteGuard.ts. Hashes, ids,
-- secrets and tokens are only compared, so they are numbers, a refresh token being the number of its
-- SHA-256 hash; times are in milliseconds.
pub mod Refresh
pub mod Guard
pub mod Types
pub mod Signin
pub mod SecondFactor
pub mod Factors
pub mod Privileged
pub mod Lockout
pub mod Unguarded
