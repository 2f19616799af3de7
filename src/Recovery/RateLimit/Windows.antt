-- ===== src/Recovery/RateLimit/Windows.antt =====
-- What the limits of src/services/recovery/rateLimitService.ts let through.
use Prim.Native.String.{String}
use acbu_backend.Prelude.{
  ℕ, ◌+◌, ◌≤◌, ◌<◌, ◌≡◌, refl, ◌↔◌, true, false, Option, some, List, [], ◌∷◌, arith,
}
use acbu_backend.Recovery.RateLimit.{
  Attempt, identifier_attempts, user_attempts, ip_attempts, check_recovery_rate_limit,
  cleanup_old_recovery_attempts,
}

-- With a user and an address given, an attempt is allowed exactly when fewer than 5 attempts of the
-- identifier in 15 minutes, fewer than 10 of the address in an hour and fewer than 3 of the user in a
-- day match the filter; it is then told how many of the 5 are left, at least one, and otherwise 0.
pub rate_limit_allows :
    (now identifier user_id ip : ℕ) (prefix : Option String) (rows : List Attempt)
    → let r = check_recovery_rate_limit now identifier (some user_id) (some ip) prefix rows in
      ((r.allowed ≡ true) ↔ (
        (identifier_attempts prefix now identifier rows < 5)
        × (ip_attempts prefix now ip rows < 10)
        × (user_attempts prefix now user_id rows < 3)))
      × (r.allowed ≡ true
          → r.remaining_attempts + identifier_attempts prefix now identifier rows ≡ 5)
      × (r.allowed ≡ false → r.remaining_attempts ≡ 0)
unfolding check_recovery_rate_limit
rate_limit_allows now identifier user_id ip prefix rows = (
  (λ h. (ground arith, ground arith, ground arith), λ h. ground arith),
  λ h. ground arith,
  λ h. ground arith,
)

-- The cleanup of rows older than 30 days changes no limit: at the time of the cleanup and later,
-- every count query gives what it gave before.
pub cleanup_keeps_limits :
    (now later identifier user_id ip : ℕ) (prefix : Option String) (rows : List Attempt)
    → now ≤ later
    → let kept = cleanup_old_recovery_attempts now rows in
      (identifier_attempts prefix later identifier kept
        ≡ identifier_attempts prefix later identifier rows)
      × (ip_attempts prefix later ip kept ≡ ip_attempts prefix later ip rows)
      × (user_attempts prefix later user_id kept ≡ user_attempts prefix later user_id rows)
unfolding cleanup_old_recovery_attempts
cleanup_keeps_limits now later identifier user_id ip prefix [] h = (refl, refl, refl)
cleanup_keeps_limits now later identifier user_id ip prefix (a ∷ rows) h =
    let (p, q, r) = cleanup_keeps_limits now later identifier user_id ip prefix rows h in
    (ground arith, ground arith, ground arith)
