-- ===== src/Recovery/Otp/Lockout.antt =====
-- When recovery codes are refused for too many attempts: src/services/recovery/recoveryService.ts and
-- src/services/recovery/rateLimitService.ts.
use acbu_backend.Prelude.{ℕ, ◌≤◌, ◌<◌, ◌≡◌, subst, sym, ◌∙◌, inl, inr, Bool, true, some, arith}
use acbu_backend.Recovery.RateLimit.{identifier_attempts, user_attempts}
use acbu_backend.Recovery.RateLimit.Windows.{rate_limit_allows}
use acbu_backend.Recovery.Otp.{
  ChallengePayload, Store, Faults, VerifyRecoveryOtpParams, verify_recovery_otp, ip_of,
  recovery_otp_attempt_prefix, attempt_count,
}
use acbu_backend.Recovery.Otp.Flow.{Refused}
use acbu_backend.Recovery.Otp.Issue.{key_issued_only, limit_of}

allowed_few :
    (now : ℕ) (q : VerifyRecoveryOtpParams) (p : ChallengePayload) (s : Store)
    → (limit_of now q p s).allowed ≡ true
    → user_attempts (some recovery_otp_attempt_prefix) now p.user_id s.attempts < 3
allowed_few now q p s h =
    let (few, _, _) =
      rate_limit_allows now q.attempt_key p.user_id (ip_of q.device_fingerprint)
        (some recovery_otp_attempt_prefix) s.attempts in
    (few.0 h).2

-- A user with three recorded code attempts in the last day, right or wrong, gets no key, whatever the
-- code, the device and the failures are, and the keys stay as they are.
pub three_attempts_lock_out :
    (matches : ℕ → ℕ → Bool) (faults : Faults) (now : ℕ) (q : VerifyRecoveryOtpParams) (api_key : ℕ)
    (p : ChallengePayload) (s : Store)
    → q.token ≡ some p
    → 3 ≤ user_attempts (some recovery_otp_attempt_prefix) now p.user_id s.attempts
    → Refused s (verify_recovery_otp matches faults now q api_key s)
three_attempts_lock_out matches faults now q api_key p s e many =
    elim (key_issued_only matches faults now q api_key s) [
      | inl refused ↦ refused
      | inr (inl issued) ↦ not_allowed issued.payload issued.token_decodes issued.within_limit
      | inr (inr cut) ↦ not_allowed cut.payload cut.token_decodes cut.within_limit
    ]
  where
    some_injective : {x y : ChallengePayload} → some x ≡ some y → x ≡ y
    some_injective h = ground arith

    not_allowed :
        {A : Type 0} (p' : ChallengePayload)
        → q.token ≡ some p'
        → (limit_of now q p' s).allowed ≡ true
        → A
    not_allowed p' e' within =
        let same : p' ≡ p = some_injective (sym e' ∙ e) in
        let allowed = subst (λ x. (limit_of now q x s).allowed ≡ true) same within in
        absurd (omega (arith, allowed_few now q p s allowed, many))

-- The lock-out that counts five attempts with one token never happens: when the attempts with the
-- token's key in its window are among those of the user in the last day, an attempt that the rate
-- limit allows is at most the third of the token.
pub token_never_locked :
    (now : ℕ) (q : VerifyRecoveryOtpParams) (p : ChallengePayload) (s : Store)
    → identifier_attempts (some recovery_otp_attempt_prefix) now q.attempt_key s.attempts
      ≤ user_attempts (some recovery_otp_attempt_prefix) now p.user_id s.attempts
    → (limit_of now q p s).allowed ≡ true
    → attempt_count (limit_of now q p s).remaining_attempts ≤ 3
token_never_locked now q p s among allowed =
    let (_, left, _) =
      rate_limit_allows now q.attempt_key p.user_id (ip_of q.device_fingerprint)
        (some recovery_otp_attempt_prefix) s.attempts in
    omega (arith, among, left allowed, allowed_few now q p s allowed)
