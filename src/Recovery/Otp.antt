-- ===== src/Recovery/Otp.antt =====
-- The second step of the recovery: src/services/recovery/recoveryService.ts. Parameters: how the token
-- decodes (`token`), its hash (`attempt_key`), `bcrypt.compare` (`matches`), and which dependencies
-- fail. Errors of the audit trail are swallowed, so its writes are listed. Times are in milliseconds.
mod Types
pub mod Flow
pub mod Revoked
pub mod Accepting
pub mod Issue
pub mod SingleUse
pub mod Lockout
use Prim.Native.String.{String}
use acbu_backend.Prelude.{
  ℕ, suc, ◌+◌, ◌-◌, ◌*◌, Bool, true, false, Option, none, some, List, [], ◌∷◌, map, ◌&&◌, ◌||◌, not,
  ltb, leb, ◌==◌, if◌then◌else◌, max, any,
}
use acbu_backend.Prelude.Result.{Result, ok, err}
use acbu_backend.Prelude.Action.{raise, pure, modify, ◌>>=◌, ◌>>◌}
use acbu_backend.Recovery.RateLimit.{
  Attempt, RateLimitResult, check_recovery_rate_limit, record_recovery_attempt,
}
use acbu_backend.Recovery.Devices.{Device, DeviceVerificationResult, verify_device, trust_device}
unfoldable pub use Types.*

-- The record updates.
abbrev with_attempts : (List Attempt → List Attempt) → Store → Store
with_attempts f s = record s { attempts = f s.attempts }

abbrev with_challenges : (List OtpChallenge → List OtpChallenge) → Store → Store
with_challenges f s = record s { challenges = f s.challenges }

abbrev pub with_keys : (List ApiKey → List ApiKey) → Store → Store
with_keys f s = record s { api_keys = f s.api_keys }

abbrev pub audited : AuditEvent → Store → Store
audited e s = record s { audit = e ∷ s.audit }

abbrev pub revoke : Option ℕ → Store → Store
revoke none s = s
revoke (some j) s = record s { revoked = j ∷ s.revoked }

-- `revokeRecoveryChallengeToken`; the local deny-list takes the token in any case.
abbrev pub revoke_recovery_challenge_token :
    ChallengePayload → Store → Result OtpError (Unit {0}) × Store
revoke_recovery_challenge_token p = modify (revoke p.jti)

-- `getRecoveryChallengeAttemptCount`
abbrev pub attempt_count : ℕ → ℕ
attempt_count remaining = max 1 (recovery_otp_max_attempts + 1 - remaining)

-- The answer where a dependency fails: the token is revoked.
abbrev pub unavailable_after_revoking :
    {A : Type 0} → ChallengePayload → Store → Result OtpError A × Store
unavailable_after_revoking p = revoke_recovery_challenge_token p >> raise unavailable

-- `recordRecoveryOtpAttempt`
abbrev pub record_recovery_otp_attempt :
    Faults
    → ℕ
    → ChallengePayload
    → ℕ
    → Bool
    → String
    → Option DeviceFingerprint
    → Store
    → Result OtpError (Unit {0}) × Store
record_recovery_otp_attempt faults now p key success reason device =
    if faults.tracking
    then unavailable_after_revoking p
    else modify (
        with_attempts
          (record_recovery_attempt now p.user_id key success (some reason) (some (ip_of device))))

abbrev pub used : ℕ → ℕ → OtpChallenge → OtpChallenge
used id now c = if c.id == id then record c { used_at = some now } else c

-- `markRecoveryChallengeUsed`
abbrev pub mark_recovery_challenge_used :
    Faults → ChallengePayload → ℕ → ℕ → Store → Result OtpError (Unit {0}) × Store
mark_recovery_challenge_used faults p id now =
    if faults.update
    then unavailable_after_revoking p
    else modify (with_challenges (map (used id now)))

abbrev pub audit : AuditEvent → Store → Result OtpError (Unit {0}) × Store
audit e = modify (audited e)

-- `verifyChallengeToken` without consuming: a token whose id is on the deny-list is refused.
abbrev pub is_revoked : Option ℕ → List ℕ → Bool
is_revoked none js = false
is_revoked (some j) js = any (λ k. k == j) js

abbrev pub when_locked :
    Bool → (Store → Result OtpError (Unit {0}) × Store) → Store → Result OtpError (Unit {0}) × Store
when_locked locked m = if locked then m else pure tt

-- `markRecoveryChallengeUsed` and then `revokeRecoveryChallengeToken`
abbrev pub close_challenge :
    Faults → ChallengePayload → ℕ → ℕ → Store → Result OtpError (Unit {0}) × Store
close_challenge faults p id now =
    mark_recovery_challenge_used faults p id now >> revoke_recovery_challenge_token p

-- `rejectOtp`
abbrev pub reject_otp :
    {A : Type 0}
    → Faults
    → ℕ
    → ChallengePayload
    → ℕ
    → ℕ
    → Bool
    → Option DeviceFingerprint
    → Store
    → Result OtpError A × Store
reject_otp faults now p key id locked device =
    record_recovery_otp_attempt faults now p key false "recovery-otp:invalid" device
    >> when_locked locked (close_challenge faults p id now)
    >> audit (recovery_failed p.user_id invalid_otp)
    >> raise (if locked then lockout else invalid_code)

-- Every live key of the user is revoked.
abbrev pub revoke_keys : ℕ → ℕ → List ApiKey → List ApiKey
revoke_keys now u =
    map (λ k.
      if k.user_id == u && is_unset k.revoked_at then record k { revoked_at = some now } else k)

abbrev rotated : Faults → ℕ → ℕ → Store → Store
rotated faults now u s =
    if faults.rotation then s else audited (session_rotated u) (with_keys (revoke_keys now u) s)

-- `rotateUserSessions`, whose errors are swallowed.
abbrev pub rotate_user_sessions : Faults → ℕ → ℕ → Store → Result OtpError (Unit {0}) × Store
rotate_user_sessions faults now u = modify (rotated faults now u)

-- `generateApiKey`, for the key that the random generator makes, unless it throws.
abbrev pub generate_api_key : Faults → ℕ → ℕ → Store → Result OtpError (Unit {0}) × Store
generate_api_key faults key u =
    if faults.key_generation
    then raise interrupted
    else modify (with_keys (λ ks. record { key = key; user_id = u; revoked_at = none } ∷ ks))

-- `trustDevice` of a device that is not trusted, unless it throws.
abbrev pub trust_new :
    Faults → ℕ → ℕ → DeviceVerificationResult → Store → Result OtpError (Unit {0}) × Store
trust_new faults u f r s =
    if r.is_trusted
    then (ok tt, s)
    else if faults.device_trust
    then (err interrupted, s)
    else (ok tt, audited (device_trusted u) (record s { devices = trust_device u f s.devices }))

-- The device is verified, unless that throws, and trusted where the user asks for it.
abbrev pub trusting :
    Faults → ℕ → ℕ → Bool → Option DeviceFingerprint → Store → Result OtpError (Unit {0}) × Store
trusting faults now u true (some d) s =
    let (r, devices) = verify_device now u d.fingerprint d.ip s.devices in
    if faults.device_check
    then (err interrupted, s)
    else trust_new faults u d.fingerprint r (record s { devices = devices })
trusting faults now u _ _ s = (ok tt, s)

-- The end of `verifyRecoveryOtp`, after the code has matched.
abbrev pub accept_otp :
    Faults
    → ℕ
    → ChallengePayload
    → ℕ
    → ℕ
    → Bool
    → Option DeviceFingerprint
    → ℕ
    → Store
    → Result OtpError (ℕ × ℕ) × Store
accept_otp faults now p key id trust_device device api_key =
    record_recovery_otp_attempt faults now p key true "recovery-otp:success" device
    >> close_challenge faults p id now
    >> rotate_user_sessions faults now p.user_id
    >> generate_api_key faults api_key p.user_id
    >> trusting faults now p.user_id trust_device device
    >> audit (recovery_completed p.user_id)
    >> pure (api_key, p.user_id)

-- What a user sends: the token, which decodes to a payload or not; the code, unless it is not six
-- digits; the device; and whether to trust it.
pub record VerifyRecoveryOtpParams : Type 0 where
  pub token : Option ChallengePayload
  pub attempt_key : ℕ
  pub code : Option ℕ
  pub device_fingerprint : Option DeviceFingerprint
  pub trust_device : Bool

module _ (matches : ℕ → ℕ → Bool) where
  -- After the rate limit has let the attempt pass.
  abbrev pub check_code :
      Faults
      → ℕ
      → ChallengePayload
      → VerifyRecoveryOtpParams
      → OtpChallenge
      → Bool
      → ℕ
      → Option ℕ
      → Store
      → Result OtpError (ℕ × ℕ) × Store
  check_code faults now p q c locked api_key none =
      reject_otp faults now p q.attempt_key c.id locked q.device_fingerprint
  check_code faults now p q c locked api_key (some code) =
      if faults.compare
      then record_recovery_otp_attempt faults now p q.attempt_key false
          "recovery-otp:verification_error" q.device_fingerprint
        >> when_locked locked (close_challenge faults p c.id now)
        >> raise unavailable
      else if matches code c.code_hash
      then accept_otp faults now p q.attempt_key c.id q.trust_device q.device_fingerprint api_key
      else reject_otp faults now p q.attempt_key c.id locked q.device_fingerprint

  -- After the rate limit has answered.
  abbrev pub check_limit :
      Faults
      → ℕ
      → ChallengePayload
      → VerifyRecoveryOtpParams
      → OtpChallenge
      → ℕ
      → RateLimitResult
      → Store
      → Result OtpError (ℕ × ℕ) × Store
  check_limit faults now p q c api_key r =
      let locked = leb recovery_otp_max_attempts (attempt_count r.remaining_attempts) in
      if not r.allowed
      then close_challenge faults p c.id now
        >> audit (recovery_failed p.user_id rate_limited)
        >> raise lockout
      else check_code faults now p q c locked api_key q.code

  -- After the lookup has answered.
  abbrev pub check_challenge :
      Faults
      → ℕ
      → ChallengePayload
      → VerifyRecoveryOtpParams
      → ℕ
      → Option OtpChallenge
      → Store
      → Result OtpError (ℕ × ℕ) × Store
  check_challenge faults now p q api_key none s =
      (revoke_recovery_challenge_token p
          >> audit (recovery_failed p.user_id expired_otp)
          >> raise invalid_or_expired_code)
        s
  check_challenge faults now p q api_key (some c) s =
      if faults.rate_limit
      then unavailable_after_revoking p s
      else check_limit faults now p q c api_key
          (check_recovery_rate_limit now q.attempt_key (some p.user_id)
            (some (ip_of q.device_fingerprint)) (some recovery_otp_attempt_prefix) s.attempts)
          s

  -- After the token has been decoded.
  abbrev pub check_payload :
      Faults
      → ℕ
      → VerifyRecoveryOtpParams
      → ℕ
      → Option ChallengePayload
      → Store
      → Result OtpError (ℕ × ℕ) × Store
  check_payload faults now q api_key none s = raise invalid_challenge s
  check_payload faults now q api_key (some p) s =
      if is_revoked p.jti s.revoked
      then raise invalid_challenge s
      else if faults.lookup
      then unavailable_after_revoking p s
      else check_challenge faults now p q api_key (find_challenge p now s.challenges) s

  -- `verifyRecoveryOtp`, with the key that `generateApiKey` would make.
  unfoldable pub verify_recovery_otp :
      Faults → ℕ → VerifyRecoveryOtpParams → ℕ → Store → Result OtpError (ℕ × ℕ) × Store
  verify_recovery_otp faults now q api_key = check_payload faults now q api_key q.token
