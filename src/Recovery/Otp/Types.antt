-- ===== src/Recovery/Otp/Types.antt =====
-- The rows, the inputs and the errors of the recovery: src/services/recovery/recoveryService.ts.
use Prim.Native.String.{String}
use acbu_backend.Prelude.{
  ℕ, Bool, true, false, Option, none, some, List, [], ◌∷◌, ◌&&◌, ltb, ◌==◌, if◌then◌else◌,
}
use acbu_backend.Recovery.RateLimit.{Attempt}
use acbu_backend.Recovery.Devices.{Device}

-- `RECOVERY_OTP_MAX_ATTEMPTS` and `RECOVERY_OTP_ATTEMPT_PREFIX`
abbrev pub recovery_otp_max_attempts : ℕ
recovery_otp_max_attempts = 5

abbrev pub recovery_otp_attempt_prefix : String
recovery_otp_attempt_prefix = "recovery-otp"

-- `ChallengePayload`
pub record ChallengePayload : Type 0 where
  pub user_id : ℕ
  pub otp_challenge_id : Option ℕ
  pub jti : Option ℕ

-- A row of `otp_challenges`.
pub record OtpChallenge : Type 0 where
  pub id : ℕ
  pub user_id : ℕ
  pub code_hash : ℕ
  pub expires_at : ℕ
  pub used_at : Option ℕ
  pub created_at : ℕ

-- A row of `api_keys`.
pub record ApiKey : Type 0 where
  pub key : ℕ
  pub user_id : ℕ
  pub revoked_at : Option ℕ

pub data FailureReason : Type 0 where
  expired_otp rate_limited invalid_otp : FailureReason

pub data AuditEvent : Type 0 where
  recovery_failed : ℕ → FailureReason → AuditEvent
  recovery_initiated session_rotated device_trusted recovery_completed : ℕ → AuditEvent

pub record Store : Type 0 where
  pub attempts : List Attempt
  pub challenges : List OtpChallenge
  pub api_keys : List ApiKey
  pub revoked : List ℕ
  pub devices : List Device
  pub audit : List AuditEvent

-- The fields of the device's fingerprint that are stored, and its hash.
pub record DeviceFingerprint : Type 0 where
  pub ip : Option ℕ
  pub fingerprint : ℕ

-- Which of the dependencies fail during a call.
pub record Faults : Type 0 where
  pub lookup : Bool
  pub rate_limit : Bool
  pub tracking : Bool
  pub update : Bool
  pub compare : Bool
  pub rotation : Bool
  pub key_generation : Bool
  pub device_check : Bool
  pub device_trust : Bool

pub data OtpError : Type 0 where
  invalid_challenge invalid_or_expired_code invalid_code lockout unavailable interrupted : OtpError

-- `"unknown"`, the address that stands for none.
abbrev pub unknown_ip : ℕ
unknown_ip = 0

abbrev pub ip_of : Option DeviceFingerprint → ℕ
ip_of none = unknown_ip
ip_of (some d) = or_unknown d.ip
  where
    or_unknown : Option ℕ → ℕ
    or_unknown none = unknown_ip
    or_unknown (some ip) = ip

abbrev pub is_unset : Option ℕ → Bool
is_unset none = true
is_unset (some _) = false

abbrev pub names : Option ℕ → ℕ → Bool
names none _ = true
names (some i) j = j == i

-- The filter of the lookup.
abbrev pub usable : ChallengePayload → ℕ → OtpChallenge → Bool
usable p now c =
    names p.otp_challenge_id c.id
    && (c.user_id == p.user_id && (ltb now c.expires_at && is_unset c.used_at))

abbrev pub later : OtpChallenge → Option OtpChallenge → Option OtpChallenge
later c none = some c
later c (some d) = if ltb c.created_at d.created_at then some d else some c

-- `findFirst` with the newest first.
abbrev pub find_challenge : ChallengePayload → ℕ → List OtpChallenge → Option OtpChallenge
find_challenge p now [] = none
find_challenge p now (c ∷ cs) =
    let rest = find_challenge p now cs in if usable p now c then later c rest else rest
