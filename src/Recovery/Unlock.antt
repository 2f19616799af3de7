-- ===== src/Recovery/Unlock.antt =====
-- The first step of the recovery, `unlockApp`: src/services/recovery/recoveryService.ts. Parameters:
-- which contact the identifier is (`Contact`), `bcrypt.compare` (`matches`), the hash of the random
-- code and the id of its row, and whether the queue takes the code. The token that is returned is the
-- payload that it is signed for; `detectSuspiciousPatterns` only reaches the audit trail.
pub mod Challenges
use Prim.Native.String.{String}
use acbu_backend.Prelude.{
  ℕ, ◌+◌, ◌*◌, Bool, true, false, Option, none, some, List, [], ◌∷◌, ◌==◌, if◌then◌else◌,
}
use acbu_backend.Prelude.Result.{Result, ok, err}
use acbu_backend.Prelude.Action.{raise, pure, modify, ◌>>=◌, ◌>>◌}
use acbu_backend.Recovery.RateLimit.{
  Refusal, too_many_for_identifier, too_many_from_ip, too_many_for_account, RateLimitResult,
  check_recovery_rate_limit, record_recovery_attempt,
}
use acbu_backend.Recovery.Devices.{verify_device, is_device_rate_limited}
use acbu_backend.Recovery.Otp.{
  ChallengePayload, OtpChallenge, Store, DeviceFingerprint, recovery_initiated, audited,
}

pub data Channel : Type 0 where
  email sms : Channel

-- A row of `users`.
pub record Account : Type 0 where
  pub id : ℕ
  pub email : Option ℕ
  pub phone : Option ℕ
  pub passcode_hash : Option ℕ

-- What the identifier is: an address of a channel, or neither.
pub data Contact : Type 0 where
  reachable : Channel → ℕ → Contact
  neither : Contact

pub data UnlockError : Type 0 where
  bad_identifier not_enabled rate_limit_exceeded device_limited : UnlockError
  invalid_passcode channel_not_configured delivery_unavailable : UnlockError

-- `UnlockAppParams`
pub record UnlockAppParams : Type 0 where
  pub identifier : ℕ
  pub contact : Contact
  pub passcode : ℕ
  pub device_fingerprint : DeviceFingerprint

-- The address of an account in a channel.
abbrev pub address : Channel → Account → Option ℕ
address email a = a.email
address sms a = a.phone

abbrev is_address : ℕ → Option ℕ → Bool
is_address x none = false
is_address x (some y) = y == x

-- `prisma.user.findFirst`
abbrev pub find_account : Channel → ℕ → List Account → Option Account
find_account c x [] = none
find_account c x (a ∷ rest) = if is_address x (address c a) then some a else find_account c x rest

-- The texts of the limits.
abbrev pub reason_text : Option Refusal → Option String
reason_text none = none
reason_text (some too_many_for_identifier) =
    some "Too many attempts for this identifier. Please try again later."
reason_text (some too_many_from_ip) =
    some "Too many attempts from this IP address. Please try again later."
reason_text (some too_many_for_account) =
    some "Too many recovery attempts for this account. Please contact support."

abbrev pub unlock_record :
    ℕ → ℕ → UnlockAppParams → Bool → Option String → Store → Result UnlockError (Unit {0}) × Store
unlock_record now user_id q success reason = modify (λ s. record s {
  attempts =
      record_recovery_attempt now user_id q.identifier success reason q.device_fingerprint.ip
        s.attempts;
})

abbrev pub register_device : ℕ → ℕ → UnlockAppParams → Store → Result UnlockError (Unit {0}) × Store
register_device now user_id q = modify (λ s. record s {
  devices =
      (verify_device now user_id q.device_fingerprint.fingerprint q.device_fingerprint.ip
        s.devices).1;
})

-- `OTP_EXPIRY_MINUTES`
abbrev pub otp_expiry_minutes : ℕ
otp_expiry_minutes = 10

abbrev pub new_challenge : ℕ → ℕ → ℕ → ℕ → OtpChallenge
new_challenge now id user_id code_hash = record {
  id = id;
  user_id = user_id;
  code_hash = code_hash;
  expires_at = now + otp_expiry_minutes * 60 * 1000;
  used_at = none;
  created_at = now;
}

abbrev pub create_challenge : OtpChallenge → Store → Result UnlockError (Unit {0}) × Store
create_challenge c = modify (λ s. record s { challenges = c ∷ s.challenges })

abbrev pub publish : Bool → Store → Result UnlockError (Unit {0}) × Store
publish true = pure tt
publish false = raise delivery_unavailable

abbrev pub require : Option ℕ → Store → Result UnlockError (Unit {0}) × Store
require none = raise channel_not_configured
require (some _) = pure tt

-- The payload of `signChallengeToken`, with the id of the token.
abbrev pub token_for : ℕ → ℕ → ℕ → ChallengePayload
token_for user_id id jti = record { user_id = user_id; otp_challenge_id = some id; jti = some jti }

-- The steps after the passcode has matched.
abbrev pub send_code :
    Bool
    → ℕ
    → ℕ
    → ℕ
    → ℕ
    → UnlockAppParams
    → Channel
    → Account
    → Store
    → Result UnlockError ChallengePayload × Store
send_code delivered now id code_hash jti q c a =
    register_device now a.id q
    >> unlock_record now a.id q true (some "Passcode verified, OTP sent")
    >> require (address c a)
    >> create_challenge (new_challenge now id a.id code_hash)
    >> publish delivered
    >> modify (audited (recovery_initiated a.id))
    >> pure (token_for a.id id jti)

module _ (matches : ℕ → ℕ → Bool) (delivered : Bool) (now id code_hash jti : ℕ) where
  -- The checks of an account that has a passcode.
  abbrev pub check_account :
      UnlockAppParams → Channel → Account → ℕ → Store → Result UnlockError ChallengePayload × Store
  check_account q c a hash s =
      let limit =
        check_recovery_rate_limit now q.identifier (some a.id) q.device_fingerprint.ip none
          s.attempts in
      if limit.allowed
      then (if is_device_rate_limited now a.id q.device_fingerprint.fingerprint s.devices
          then (unlock_record now a.id q false (some "Device rate limited") >> raise device_limited)
              s
          else if matches q.passcode hash
          then send_code delivered now id code_hash jti q c a s
          else (unlock_record now a.id q false (some "Invalid passcode") >> raise invalid_passcode)
              s)
      else (unlock_record now a.id q false (reason_text limit.reason) >> raise rate_limit_exceeded)
          s

  abbrev pub check_passcode_set :
      UnlockAppParams
      → Channel
      → Account
      → Option ℕ
      → Store
      → Result UnlockError ChallengePayload × Store
  check_passcode_set q c a none s = raise not_enabled s
  check_passcode_set q c a (some hash) s = check_account q c a hash s

  abbrev pub check_user :
      UnlockAppParams
      → Channel
      → Option Account
      → Store
      → Result UnlockError ChallengePayload × Store
  check_user q c none s = raise not_enabled s
  check_user q c (some a) s = check_passcode_set q c a a.passcode_hash s

  abbrev pub check_contact :
      List Account → UnlockAppParams → Contact → Store → Result UnlockError ChallengePayload × Store
  check_contact accounts q neither s = raise bad_identifier s
  check_contact accounts q (reachable c x) s = check_user q c (find_account c x accounts) s

  -- `unlockApp`
  unfoldable pub unlock_app :
      List Account → UnlockAppParams → Store → Result UnlockError ChallengePayload × Store
  unlock_app accounts q = check_contact accounts q q.contact
