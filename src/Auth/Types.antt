-- ===== src/Auth/Types.antt =====
-- The rows, the requests and the errors of the sign-in: src/services/auth/authService.ts.
use acbu_backend.Prelude.{ℕ, Bool, true, false, Option, some, List, ◌==◌, if◌then◌else◌}
use acbu_backend.Auth.Refresh as Refresh
use acbu_backend.Auth.Guard.{Counters, GuardConfig}

-- The column `twoFaMethod`, where it is set.
pub data Method : Type 0 where
  totp sms email unsupported : Method

abbrev pub same_method : Method → Method → Bool
same_method totp totp = true
same_method sms sms = true
same_method email email = true
same_method unsupported unsupported = true
same_method _ _ = false

-- The columns of `users` that the sign-in reads or writes.
pub record Account : Type 0 where
  pub passcode_hash : Option ℕ
  pub two_fa_method : Option Method
  pub totp_secret : Option ℕ
  pub email : Option ℕ
  pub phone : Option ℕ
  pub failed_signin_attempts : ℕ
  pub lockout_until : Option ℕ

-- A row of `otp_challenges`.
pub record OtpChallenge : Type 0 where
  pub id : ℕ
  pub user_id : ℕ
  pub channel : Method
  pub code_hash : ℕ
  pub expires_at : ℕ
  pub used_at : Option ℕ
  pub created_at : ℕ

-- `index` is the look-up by the unique columns username, phone and email.
pub record State : Type 0 where
  pub users : ℕ → Option Account
  pub index : ℕ → Option ℕ
  pub challenges : List OtpChallenge
  pub sessions : Refresh.Store
  pub revoked : List ℕ
  pub counters : Counters

pub data AuthError : Type 0 where
  too_many_attempts captcha_required invalid_credentials : AuthError
  channel_not_configured invalid_challenge invalid_code invalid_or_expired_code : AuthError
  totp_not_configured record_not_found : AuthError

-- The configuration, and the libraries: `bcrypt.compare` and `totp.check`.
pub record Config : Type 0 where
  pub guard : GuardConfig
  pub max_signin_attempts : ℕ
  pub signin_lockout_duration_ms : ℕ
  pub matches : ℕ → ℕ → Bool
  pub check_totp : ℕ → ℕ → Bool

-- What a call draws at random.
pub record Draw : Type 0 where
  pub challenge_id : ℕ
  pub code_hash : ℕ
  pub key : ℕ
  pub refresh_hash : ℕ
  pub refresh_family : ℕ

-- `SigninParams`: the key of the guard is that of the identifier and the address, and the captcha, where
-- a token is given, is what `verifyCaptcha` says of it.
pub record SigninParams : Type 0 where
  pub identifier : ℕ
  pub passcode : ℕ
  pub guard_key : ℕ
  pub captcha : Option Bool
  pub issue_refresh_token : Bool

-- What `verifyChallengeToken` finds in a token that it accepts.
pub record ChallengePayload : Type 0 where
  pub user_id : ℕ
  pub jti : Option ℕ

-- `Verify2faParams`
pub record Verify2faParams : Type 0 where
  pub payload : Option ChallengePayload
  pub code : ℕ
  pub guard_key : ℕ
  pub issue_refresh_token : Bool

-- `SigninResult`: a challenge for the user, or a key with its user.
pub data SigninResult : Type 0 where
  requires_2fa : ℕ → SigninResult
  signed_in : (key user_id : ℕ) → SigninResult

abbrev pub set_account : ℕ → Account → (ℕ → Option Account) → ℕ → Option Account
set_account id a users j = if j == id then some a else users j

-- What becomes of a code: it is right, it is wrong, or there is nothing to compare it with.
pub data Verdict : Type 0 where
  right_code wrong_code : Verdict
  unanswerable : AuthError → Verdict
