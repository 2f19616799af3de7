-- ===== src/Auth/Signin.antt =====
-- `signin` and `verify2fa` of src/services/auth/authService.ts. The sending of a code is left out, since
-- its failure is caught, and so are the audit trail and the wallet's status, which only add to the
-- reply. Whether the datastore of the guard answers is a parameter.
use acbu_backend.Prelude.{
  ℕ, suc, ◌+◌, ◌*◌, Bool, true, false, Option, none, some, ◌∷◌, ltb, leb, if◌then◌else◌,
}
use acbu_backend.Prelude.Result.{Result, ok, err}
use acbu_backend.Auth.Refresh.{issue_refresh_token}
use acbu_backend.Auth.Guard.{BruteStatus, get_status}
use acbu_backend.Auth.Types.{
  Method, totp, sms, email, unsupported, Account, OtpChallenge, State, AuthError, too_many_attempts,
  captcha_required, invalid_credentials, channel_not_configured, record_not_found, Config, Draw,
  SigninParams, SigninResult, requires_2fa, signed_in, set_account,
}

abbrev pub Outcome : Type 0
Outcome = Result AuthError SigninResult × State

-- `lockoutUntil && lockoutUntil > new Date()`
abbrev pub is_locked : ℕ → Option ℕ → Bool
is_locked now none = false
is_locked now (some t) = ltb now t

-- The account after a failure.
abbrev pub failed_once : Config → ℕ → Account → Account
failed_once c now a = record a {
  failed_signin_attempts = suc a.failed_signin_attempts;
  lockout_until =
      if leb c.max_signin_attempts (suc a.failed_signin_attempts)
      then some (now + c.signin_lockout_duration_ms)
      else none;
}

-- The account after a success.
abbrev pub cleared : Account → Account
cleared a = record a { failed_signin_attempts = 0; lockout_until = none }

abbrev pub write : ℕ → Account → State → State
write id a s = record s { users = set_account id a s.users }

-- `generateApiKey` and, where it is asked for, `issueRefreshToken`.
abbrev pub open_session : Draw → ℕ → ℕ → Bool → State → State
open_session d now user_id refresh s =
    let keyed = record s.sessions {
      keys = record { key = d.key; user_id = user_id } ∷ s.sessions.keys;
    } in
    record s {
      sessions =
          if refresh
          then issue_refresh_token now user_id d.refresh_hash d.refresh_family keyed
          else keyed;
    }

-- `OTP_EXPIRY_MINUTES`
abbrev pub otp_expiry_minutes : ℕ
otp_expiry_minutes = 10

abbrev pub new_challenge : ℕ → ℕ → ℕ → Method → ℕ → OtpChallenge
new_challenge now id user_id channel code_hash = record {
  id = id;
  user_id = user_id;
  channel = channel;
  code_hash = code_hash;
  expires_at = now + otp_expiry_minutes * 60 * 1000;
  used_at = none;
  created_at = now;
}

module _ (c : Config) (d : Draw) (now : ℕ) where
  -- The challenge that a sign-in with an address for codes creates.
  abbrev pub challenge : ℕ → Method → Option ℕ → State → Outcome
  challenge id m none s = (err channel_not_configured, s)
  challenge id m (some address) s = (
    ok (requires_2fa id),
    record s { challenges = new_challenge now d.challenge_id id m d.code_hash ∷ s.challenges },
  )

  -- What follows a passcode that matches.
  abbrev pub second_factor : ℕ → Account → Option Method → Bool → State → Outcome
  second_factor id a none refresh s = (ok (signed_in d.key id), open_session d now id refresh s)
  second_factor id a (some sms) refresh s = challenge id sms a.phone s
  second_factor id a (some email) refresh s = challenge id email a.email s
  second_factor id a (some totp) refresh s = (ok (requires_2fa id), s)
  second_factor id a (some unsupported) refresh s = (ok (requires_2fa id), s)

  abbrev pub after_compare : ℕ → Account → Bool → Bool → State → Outcome
  after_compare id a false refresh s = (err invalid_credentials, write id (failed_once c now a) s)
  after_compare id a true refresh s =
      second_factor id a a.two_fa_method refresh (write id (cleared a) s)

  abbrev pub check_passcode : ℕ → Account → Option ℕ → SigninParams → State → Outcome
  check_passcode id a none q s = (err invalid_credentials, s)
  check_passcode id a (some hash) q s =
      after_compare id a (c.matches q.passcode hash) q.issue_refresh_token s

  abbrev pub check_lockout : ℕ → Account → Bool → SigninParams → State → Outcome
  check_lockout id a true q s = (err too_many_attempts, s)
  check_lockout id a false q s = check_passcode id a a.passcode_hash q s

  -- The account of `resolveUserByIdentifier`. Without one, it is the dummy, which no row of the table
  -- has: whatever the passcode, the update of that row throws.
  abbrev pub resolved_account : ℕ → Option Account → SigninParams → State → Outcome
  resolved_account id none q s = (err record_not_found, s)
  resolved_account id (some a) q s = check_lockout id a (is_locked now a.lockout_until) q s

  abbrev pub resolved : Option ℕ → SigninParams → State → Outcome
  resolved none q s = (err record_not_found, s)
  resolved (some id) q s = resolved_account id (s.users id) q s

  -- The tests on the guard's status and the captcha.
  abbrev pub check_guard : BruteStatus → Option Bool → Option AuthError
  check_guard status (some true) = if status.locked then some too_many_attempts else none
  check_guard status (some false) =
      if status.locked then some too_many_attempts else some captcha_required
  check_guard status none =
      if status.locked
      then some too_many_attempts
      else if status.requires_captcha
      then some captcha_required
      else none

  abbrev pub guarded : Option AuthError → SigninParams → State → Outcome
  guarded (some e) q s = (err e, s)
  guarded none q s = resolved (s.index q.identifier) q s

  -- `signin`
  unfoldable pub signin : Bool → SigninParams → State → Outcome
  unfolding get_status issue_refresh_token
  signin available q s =
      guarded (check_guard (get_status c.guard available now q.guard_key s.counters) q.captcha) q s
