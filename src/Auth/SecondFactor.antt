-- ===== src/Auth/SecondFactor.antt =====
-- `verify2fa` of src/services/auth/authService.ts, as the sign-in module models the rest.
use acbu_backend.Prelude.{
  ℕ, Bool, true, false, Option, none, some, List, [], ◌∷◌, ◌==◌, ◌&&◌, ltb, if◌then◌else◌,
}
use acbu_backend.Prelude.Result.{ok, err}
use acbu_backend.Auth.Refresh.{issue_refresh_token, is_unset}
use acbu_backend.Auth.Guard.{get_status}
use acbu_backend.Auth.Types.{
  Method, totp, sms, email, unsupported, same_method, Account, OtpChallenge, State,
  too_many_attempts, invalid_credentials, invalid_challenge, invalid_code, invalid_or_expired_code,
  totp_not_configured, Config, Draw, ChallengePayload, Verify2faParams, signed_in, Verdict,
  right_code, wrong_code, unanswerable,
}
use acbu_backend.Auth.Signin.{Outcome, is_locked, failed_once, cleared, write, open_session}

module _ (c : Config) (d : Draw) (now : ℕ) where
  -- A challenge that may be answered.
  abbrev pub is_open : ℕ → Method → OtpChallenge → Bool
  is_open id m x =
      x.user_id == id && same_method x.channel m && ltb now x.expires_at && is_unset x.used_at

  abbrev pub later : OtpChallenge → Option OtpChallenge → Option OtpChallenge
  later x none = some x
  later x (some y) = if ltb x.created_at y.created_at then some y else some x

  -- `findFirst` with the newest first.
  abbrev pub newest_open : ℕ → Method → List OtpChallenge → Option OtpChallenge
  newest_open id m [] = none
  newest_open id m (x ∷ xs) =
      let rest = newest_open id m xs in if is_open id m x then later x rest else rest

  abbrev pub verdict : Bool → Verdict
  verdict true = right_code
  verdict false = wrong_code

  abbrev pub against_secret : ℕ → Option ℕ → Verdict
  against_secret code none = unanswerable totp_not_configured
  against_secret code (some secret) = verdict (c.check_totp code secret)

  abbrev pub against_challenge : ℕ → Option OtpChallenge → Verdict
  against_challenge code none = unanswerable invalid_or_expired_code
  against_challenge code (some x) = verdict (c.matches code x.code_hash)

  -- The test of the code. A method that is none of the three is not tested at all.
  abbrev pub check_code : ℕ → ℕ → Account → Method → List OtpChallenge → Verdict
  check_code id code a totp xs = against_secret code a.totp_secret
  check_code id code a sms xs = against_challenge code (newest_open id sms xs)
  check_code id code a email xs = against_challenge code (newest_open id email xs)
  check_code id code a unsupported xs = right_code

  abbrev pub revoke_jti : Option ℕ → State → State
  revoke_jti none s = s
  revoke_jti (some jti) s = record s { revoked = jti ∷ s.revoked }

  abbrev pub after_code : ChallengePayload → Account → Bool → Verdict → State → Outcome
  after_code p a refresh (unanswerable e) s = (err e, s)
  after_code p a refresh wrong_code s = (err invalid_code, write p.user_id (failed_once c now a) s)
  after_code p a refresh right_code s = (
    ok (signed_in d.key p.user_id),
    open_session d now p.user_id refresh (revoke_jti p.jti (write p.user_id (cleared a) s)),
  )

  abbrev pub unless_locked :
      Bool → ChallengePayload → Account → Method → Verify2faParams → State → Outcome
  unless_locked true p a m q s = (err too_many_attempts, s)
  unless_locked false p a m q s =
      after_code p a q.issue_refresh_token (check_code p.user_id q.code a m s.challenges) s

  abbrev pub with_method :
      ChallengePayload → Account → Option Method → Verify2faParams → State → Outcome
  with_method p a none q s = (err invalid_credentials, s)
  with_method p a (some m) q s = unless_locked (is_locked now a.lockout_until) p a m q s

  abbrev pub with_account : ChallengePayload → Option Account → Verify2faParams → State → Outcome
  with_account p none q s = (err invalid_credentials, s)
  with_account p (some a) q s = with_method p a a.two_fa_method q s

  abbrev pub unless_guarded : Bool → ChallengePayload → Verify2faParams → State → Outcome
  unless_guarded true p q s = (err too_many_attempts, s)
  unless_guarded false p q s = with_account p (s.users p.user_id) q s

  abbrev pub with_payload : Bool → Option ChallengePayload → Verify2faParams → State → Outcome
  with_payload available none q s = (err invalid_challenge, s)
  with_payload available (some p) q s =
      unless_guarded (get_status c.guard available now q.guard_key s.counters).locked p q s

  -- `verify2fa`
  unfoldable pub verify_2fa : Bool → Verify2faParams → State → Outcome
  unfolding get_status issue_refresh_token
  verify_2fa available q s = with_payload available q.payload q s
