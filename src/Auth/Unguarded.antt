-- ===== src/Auth/Unguarded.antt =====
-- The brute-force guard is read and never told of a failure: src/services/auth/authService.ts.
use acbu_backend.Prelude.{
  ℕ, ◌≡◌, refl, ◌∙◌, ap, Bool, true, false, Option, none, some, List, [], ◌∷◌,
}
use acbu_backend.Auth.Guard.{get_status}
use acbu_backend.Auth.Types.{
  Method, totp, sms, email, unsupported, Account, State, AuthError, Config, Draw, SigninParams,
  ChallengePayload, Verify2faParams, Verdict, right_code, wrong_code, unanswerable,
}
use acbu_backend.Auth.Signin.{
  Outcome, is_locked, cleared, write, challenge, second_factor, after_compare, check_passcode,
  check_lockout, resolved_account, resolved, guarded, signin,
}
use acbu_backend.Auth.SecondFactor.{
  after_code, unless_locked, with_method, with_account, unless_guarded, with_payload, revoke_jti,
  verify_2fa,
}
use acbu_backend.Auth.Lockout.{NoCounts, NoCounts-status, Attempt, attempt}

-- The counters after a call are those before.
abbrev KeepsCounters : State → Outcome → Type 0
KeepsCounters s out = out.1.counters ≡ s.counters

module _ (c : Config) (d : Draw) (now : ℕ) (s : State) where
  challenge-counters :
      (id : ℕ) (m : Method) (address : Option ℕ) (t : State)
      → t.counters ≡ s.counters
      → KeepsCounters s (challenge c d now id m address t)
  challenge-counters id m none t h = h
  challenge-counters id m (some x) t h = h

  second_factor-counters :
      (id : ℕ) (a : Account) (m : Option Method) (refresh : Bool) (t : State)
      → t.counters ≡ s.counters
      → KeepsCounters s (second_factor c d now id a m refresh t)
  second_factor-counters id a none refresh t h = h
  second_factor-counters id a (some sms) refresh t h = challenge-counters id sms a.phone t h
  second_factor-counters id a (some email) refresh t h = challenge-counters id email a.email t h
  second_factor-counters id a (some totp) refresh t h = h
  second_factor-counters id a (some unsupported) refresh t h = h

  after_compare-counters :
      (id : ℕ) (a : Account) (matched refresh : Bool)
      → KeepsCounters s (after_compare c d now id a matched refresh s)
  after_compare-counters id a false refresh = refl
  after_compare-counters id a true refresh =
      second_factor-counters id a a.two_fa_method refresh (write id (cleared a) s) refl

  check_passcode-counters :
      (id : ℕ) (a : Account) (hash : Option ℕ) (q : SigninParams)
      → KeepsCounters s (check_passcode c d now id a hash q s)
  check_passcode-counters id a none q = refl
  check_passcode-counters id a (some hash) q =
      after_compare-counters id a (c.matches q.passcode hash) q.issue_refresh_token

  check_lockout-counters :
      (id : ℕ) (a : Account) (locked : Bool) (q : SigninParams)
      → KeepsCounters s (check_lockout c d now id a locked q s)
  check_lockout-counters id a true q = refl
  check_lockout-counters id a false q = check_passcode-counters id a a.passcode_hash q

  resolved_account-counters :
      (id : ℕ) (a : Option Account) (q : SigninParams)
      → KeepsCounters s (resolved_account c d now id a q s)
  resolved_account-counters id none q = refl
  resolved_account-counters id (some a) q =
      check_lockout-counters id a (is_locked now a.lockout_until) q

  resolved-counters : (id : Option ℕ) (q : SigninParams) → KeepsCounters s (resolved c d now id q s)
  resolved-counters none q = refl
  resolved-counters (some id) q = resolved_account-counters id (s.users id) q

  guarded-counters :
      (e : Option AuthError) (q : SigninParams) → KeepsCounters s (guarded c d now e q s)
  guarded-counters (some e) q = refl
  guarded-counters none q = resolved-counters (s.index q.identifier) q

  signin-counters :
      (available : Bool) (q : SigninParams) → KeepsCounters s (signin c d now available q s)
  unfolding signin
  signin-counters available q = guarded-counters _ q

  revoke_jti-counters :
      (jti : Option ℕ) (t : State)
      → t.counters ≡ s.counters
      → (revoke_jti c d now jti t).counters ≡ s.counters
  revoke_jti-counters none t h = h
  revoke_jti-counters (some j) t h = h

  after_code-counters :
      (p : ChallengePayload) (a : Account) (refresh : Bool) (v : Verdict)
      → KeepsCounters s (after_code c d now p a refresh v s)
  after_code-counters p a refresh (unanswerable e) = refl
  after_code-counters p a refresh wrong_code = refl
  after_code-counters p a refresh right_code =
      revoke_jti-counters p.jti (write p.user_id (cleared a) s) refl

  unless_locked-counters :
      (locked : Bool) (p : ChallengePayload) (a : Account) (m : Method) (q : Verify2faParams)
      → KeepsCounters s (unless_locked c d now locked p a m q s)
  unless_locked-counters true p a m q = refl
  unless_locked-counters false p a m q = after_code-counters p a q.issue_refresh_token _

  with_method-counters :
      (p : ChallengePayload) (a : Account) (m : Option Method) (q : Verify2faParams)
      → KeepsCounters s (with_method c d now p a m q s)
  with_method-counters p a none q = refl
  with_method-counters p a (some m) q = unless_locked-counters _ p a m q

  with_account-counters :
      (p : ChallengePayload) (a : Option Account) (q : Verify2faParams)
      → KeepsCounters s (with_account c d now p a q s)
  with_account-counters p none q = refl
  with_account-counters p (some a) q = with_method-counters p a a.two_fa_method q

  unless_guarded-counters :
      (locked : Bool) (p : ChallengePayload) (q : Verify2faParams)
      → KeepsCounters s (unless_guarded c d now locked p q s)
  unless_guarded-counters true p q = refl
  unless_guarded-counters false p q = with_account-counters p (s.users p.user_id) q

  with_payload-counters :
      (available : Bool) (p : Option ChallengePayload) (q : Verify2faParams)
      → KeepsCounters s (with_payload c d now available p q s)
  with_payload-counters available none q = refl
  with_payload-counters available (some p) q = unless_guarded-counters _ p q

  verify_2fa-counters :
      (available : Bool) (q : Verify2faParams) → KeepsCounters s (verify_2fa c d now available q s)
  unfolding verify_2fa
  verify_2fa-counters available q = with_payload-counters available q.payload q

-- A call of `signin` or of `verify2fa`.
pub data Call : Type 0 where
  signs_in : Attempt → Call
  verifies : (now : ℕ) → (available : Bool) → Draw → Verify2faParams → Call

abbrev pub call : Config → Call → State → State
call c (signs_in x) s = (attempt c x s).1
call c (verifies now available d q) s = (verify_2fa c d now available q s).1

abbrev pub calls : Config → List Call → State → State
calls c [] s = s
calls c (x ∷ xs) s = calls c xs (call c x s)

call-counters : (c : Config) (x : Call) (s : State) → (call c x s).counters ≡ s.counters
call-counters c (signs_in x) s = signin-counters c x.draw x.now s x.available x.params
call-counters c (verifies now available d q) s = verify_2fa-counters c d now s available q

calls-counters : (c : Config) (xs : List Call) (s : State) → (calls c xs s).counters ≡ s.counters
calls-counters c [] s = refl
calls-counters c (x ∷ xs) s = calls-counters c xs (call c x s) ∙ call-counters c x s

-- The guard never refuses anyone: when it has counted nothing at first, then after any sign-ins and
-- verifications, however many of them fail, it has no key locked and asks no one for a captcha, since
-- neither operation records a failure.
pub guard_never_locks :
    (c : Config) (xs : List Call) (s : State) (available : Bool) (now k : ℕ)
    → NoCounts s
    → get_status c.guard available now k (calls c xs s).counters
      ≡ record { attempts = 0; locked = false; requires_captcha = false }
guard_never_locks c xs s available now k counts =
    NoCounts-status c available now k (calls c xs s)
      (λ j. ap (λ cs. cs j) (calls-counters c xs s) ∙ counts j)
