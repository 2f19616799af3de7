-- ===== src/Witnesses/Signins.antt =====
-- The theorems about src/services/auth/authService.ts and src/utils/authBruteGuard.ts at concrete
-- calls.
use acbu_backend.Prelude.{
  ◌+◌, ℕ, ◌≤◌, ◌≡◌, ◌*◌, refl, Bool, true, false, none, some, List, [], ◌∷◌, ◌==◌, if◌then◌else◌,
  arith,
}
use acbu_backend.Prelude.Result.{ok, err}
use acbu_backend.Auth.Refresh as Refresh
use acbu_backend.Auth.Refresh.{RefreshToken, refresh_access_token, invalid_or_expired}
use acbu_backend.Auth.Refresh.Families.{issue, run}
use acbu_backend.Auth.Refresh.Rotation.{refreshed_once}
use acbu_backend.Auth.Guard.{Counters, GuardConfig, get_status}
use acbu_backend.Auth.Types.{
  ChallengePayload, Method, sms, Account, OtpChallenge, State, Config, Draw, SigninParams,
  Verify2faParams, signed_in, too_many_attempts,
}
use acbu_backend.Auth.Privileged as Privileged
use acbu_backend.Auth.Privileged.{
  sme_admin, other_scope, PrivilegedKey, IssueParams, ttl_or_default, issue_break_glass_key,
  verify_mfa_challenge_for_user, break_glass_key,
}
use acbu_backend.Auth.Privileged.Grants.{Administers, AdminOnly, IsShort, break_glass_key_bounds}
use acbu_backend.Auth.SecondFactor.{verify_2fa}
use acbu_backend.Auth.Factors.{Answers, verify_2fa-Answers}
use acbu_backend.Auth.Lockout.{Attempt, attempt, attempts, wrong_passcodes_lock}
use acbu_backend.Auth.Unguarded.{signs_in, calls, guard_never_locks}

abbrev token : RefreshToken
token = record {
  user_id = 1;
  token_family_id = 30;
  token_hash = 40;
  expires_at = 5000;
  revoked_at = none;
  replaced_by_token = none;
}

abbrev sessions : Refresh.Store
sessions = record { tokens = token ∷ []; keys = [] }

refreshed : (refresh_access_token 100 40 41 31 7 sessions).0 ≡ ok (41, 1)
unfolding refresh_access_token
refreshed = refl

refreshed_once_example :
    let s' = run (issue 150 1 42 32 ∷ []) (refresh_access_token 100 40 41 31 7 sessions).1 in
    refresh_access_token 200 40 43 33 8 s' ≡ (err invalid_or_expired, s')
refreshed_once_example =
    refreshed_once 100 200 40 41 31 7 43 33 8 sessions (41, 1) (issue 150 1 42 32 ∷ [])
      (omega arith) refl refreshed (refl, tt)

abbrev guard_config : GuardConfig
guard_config = record { brute_lockout_ms = 1000; brute_max_attempts = 3 }

abbrev two_times : List ℕ
two_times = 10 ∷ 20 ∷ []

abbrev no_counters : Counters
no_counters _ = none

abbrev equals : ℕ → ℕ → Bool
equals a b = a == b

abbrev config : Config
config = record {
  guard = guard_config;
  max_signin_attempts = 2;
  signin_lockout_duration_ms = 600;
  matches = equals;
  check_totp = equals;
}

abbrev draw : Draw
draw = record { challenge_id = 9; code_hash = 60; key = 70; refresh_hash = 80; refresh_family = 90 }

abbrev account : Account
account = record {
  passcode_hash = some 1234;
  two_fa_method = some sms;
  totp_secret = none;
  email = none;
  phone = some 55;
  failed_signin_attempts = 0;
  lockout_until = none;
}

abbrev code_row : OtpChallenge
code_row = record {
  id = 3;
  user_id = 1;
  channel = sms;
  code_hash = 60;
  expires_at = 900;
  used_at = none;
  created_at = 100;
}

abbrev state : State
state = record {
  users = λ i. if i == 1 then some account else none;
  index = λ i. if i == 11 then some 1 else none;
  challenges = code_row ∷ [];
  sessions = sessions;
  revoked = [];
  counters = no_counters;
}

abbrev answer : Verify2faParams
answer = record {
  payload = some (record { user_id = 1; jti = some 6 });
  code = 60;
  guard_key = 5;
  issue_refresh_token = true;
}

verified : (verify_2fa config draw 200 true answer state).0 ≡ ok (signed_in 70 1)
unfolding verify_2fa
verified = refl

verify_2fa-Answers_example :
    (p : ChallengePayload) × (a : Account) × (m : Method) × (answer.payload ≡ some p)
    × (p.user_id ≡ 1)
    × (state.users 1 ≡ some a)
    × (a.two_fa_method ≡ some m)
    × ((t : ℕ) → a.lockout_until ≡ some t → t ≤ 200)
    × Answers config draw 200 1 a m 60 state.challenges
verify_2fa-Answers_example = verify_2fa-Answers config draw 200 true answer state 70 1 verified

abbrev wrong : SigninParams
wrong = record {
  identifier = 11;
  passcode = 9999;
  guard_key = 5;
  captcha = none;
  issue_refresh_token = false;
}

abbrev first : Attempt
first = record { now = 100; available = true; draw = draw; params = wrong }

abbrev second : Attempt
second = record { now = 150; available = true; draw = draw; params = wrong }

abbrev right : Attempt
right = record {
  now = 700;
  available = true;
  draw = draw;
  params = record wrong { passcode = 1234 };
}

wrong_passcodes_lock_example :
    let t = attempts config (first ∷ second ∷ []) state in
    attempt config right t ≡ (err too_many_attempts, t)
wrong_passcodes_lock_example =
    wrong_passcodes_lock config first (second ∷ []) 1 1234 account state right (λ k. refl) refl refl
      refl (refl, refl, refl, (refl, refl, refl, tt)) refl refl refl (omega arith)

guard_never_locks_example :
    get_status guard_config true 300 5
      (calls config (signs_in first ∷ signs_in second ∷ []) state).counters
    ≡ record { attempts = 0; locked = false; requires_captcha = false }
guard_never_locks_example =
    guard_never_locks config (signs_in first ∷ signs_in second ∷ []) state true 300 5 (λ k. refl)

abbrev administrator : Privileged.Admin
administrator = record {
  enterprise_tier = true;
  organization_id = some 4;
  two_fa_method = some sms;
  totp_secret = none;
}

abbrev privileged_store : Privileged.Store
privileged_store = record {
  users = λ i. if i == 1 then some administrator else none;
  challenges = code_row ∷ [];
  revoked = [];
  keys = [];
}

abbrev emergency : IssueParams
emergency = record {
  actor_user_id = 1;
  has_reason = true;
  permissions = other_scope 3 ∷ sme_admin ∷ [];
  ttl_minutes = some 30;
  payload = some (record { user_id = 1; jti = some 6 });
  code = 60;
}

abbrev emergency_key : PrivilegedKey
emergency_key = record {
  id = 70;
  user_id = 1;
  organization_id = 4;
  key_type = break_glass_key;
  permissions = sme_admin ∷ [];
  expires_at = some (200 + 30 * 60 * 1000);
  revoked_at = none;
}

issued : (issue_break_glass_key config draw 200 emergency privileged_store).0 ≡ ok emergency_key
unfolding issue_break_glass_key
issued = refl

break_glass_key_bounds_example :
    ((verify_mfa_challenge_for_user config draw 200 1 emergency.payload 60 privileged_store).0
      ≡ ok tt)
    × (emergency_key.user_id ≡ 1)
    × Administers (privileged_store.users 1) emergency_key.organization_id
    × (emergency.has_reason ≡ true)
    × AdminOnly emergency_key.permissions
    × IsShort (ttl_or_default emergency.ttl_minutes)
    × (emergency_key.expires_at ≡ some (200 + ttl_or_default emergency.ttl_minutes * 60 * 1000))
break_glass_key_bounds_example =
    break_glass_key_bounds config draw 200 emergency privileged_store emergency_key issued
