-- ===== src/Witnesses/RecoveryCodes.antt =====
-- The theorems about src/services/recovery at a concrete user, challenge and code.
use mathlib.Core.List.{not-mem-nil}
use acbu_backend.Prelude.{ℕ, refl, ◌⊎◌, Bool, true, false, none, some, List, [], ◌∷◌, ◌==◌, arith}
use acbu_backend.Recovery.RateLimit.{Attempt, check_recovery_rate_limit}
use acbu_backend.Recovery.Otp.{
  ChallengePayload, OtpChallenge, Store, Faults, VerifyRecoveryOtpParams, verify_recovery_otp,
}
use acbu_backend.Recovery.Otp.Flow.{Refused}
use acbu_backend.Recovery.Otp.Issue.{Issued, Ends, key_issued_only}
use acbu_backend.Recovery.Otp.SingleUse.{code_used_once}
use acbu_backend.Recovery.Unlock.{Account, UnlockAppParams, reachable, email, unlock_app}
use acbu_backend.Recovery.Unlock.Challenges.{NoCode, CodeSent, unlock_outcomes}
use acbu_backend.Recovery.Otp.Lockout.{three_attempts_lock_out}

abbrev attempt : ℕ → Attempt
attempt t = record {
  user_id = 1;
  identifier = 500;
  success = false;
  reason = some "recovery-otp:invalid";
  ip = some 9;
  created_at = t;
}

abbrev payload : ChallengePayload
payload = record { user_id = 1; otp_challenge_id = some 3; jti = some 70 }

abbrev challenge : OtpChallenge
challenge = record {
  id = 3;
  user_id = 1;
  code_hash = 123456;
  expires_at = 600000;
  used_at = none;
  created_at = 0;
}

abbrev store : List Attempt → Store
store attempts = record {
  attempts = attempts;
  challenges = challenge ∷ [];
  api_keys = record { key = 11; user_id = 1; revoked_at = none } ∷ [];
  revoked = [];
  devices = [];
  audit = [];
}

abbrev no_faults : Faults
no_faults = record {
  lookup = false;
  rate_limit = false;
  tracking = false;
  update = false;
  compare = false;
  rotation = false;
  key_generation = false;
  device_check = false;
  device_trust = false;
}

abbrev request : VerifyRecoveryOtpParams
request = record {
  token = some payload;
  attempt_key = 500;
  code = some 123456;
  device_fingerprint = none;
  trust_device = false;
}

abbrev equal_codes : ℕ → ℕ → Bool
equal_codes code hash = code == hash

abbrev after_success : Store
after_success = (verify_recovery_otp equal_codes no_faults 1000 request 12 (store [])).1

key_issued_only_example :
    let out = verify_recovery_otp equal_codes no_faults 1000 request 12 (store []) in
    Ends equal_codes no_faults 1000 request 12 (store []) out
key_issued_only_example = key_issued_only equal_codes no_faults 1000 request 12 (store [])

issued :
    Issued equal_codes no_faults 1000 request 12
      (store [])
      (verify_recovery_otp equal_codes no_faults 1000 request 12 (store []))
unfolding verify_recovery_otp check_recovery_rate_limit
issued = record {
  payload = payload;
  challenge = challenge;
  token_decodes = refl;
  not_revoked = λ j e m. not-mem-nil m;
  found = refl;
  within_limit = refl;
  right_code = record { code = 123456; code_sent = refl; code_matches = refl };
  accepted = (refl, record { challenges_used = refl; keys_rotated = refl });
}

code_used_once_example :
    Refused after_success (verify_recovery_otp equal_codes no_faults 2000 request 13 after_success)
unfolding issued
code_used_once_example =
    code_used_once equal_codes no_faults no_faults 1000 2000 3 request request 12 13 (store [])
      after_success payload issued refl refl refl refl

abbrev three_attempts : List Attempt
three_attempts = attempt 900 ∷ attempt 800 ∷ attempt 700 ∷ []

three_attempts_lock_out_example :
    Refused
      (store three_attempts)
      (verify_recovery_otp equal_codes no_faults 1000 request 12 (store three_attempts))
three_attempts_lock_out_example =
    three_attempts_lock_out equal_codes no_faults 1000 request 12 payload (store three_attempts)
      refl (omega arith)

abbrev accounts : List Account
accounts = record { id = 1; email = some 40; phone = none; passcode_hash = some 777 } ∷ []

abbrev unlock_request : UnlockAppParams
unlock_request = record {
  identifier = 40;
  contact = reachable email 40;
  passcode = 777;
  device_fingerprint = record { ip = some 9; fingerprint = 88 };
}

unlock_outcomes_example :
    let out = unlock_app equal_codes true 1000 4 654321 71 accounts unlock_request (store []) in
    NoCode equal_codes true 1000 4 654321 71 accounts unlock_request (store []) out
    ⊎ CodeSent equal_codes true 1000 4 654321 71 accounts unlock_request (store []) out
unlock_outcomes_example =
    unlock_outcomes equal_codes true 1000 4 654321 71 accounts unlock_request (store [])
