-- ===== src/Recovery/Unlock/Challenges.antt =====
-- When a code is sent: src/services/recovery/recoveryService.ts.
use acbu_backend.Prelude.{
  ℕ, ◌+◌, ◌≡◌, refl, inl, inr, ◌⊎◌, Bool, true, false, Option, none, some, List, ◌∷◌, if◌then◌else◌,
}
use acbu_backend.Prelude.Result.{Result, ok, err}
use acbu_backend.Prelude.Action.{raise, pure, modify, ◌>>◌}
use acbu_backend.Recovery.RateLimit.{check_recovery_rate_limit, RateLimitResult}
use acbu_backend.Recovery.Devices.{is_device_rate_limited}
use acbu_backend.Recovery.Otp.{ChallengePayload, OtpChallenge, Store, audited, recovery_initiated}
use acbu_backend.Recovery.Unlock.{
  Channel, Account, Contact, reachable, neither, UnlockError, UnlockAppParams, find_account,
  new_challenge, token_for, send_code, unlock_record, device_limited, invalid_passcode,
  rate_limit_exceeded, reason_text, check_account, check_passcode_set, check_user, check_contact,
  address, unlock_app, register_device, require, create_challenge, publish, channel_not_configured,
  delivery_unavailable, not_enabled, bad_identifier,
}

module _ (matches : ℕ → ℕ → Bool) (delivered : Bool) (now id code_hash jti : ℕ)
    (accounts : List Account) (q : UnlockAppParams) where
  -- A code has been sent to the owner of an account.
  pub record CodeSent (s : Store) (out : Result UnlockError ChallengePayload × Store) : Type 0 where
    pub channel : Channel
    pub reached : ℕ
    pub account : Account
    pub hash : ℕ
    pub contact_is : q.contact ≡ reachable channel reached
    pub owner : find_account channel reached accounts ≡ some account
    pub passcode_set : account.passcode_hash ≡ some hash
    pub passcode_matches : matches q.passcode hash ≡ true
    pub within_limit :
        (check_recovery_rate_limit now q.identifier
          (some account.id)
          q.device_fingerprint.ip
          none
          s.attempts).allowed
        ≡ true
    pub device_within_limit :
        is_device_rate_limited now account.id q.device_fingerprint.fingerprint s.devices ≡ false
    pub sent : OtpChallenge
    pub challenge_added : out.1.challenges ≡ sent ∷ s.challenges
    pub of_account : sent.user_id ≡ account.id
    pub with_code : sent.code_hash ≡ code_hash
    pub unused : sent.used_at ≡ none
    pub expires_after_ten_minutes : sent.expires_at ≡ now + 600000
    pub token : ChallengePayload
    pub returned : out.0 ≡ ok token
    pub token_user : token.user_id ≡ account.id
    pub token_names : token.otp_challenge_id ≡ some sent.id

  -- No token is returned, and no key changes.
  abbrev pub NoCode : Store → Result UnlockError ChallengePayload × Store → Type 0
  NoCode s out = ((e : UnlockError) × (out.0 ≡ err e)) × (out.1.api_keys ≡ s.api_keys)

  abbrev Sent : Account → Store → Result UnlockError ChallengePayload × Store → Type 0
  Sent a s out =
      (out.0 ≡ ok (token_for a.id id jti))
      × (out.1.challenges ≡ new_challenge now id a.id code_hash ∷ s.challenges)

  send-cases :
      (c : Channel) (a : Account) (s : Store)
      → let out = send_code delivered now id code_hash jti q c a s in NoCode s out ⊎ Sent a s out
  send-cases c a s = go delivered (address c a)
    where
      go :
          (delivered : Bool) (to : Option ℕ)
          → let out =
              (register_device now a.id q
                  >> unlock_record now a.id q true (some "Passcode verified, OTP sent")
                  >> require to
                  >> create_challenge (new_challenge now id a.id code_hash)
                  >> publish delivered
                  >> modify (audited (recovery_initiated a.id))
                  >> pure (token_for a.id id jti))
                s in
            NoCode s out ⊎ Sent a s out
      go delivered none = inl ((channel_not_configured, refl), refl)
      go true (some to) = inr (refl, refl)
      go false (some to) = inl ((delivery_unavailable, refl), refl)

  account-cases :
      (c : Channel) (x : ℕ) (a : Account) (hash : ℕ) (s : Store)
      → q.contact ≡ reachable c x
      → find_account c x accounts ≡ some a
      → a.passcode_hash ≡ some hash
      → let out = check_account matches delivered now id code_hash jti q c a hash s in
        NoCode s out ⊎ CodeSent s out
  account-cases c x a hash s e f p =
      go
        (check_recovery_rate_limit now q.identifier (some a.id) q.device_fingerprint.ip none
          s.attempts).allowed
        (is_device_rate_limited now a.id q.device_fingerprint.fingerprint s.devices)
        (matches q.passcode hash) refl refl refl (send-cases c a s)
    where
      limit : RateLimitResult
      limit =
          check_recovery_rate_limit now q.identifier (some a.id) q.device_fingerprint.ip none
            s.attempts

      sent : Result UnlockError ChallengePayload × Store
      sent = send_code delivered now id code_hash jti q c a s

      go :
          (allowed limited matched : Bool)
          → limit.allowed ≡ allowed
          → is_device_rate_limited now a.id q.device_fingerprint.fingerprint s.devices ≡ limited
          → matches q.passcode hash ≡ matched
          → NoCode s sent ⊎ Sent a s sent
          → let out =
              if allowed
              then (if limited
                  then (unlock_record now a.id q false (some "Device rate limited")
                        >> raise device_limited)
                      s
                  else if matched
                  then send_code delivered now id code_hash jti q c a s
                  else (unlock_record now a.id q false (some "Invalid passcode")
                        >> raise invalid_passcode)
                      s)
              else (unlock_record now a.id q false (reason_text limit.reason)
                    >> raise rate_limit_exceeded)
                  s in
            NoCode s out ⊎ CodeSent s out
      go false limited matched l d m ends = inl ((rate_limit_exceeded, refl), refl)
      go true true matched l d m ends = inl ((device_limited, refl), refl)
      go true false false l d m ends = inl ((invalid_passcode, refl), refl)
      go true false true l d m (inl unsent) = inl unsent
      go true false true l d m (inr (returned, added)) = inr (record {
        channel = c;
        reached = x;
        account = a;
        hash = hash;
        contact_is = e;
        owner = f;
        passcode_set = p;
        passcode_matches = m;
        within_limit = l;
        device_within_limit = d;
        sent = new_challenge now id a.id code_hash;
        challenge_added = added;
        of_account = refl;
        with_code = refl;
        unused = refl;
        expires_after_ten_minutes = refl;
        token = token_for a.id id jti;
        returned = returned;
        token_user = refl;
        token_names = refl;
      })

  contact-cases :
      (contact : Contact) (s : Store)
      → q.contact ≡ contact
      → let out = check_contact matches delivered now id code_hash jti accounts q contact s in
        NoCode s out ⊎ CodeSent s out
  contact-cases neither s e = inl ((bad_identifier, refl), refl)
  contact-cases (reachable c x) s e = go (find_account c x accounts) refl
    where
      with_passcode :
          (a : Account) (set : Option ℕ)
          → find_account c x accounts ≡ some a
          → a.passcode_hash ≡ set
          → let out = check_passcode_set matches delivered now id code_hash jti q c a set s in
            NoCode s out ⊎ CodeSent s out
      with_passcode a none f p = inl ((not_enabled, refl), refl)
      with_passcode a (some hash) f p = account-cases c x a hash s e f p

      go :
          (o : Option Account)
          → find_account c x accounts ≡ o
          → let out = check_user matches delivered now id code_hash jti q c o s in
            NoCode s out ⊎ CodeSent s out
      go none f = inl ((not_enabled, refl), refl)
      go (some a) f = with_passcode a a.passcode_hash f refl

  -- Either an error is returned and no key changes, or the identifier belongs to an account with a
  -- passcode that matches, neither the rate limit nor the device's is exceeded, and a new unused code
  -- of that account, which expires after ten minutes, is stored and named in the token returned.
  pub unlock_outcomes :
      (s : Store)
      → let out = unlock_app matches delivered now id code_hash jti accounts q s in
        NoCode s out ⊎ CodeSent s out
  unfolding unlock_app
  unlock_outcomes s = contact-cases q.contact s refl
