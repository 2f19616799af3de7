-- ===== src/Recovery/Otp/Issue.antt =====
-- What has to hold for a recovery to issue a key: src/services/recovery/recoveryService.ts.
use acbu_backend.Prelude.{
  ℕ, ◌≡◌, refl, inl, inr, ◌⊎◌, Bool, true, false, Option, none, some, not, leb, if◌then◌else◌,
}
use acbu_backend.Prelude.Result.{Result}
use acbu_backend.Prelude.Action.{raise, ◌>>◌}
use acbu_backend.Recovery.RateLimit.{check_recovery_rate_limit, RateLimitResult}
use acbu_backend.Recovery.Otp.{
  ChallengePayload, OtpChallenge, Store, Faults, OtpError, invalid_challenge,
  invalid_or_expired_code, lockout, unavailable, recovery_failed, rate_limited, audit,
  VerifyRecoveryOtpParams, recovery_otp_attempt_prefix, recovery_otp_max_attempts, ip_of,
  is_revoked, find_challenge, attempt_count, reject_otp, accept_otp, check_code, check_limit,
  check_challenge, check_payload, verify_recovery_otp, unavailable_after_revoking, close_challenge,
  record_recovery_otp_attempt, when_locked,
}
use acbu_backend.Recovery.Otp.Accepting.{Accepted, Stopped, Ended, accept-cases}
use acbu_backend.Recovery.Otp.Revoked.{NotRevoked, unrevoked}
use acbu_backend.Recovery.Otp.Flow.{
  Refused, AlwaysRefused, then-Refused, then-KeepsKeys, revoke-keys, unavailable-Refused,
  record-KeepsKeys, close-KeepsKeys, when_locked-KeepsKeys, reject-Refused,
}

-- The answer of the rate limit to the request.
abbrev pub limit_of : ℕ → VerifyRecoveryOtpParams → ChallengePayload → Store → RateLimitResult
limit_of now q p s =
    check_recovery_rate_limit now q.attempt_key (some p.user_id) (some (ip_of q.device_fingerprint))
      (some recovery_otp_attempt_prefix) s.attempts

module _ (matches : ℕ → ℕ → Bool) (faults : Faults) (now : ℕ) (q : VerifyRecoveryOtpParams)
    (api_key : ℕ) where
  -- The code that was sent is that of the challenge.
  pub record CodeMatches (c : OtpChallenge) : Type 0 where
    pub code : ℕ
    pub code_sent : q.code ≡ some code
    pub code_matches : matches code c.code_hash ≡ true

  -- A key has been issued: the token decodes and is not revoked, it leads to a usable challenge, the
  -- rate limit allows the attempt, the code matches, and the store is as it has to be.
  pub record Issued (s : Store) (out : Result OtpError (ℕ × ℕ) × Store) : Type 0 where
    pub payload : ChallengePayload
    pub challenge : OtpChallenge
    pub token_decodes : q.token ≡ some payload
    pub not_revoked : NotRevoked payload.jti s.revoked
    pub found : find_challenge payload now s.challenges ≡ some challenge
    pub within_limit : (limit_of now q payload s).allowed ≡ true
    pub right_code : CodeMatches challenge
    pub accepted : Accepted faults now api_key payload.user_id challenge.id s out

  -- The same, but the making of the key or a call about the device has thrown.
  pub record Interrupted (s : Store) (out : Result OtpError (ℕ × ℕ) × Store) : Type 0 where
    pub payload : ChallengePayload
    pub challenge : OtpChallenge
    pub token_decodes : q.token ≡ some payload
    pub not_revoked : NotRevoked payload.jti s.revoked
    pub found : find_challenge payload now s.challenges ≡ some challenge
    pub within_limit : (limit_of now q payload s).allowed ≡ true
    pub right_code : CodeMatches challenge
    pub stopped : Stopped faults now api_key payload.user_id challenge.id s out

  -- The three ways in which the call ends.
  abbrev pub Ends : Store → Result OtpError (ℕ × ℕ) × Store → Type 0
  Ends s out = Refused s out ⊎ (Issued s out ⊎ Interrupted s out)

  -- How the check of a code ends, and the limit's.
  abbrev CodeEnds :
      ChallengePayload → OtpChallenge → Store → Result OtpError (ℕ × ℕ) × Store → Type 0
  CodeEnds p c s out =
      Refused s out ⊎ (CodeMatches c × Ended faults now api_key p.user_id c.id s out)

  abbrev LimitEnds :
      RateLimitResult
      → ChallengePayload
      → OtpChallenge
      → Store
      → Result OtpError (ℕ × ℕ) × Store
      → Type 0
  LimitEnds r p c s out =
      Refused s out
      ⊎ ((r.allowed ≡ true) × CodeMatches c × Ended faults now api_key p.user_id c.id s out)

  accept-ends :
      (p : ChallengePayload) (c : OtpChallenge) (s : Store)
      → CodeMatches c
      → CodeEnds p c s
          (accept_otp faults now p q.attempt_key c.id q.trust_device q.device_fingerprint api_key s)
  accept-ends p c s right =
      elim (accept-cases faults now p q.attempt_key c.id q.trust_device q.device_fingerprint api_key
        s) [ inl refused ↦ inl refused | inr accepted ↦ inr (right, accepted) ]

  unverified-Refused :
      (p : ChallengePayload) (id : ℕ) (locked : Bool)
      → AlwaysRefused (
          record_recovery_otp_attempt faults now p q.attempt_key false
            "recovery-otp:verification_error" q.device_fingerprint
          >> when_locked locked (close_challenge faults p id now)
          >> raise unavailable)
  unverified-Refused p id locked =
      then-Refused
        (record_recovery_otp_attempt faults now p q.attempt_key false
            "recovery-otp:verification_error" q.device_fingerprint
          >> when_locked locked (close_challenge faults p id now))
        (raise unavailable)
        (then-KeepsKeys
          (record_recovery_otp_attempt faults now p q.attempt_key false
            "recovery-otp:verification_error" q.device_fingerprint)
          (when_locked locked (close_challenge faults p id now))
          (record-KeepsKeys faults now p q.attempt_key false "recovery-otp:verification_error"
            q.device_fingerprint)
          (when_locked-KeepsKeys locked _ (close-KeepsKeys faults p id now)))
        (λ s. ((unavailable, refl), refl))

  code-cases :
      (p : ChallengePayload) (c : OtpChallenge) (locked : Bool) (code : Option ℕ) (s : Store)
      → q.code ≡ code
      → CodeEnds p c s (check_code matches faults now p q c locked api_key code s)
  code-cases p c locked none s e =
      inl (reject-Refused faults now p q.attempt_key c.id locked q.device_fingerprint s)
  code-cases p c locked (some code) s e = go faults.compare (matches code c.code_hash) refl
    where
      go :
          (compare match : Bool)
          → matches code c.code_hash ≡ match
          → CodeEnds p c s (
              (if compare
                  then record_recovery_otp_attempt faults now p q.attempt_key false
                      "recovery-otp:verification_error" q.device_fingerprint
                    >> when_locked locked (close_challenge faults p c.id now)
                    >> raise unavailable
                  else if match
                  then accept_otp faults now p q.attempt_key c.id q.trust_device
                      q.device_fingerprint api_key
                  else reject_otp faults now p q.attempt_key c.id locked q.device_fingerprint)
                s)
      go true match m = inl (unverified-Refused p c.id locked s)
      go false true m = accept-ends p c s (record { code = code; code_sent = e; code_matches = m })
      go false false m =
          inl (reject-Refused faults now p q.attempt_key c.id locked q.device_fingerprint s)

  over_limit-Refused :
      (p : ChallengePayload) (id : ℕ)
      → AlwaysRefused (
          close_challenge faults p id now
          >> audit (recovery_failed p.user_id rate_limited)
          >> raise lockout)
  over_limit-Refused p id =
      then-Refused
        (close_challenge faults p id now >> audit (recovery_failed p.user_id rate_limited))
        (raise lockout)
        (then-KeepsKeys (close_challenge faults p id now)
          (audit (recovery_failed p.user_id rate_limited)) (close-KeepsKeys faults p id now)
          (λ s. refl))
        (λ s. ((lockout, refl), refl))

  limit-cases :
      (p : ChallengePayload) (c : OtpChallenge) (r : RateLimitResult) (s : Store)
      → LimitEnds r p c s (check_limit matches faults now p q c api_key r s)
  limit-cases p c r s = go r.allowed refl (
      code-cases p c (leb recovery_otp_max_attempts (attempt_count r.remaining_attempts)) q.code s
        refl)
    where
      locked : Bool
      locked = leb recovery_otp_max_attempts (attempt_count r.remaining_attempts)

      go :
          (allowed : Bool)
          → r.allowed ≡ allowed
          → CodeEnds p c s (check_code matches faults now p q c locked api_key q.code s)
          → LimitEnds r p c s (
              (if not allowed
                  then close_challenge faults p c.id now
                    >> audit (recovery_failed p.user_id rate_limited)
                    >> raise lockout
                  else check_code matches faults now p q c locked api_key q.code)
                s)
      go true a (inl refused) = inl refused
      go true a (inr (right, accepted)) = inr (a, right, accepted)
      go false a ends = inl (over_limit-Refused p c.id s)

  challenge-cases :
      (p : ChallengePayload) (o : Option OtpChallenge) (s : Store)
      → q.token ≡ some p
      → is_revoked p.jti s.revoked ≡ false
      → find_challenge p now s.challenges ≡ o
      → let out = check_challenge matches faults now p q api_key o s in Ends s out
  challenge-cases p none s e n found = inl ((invalid_or_expired_code, refl), revoke-keys p.jti s)
  challenge-cases p (some c) s e n found =
      go faults.rate_limit (limit-cases p c (limit_of now q p s) s)
    where
      go :
          (down : Bool)
          → LimitEnds
              (limit_of now q p s)
              p
              c
              s
              (check_limit matches faults now p q c api_key (limit_of now q p s) s)
          → let out =
              if down
              then unavailable_after_revoking p s
              else check_limit matches faults now p q c api_key (limit_of now q p s) s in
            Ends s out
      go true ends = inl (unavailable-Refused p s)
      go false (inl refused) = inl refused
      go false (inr (allowed, right, inl accepted)) = inr (
          inl (record {
            payload = p;
            challenge = c;
            token_decodes = e;
            not_revoked = unrevoked p.jti s.revoked n;
            found = found;
            within_limit = allowed;
            right_code = right;
            accepted = accepted;
          }))
      go false (inr (allowed, right, inr stopped)) = inr (
          inr (record {
            payload = p;
            challenge = c;
            token_decodes = e;
            not_revoked = unrevoked p.jti s.revoked n;
            found = found;
            within_limit = allowed;
            right_code = right;
            stopped = stopped;
          }))

  payload-cases :
      (token : Option ChallengePayload) (s : Store)
      → q.token ≡ token
      → let out = check_payload matches faults now q api_key token s in Ends s out
  payload-cases none s e = inl ((invalid_challenge, refl), refl)
  payload-cases (some p) s e =
      go (is_revoked p.jti s.revoked) faults.lookup refl
        (λ n. challenge-cases p (find_challenge p now s.challenges) s e n refl)
    where
      go :
          (revoked lookup : Bool)
          → is_revoked p.jti s.revoked ≡ revoked
          → (is_revoked p.jti s.revoked ≡ false
              → let out =
                  check_challenge matches faults now p q api_key
                    (find_challenge p now s.challenges)
                    s in
                Ends s out)
          → let out =
              if revoked
              then raise invalid_challenge s
              else if lookup
              then unavailable_after_revoking p s
              else check_challenge matches faults now p q api_key
                  (find_challenge p now s.challenges)
                  s in
            Ends s out
      go true lookup r ends = inl ((invalid_challenge, refl), refl)
      go false true r ends = inl (unavailable-Refused p s)
      go false false r ends = ends r

  -- Whatever fails, the call ends in one of three ways. Either an error is returned and the keys are as
  -- they were. Or the token decodes and is not revoked, the lookup finds a challenge for it, the rate
  -- limit allows the attempt, the code matches, and the key is issued to the token's user, with the
  -- challenge marked used and the user's live keys revoked (unless the revocation itself has failed).
  -- Or all of that holds but the making of the key or a call about the device has thrown: then an
  -- error is returned, the challenge is used and the keys are revoked all the same, and the new key,
  -- where it was made, is stored.
  pub key_issued_only :
      (s : Store) → let out = verify_recovery_otp matches faults now q api_key s in Ends s out
  unfolding verify_recovery_otp
  key_issued_only s = payload-cases q.token s refl
