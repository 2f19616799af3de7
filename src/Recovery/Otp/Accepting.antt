-- ===== src/Recovery/Otp/Accepting.antt =====
-- The end of a recovery, from the matching code on: src/services/recovery/recoveryService.ts.
use acbu_backend.Prelude.{
  ℕ, ◌≡◌, refl, sym, ap, ◌∙◌, inl, inr, ◌⊎◌, Bool, true, false, Option, none, some, List, ◌∷◌, ◌||◌,
  arith, map, if◌then◌else◌, Bool-cases,
}
use acbu_backend.Prelude.Result.{Result, ok, err}
use acbu_backend.Prelude.Action.{raise, pure, modify, ◌>>◌}
use acbu_backend.Recovery.Devices.{DeviceVerificationResult, verify_device}
use acbu_backend.Recovery.Otp.{
  recovery_completed, rotated, rotate_user_sessions, generate_api_key, with_keys, unavailable,
  ChallengePayload, ApiKey, Store, DeviceFingerprint, Faults, OtpError, used, accept_otp, revoke,
  trusting, trust_new, revoke_keys, interrupted, audit, mark_recovery_challenge_used,
  record_recovery_otp_attempt,
}
use acbu_backend.Recovery.Otp.Flow.{Refused, revoke-keys, revoke-challenges}

-- The keys after the user's live ones are revoked, unless the revocation has failed.
abbrev pub rotated_keys : Faults → ℕ → ℕ → List ApiKey → List ApiKey
rotated_keys faults now u ks = if faults.rotation then ks else revoke_keys now u ks

abbrev pub new_key : ℕ → ℕ → ApiKey
new_key api_key u = record { key = api_key; user_id = u; revoked_at = none }

-- What the store holds after a key has been issued: the challenge is used, the user's live keys are
-- revoked unless that has failed, and the new key is in front.
pub record Written (faults : Faults) (now api_key user_id id : ℕ) (s t : Store) : Type 0 where
  pub challenges_used : t.challenges ≡ map (used id now) s.challenges
  pub keys_rotated :
      t.api_keys ≡ new_key api_key user_id ∷ rotated_keys faults now user_id s.api_keys

-- How the end of the call turns out: the key is returned.
abbrev pub Accepted : Faults → ℕ → ℕ → ℕ → ℕ → Store → Result OtpError (ℕ × ℕ) × Store → Type 0
Accepted faults now api_key u id s out =
    (out.0 ≡ ok (api_key, u)) × Written faults now api_key u id s out.1

-- Or the making of the key, or a call about the device, throws: the challenge is used and the keys are
-- revoked all the same, and a key that was made is stored, though not returned.
pub record Stopped (faults : Faults) (now api_key user_id id : ℕ) (s : Store)
    (out : Result OtpError (ℕ × ℕ) × Store) : Type 0 where
  pub returned : out.0 ≡ err interrupted
  pub challenges_used : out.1.challenges ≡ map (used id now) s.challenges
  pub keys_left : out.1.api_keys ≡ (
      if faults.key_generation
      then rotated_keys faults now user_id s.api_keys
      else new_key api_key user_id ∷ rotated_keys faults now user_id s.api_keys)
  pub something_failed :
      faults.key_generation || (faults.device_check || faults.device_trust) ≡ true

abbrev pub Ended : Faults → ℕ → ℕ → ℕ → ℕ → Store → Result OtpError (ℕ × ℕ) × Store → Type 0
Ended faults now api_key u id s out =
    Accepted faults now api_key u id s out ⊎ Stopped faults now api_key u id s out

-- The device's step changes neither the challenges nor the keys, and fails only by a fault.
abbrev Trusts : Faults → Store → Result OtpError (Unit {0}) × Store → Type 0
Trusts faults s x =
    (x.1.challenges ≡ s.challenges)
    × (x.1.api_keys ≡ s.api_keys)
    × ((x.0 ≡ ok tt)
        ⊎ ((x.0 ≡ err interrupted) × (faults.device_check || faults.device_trust ≡ true)))

trust_new-Trusts :
    (faults : Faults) (u f : ℕ) (r : DeviceVerificationResult) (s : Store)
    → Trusts faults s (trust_new faults u f r s)
trust_new-Trusts faults u f r s = elim (Bool-cases r.is_trusted) [
  | inl t ↦ rw t (refl, refl, inl refl)
  | inr n ↦ elim (Bool-cases faults.device_trust) [
    | inl t ↦ rw (n, t) (refl, refl, inr (refl, ground arith))
    | inr d ↦ rw (n, d) (refl, refl, inl refl)
  ]
]

trusting-Trusts :
    (faults : Faults) (now u : ℕ) (t : Bool) (device : Option DeviceFingerprint) (s : Store)
    → Trusts faults s (trusting faults now u t device s)
trusting-Trusts faults now u true (some d) s = elim (Bool-cases faults.device_check) [
  | inl t ↦ rw t (refl, refl, inr (refl, refl))
  | inr n ↦ rw n (
      rw n at (
        trust_new-Trusts faults u d.fingerprint (verify_device now u d.fingerprint d.ip s.devices).0
          (record s { devices = (verify_device now u d.fingerprint d.ip s.devices).1 })))
]
trusting-Trusts faults now u true none s = (refl, refl, inl refl)
trusting-Trusts faults now u false (some d) s = (refl, refl, inl refl)
trusting-Trusts faults now u false none s = (refl, refl, inl refl)

module _ (faults : Faults) (now u id api_key : ℕ) (s : Store) where
  -- From the device's step on.
  trusted-Ended :
      (t : Store) (x : Result OtpError (Unit {0}) × Store)
      → t.challenges ≡ map (used id now) s.challenges
      → t.api_keys ≡ new_key api_key u ∷ rotated_keys faults now u s.api_keys
      → faults.key_generation ≡ false
      → Trusts faults t x
      → Ended faults now api_key u id s
          (((λ (_ : Store). x) >> audit (recovery_completed u) >> pure (api_key, u)) t)
  trusted-Ended t x cs ks made (same, keys, inl fine) =
      rw fine (inl (refl, record { challenges_used = same ∙ cs; keys_rotated = keys ∙ ks }))
  trusted-Ended t x cs ks made (same, keys, inr (failed, fault)) = rw failed (
      inr (record {
        returned = refl;
        challenges_used = same ∙ cs;
        keys_left =
            keys
            ∙ ks
            ∙ sym (
                ap
                  (λ b.
                    if b
                    then rotated_keys faults now u s.api_keys
                    else new_key api_key u ∷ rotated_keys faults now u s.api_keys)
                  made);
        something_failed = ground arith;
      }))

  rotated-keys :
      (t : Store) → (rotated faults now u t).api_keys ≡ rotated_keys faults now u t.api_keys
  rotated-keys t = elim (Bool-cases faults.rotation) [ inl r ↦ rw r refl | inr r ↦ rw r refl ]

  rotated-challenges : (t : Store) → (rotated faults now u t).challenges ≡ t.challenges
  rotated-challenges t = elim (Bool-cases faults.rotation) [ inl r ↦ rw r refl | inr r ↦ rw r refl ]

  -- From the rotation of the sessions on, in a store whose challenge is used.
  closed-Ended :
      (trust : Bool) (device : Option DeviceFingerprint) (t : Store)
      → t.challenges ≡ map (used id now) s.challenges
      → t.api_keys ≡ s.api_keys
      → Ended faults now api_key u id s (
          (rotate_user_sessions faults now u
              >> generate_api_key faults api_key u
              >> trusting faults now u trust device
              >> audit (recovery_completed u)
              >> pure (api_key, u))
            t)
  closed-Ended trust device t cs ks = go faults.key_generation refl
    where
      v : Store
      v = rotated faults now u t

      challenges : v.challenges ≡ map (used id now) s.challenges
      challenges = rotated-challenges t ∙ cs

      old : List ApiKey
      old = rotated_keys faults now u s.api_keys

      keys : v.api_keys ≡ old
      keys = rotated-keys t ∙ ap (rotated_keys faults now u) ks

      w : Store
      w = record v { api_keys = new_key api_key u ∷ v.api_keys }

      go :
          (fails : Bool)
          → faults.key_generation ≡ fails
          → Ended faults now api_key u id s (
              (rotate_user_sessions faults now u
                  >> (if fails
                      then raise interrupted
                      else modify (with_keys (λ ks'. new_key api_key u ∷ ks')))
                  >> trusting faults now u trust device
                  >> audit (recovery_completed u)
                  >> pure (api_key, u))
                t)
      go true e = inr (record {
        returned = refl;
        challenges_used = challenges;
        keys_left = keys ∙ sym (ap (λ b. if b then old else new_key api_key u ∷ old) e);
        something_failed = ground arith;
      })
      go false e =
          trusted-Ended w (trusting faults now u trust device w) challenges
            (ap (λ k. new_key api_key u ∷ k) keys) e (trusting-Trusts faults now u trust device w)

pub accept-cases :
    (faults : Faults) (now : ℕ) (p : ChallengePayload) (key id : ℕ) (t : Bool)
    (device : Option DeviceFingerprint) (api_key : ℕ) (s : Store)
    → let out = accept_otp faults now p key id t device api_key s in
      Refused s out ⊎ Ended faults now api_key p.user_id id s out
accept-cases faults now p key id t device api_key s =
    let record {
      lookup = _;
      rate_limit = _;
      tracking = tracking;
      update = update;
      compare = _;
      rotation = _;
      key_generation = _;
      device_check = _;
      device_trust = _;
    } =
      faults in
    go tracking update
  where
    with_stores : Bool → Bool → Faults
    with_stores tracking update = record faults { tracking = tracking; update = update }

    go :
        (tracking update : Bool)
        → let faults' = with_stores tracking update in
          let out = accept_otp faults' now p key id t device api_key s in
          Refused s out ⊎ Ended faults' now api_key p.user_id id s out
    go true u = inl ((unavailable, refl), revoke-keys p.jti s)
    go false true = inl (
      (unavailable, refl),
      revoke-keys p.jti
          (record_recovery_otp_attempt (with_stores false true) now p key true
            "recovery-otp:success" device s).1,
    )
    go false false =
        let faults' = with_stores false false in
        let marked =
          (mark_recovery_challenge_used faults' p id now
            (record_recovery_otp_attempt faults' now p key true "recovery-otp:success" device
              s).1).1 in
        inr (
          closed-Ended faults' now p.user_id id api_key s t device (revoke p.jti marked)
            (revoke-challenges p.jti marked) (revoke-keys p.jti marked))
