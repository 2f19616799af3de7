-- ===== src/Recovery/Otp/Flow.antt =====
-- The steps of a recovery that leave the keys as they are: src/services/recovery/recoveryService.ts.
use acbu_backend.Prelude.{
  ℕ, ◌≡◌, refl, ◌∙◌, inl, inr, Bool, true, false, Option, none, some, if◌then◌else◌, Bool-cases,
}
use acbu_backend.Prelude.Result.{Result, ok, err}
use acbu_backend.Prelude.Action.{raise, ◌>>◌}
use Prim.Native.String.{String}
use acbu_backend.Recovery.Otp.{
  ChallengePayload, Store, DeviceFingerprint, Faults, OtpError, recovery_failed, invalid_otp,
  lockout, invalid_code, reject_otp, unavailable_after_revoking, close_challenge, revoke,
  revoke_recovery_challenge_token, audit, mark_recovery_challenge_used, when_locked,
  record_recovery_otp_attempt,
}

-- Nothing is issued, and the keys are as they were.
abbrev pub Refused : Store → Result OtpError (ℕ × ℕ) × Store → Type 0
Refused s out = ((e : OtpError) × (out.0 ≡ err e)) × (out.1.api_keys ≡ s.api_keys)

-- A step that leaves the keys as they are.
abbrev pub KeepsKeys : (Store → Result OtpError (Unit {0}) × Store) → Type 0
KeepsKeys m = (s : Store) → (m s).1.api_keys ≡ s.api_keys

abbrev pub AlwaysRefused : (Store → Result OtpError (ℕ × ℕ) × Store) → Type 0
AlwaysRefused k = (s : Store) → Refused s (k s)

pub then-Refused :
    (m : Store → Result OtpError (Unit {0}) × Store) (k : Store → Result OtpError (ℕ × ℕ) × Store)
    → KeepsKeys m
    → AlwaysRefused k
    → AlwaysRefused (m >> k)
then-Refused m k keeps refuses s = go (m s).0 (m s).1 (keeps s)
  where
    go :
        (r : Result OtpError (Unit {0})) (t : Store)
        → t.api_keys ≡ s.api_keys
        → Refused s (elim r [ ok a ↦ k t | err e ↦ (err e, t) ])
    go (ok a) t h = let (e, same) = refuses t in (e, same ∙ h)
    go (err e) t h = ((e, refl), h)

pub then-KeepsKeys :
    (m k : Store → Result OtpError (Unit {0}) × Store)
    → KeepsKeys m
    → KeepsKeys k
    → KeepsKeys (m >> k)
then-KeepsKeys m k keeps keeps' s = go (m s).0 (m s).1 (keeps s)
  where
    go :
        (r : Result OtpError (Unit {0})) (t : Store)
        → t.api_keys ≡ s.api_keys
        → let out : Result OtpError (Unit {0}) × Store = elim r [
          | ok a ↦ k t
          | err e ↦ (err e, t)
        ] in
          out.1.api_keys ≡ s.api_keys
    go (ok a) t h = keeps' t ∙ h
    go (err e) t h = h

pub revoke-keys : (j : Option ℕ) (s : Store) → (revoke j s).api_keys ≡ s.api_keys
revoke-keys none s = refl
revoke-keys (some j) s = refl

pub revoke-challenges : (j : Option ℕ) (s : Store) → (revoke j s).challenges ≡ s.challenges
revoke-challenges none s = refl
revoke-challenges (some j) s = refl

unavailable-KeepsKeys : (p : ChallengePayload) → KeepsKeys (λ s. unavailable_after_revoking p s)
unavailable-KeepsKeys p s = revoke-keys p.jti s

pub unavailable-Refused :
    (p : ChallengePayload) → AlwaysRefused (λ s. unavailable_after_revoking p s)
unavailable-Refused p s = ((_, refl), revoke-keys p.jti s)

pub record-KeepsKeys :
    (faults : Faults) (now : ℕ) (p : ChallengePayload) (key : ℕ) (success : Bool) (reason : String)
    (device : Option DeviceFingerprint)
    → KeepsKeys (record_recovery_otp_attempt faults now p key success reason device)
record-KeepsKeys faults now p key success reason device s = elim (Bool-cases faults.tracking) [
  | inl t ↦ rw t (revoke-keys p.jti s)
  | inr f ↦ rw f refl
]

pub close-KeepsKeys :
    (faults : Faults) (p : ChallengePayload) (id now : ℕ)
    → KeepsKeys (close_challenge faults p id now)
close-KeepsKeys faults p id now =
    then-KeepsKeys (mark_recovery_challenge_used faults p id now)
      (revoke_recovery_challenge_token p)
      (λ s. elim (Bool-cases faults.update) [
        | inl t ↦ rw t (revoke-keys p.jti s)
        | inr f ↦ rw f refl
      ])
      (λ s. revoke-keys p.jti s)

pub when_locked-KeepsKeys :
    (locked : Bool) (m : Store → Result OtpError (Unit {0}) × Store)
    → KeepsKeys m
    → KeepsKeys (when_locked locked m)
when_locked-KeepsKeys true m h s = h s
when_locked-KeepsKeys false m h s = refl

pub reject-Refused :
    (faults : Faults) (now : ℕ) (p : ChallengePayload) (key id : ℕ) (locked : Bool)
    (device : Option DeviceFingerprint)
    → AlwaysRefused (reject_otp faults now p key id locked device)
reject-Refused faults now p key id locked device =
    then-Refused (recorded >> closed >> audit (recovery_failed p.user_id invalid_otp))
      (raise (if locked then lockout else invalid_code))
      (then-KeepsKeys (recorded >> closed) (audit (recovery_failed p.user_id invalid_otp))
        (then-KeepsKeys recorded closed
          (record-KeepsKeys faults now p key false "recovery-otp:invalid" device)
          (when_locked-KeepsKeys locked close (close-KeepsKeys faults p id now)))
        (λ s. refl))
      (λ s. ((_, refl), refl))
  where
    close : Store → Result OtpError (Unit {0}) × Store
    close = close_challenge faults p id now

    recorded : Store → Result OtpError (Unit {0}) × Store
    recorded = record_recovery_otp_attempt faults now p key false "recovery-otp:invalid" device

    closed : Store → Result OtpError (Unit {0}) × Store
    closed = when_locked locked close
