-- ===== src/Recovery/Devices.antt =====
-- The devices of the users: src/services/recovery/deviceVerification.ts. The fingerprint is the hash
-- that `generateDeviceFingerprint` makes, a number like users and addresses; times are in
-- milliseconds. The table has one row for a user and a fingerprint.
pub mod Trust
use acbu_backend.Prelude.{
  ℕ, suc, ◌+◌, ◌*◌, Bool, true, false, Option, none, some, List, [], ◌∷◌, map, ◌&&◌, not, ltb, leb,
  ◌==◌, if◌then◌else◌, any, select,
}

-- A row of `user_devices`.
pub record Device : Type 0 where
  pub user_id : ℕ
  pub fingerprint : ℕ
  pub is_trusted : Bool
  pub verification_attempts : ℕ
  pub last_seen_at : ℕ
  pub last_ip : Option ℕ

-- `DeviceVerificationResult`; the device's id is its user and its fingerprint.
pub record DeviceVerificationResult : Type 0 where
  pub is_trusted : Bool
  pub requires_verification : Bool

abbrev pub same_device : ℕ → ℕ → Device → Bool
same_device u f d = d.user_id == u && d.fingerprint == f

-- `lastSeenAt` and `lastIp`, and one attempt more if the device is not trusted.
abbrev pub seen : ℕ → Option ℕ → Device → Device
seen now ip d = record {
  user_id = d.user_id;
  fingerprint = d.fingerprint;
  is_trusted = d.is_trusted;
  verification_attempts =
      if d.is_trusted then d.verification_attempts else suc d.verification_attempts;
  last_seen_at = now;
  last_ip = ip;
}

abbrev pub new_device : ℕ → ℕ → ℕ → Option ℕ → Device
new_device now u f ip = record {
  user_id = u;
  fingerprint = f;
  is_trusted = false;
  verification_attempts = 1;
  last_seen_at = now;
  last_ip = ip;
}

abbrev outcome : Bool → DeviceVerificationResult
outcome trusted = record { is_trusted = trusted; requires_verification = not trusted }

-- `verifyDevice`: the row is updated, or added if there is none.
unfoldable pub verify_device :
    ℕ → ℕ → ℕ → Option ℕ → List Device → DeviceVerificationResult × List Device
verify_device now u f ip [] = (outcome false, new_device now u f ip ∷ [])
verify_device now u f ip (d ∷ ds) =
    let (r, rest) = verify_device now u f ip ds in
    if same_device u f d then (outcome d.is_trusted, seen now ip d ∷ ds) else (r, d ∷ rest)

abbrev trusted : Device → Device
trusted d = record {
  user_id = d.user_id;
  fingerprint = d.fingerprint;
  is_trusted = true;
  verification_attempts = d.verification_attempts;
  last_seen_at = d.last_seen_at;
  last_ip = d.last_ip;
}

-- `trustDevice`
unfoldable pub trust_device : ℕ → ℕ → List Device → List Device
trust_device u f = map (λ d. if same_device u f d then trusted d else d)

-- `isDeviceRateLimited`
unfoldable pub is_device_rate_limited : ℕ → ℕ → ℕ → List Device → Bool
is_device_rate_limited now u f = any (λ d.
    same_device u f d
    && (ltb 5 d.verification_attempts && leb now (d.last_seen_at + 60 * 60 * 1000)))

-- `cleanupOldDevices`
unfoldable pub cleanup_old_devices : ℕ → List Device → List Device
cleanup_old_devices now =
    select (λ d. not (ltb (d.last_seen_at + 30 * 24 * 60 * 60 * 1000) now && not d.is_trusted))
