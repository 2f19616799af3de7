-- ===== src/Recovery/Devices/Trust.antt =====
-- Which devices are trusted: src/services/recovery/deviceVerification.ts.
use acbu_backend.Prelude.{
  ℕ, Option, ◌+◌, ◌≤◌, ◌≡◌, refl, ap, inl, inr, Bool, true, false, List, [], ◌∷◌, ◌&&◌, ◌||◌,
  if◌then◌else◌, any, arith, Bool-cases,
}
use acbu_backend.Recovery.Devices.{Device, same_device, verify_device, is_device_rate_limited}

-- Whether the device of a user is trusted.
abbrev pub is_trusted_device : ℕ → ℕ → List Device → Bool
is_trusted_device u f = any (λ d. same_device u f d && d.is_trusted)

-- Verifying a device, of whatever user, trusts no device and takes no device's trust away.
pub verify_device-trust :
    (now u f : ℕ) (ip : Option ℕ) (v g : ℕ) (ds : List Device)
    → is_trusted_device v g (verify_device now u f ip ds).1 ≡ is_trusted_device v g ds
unfolding verify_device
verify_device-trust now u f ip v g [] = ground arith
verify_device-trust now u f ip v g (d ∷ ds) = elim (Bool-cases (same_device u f d)) [
  | inl e ↦ rw e refl
  | inr n ↦
      rw n
        (ap (λ r. (same_device v g d && d.is_trusted) || r) (verify_device-trust now u f ip v g ds))
]

-- The number of attempts of a user's device, where it is listed first.
abbrev pub attempts_of : ℕ → ℕ → List Device → ℕ
attempts_of u f [] = 0
attempts_of u f (d ∷ ds) =
    let rest = attempts_of u f ds in if same_device u f d then d.verification_attempts else rest

-- An untrusted device that has been verified five times or more is limited after one verification
-- more, until an hour has gone by since.
pub sixth_verification_limits :
    (t now u f : ℕ) (ip : Option ℕ) (ds : List Device)
    → is_trusted_device u f ds ≡ false
    → 5 ≤ attempts_of u f ds
    → now ≤ t + 3600000
    → is_device_rate_limited now u f (verify_device t u f ip ds).1 ≡ true
unfolding is_device_rate_limited verify_device
sixth_verification_limits t now u f ip [] n h b = absurd (omega (arith, h))
sixth_verification_limits t now u f ip (d ∷ ds) n h b = elim (Bool-cases (same_device u f d)) [
  | inl e ↦ rw (is_device_rate_limited, verify_device, e) (ground arith)
  | inr m ↦
      ground (arith, sixth_verification_limits t now u f ip ds (ground arith) (ground arith) b)
]
