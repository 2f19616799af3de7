-- ===== src/KycReward/Caps.antt =====
-- The caps of a reward: src/services/kyc/kycValidatorRewardService.ts.
use native.Mathlib.Nat.{le-div_iff_mul-le}
use acbu_backend.Prelude.{
  ℕ, ◌*◌, ◌/◌, ◌≤◌, ◌<◌, ◌≡◌, refl, ◌↔◌, ◌⊎◌, inl, inr, true, false, Option, none, some, List, ◌∷◌,
  ltb, ◌==◌, natural, arith, Bool-cases,
}
use acbu_backend.Prelude.Result.{ok, err}
use acbu_backend.KycReward.{
  max_allowed, ValidationResult, validate_reward_amount, Reward, pending, create_validator_reward,
  max_reward_pct_of_minted, RewardError, validation_failed,
}

-- Positive, at most 1000 ACBU and at most five per cent of what has been minted.
abbrev pub IsWithinCaps : ℕ → ℕ → Type 0
IsWithinCaps reward total = (0 < reward) × (reward ≤ 10000000000) × (reward * 100 ≤ total * 5)

share : (reward total : ℕ) → (reward ≤ total * 5 / 100) ↔ (reward * 100 ≤ total * 5)
share reward total = le-div_iff_mul-le {k = 100} {x = reward} {y = total * 5} (omega arith)

-- How the validation ends for an amount.
abbrev Verdict : ℕ → ℕ → Option ValidationResult → Type 0
Verdict reward total o =
    (IsWithinCaps reward total
      × (o ≡ some (record { valid = true; on_chain_total_minted = total; reason = none })))
    ⊎ ((IsWithinCaps reward total → ⊥)
        × ((v : ValidationResult) × (v.valid ≡ false) × (o ≡ some v)))

validate-Verdict :
    (reward total : ℕ) → Verdict reward total (validate_reward_amount (natural reward) total)
unfolding validate_reward_amount
validate-Verdict reward total =
    let s = share reward total in
    elim (Bool-cases (reward == 0)) [
      | inl a ↦ rw a (inr ((λ h. ground arith), (_, refl, refl)))
      | inr na ↦ elim (Bool-cases (ltb max_allowed reward)) [
        | inl b ↦ rw (na, b) (inr ((λ h. ground arith), (_, refl, refl)))
        | inr nb ↦ elim (Bool-cases (total == 0)) [
          | inl c ↦ rw (na, nb, c) (inr ((λ h. ground arith), (_, refl, refl)))
          | inr nc ↦ elim (Bool-cases (ltb (total * max_reward_pct_of_minted / 100) reward)) [
            | inl d ↦ rw (na, nb, nc, d) (inr ((λ h. ground (arith, s)), (_, refl, refl)))
            | inr nd ↦ rw (na, nb, nc, nd) (inl (ground (arith, s), refl))
          ]
        ]
      ]
    ]

-- A reward is written exactly if it is positive, at most 1000 ACBU (in units of 10^-7) and at most
-- five per cent of the supply on the chain: then one pending row with the amount is added and the
-- supply is returned, and otherwise an error is returned and the table is left as it was.
pub reward-IsWithinCaps :
    (validator application reward : ℕ) (tx : Option ℕ) (total : ℕ) (rows : List Reward)
    → let r = create_validator_reward validator application (natural reward) tx total rows in
      let row : Reward = record {
        validator_id = validator;
        application_id = application;
        acbu_amount = natural reward;
        tx_hash = tx;
        status = pending;
      } in
      (IsWithinCaps reward total × (r ≡ (ok total, row ∷ rows)))
      ⊎ ((IsWithinCaps reward total → ⊥) × ((x : RewardError) × (r ≡ (err x, rows))))
unfolding create_validator_reward
reward-IsWithinCaps validator application reward tx total rows =
    elim (validate-Verdict reward total) [
      | inl (within, e) ↦ inl (within, rw (create_validator_reward, e) refl)
      | inr (beyond, (v, refused, e)) ↦
          inr (beyond, (validation_failed v.reason, rw (create_validator_reward, e, refused) refl))
    ]
