-- ===== src/KycReward.antt =====
-- Rewards of the validators of identities: src/services/kyc/kycValidatorRewardService.ts. Amounts are
-- in units of 10^-7 ACBU; `BigInt` throws on what is no whole number. The total supply on the chain is
-- a parameter.
pub mod Caps
use acbu_backend.Prelude.{
  ℕ, suc, ◌*◌, ◌/◌, ◌^◌, Bool, true, false, Option, none, some, List, ◌∷◌, ltb, ◌==◌, if◌then◌else◌,
  Parsed, not_finite, negative, natural,
}
use acbu_backend.Prelude.Result.{Result, ok, err}

abbrev pub max_reward_acbu : ℕ
max_reward_acbu = 1000

abbrev pub reward_decimals : ℕ
reward_decimals = 7

abbrev pub max_reward_pct_of_minted : ℕ
max_reward_pct_of_minted = 5

pub data Reason : Type 0 where
  must_be_positive exceeds_max mint_total_zero exceeds_share : Reason

-- `KycRewardValidationResult`, where no reason means valid.
pub record ValidationResult : Type 0 where
  pub valid : Bool
  pub on_chain_total_minted : ℕ
  pub reason : Option Reason

abbrev invalid : ℕ → Reason → ValidationResult
invalid total reason = record { valid = false; on_chain_total_minted = total; reason = some reason }

abbrev pub max_allowed : ℕ
max_allowed = max_reward_acbu * 10 ^ reward_decimals

-- `validateRewardAmount`, which throws where the amount is not a whole number.
unfoldable pub validate_reward_amount : Parsed → ℕ → Option ValidationResult
validate_reward_amount not_finite total = none
validate_reward_amount negative total = some (invalid total must_be_positive)
validate_reward_amount (natural reward) total = some (
    if reward == 0
    then invalid total must_be_positive
    else if ltb max_allowed reward
    then invalid total exceeds_max
    else if total == 0
    then invalid 0 mint_total_zero
    else if ltb (total * max_reward_pct_of_minted / 100) reward
    then invalid total exceeds_share
    else record { valid = true; on_chain_total_minted = total; reason = none })

pub data Status : Type 0 where
  pending : Status

-- A row of `kyc_validator_rewards`.
pub record Reward : Type 0 where
  pub validator_id : ℕ
  pub application_id : ℕ
  pub acbu_amount : Parsed
  pub tx_hash : Option ℕ
  pub status : Status

pub data RewardError : Type 0 where
  not_an_integer : RewardError
  validation_failed : Option Reason → RewardError

abbrev insert_if_valid :
    Reward → List Reward → Option ValidationResult → Result RewardError ℕ × List Reward
insert_if_valid row rows none = (err not_an_integer, rows)
insert_if_valid row rows (some v) =
    if v.valid
    then (ok v.on_chain_total_minted, row ∷ rows)
    else (err (validation_failed v.reason), rows)

-- `createValidatorReward`; of what it returns, the on-chain total of the reference.
unfoldable pub create_validator_reward :
    ℕ → ℕ → Parsed → Option ℕ → ℕ → List Reward → Result RewardError ℕ × List Reward
create_validator_reward validator_id application_id acbu_amount tx_hash total rows =
    insert_if_valid
      (record {
        validator_id = validator_id;
        application_id = application_id;
        acbu_amount = acbu_amount;
        tx_hash = tx_hash;
        status = pending;
      })
      rows (validate_reward_amount acbu_amount total)
