-- ===== src/Fees/FeePolicy.antt =====
-- Fees of mints and burns, in basis points: src/services/feePolicy/feePolicyService.ts. The reserves
-- are those of src/services/reserve/ReserveTracker.ts; weights are never negative there. The
-- percentage of a target is an exact fraction.
pub mod Tiers
use acbu_backend.Prelude.{
  ℕ, ◌+◌, ◌-◌, ◌*◌, ◌^◌, min, Bool, true, false, Option, none, some, ltb, leb, ◌||◌, if◌then◌else◌,
  Fraction, less, over, List,
}
use acbu_backend.Prelude.Result.{Result, ok, err, guard, ◌>>◌}
use acbu_backend.Reserve.{ReserveStatus, ReserveConfig, calculate_reserve_ratio, find_status}

abbrev pub base_mint_fee_bps : ℕ
base_mint_fee_bps = 30

abbrev pub stressed_mint_fee_bps : ℕ
stressed_mint_fee_bps = 50

abbrev pub max_mint_fee_bps : ℕ
max_mint_fee_bps = 100

abbrev pub base_burn_fee_bps : ℕ
base_burn_fee_bps = 30

abbrev pub low_reserve_burn_fee_bps : ℕ
low_reserve_burn_fee_bps = 200

abbrev pub high_reserve_burn_fee_bps : ℕ
high_reserve_burn_fee_bps = 5

-- 85 - 1e-9 and 115 + 1e-9 percent.
abbrev pub low_threshold : Fraction
low_threshold = over (85 * 10 ^ 9 - 1) (10 ^ 9)

abbrev pub high_threshold : Fraction
high_threshold = over (115 * 10 ^ 9 + 1) (10 ^ 9)

pub data FeeError : Type 0 where
  insane_fee currency_not_found invalid_target_weight : FeeError

-- `validateFeeSanity`
unfoldable pub validate_fee_sanity : ℕ → Result FeeError (Unit {0})
validate_fee_sanity fee_bps = if ltb fee_bps 1 || ltb 500 fee_bps then err insane_fee else ok tt

-- `getMintFeeBps`, with the supply and the value that the ratio is taken of.
unfoldable pub get_mint_fee_bps : ReserveConfig → ℕ → ℕ → Result FeeError ℕ
unfolding validate_fee_sanity calculate_reserve_ratio
get_mint_fee_bps c supply value =
    let ratio = calculate_reserve_ratio supply value in
    let fee_bps = if less ratio c.min_ratio then stressed_mint_fee_bps else base_mint_fee_bps in
    let capped = min fee_bps max_mint_fee_bps in validate_fee_sanity capped >> ok capped

-- The tier of `getBurnFeeBps`, from the weights.
unfoldable pub burn_tier : ℕ → ℕ → ℕ
burn_tier actual_weight target_weight =
    let pct_of_target = over (actual_weight * 100) target_weight in
    if less pct_of_target low_threshold
    then low_reserve_burn_fee_bps
    else if less high_threshold pct_of_target
    then high_reserve_burn_fee_bps
    else base_burn_fee_bps

-- `getBurnFeeBps`, with the `currencies` of the reserve status.
unfoldable pub get_burn_fee_bps : ℕ → List ReserveStatus → Result FeeError ℕ
unfolding validate_fee_sanity burn_tier
get_burn_fee_bps currency currencies = elim (find_status currency currencies) [
  | none ↦ err currency_not_found
  | some curr ↦
      if leb curr.target_weight 0
      then err invalid_target_weight
      else let fee_bps = burn_tier curr.actual_weight curr.target_weight in
        validate_fee_sanity fee_bps >> ok fee_bps
]
