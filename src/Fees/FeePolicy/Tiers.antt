-- ===== src/Fees/FeePolicy/Tiers.antt =====
-- The tiers of the fee policy: src/services/feePolicy/feePolicyService.ts.
use acbu_backend.Prelude.{ℕ, ◌*◌, ◌≤◌, ◌<◌, ◌≡◌, ◌≢◌, ◌↔◌, some, if◌then◌else◌, less, List, arith}
use acbu_backend.Prelude.Result.{ok, err}
use acbu_backend.Reserve.{ReserveStatus, ReserveConfig, calculate_reserve_ratio, find_status}
use acbu_backend.Fees.FeePolicy.{insane_fee, get_mint_fee_bps, get_burn_fee_bps, burn_tier}

-- A mint is never refused by the sanity check: the fee is 50 when the ratio of the reserves to the
-- supply is below the configured minimum, and 30 otherwise.
pub mint_fee_tiers :
    (c : ReserveConfig) (supply value : ℕ)
    → get_mint_fee_bps c supply value
      ≡ ok (if less (calculate_reserve_ratio supply value) c.min_ratio then 50 else 30)
unfolding get_mint_fee_bps
mint_fee_tiers c supply value = ground arith

-- For weights of a basket, which are at most 100% of basis points, the tolerance of 1e-9 in the
-- thresholds decides nothing: the fee is 200 exactly below 85% of the target, 5 exactly above 115%,
-- and 30 exactly between them, both ends included.
pub burn_tier_exact :
    (actual target : ℕ)
    → 0 < target
    → target ≤ 10000
    → ((burn_tier actual target ≡ 200) ↔ (100 * actual < 85 * target))
      × ((burn_tier actual target ≡ 5) ↔ (115 * target < 100 * actual))
      × ((burn_tier actual target ≡ 30)
          ↔ ((85 * target ≤ 100 * actual) × (100 * actual ≤ 115 * target)))
unfolding burn_tier
burn_tier_exact actual target pos top = (
  (λ h. ground arith, λ h. ground arith),
  (λ h. ground arith, λ h. ground arith),
  (λ h. (ground arith, ground arith), λ h. ground arith),
)

-- More reserves of a currency never make its burns dearer, at any positive target.
pub burn_tier_antitone :
    (actual actual' target : ℕ)
    → actual ≤ actual'
    → burn_tier actual' target ≤ burn_tier actual target
unfolding burn_tier
burn_tier_antitone actual actual' target h = ground arith

-- For a currency of the reserve status with a positive target a burn fee is returned, the tier of
-- that currency's weights; and for no currency does the sanity check throw.
pub burn_fee_total :
    (currency : ℕ) (ss : List ReserveStatus)
    → ((s : ReserveStatus)
        → find_status currency ss ≡ some s
        → 0 < s.target_weight
        → get_burn_fee_bps currency ss ≡ ok (burn_tier s.actual_weight s.target_weight))
      × (get_burn_fee_bps currency ss ≢ err insane_fee)
unfolding get_burn_fee_bps
burn_fee_total currency ss = (λ s e pos. ground arith, λ h. ground arith)
