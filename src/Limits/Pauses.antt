-- ===== src/Limits/Pauses.antt =====
-- `isCurrencyWithdrawalPaused` and `isMintingPaused` of src/services/limits/limitsService.ts, over the
-- reserves.
use acbu_backend.Prelude.{
  ℕ, ◌+◌, ◌*◌, ◌≡◌, ◌↔◌, ◌<◌, Bool, true, false, Option, none, some, List, ◌==◌, if◌then◌else◌,
  less, over, arith,
}
use acbu_backend.Reserve.{ReserveStatus, find_status, calculate_reserve_ratio}
use acbu_backend.Limits.Config.{CircuitBreakerLimitConfig}

abbrev pub paused_by : CircuitBreakerLimitConfig → Option ReserveStatus → Bool
paused_by c none = false
paused_by c (some s) =
    if s.target_weight == 0
    then false
    else less (over (s.actual_weight * 100) s.target_weight) c.reserve_weight_threshold_pct

-- `isCurrencyWithdrawalPaused`
unfoldable pub is_currency_withdrawal_paused :
    CircuitBreakerLimitConfig → ℕ → List ReserveStatus → Bool
is_currency_withdrawal_paused c currency statuses = paused_by c (find_status currency statuses)

-- `isMintingPaused`, of the supply and the value of the reserves.
unfoldable pub is_minting_paused : CircuitBreakerLimitConfig → ℕ → ℕ → Bool
is_minting_paused c supply value = less (calculate_reserve_ratio supply value) c.min_reserve_ratio

-- With a positive minimal ratio, minting is paused where there is no supply, and where there is, exactly
-- when the reserves are worth less than that ratio of the supply.
pub minting_paused_iff :
    (c : CircuitBreakerLimitConfig) (supply value : ℕ)
    → 0 < c.min_reserve_ratio.num
    → (is_minting_paused c 0 value ≡ true)
      × ((is_minting_paused c (supply + 1) value ≡ true)
          ↔ (value * c.min_reserve_ratio.den < c.min_reserve_ratio.num * (supply + 1)))
unfolding is_minting_paused calculate_reserve_ratio
minting_paused_iff c supply value h = ground arith
