-- ===== src/Witnesses/Money.antt =====
-- The theorems about fees, reserves, baskets, rewards and limits at concrete amounts.
use acbu_backend.Prelude.{
  ℕ, ◌≤◌, ◌<◌, ◌≡◌, refl, ◌↔◌, true, false, Option, none, some, List, [], ◌∷◌, length, Fraction,
  over, arith, if◌then◌else◌, ◌==◌,
}
use acbu_backend.Prelude.Doubles.{double_num, double_den, round_half_even, scale_up}
use acbu_backend.Prelude.Result.{ok}
use acbu_backend.Basket.{
  ConfigRow, BasketEntry, Entry, round_weights_to_exact_basis_points, sum_floored,
}
use acbu_backend.Basket.Rounding.{round_weights-exact, IsClose, All}
use acbu_backend.Reserve.{transactions, ReserveRow, ReserveStatus, ReserveConfig}
use acbu_backend.Fees.FeeManager.{
  PaymentFeeQuote, buffered_fee, surge_num, surge_den, apply_fee_surge_buffer,
}
use acbu_backend.Fees.FeeManager.Bounds.{quote_bounds}
use acbu_backend.SyntheticBasket.{BasketLegInput, SyntheticBasketOneAcbu}
use acbu_backend.Limits.{TransactionRow, LimitConfig, Actor, mint}

abbrev thirds : List (ℕ × ℕ)
thirds = (0, 33333) ∷ (1, 33333) ∷ (2, 33334) ∷ []

round_weights-exact_example :
    (es : List Entry) × (round_weights_to_exact_basis_points 10 thirds ≡ ok es)
    × (sum_floored es ≡ 10000)
    × (length es ≡ length thirds)
    × All (IsClose 10) es
round_weights-exact_example = round_weights-exact 10 thirds (omega arith) refl refl

abbrev half_rows : List ConfigRow
half_rows =
    record { currency = 0; weight = 6000; active = true; effective_from = 5 }
    ∷ record { currency = 1; weight = 4000; active = true; effective_from = 5 }
    ∷ []

abbrev half_basket : List BasketEntry
half_basket = record { currency = 0; weight = 6000 } ∷ record { currency = 1; weight = 4000 } ∷ []

abbrev naira_row : ℕ → ReserveRow
naira_row t = record {
  currency = 0;
  segment = transactions;
  target_weight = 1800;
  actual_weight = 1700;
  reserve_amount = 500;
  reserve_value_usd = 10;
  timestamp = t;
}

abbrev reserve_rows : List ReserveRow
reserve_rows = naira_row 3 ∷ naira_row 8 ∷ naira_row 5 ∷ []

abbrev reserve_config : ReserveConfig
reserve_config = record {
  min_ratio = over 102 100;
  target_ratio = over 105 100;
  alert_threshold = over 103 100;
}

abbrev clamped_quote : PaymentFeeQuote
clamped_quote = record {
  fee_stroops = 110;
  network_fee_stroops = 100;
  buffered = true;
  clamped_to_ceiling = true;
  max_fee_stroops = 110;
}

-- A buffer of 10% on 100 stroops comes to 111, as the double product lies above 110.
quote_bounds_example :
    (110 ≤ 110)
    × (100 ≤ 110 → 100 ≤ 110)
    × ((true ≡ true) ↔ (110 < buffered_fee 100 1000))
    × (true ≡ false → 110 ≡ buffered_fee 100 1000)
unfolding apply_fee_surge_buffer buffered_fee surge_num surge_den double_num double_den
    round_half_even scale_up
quote_bounds_example = quote_bounds 100 110 1000 clamped_quote (omega arith) refl

fee_of_111 : buffered_fee 100 1000 ≡ 111
unfolding buffered_fee surge_num surge_den double_num double_den round_half_even scale_up
fee_of_111 = refl

abbrev naira_status : List ReserveStatus
naira_status =
    record {
      currency = 0;
      target_weight = 1800;
      actual_weight = 1500;
      reserve_amount = 500;
      reserve_value_usd = 10;
    }
    ∷ []

abbrev two_legs : List BasketLegInput
two_legs = record { currency = 0; weight = 18 } ∷ record { currency = 1; weight = 12 } ∷ []

abbrev first_priced : ℕ → Option Fraction
first_priced c = if c == 0 then some (over 7 10000) else none

abbrev one_leg : SyntheticBasketOneAcbu
one_leg = record {
  usd_notional_per_acbu = 1;
  legs =
      record {
        currency = 0;
        weight_percent = 18;
        effective_value_fraction = over 18 18;
        usd_per_local = over 7 10000;
        local_per_one_acbu = over 180000 126;
        usd_value_in_leg = over 18 18;
      }
      ∷ [];
}

abbrev caps : LimitConfig
caps = record {
  deposit_daily_usd = 5000;
  deposit_monthly_usd = 50000;
  withdrawal_daily_usd = 10000;
  withdrawal_monthly_usd = 80000;
}

abbrev basket_deposit : TransactionRow
basket_deposit = record {
  kind = mint;
  status = acbu_backend.Limits.pending;
  created_at = 100;
  user_id = some 1;
  organization_id = none;
  user_organization_id = none;
  local_currency = 3;
  usdc_amount = none;
  amount_usd = some 3000;
  acbu_amount_burned = none;
}
