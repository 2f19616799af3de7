-- ===== src/Witnesses/Treasuries.antt =====
-- The theorems about src/services/treasury/TreasuryService.ts and
-- src/services/reserve/RebalancingEngine.ts at concrete rows.
use acbu_backend.Prelude.{
  Option, ℕ, ◌≡◌, ◌≤◌, some, List, [], ◌∷◌, ◌&&◌, count_where, arith, over, Fraction,
}
use acbu_backend.TransactionStatus.{completed, pending}
use acbu_backend.Reserve.{ReserveRow, transactions}
use acbu_backend.Reserve.{ReserveStatus}
use acbu_backend.Treasury.{Transaction, mint, burn, exact, aggregate_transactions_by_segment}
use acbu_backend.Treasury.Aggregates.{
  for_currency, total_in, counts, rows_of, added, aggregate-sums,
}

abbrev minted : Transaction
minted = record { status = completed; kind = mint; local_currency = some 3; usdc_amount = some 500 }

abbrev burned : Transaction
burned = record { status = completed; kind = burn; local_currency = some 3; usdc_amount = some 120 }

abbrev waiting : Transaction
waiting = record { status = pending; kind = mint; local_currency = some 3; usdc_amount = some 9 }

abbrev txs : List Transaction
txs = minted ∷ burned ∷ waiting ∷ minted ∷ []

aggregate-sums_example :
    (count_where (for_currency exact 3) (aggregate_transactions_by_segment exact txs) ≤ 1)
    × (total_in exact mint 3 (aggregate_transactions_by_segment exact txs)
        ≡ added exact (λ t. counts t && rows_of mint 3 t) 0 txs)
aggregate-sums_example = aggregate-sums exact txs (omega arith) mint 3

abbrev reserve_row : ReserveRow
reserve_row = record {
  currency = 3;
  segment = transactions;
  target_weight = 1000;
  actual_weight = 1000;
  reserve_amount = 80000;
  reserve_value_usd = 880;
  timestamp = 5;
}

abbrev status : ℕ → ℕ → ℕ → ReserveStatus
status c target actual = record {
  currency = c;
  target_weight = target;
  actual_weight = actual;
  reserve_amount = 0;
  reserve_value_usd = 0;
}

abbrev unders : List ReserveStatus
unders = status 2 3000 2000 ∷ status 3 3000 2500 ∷ []

abbrev rates : ℕ → Option Fraction
rates c = some (over c 10)
