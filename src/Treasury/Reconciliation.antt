-- ===== src/Treasury/Reconciliation.antt =====
-- `getEnterpriseTreasury` and `getTreasuryHealth`: src/services/treasury/TreasuryService.ts.
use acbu_backend.Prelude.{
  ℕ, ◌+◌, ◌-◌, ◌*◌, Bool, List, [], ◌∷◌, ◌++◌, map, ◌==◌, ltb, leb, if◌then◌else◌, Fraction, over,
}
use acbu_backend.Reserve.{transactions, investment_savings, ReserveRow, latest_reserve}
use acbu_backend.Treasury.{
  Transaction, TransactionAggregate, OracleRate, TreasurySegment, build_treasury_segment,
  aggregate_transactions_by_segment, exact,
}

-- `ReconciliationResult`, without the texts. The calculated total is what came in less what went out,
-- and may be negative; the percentage is an exact fraction.
pub record ReconciliationResult : Type 0 where
  pub ledger_total : ℕ
  pub calculated_in : ℕ
  pub calculated_out : ℕ
  pub discrepancy : ℕ
  pub discrepancy_percentage : Fraction
  pub is_reconciled : Bool

-- `Math.abs(a - b)`
abbrev pub distance : ℕ → ℕ → ℕ
distance a b = (a - b) + (b - a)

abbrev pub at_most : Fraction → Fraction → Bool
at_most x y = leb (x.num * y.den) (y.num * x.den)

-- `DEFAULT_TOLERANCE_PERCENTAGE`
abbrev pub default_tolerance_percentage : Fraction
default_tolerance_percentage = over 1 100

abbrev pub percentage : ℕ → ℕ → Fraction
percentage discrepancy ledger = if ltb 0 ledger then over (discrepancy * 100) ledger else over 0 1

-- `reconcileTotals`
unfoldable pub reconcile_totals : ℕ → ℕ → ℕ → Fraction → ReconciliationResult
reconcile_totals ledger calculated_in calculated_out tolerance =
    let discrepancy = distance (ledger + calculated_out) calculated_in in
    record {
      ledger_total = ledger;
      calculated_in = calculated_in;
      calculated_out = calculated_out;
      discrepancy = discrepancy;
      discrepancy_percentage = percentage discrepancy ledger;
      is_reconciled = at_most (percentage discrepancy ledger) tolerance;
    }

-- `TreasuryBySegment`
pub record TreasuryBySegment : Type 0 where
  pub currency : ℕ
  pub transactions : TreasurySegment
  pub investment_savings : TreasurySegment
  pub combined_amount : ℕ
  pub combined_value_usd : ℕ

-- The body of the loop over the currencies.
unfoldable pub treasury_of : ℕ → List OracleRate → List ReserveRow → ℕ → TreasuryBySegment
unfolding build_treasury_segment
treasury_of now rates rows c =
    let tx = build_treasury_segment now rates c transactions (latest_reserve c transactions rows) in
    let inv =
      build_treasury_segment now rates c investment_savings
        (latest_reserve c investment_savings rows) in
    record {
      currency = c;
      transactions = tx;
      investment_savings = inv;
      combined_amount = tx.reserve_amount + inv.reserve_amount;
      combined_value_usd = tx.reserve_value_usd + inv.reserve_value_usd;
    }

-- A `Set`, and `sort`.
abbrev pub insert_distinct : ℕ → List ℕ → List ℕ
insert_distinct c [] = c ∷ []
insert_distinct c (d ∷ ds) =
    let rest = insert_distinct c ds in
    if c == d then d ∷ ds else if ltb c d then c ∷ d ∷ ds else d ∷ rest

abbrev pub sorted_set : List ℕ → List ℕ
sorted_set [] = []
sorted_set (c ∷ cs) = insert_distinct c (sorted_set cs)

-- The totals that the loop adds up.
pub record Totals : Type 0 where
  pub total_balance_usd : ℕ
  pub total_reserve_amount : ℕ
  pub transactions_usd : ℕ
  pub investment_savings_usd : ℕ
  pub by_currency : List TreasuryBySegment

abbrev pub add_currency : TreasuryBySegment → Totals → Totals
add_currency x t = record {
  total_balance_usd = t.total_balance_usd + x.combined_value_usd;
  total_reserve_amount = t.total_reserve_amount + x.combined_amount;
  transactions_usd = t.transactions_usd + x.transactions.reserve_value_usd;
  investment_savings_usd = t.investment_savings_usd + x.investment_savings.reserve_value_usd;
  by_currency = t.by_currency ++ (x ∷ []);
}

abbrev pub add_currencies : ℕ → List OracleRate → List ReserveRow → List ℕ → Totals → Totals
add_currencies now rates rows [] t = t
add_currencies now rates rows (c ∷ cs) t =
    add_currencies now rates rows cs (add_currency (treasury_of now rates rows c) t)

abbrev pub no_totals : Totals
no_totals = record {
  total_balance_usd = 0;
  total_reserve_amount = 0;
  transactions_usd = 0;
  investment_savings_usd = 0;
  by_currency = [];
}

abbrev pub came_in : List (TransactionAggregate ℕ) → ℕ
came_in [] = 0
came_in (a ∷ xs) = a.total_minted_usd + a.net_transferred_usd + came_in xs

abbrev pub went_out : List (TransactionAggregate ℕ) → ℕ
went_out [] = 0
went_out (a ∷ xs) = a.total_burned_usd + went_out xs

abbrev pub currencies : List ReserveRow → List (TransactionAggregate ℕ) → List ℕ
currencies rows xs = sorted_set (map (λ r. r.currency) rows ++ map (λ a. a.currency) xs)

-- `getEnterpriseTreasury`
unfoldable pub get_enterprise_treasury :
    ℕ
    → List OracleRate
    → List ReserveRow
    → List Transaction
    → Fraction
    → Totals × ReconciliationResult
unfolding treasury_of reconcile_totals aggregate_transactions_by_segment
get_enterprise_treasury now rates rows txs tolerance =
    let xs = aggregate_transactions_by_segment exact txs in
    let t = add_currencies now rates rows (currencies rows xs) no_totals in
    (t, reconcile_totals t.total_balance_usd (came_in xs) (went_out xs) tolerance)

-- `getTreasuryHealth`, where the database answers: `healthy` and the balance.
unfoldable pub get_treasury_health :
    ℕ → List OracleRate → List ReserveRow → List Transaction → Bool × ℕ
unfolding get_enterprise_treasury
get_treasury_health now rates rows txs =
    let (t, r) = get_enterprise_treasury now rates rows txs default_tolerance_percentage in
    (r.is_reconciled, t.total_balance_usd)
