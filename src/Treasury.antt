-- ===== src/Treasury.antt =====
-- The treasury and its reconciliation: src/services/treasury/TreasuryService.ts. Dollars and reserve
-- amounts count smallest units. The aggregates are over any numbers with an addition, so over doubles;
-- the reconciliation takes them in exact numbers. Currency codes are only compared and sorted, so they are numbers in the order of the texts, and a row without a
-- currency, or with an empty one, has `none`. The rows of `getLatestReserves` are the newest of each
-- currency and segment, so its map is `latest_reserve`. Warnings and the time of a missing rate, which
-- is the time of the call, are left out.
pub mod Aggregates
pub mod Reconciliation
pub mod Totals
use acbu_backend.Prelude.{
  ℕ, suc, ◌+◌, ◌-◌, ◌*◌, Bool, true, false, Option, none, some, List, [], ◌∷◌, ◌++◌, map, ◌==◌, ltb,
  leb, if◌then◌else◌, take, select, ◌&&◌, Fraction, over, any,
}
use acbu_backend.TransactionStatus.{Status, pending, processing, completed, failed, refunded}
use acbu_backend.Reserve.{
  Segment, transactions, investment_savings, ReserveRow, latest_reserve, value_of,
}

-- The column `type` of a transaction.
pub data Kind : Type 0 where
  mint burn transfer other : Kind

pub record Transaction : Type 0 where
  pub status : Status
  pub kind : Kind
  pub local_currency : Option ℕ
  pub usdc_amount : Option ℕ

-- The numbers that amounts become: zero, the addition, and what `toNumber` makes of an amount.
pub record Arithmetic (D : Type 0) : Type 0 where
  pub nought : D
  pub plus : D → D → D
  pub to_number : ℕ → D

-- Exact numbers.
abbrev pub exact : Arithmetic ℕ
exact = record { nought = 0; plus = λ a b. a + b; to_number = λ n. n }

-- `TransactionAggregate`
pub record TransactionAggregate (D : Type 0) : Type 0 where
  pub currency : ℕ
  pub total_minted_usd : D
  pub total_burned_usd : D
  pub net_transferred_usd : D
  pub transaction_count : ℕ

-- `decimalToNumber`
abbrev pub decimal_to_number : {D : Type 0} → Arithmetic D → Option ℕ → D
decimal_to_number n none = n.nought
decimal_to_number n (some amount) = n.to_number amount

-- The `where` of the query.
abbrev pub is_final : Status → Bool
is_final completed = true
is_final processing = true
is_final _ = false

abbrev pub is_listed : Kind → Bool
is_listed other = false
is_listed _ = true

abbrev pub is_counted : Transaction → Bool
is_counted t = is_final t.status && is_listed t.kind

-- `take: 50_000`
abbrev pub row_cap : ℕ
row_cap = 50000

module _ {D : Type 0} (n : Arithmetic D) where
  -- `existing`, where the currency has none yet.
  abbrev pub empty_aggregate : ℕ → TransactionAggregate D
  empty_aggregate c = record {
    currency = c;
    total_minted_usd = n.nought;
    total_burned_usd = n.nought;
    net_transferred_usd = n.nought;
    transaction_count = 0;
  }

  abbrev pub add_amount : Kind → D → TransactionAggregate D → TransactionAggregate D
  add_amount mint x a = record a {
    total_minted_usd = n.plus a.total_minted_usd x;
    transaction_count = suc a.transaction_count;
  }
  add_amount burn x a = record a {
    total_burned_usd = n.plus a.total_burned_usd x;
    transaction_count = suc a.transaction_count;
  }
  add_amount transfer x a = record a {
    net_transferred_usd = n.plus a.net_transferred_usd x;
    transaction_count = suc a.transaction_count;
  }
  add_amount other x a = record a { transaction_count = suc a.transaction_count }

  -- `aggregates.get(currency) ?? …`, changed, and `aggregates.set`.
  abbrev pub update_aggregate :
      ℕ
      → (TransactionAggregate D → TransactionAggregate D)
      → List (TransactionAggregate D)
      → List (TransactionAggregate D)
  update_aggregate c f [] = f (empty_aggregate c) ∷ []
  update_aggregate c f (a ∷ xs) =
      let rest = update_aggregate c f xs in if a.currency == c then f a ∷ xs else a ∷ rest

  abbrev pub add_transaction :
      Transaction → List (TransactionAggregate D) → List (TransactionAggregate D)
  add_transaction t xs = elim t.local_currency [
    | none ↦ xs
    | some c ↦ update_aggregate c (add_amount t.kind (decimal_to_number n t.usdc_amount)) xs
  ]

  -- The loop over the rows.
  abbrev pub add_transactions :
      List Transaction → List (TransactionAggregate D) → List (TransactionAggregate D)
  add_transactions [] xs = xs
  add_transactions (t ∷ ts) xs = add_transactions ts (add_transaction t xs)

  -- `aggregateTransactionsBySegment`, of the rows in the order of the database.
  unfoldable pub aggregate_transactions_by_segment :
      List Transaction → List (TransactionAggregate D)
  aggregate_transactions_by_segment ts = add_transactions (take row_cap (select is_counted ts)) []

-- A row of `oracle_rates`.
pub record OracleRate : Type 0 where
  pub currency : ℕ
  pub rate_usd : ℕ
  pub timestamp : ℕ

abbrev later : OracleRate → Option OracleRate → Option OracleRate
later r none = some r
later r (some s) = if ltb r.timestamp s.timestamp then some s else some r

-- `findFirst` of the rows that pass, with the newest first.
abbrev pub newest : (OracleRate → Bool) → List OracleRate → Option OracleRate
newest p [] = none
newest p (r ∷ rs) = let rest = newest p rs in if p r then later r rest else rest

pub data RateSource : Type 0 where
  current fallback zero_rate : RateSource

pub record FxRate : Type 0 where
  pub rate_usd : ℕ
  pub source : RateSource

-- `DAYS_FOR_FX_FALLBACK`, in milliseconds.
abbrev pub fx_fallback_ms : ℕ
fx_fallback_ms = 7 * 24 * 60 * 60 * 1000

-- `getFxRateWithFallback`
unfoldable pub get_fx_rate_with_fallback : ℕ → ℕ → List OracleRate → Option FxRate
get_fx_rate_with_fallback now c rates = elim (newest (λ r. r.currency == c) rates) [
  | some r ↦ some (record { rate_usd = r.rate_usd; source = current })
  | none ↦ elim (newest (λ r. r.currency == c && leb (now - fx_fallback_ms) r.timestamp) rates) [
    | some r ↦ some (record { rate_usd = r.rate_usd; source = fallback })
    | none ↦ none
  ]
]

-- `TreasurySegment`; a rate of one is `none`, since `FxRate` counts smallest units.
pub record TreasurySegment : Type 0 where
  pub currency : ℕ
  pub segment : Segment
  pub reserve_amount : ℕ
  pub reserve_value_usd : ℕ
  pub fx_rate : Option ℕ
  pub fx_rate_source : RateSource

-- `buildTreasurySegment`
abbrev pub amount_of : Option ReserveRow → ℕ
amount_of none = 0
amount_of (some r) = r.reserve_amount

abbrev pub rate_for : ℕ → ℕ → List OracleRate → Option ReserveRow → Option FxRate
rate_for now c rates none = none
rate_for now c rates (some r) = get_fx_rate_with_fallback now c rates

abbrev pub rate_of : Option FxRate → Option ℕ
rate_of none = none
rate_of (some x) = some x.rate_usd

abbrev pub source_of : Option FxRate → RateSource
source_of none = zero_rate
source_of (some x) = x.source

unfoldable pub build_treasury_segment :
    ℕ → List OracleRate → ℕ → Segment → Option ReserveRow → TreasurySegment
unfolding get_fx_rate_with_fallback
build_treasury_segment now rates c segment reserve = record {
  currency = c;
  segment = segment;
  reserve_amount = amount_of reserve;
  reserve_value_usd = value_of reserve;
  fx_rate = rate_of (rate_for now c rates reserve);
  fx_rate_source = source_of (rate_for now c rates reserve);
}
