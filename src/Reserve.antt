-- ===== src/Reserve.antt =====
-- Reserves and their ratio to the supply: the queries of src/services/reserve/ReserveTracker.ts.
-- Amounts of ACBU and of dollars count smallest units of 7 decimals, weights are in basis points, and
-- ratios are exact fractions. The configured thresholds are parameters.
pub mod Ratio
use acbu_backend.Prelude.{
  ℕ, ◌+◌, ◌-◌, ◌*◌, Bool, true, false, Option, none, some, List, [], ◌∷◌, ◌&&◌, ltb, leb, ◌==◌,
  if◌then◌else◌, Fraction, less, at_least, over, sum_where,
}

pub data Segment : Type 0 where
  transactions investment_savings : Segment

abbrev pub same_segment : Segment → Segment → Bool
same_segment transactions transactions = true
same_segment investment_savings investment_savings = true
same_segment _ _ = false

-- A row of `prisma.reserve`.
pub record ReserveRow : Type 0 where
  pub currency : ℕ
  pub segment : Segment
  pub target_weight : ℕ
  pub actual_weight : ℕ
  pub reserve_amount : ℕ
  pub reserve_value_usd : ℕ
  pub timestamp : ℕ

abbrev later : ReserveRow → Option ReserveRow → Option ReserveRow
later r none = some r
later r (some s) = if ltb r.timestamp s.timestamp then some s else some r

-- `findFirst` with the newest row first.
unfoldable pub latest_reserve : ℕ → Segment → List ReserveRow → Option ReserveRow
latest_reserve currency segment [] = none
latest_reserve currency segment (r ∷ rs) =
    let rest = latest_reserve currency segment rs in
    if r.currency == currency && same_segment r.segment segment then later r rest else rest

abbrev pub value_of : Option ReserveRow → ℕ
value_of none = 0
value_of (some r) = r.reserve_value_usd

-- `getTotalReserveValue`
unfoldable pub get_total_reserve_value : List ℕ → Segment → List ReserveRow → ℕ
unfolding latest_reserve
get_total_reserve_value [] segment rows = 0
get_total_reserve_value (c ∷ cs) segment rows =
    value_of (latest_reserve c segment rows) + get_total_reserve_value cs segment rows

-- A completed row of the ledger: minted or burned ACBU; `none` is a null column.
pub data Movement : Type 0 where
  minted burned : Option ℕ → Movement

abbrev amount_minted : Movement → ℕ
amount_minted (minted (some n)) = n
amount_minted _ = 0

abbrev amount_burned : Movement → ℕ
amount_burned (burned (some n)) = n
amount_burned _ = 0

abbrev pub sum_minted : List Movement → ℕ
sum_minted = sum_where (λ _. true) amount_minted

abbrev pub sum_burned : List Movement → ℕ
sum_burned = sum_where (λ _. true) amount_burned

-- `getTotalAcbuSupplyFromLedger`, with `Math.max(0, …)` by the subtraction that stops at 0.
unfoldable pub get_total_acbu_supply_from_ledger : List Movement → ℕ
get_total_acbu_supply_from_ledger ms = sum_minted ms - sum_burned ms

-- Horizon's answer about the asset: the query throws, finds no asset, or gives the amount issued.
pub data SupplyReply : Type 0 where
  throws no_records : SupplyReply
  on_chain : ℕ → SupplyReply

-- `getTotalAcbuSupply`; the first argument says whether an issuer is configured.
unfoldable pub get_total_acbu_supply : Bool → SupplyReply → List Movement → ℕ
unfolding get_total_acbu_supply_from_ledger
get_total_acbu_supply false reply ms = get_total_acbu_supply_from_ledger ms
get_total_acbu_supply true throws ms = get_total_acbu_supply_from_ledger ms
get_total_acbu_supply true no_records ms = get_total_acbu_supply_from_ledger ms
get_total_acbu_supply true (on_chain n) ms = n

-- `calculateReserveRatio`, of the supply and the value of the reserves.
unfoldable pub calculate_reserve_ratio : ℕ → ℕ → Fraction
calculate_reserve_ratio supply value = if supply == 0 then over 0 1 else over value supply

pub data Health : Type 0 where
  healthy warning critical : Health

-- The configured ratios, as fractions: `config.reserve`.
pub record ReserveConfig : Type 0 where
  pub min_ratio : Fraction
  pub target_ratio : Fraction
  pub alert_threshold : Fraction

-- The `health` of `getReserveStatus`: the ratio in percent against the thresholds in percent.
unfoldable pub reserve_health : ReserveConfig → ℕ → ℕ → Health
reserve_health c supply value =
    let ratio = if ltb 0 supply then over (value * 100) supply else over 0 1 in
    if at_least ratio (over (c.target_ratio.num * 100) c.target_ratio.den)
    then healthy
    else if at_least ratio (over (c.alert_threshold.num * 100) c.alert_threshold.den)
    then warning
    else critical

-- The part of `ReserveStatus` that other modules read.
pub record ReserveStatus : Type 0 where
  pub currency : ℕ
  pub target_weight : ℕ
  pub actual_weight : ℕ
  pub reserve_amount : ℕ
  pub reserve_value_usd : ℕ

abbrev status_of : ℕ → Option ReserveRow → List ReserveStatus → List ReserveStatus
status_of c none rest = rest
status_of c (some r) rest =
    record {
      currency = c;
      target_weight = r.target_weight;
      actual_weight = r.actual_weight;
      reserve_amount = r.reserve_amount;
      reserve_value_usd = r.reserve_value_usd;
    }
    ∷ rest

-- The loop of `getReserveStatus` over the currencies of the basket.
unfoldable pub currency_statuses : List ℕ → Segment → List ReserveRow → List ReserveStatus
unfolding latest_reserve
currency_statuses [] segment rows = []
currency_statuses (c ∷ cs) segment rows =
    status_of c (latest_reserve c segment rows) (currency_statuses cs segment rows)

-- `status.currencies.find((c) => c.currency === currency)`
unfoldable pub find_status : ℕ → List ReserveStatus → Option ReserveStatus
find_status currency [] = none
find_status currency (s ∷ ss) =
    let rest = find_status currency ss in if s.currency == currency then some s else rest
