-- ===== src/Treasury/Totals.antt =====
-- The totals of the treasury: src/services/treasury/TreasuryService.ts.
use acbu_backend.Prelude.{
  ℕ, ◌+◌, ◌-◌, ◌*◌, ◌≡◌, refl, ◌∙◌, ap, ◌≤◌, ◌<◌, ◌↔◌, inl, inr, Bool, true, none, some, List, [],
  ◌∷◌, ◌==◌, ◌&&◌, Option-cases, leb, arith, Fraction, over,
}
use acbu_backend.Reserve.{
  Segment, transactions, investment_savings, ReserveRow, get_total_reserve_value,
}
use acbu_backend.Treasury.{
  Transaction, OracleRate, FxRate, newest, fx_fallback_ms, get_fx_rate_with_fallback,
  build_treasury_segment, aggregate_transactions_by_segment, exact, current,
}
use acbu_backend.Treasury.Reconciliation.{
  Totals, add_currency, default_tolerance_percentage, add_currencies, no_totals, currencies,
  get_enterprise_treasury, reconcile_totals, distance, get_treasury_health, treasury_of, came_in,
  went_out,
}

-- The share of a segment in the totals.
abbrev AddsUp : List ℕ → List ReserveRow → Totals → Totals → Type 0
AddsUp cs rows t u =
    (u.transactions_usd ≡ t.transactions_usd + get_total_reserve_value cs transactions rows)
    × (u.investment_savings_usd
        ≡ t.investment_savings_usd + get_total_reserve_value cs investment_savings rows)
    × (u.total_balance_usd + t.transactions_usd + t.investment_savings_usd
        ≡ t.total_balance_usd + u.transactions_usd + u.investment_savings_usd)

add_currencies-AddsUp :
    (now : ℕ) (rates : List OracleRate) (rows : List ReserveRow) (cs : List ℕ) (t : Totals)
    → AddsUp cs rows t (add_currencies now rates rows cs t)
unfolding treasury_of build_treasury_segment get_total_reserve_value
add_currencies-AddsUp now rates rows [] t = (omega arith, omega arith, omega arith)
add_currencies-AddsUp now rates rows (c ∷ cs) t =
    let t' = add_currency (treasury_of now rates rows c) t in
    let (a, b, d) = add_currencies-AddsUp now rates rows cs t' in
    (omega arith, omega arith, omega arith)

-- The balance is the sum of the two segments, and each of them is what the reserve tracker's
-- `getTotalReserveValue` adds up over the currencies of the reserves and the transactions.
pub treasury_totals :
    (now : ℕ) (rates : List OracleRate) (rows : List ReserveRow) (txs : List Transaction)
    (tolerance : Fraction)
    → let cs = currencies rows (aggregate_transactions_by_segment exact txs) in
      let t = (get_enterprise_treasury now rates rows txs tolerance).0 in
      (t.transactions_usd ≡ get_total_reserve_value cs transactions rows)
      × (t.investment_savings_usd ≡ get_total_reserve_value cs investment_savings rows)
      × (t.total_balance_usd ≡ t.transactions_usd + t.investment_savings_usd)
unfolding get_enterprise_treasury
treasury_totals now rates rows txs tolerance =
    let cs = currencies rows (aggregate_transactions_by_segment exact txs) in
    let (a, b, d) = add_currencies-AddsUp now rates rows cs no_totals in
    (omega arith, omega arith, omega arith)

-- Where the ledger holds something, the totals are reconciled exactly when a hundred times the
-- distance between what the ledger holds and what came in less what went out is at most the
-- tolerance, in percent, of the ledger.
pub reconcile_totals-tolerance :
    (ledger came went num den : ℕ)
    → 0 < ledger
    → (reconcile_totals ledger came went (over num den)).is_reconciled ≡ true
      ↔ (distance (ledger + went) came * 100 * den ≤ num * ledger)
unfolding reconcile_totals
reconcile_totals-tolerance ledger came went num den h = ground arith

no_reserves : (segment : Segment) (cs : List ℕ) → get_total_reserve_value cs segment [] ≡ 0
unfolding get_total_reserve_value
no_reserves segment [] = refl
no_reserves segment (c ∷ cs) = omega (arith, no_reserves segment cs)

empty_ledger :
    (came went : ℕ)
    → (reconcile_totals 0 came went default_tolerance_percentage).is_reconciled ≡ true
unfolding reconcile_totals
empty_ledger came went = ground arith

-- An empty ledger is always reconciled, whatever the transactions come to: without a reserve row the
-- treasury is healthy.
pub no_reserves_healthy :
    (now : ℕ) (rates : List OracleRate) (txs : List Transaction)
    → get_treasury_health now rates [] txs ≡ (true, 0)
unfolding get_treasury_health
no_reserves_healthy now rates txs =
    let xs = aggregate_transactions_by_segment exact txs in
    let cs = currencies [] xs in
    let t = add_currencies now rates [] cs no_totals in
    let (a, b, d) = add_currencies-AddsUp now rates [] cs no_totals in
    let tx = no_reserves transactions cs in
    let inv = no_reserves investment_savings cs in
    let nothing : t.total_balance_usd ≡ 0 = omega arith in
    ap
      (λ n. (
        (reconcile_totals n (came_in xs) (went_out xs) default_tolerance_percentage).is_reconciled,
        n,
      ))
      nothing
    ∙ ap (λ r. (r, 0)) (empty_ledger (came_in xs) (went_out xs))

newest-narrowed :
    (c : ℕ) (q : OracleRate → Bool) (rates : List OracleRate)
    → newest (λ r. r.currency == c) rates ≡ none
    → newest (λ r. r.currency == c && q r) rates ≡ none
newest-narrowed c q [] h = refl
newest-narrowed c q (r ∷ rs) h = ground (arith, newest-narrowed c q rs)

-- The second query of `getFxRateWithFallback` never gives a rate: it looks among fewer rows for what
-- the first has not found.
pub fallback_unreached :
    (now c : ℕ) (rates : List OracleRate) (x : FxRate)
    → get_fx_rate_with_fallback now c rates ≡ some x
    → x.source ≡ current
unfolding get_fx_rate_with_fallback
fallback_unreached now c rates x h = elim (Option-cases (newest (λ r. r.currency == c) rates)) [
  | inl missing ↦
      let missing' =
        newest-narrowed c (λ r. leb (now - fx_fallback_ms) r.timestamp) rates missing in
      ground arith
  | inr (r, found) ↦ ground arith
]
