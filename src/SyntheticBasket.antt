-- ===== src/SyntheticBasket.antt =====
-- What one ACBU is made of: src/services/oracle/syntheticBasket.ts. Weights and the notional are
-- numbers of a common step; rates and the quotients are exact fractions, where the source rounds to
-- floating-point numbers.
pub mod Shares
use acbu_backend.Prelude.{
  ℕ, ◌*◌, Bool, true, false, Option, none, some, List, [], ◌∷◌, map, ◌&&◌, ltb, leb, ◌==◌,
  if◌then◌else◌, Fraction, over, select, sum_where,
}

-- `BasketLegInput`
pub record BasketLegInput : Type 0 where
  pub currency : ℕ
  pub weight : ℕ

-- `SyntheticBasketLeg`
pub record SyntheticBasketLeg : Type 0 where
  pub currency : ℕ
  pub weight_percent : ℕ
  pub effective_value_fraction : Fraction
  pub usd_per_local : Fraction
  pub local_per_one_acbu : Fraction
  pub usd_value_in_leg : Fraction

-- `SyntheticBasketOneAcbu`
pub record SyntheticBasketOneAcbu : Type 0 where
  pub usd_notional_per_acbu : ℕ
  pub legs : List SyntheticBasketLeg

abbrev or_zero : Option Fraction → Fraction
or_zero none = over 0 1
or_zero (some r) = r

-- `usdPerLocal[currency] ?? 0`
abbrev pub rate_of : (ℕ → Option Fraction) → ℕ → Fraction
rate_of rates c = or_zero (rates c)

-- `basket.filter(...)`
abbrev pub priced : (ℕ → Option Fraction) → List BasketLegInput → List BasketLegInput
priced rates = select (λ b. ltb 0 b.weight && ltb 0 (rate_of rates b.currency).num)

abbrev pub total_weight : List BasketLegInput → ℕ
total_weight = sum_where (λ _. true) (λ b. b.weight)

abbrev pub leg : (ℕ → Option Fraction) → ℕ → ℕ → BasketLegInput → SyntheticBasketLeg
leg rates notional w b =
    let r = rate_of rates b.currency in
    record {
      currency = b.currency;
      weight_percent = b.weight;
      effective_value_fraction = over b.weight w;
      usd_per_local = r;
      local_per_one_acbu = over (notional * b.weight * r.den) (w * r.num);
      usd_value_in_leg = over (notional * b.weight) w;
    }

-- `composeOneAcbuFromWeightsAndUsdRates`
unfoldable pub compose_one_acbu :
    List BasketLegInput → (ℕ → Option Fraction) → ℕ → Option SyntheticBasketOneAcbu
compose_one_acbu basket rates notional =
    let ps = priced rates basket in
    let w = total_weight ps in
    if w == 0
    then none
    else some (record { usd_notional_per_acbu = notional; legs = map (leg rates notional w) ps })

-- A row of `oracle_rates`.
pub record OracleRate : Type 0 where
  pub currency : ℕ
  pub median_rate : Fraction
  pub timestamp : ℕ

abbrev newer : OracleRate → Option OracleRate → Option OracleRate
newer r none = some r
newer r (some s) = if ltb r.timestamp s.timestamp then some s else some r

-- `findFirst` with the newest first.
abbrev pub latest_rate : ℕ → List OracleRate → Option OracleRate
latest_rate c [] = none
latest_rate c (r ∷ rs) =
    let rest = latest_rate c rs in if r.currency == c then newer r rest else rest

abbrev positive : Option OracleRate → Option Fraction
positive none = none
positive (some r) = if ltb 0 r.median_rate.num then some r.median_rate else none

abbrev listed : ℕ → List BasketLegInput → Bool
listed c [] = false
listed c (b ∷ bs) = if b.currency == c then true else listed c bs

-- The rates that `computeSyntheticBasketOneAcbuForBasket` collects for the basket.
abbrev pub usd_rates : List BasketLegInput → List OracleRate → ℕ → Option Fraction
usd_rates basket rows c = if listed c basket then positive (latest_rate c rows) else none

-- `computeSyntheticBasketOneAcbuForBasket`
unfoldable pub compute_synthetic_basket :
    List BasketLegInput → List OracleRate → ℕ → Option SyntheticBasketOneAcbu
compute_synthetic_basket basket rows notional =
    compose_one_acbu basket (usd_rates basket rows) notional
