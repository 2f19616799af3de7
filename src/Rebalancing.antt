-- ===== src/Rebalancing.antt =====
-- The rebalancing of the reserves: src/services/reserve/RebalancingEngine.ts. Weights and the threshold
-- are in basis points, the value of the reserves counts smallest units of a dollar, and quotients are
-- exact fractions. The rate of a currency in dollars is what its provider answers; `none` is a provider
-- that fails.
pub mod Shares
use acbu_backend.Prelude.{
  ℕ, ◌+◌, ◌-◌, ◌*◌, Bool, true, false, Option, none, some, List, [], ◌∷◌, ◌++◌, ◌==◌, ◌||◌, ltb,
  if◌then◌else◌, select, length, Fraction, over,
}
use acbu_backend.Reserve.{ReserveStatus}

-- `RebalanceInstruction`
pub record RebalanceInstruction : Type 0 where
  pub from_currency : ℕ
  pub to_currency : ℕ
  pub amount_usd : Fraction
  pub rate_from_usd : Fraction
  pub rate_to_usd : Fraction
  pub amount_from : Fraction
  pub amount_to : Fraction

-- `a / b` of fractions.
abbrev pub divided : Fraction → Fraction → Fraction
divided a b = over (a.num * b.den) (a.den * b.num)

-- `weightDrift`, where the actual weight is above the target, and its opposite, where it is below.
abbrev pub excess : ReserveStatus → ℕ
excess s = s.actual_weight - s.target_weight

abbrev pub deficit : ReserveStatus → ℕ
deficit s = s.target_weight - s.actual_weight

abbrev pub is_overweight : ℕ → ReserveStatus → Bool
is_overweight threshold s = ltb (s.target_weight + threshold) s.actual_weight

abbrev pub is_underweight : ℕ → ReserveStatus → Bool
is_underweight threshold s = ltb (s.actual_weight + threshold) s.target_weight

abbrev pub total_deficit : List ReserveStatus → ℕ
total_deficit [] = 0
total_deficit (u ∷ us) = deficit u + total_deficit us

module _ (rate : ℕ → Option Fraction) (total : ℕ) where
  -- `shareOfExcess`: the excess, of basis points of the total, times the share of the deficit.
  abbrev pub share_of_excess : ReserveStatus → ReserveStatus → ℕ → Fraction
  share_of_excess o u deficits = over (deficit u * (total * excess o)) (deficits * 10000)

  abbrev pub instruction :
      ReserveStatus → ReserveStatus → ℕ → Fraction → Fraction → RebalanceInstruction
  instruction o u deficits from to = record {
    from_currency = o.currency;
    to_currency = u.currency;
    amount_usd = share_of_excess o u deficits;
    rate_from_usd = from;
    rate_to_usd = to;
    amount_from = divided (share_of_excess o u deficits) from;
    amount_to = divided (share_of_excess o u deficits) to;
  }

  -- The body of the inner loop, given the instructions of the rest.
  abbrev pub buy :
      ReserveStatus
      → ReserveStatus
      → ℕ
      → Fraction
      → Option Fraction
      → List RebalanceInstruction
      → List RebalanceInstruction
  buy o u deficits from none rest = rest
  buy o u deficits from (some to) rest =
      if (share_of_excess o u deficits).num == 0
      then rest
      else instruction o u deficits from to ∷ rest

  abbrev pub buy_all : ReserveStatus → ℕ → Fraction → List ReserveStatus → List RebalanceInstruction
  buy_all o deficits from [] = []
  buy_all o deficits from (u ∷ us) =
      buy o u deficits from (rate u.currency) (buy_all o deficits from us)

  -- The body of the outer loop.
  abbrev pub sell : ReserveStatus → List ReserveStatus → Option Fraction → List RebalanceInstruction
  sell o unders none = []
  sell o unders (some from) =
      if total * excess o == 0 then [] else buy_all o (total_deficit unders) from unders

  abbrev pub sell_all : List ReserveStatus → List ReserveStatus → List RebalanceInstruction
  sell_all [] unders = []
  sell_all (o ∷ os) unders = sell o unders (rate o.currency) ++ sell_all os unders

  -- `generateInstructions`
  unfoldable pub generate_instructions : ℕ → List ReserveStatus → List RebalanceInstruction
  generate_instructions threshold statuses =
      let overs = select (is_overweight threshold) statuses in
      let unders = select (is_underweight threshold) statuses in
      if length overs == 0 || length unders == 0 then [] else sell_all overs unders

  -- The status of the event that `run` creates.
  pub data EventStatus : Type 0 where
    pending completed : EventStatus

  unfoldable pub run_status : ℕ → List ReserveStatus → EventStatus
  unfolding generate_instructions
  run_status threshold statuses =
      if ltb 0 (length (generate_instructions threshold statuses)) then pending else completed
