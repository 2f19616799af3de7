-- ===== src/Rebalancing/Shares.antt =====
-- What is sold is what is bought: src/services/reserve/RebalancingEngine.ts.
use acbu_backend.Prelude.{ℕ, ◌+◌, ◌≡◌, Option, some, List, [], ◌∷◌, Fraction}
use acbu_backend.Reserve.{ReserveStatus}
use acbu_backend.Rebalancing.{RebalanceInstruction}

-- The sum of the numerators of the amounts in dollars, which have one denominator.
abbrev pub total_num : List RebalanceInstruction → ℕ
total_num [] = 0
total_num (i ∷ is) = i.amount_usd.num + total_num is

-- Every amount in dollars has the denominator `d`.
abbrev pub AllOver : ℕ → List RebalanceInstruction → Type 0
AllOver d [] = Unit {0}
AllOver d (i ∷ is) = (i.amount_usd.den ≡ d) × AllOver d is

-- Every currency of the list has a rate.
abbrev pub AllRated : (ℕ → Option Fraction) → List ReserveStatus → Type 0
AllRated rate [] = Unit {0}
AllRated rate (u ∷ us) = ((r : Fraction) × (rate u.currency ≡ some r)) × AllRated rate us
