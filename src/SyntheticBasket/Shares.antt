-- ===== src/SyntheticBasket/Shares.antt =====
-- The shares of the legs: src/services/oracle/syntheticBasket.ts.
use native.Mathlib.Nat.{mul-add, mul-zero}
use acbu_backend.Prelude.{
  ℕ, ◌+◌, ◌*◌, ◌<◌, ◌≡◌, refl, subst, inl, inr, ◌↔◌, Bool, true, false, Option, none, some, List,
  [], ◌∷◌, map, ◌&&◌, ltb, ◌==◌, if◌then◌else◌, Fraction, arith, any, Bool-cases, ==-refl,
}
use acbu_backend.SyntheticBasket.{
  BasketLegInput, SyntheticBasketLeg, SyntheticBasketOneAcbu, rate_of, priced, total_weight, leg,
  compose_one_acbu,
}

-- The legs' values in dollars, as numerators of the denominator `w` that each of them has.
abbrev pub values_over : ℕ → List SyntheticBasketLeg → Option ℕ
values_over w [] = some 0
values_over w (l ∷ ls) =
    let rest = values_over w ls in
    if l.usd_value_in_leg.den == w then plus l.usd_value_in_leg.num rest else none
  where
    plus : ℕ → Option ℕ → Option ℕ
    plus n none = none
    plus n (some m) = some (n + m)

legs-values :
    (rates : ℕ → Option Fraction) (v w : ℕ) (ps : List BasketLegInput)
    → values_over w (map (leg rates v w) ps) ≡ some (v * total_weight ps)
legs-values rates v w [] = rw (mul-zero v) refl
legs-values rates v w (b ∷ ps) =
    rw (legs-values rates v w ps, ==-refl w, mul-add v b.weight (total_weight ps)) refl

-- When the basket has a positive priced weight, the dollar values of the legs all have one positive
-- denominator, and they add up to exactly the notional.
pub legs-add_up :
    (basket : List BasketLegInput) (rates : ℕ → Option Fraction) (notional : ℕ)
    (one : SyntheticBasketOneAcbu)
    → compose_one_acbu basket rates notional ≡ some one
    → (w : ℕ) × (0 < w) × (values_over w one.legs ≡ some (notional * w))
unfolding compose_one_acbu
legs-add_up basket rates notional one h =
    let ps = priced rates basket in
    elim (Bool-cases (total_weight ps == 0)) [
      | inl z ↦ ground arith
      | inr n ↦
          let e : record {
            usd_notional_per_acbu = notional;
            legs = map (leg rates notional (total_weight ps)) ps;
          }
              ≡ one =
            ground arith in
          (
            total_weight ps,
            ground arith,
            subst (λ o. values_over (total_weight ps) o.legs ≡ some (notional * total_weight ps)) e
                (legs-values rates notional (total_weight ps) ps),
          )
    ]

-- A row counts if its weight and its rate are positive.
abbrev pub counts : (ℕ → Option Fraction) → BasketLegInput → Bool
counts rates b = ltb 0 b.weight && ltb 0 (rate_of rates b.currency).num

priced-weight :
    (rates : ℕ → Option Fraction) (bs : List BasketLegInput)
    → (any (counts rates) bs ≡ false → total_weight (priced rates bs) ≡ 0)
      × (any (counts rates) bs ≡ true → 0 < total_weight (priced rates bs))
priced-weight rates [] = (λ _. refl, λ h. ground arith)
priced-weight rates (b ∷ bs) =
    let (p, q) = priced-weight rates bs in (λ h. ground (arith, p, q), λ h. ground (arith, p, q))

-- There is no basket exactly if no row has both a positive weight and a positive rate.
pub compose-none :
    (basket : List BasketLegInput) (rates : ℕ → Option Fraction) (notional : ℕ)
    → (compose_one_acbu basket rates notional ≡ none) ↔ (any (counts rates) basket ≡ false)
unfolding compose_one_acbu
compose-none basket rates notional =
    let (p, q) = priced-weight rates basket in
    elim (Bool-cases (any (counts rates) basket)) [
      | inl t ↦ (λ h. ground (arith, q t), λ h. ground arith)
      | inr f ↦ (λ h. f, λ h. ground (arith, p f))
    ]
