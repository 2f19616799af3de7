-- ===== src/Reserve/Ratio.antt =====
-- What the reserve queries return: src/services/reserve/ReserveTracker.ts.
use acbu_backend.Prelude.{
  ℕ, ◌+◌, ◌≤◌, ◌<◌, ◌≡◌, refl, ◌↔◌, inl, inr, true, false, Option, none, some, List, [], ◌∷◌, ◌&&◌,
  ltb, ◌==◌, at_least, arith, Bool-cases, Option-cases, ap,
}
use acbu_backend.Reserve.{
  Segment, transactions, investment_savings, later, ReserveRow, ReserveStatus, ReserveConfig,
  healthy, same_segment, latest_reserve, get_total_reserve_value, calculate_reserve_ratio,
  reserve_health, currency_statuses,
}

-- The newest row: it is for the currency and the segment, and no such row of the table is newer.
abbrev pub NoNewer : ℕ → Segment → ℕ → List ReserveRow → Type 0
NoNewer c g t [] = Unit
NoNewer c g t (r ∷ rs) = (r.currency ≡ c → r.segment ≡ g → r.timestamp ≤ t) × NoNewer c g t rs

NoNewer-mono :
    (c : ℕ) (g : Segment) (t u : ℕ) (rs : List ReserveRow)
    → t ≤ u
    → NoNewer c g t rs
    → NoNewer c g u rs
NoNewer-mono c g t u [] h n = tt
NoNewer-mono c g t u (r ∷ rs) h n = (λ p q. omega (arith, n.0 p q), NoNewer-mono c g t u rs h n.1)

segment_eq : (a b : Segment) → same_segment a b ≡ true → a ≡ b
segment_eq transactions transactions h = refl
segment_eq transactions investment_savings h = cc
segment_eq investment_savings transactions h = cc
segment_eq investment_savings investment_savings h = refl

same_segment_refl : (a : Segment) → same_segment a a ≡ true
same_segment_refl transactions = refl
same_segment_refl investment_savings = refl

matching :
    (c : ℕ) (g : Segment) (r : ReserveRow)
    → (r.currency == c && same_segment r.segment g) ≡ true
    → (r.currency ≡ c) × (r.segment ≡ g)
matching c g r t = (ground arith, segment_eq r.segment g (ground arith))

not_matching :
    (c : ℕ) (g : Segment) (r : ReserveRow)
    → (r.currency == c && same_segment r.segment g) ≡ false
    → r.currency ≡ c
    → r.segment ≡ g
    → ⊥
not_matching c g r n p q = ground (arith, same_segment_refl g, ap (λ x. same_segment x g) q)

-- What a search over the rows ends in.
abbrev pub Newest : ℕ → Segment → List ReserveRow → Option ReserveRow → Type 0
Newest c g rs none = (t : ℕ) → NoNewer c g t rs
Newest c g rs (some r) = (r.currency ≡ c) × (r.segment ≡ g) × NoNewer c g r.timestamp rs

-- `findFirst` with the newest first gives a row of the currency and the segment than which no row
-- of theirs is newer, and nothing only if the table has no such row.
pub latest_reserve-Newest :
    (c : ℕ) (g : Segment) (rs : List ReserveRow) → Newest c g rs (latest_reserve c g rs)
unfolding latest_reserve
latest_reserve-Newest c g [] = λ t. tt
latest_reserve-Newest c g (r ∷ rs) =
    elim (Bool-cases (r.currency == c && same_segment r.segment g)) [
      | inl t ↦ rw t (added (latest_reserve c g rs) t (latest_reserve-Newest c g rs))
      | inr n ↦ rw n (passed (latest_reserve c g rs) n (latest_reserve-Newest c g rs))
    ]
  where
    added :
        (o : Option ReserveRow)
        → (r.currency == c && same_segment r.segment g) ≡ true
        → Newest c g rs o
        → Newest c g (r ∷ rs) (later r o)
    added none t h = let (p, q) = matching c g r t in (p, q, ((λ _ _. omega arith), h r.timestamp))
    added (some s) t (p, q, n) = elim (Bool-cases (ltb r.timestamp s.timestamp)) [
      | inl l ↦ rw l (p, q, ((λ _ _. ground arith), n))
      | inr m ↦
          let (p', q') = matching c g r t in
          rw m (
            p',
            q',
            ((λ _ _. omega arith), NoNewer-mono c g s.timestamp r.timestamp rs (ground arith) n),
          )
    ]

    passed :
        (o : Option ReserveRow)
        → (r.currency == c && same_segment r.segment g) ≡ false
        → Newest c g rs o
        → Newest c g (r ∷ rs) o
    passed none n h = λ t. ((λ p q. absurd (not_matching c g r n p q)), h t)
    passed (some s) n (p, q, m) = (p, q, ((λ p q. absurd (not_matching c g r n p q)), m))

-- The values that the status lists for the currencies add up to the total value of the reserves.
abbrev pub sum_values : List ReserveStatus → ℕ
sum_values [] = 0
sum_values (s ∷ ss) = s.reserve_value_usd + sum_values ss

pub statuses-total :
    (cs : List ℕ) (g : Segment) (rows : List ReserveRow)
    → sum_values (currency_statuses cs g rows) ≡ get_total_reserve_value cs g rows
unfolding currency_statuses get_total_reserve_value
statuses-total [] g rows = refl
statuses-total (c ∷ cs) g rows = elim (Option-cases (latest_reserve c g rows)) [
  | inl e ↦ ground (arith, statuses-total cs g rows)
  | inr (r, e) ↦ ground (arith, statuses-total cs g rows)
]

-- For a positive supply the status is healthy exactly if the reserve ratio is at least the target.
pub health-target :
    (c : ReserveConfig) (supply value : ℕ)
    → 0 < supply
    → (reserve_health c supply value ≡ healthy)
      ↔ (at_least (calculate_reserve_ratio supply value) c.target_ratio ≡ true)
unfolding reserve_health calculate_reserve_ratio
health-target c supply value pos =
    let p : ltb 0 supply ≡ true = ground arith in
    let q : supply == 0 ≡ false = ground arith in rw (p, q) (λ h. ground arith, λ h. ground arith)
