-- ===== src/Limits/Caps.antt =====
-- What the limits keep: src/services/limits/limitsService.ts.
use native.Mathlib.Nat.{mul-one}
use acbu_backend.Prelude.{
  ℕ, ◌+◌, ◌*◌, ◌≤◌, ◌≡◌, ◌↔◌, inl, inr, Option, none, some, List, [], ◌∷◌, ltb, leb, ◌==◌, ◌&&◌,
  ◌||◌, Bool, true, false, if◌then◌else◌, Fraction, arith, Bool-cases,
}
use acbu_backend.Prelude.Result.{ok}
use acbu_backend.Limits.{
  TransactionRow, TransactionType, mint, burn, bill_payment, transfer, TransactionStatus, failed,
  cancelled, LimitConfig, Actor, user, organization, nobody, sum_deposits_usd_since, burned_since,
  check_deposit_limits, check_withdrawal_limits,
}

-- A deposit is let through exactly if the actor's counted deposits of the day and of the month, with
-- this one, are each at most their cap.
pub deposit_limits_iff :
    (c : LimitConfig) (day month amount : ℕ) (a : Actor) (rows : List TransactionRow)
    → (check_deposit_limits c day month amount a rows ≡ ok tt) ↔ (
        (sum_deposits_usd_since day a rows + amount ≤ c.deposit_daily_usd)
        × (sum_deposits_usd_since month a rows + amount ≤ c.deposit_monthly_usd))
unfolding check_deposit_limits
deposit_limits_iff c day month amount a rows =
    let d = sum_deposits_usd_since day a rows + amount in
    let m = sum_deposits_usd_since month a rows + amount in
    elim (Bool-cases (ltb c.deposit_daily_usd d)) [
      | inl t ↦ (λ h. ground arith, λ h. ground arith)
      | inr f ↦ (λ h. ground arith, λ h. ground arith)
    ]

-- What a deposit counts for: its USDC amount, or its USD value where that is null.
abbrev pub deposit_value : TransactionRow → ℕ
deposit_value r = deposit_of r.usdc_amount r.amount_usd
  where
    deposit_of : Option ℕ → Option ℕ → ℕ
    deposit_of (some n) _ = n
    deposit_of none (some n) = n
    deposit_of none none = 0

-- A deposit as such: a mint that has neither failed nor been cancelled, made at `since` or later by
-- the user, by the organization or one of its users, or without a user.
abbrev pub is_deposit : TransactionType → Bool
is_deposit mint = true
is_deposit burn = false
is_deposit bill_payment = false
is_deposit transfer = false

abbrev pub is_live : TransactionStatus → Bool
is_live failed = false
is_live cancelled = false
is_live _ = true

abbrev pub same_id : ℕ → Option ℕ → Bool
same_id i (some j) = j == i
same_id i none = false

abbrev pub made_by : Actor → TransactionRow → Bool
made_by (user u) r = same_id u r.user_id
made_by (organization o) r = same_id o r.organization_id || same_id o r.user_organization_id
made_by nobody r = elim r.user_id [ none ↦ true | some _ ↦ false ]

abbrev pub is_deposited : ℕ → Actor → TransactionRow → Bool
is_deposited since a r =
    is_deposit r.kind && (is_live r.status && (leb since r.created_at && made_by a r))

abbrev pub deposited_since : ℕ → Actor → List TransactionRow → ℕ
deposited_since since a [] = 0
deposited_since since a (r ∷ rows) =
    (if is_deposited since a r then deposit_value r else 0) + deposited_since since a rows

-- A withdrawal is let through exactly if the actor's counted withdrawals in the currency, with this
-- one, are worth at most the cap of the day and that of the month, at the rate.
pub withdrawal_limits_iff :
    (c : LimitConfig) (day month : ℕ) (rate : Fraction) (amount currency : ℕ) (a : Actor)
    (rows : List TransactionRow)
    → (check_withdrawal_limits c day month rate amount currency a rows ≡ ok tt) ↔ (
        ((burned_since day currency a rows + amount) * rate.num ≤ c.withdrawal_daily_usd * rate.den)
        × ((burned_since month currency a rows + amount) * rate.num
            ≤ c.withdrawal_monthly_usd * rate.den))
unfolding check_withdrawal_limits
withdrawal_limits_iff c day month rate amount currency a rows =
    let d = (burned_since day currency a rows + amount) * rate.num in
    let m = (burned_since month currency a rows + amount) * rate.num in
    rw (mul-one d, mul-one m)
      (elim (Bool-cases (ltb (c.withdrawal_daily_usd * rate.den) d)) [
        | inl t ↦ (λ h. ground arith, λ h. ground arith)
        | inr f ↦ (λ h. ground arith, λ h. ground arith)
      ])
