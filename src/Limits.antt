-- ===== src/Limits.antt =====
-- Deposit and withdrawal limits: src/services/limits/limitsService.ts and src/config/limits.ts.
-- Amounts are numbers of a common unit of USD or ACBU, the rate of ACBU in USD and the ratios are
-- fractions; `getStartOfZonedDay`, `getStartOfZonedMonth` and `getAcbuUsdRate` are parameters.
pub mod Caps
pub mod Config
pub mod Pauses
pub mod Snapshots
use acbu_backend.Prelude.{
  ℕ, ◌+◌, ◌*◌, Bool, true, false, Option, none, some, List, [], ◌∷◌, ◌&&◌, ltb, leb, ◌==◌,
  if◌then◌else◌, sum_where, Fraction, less, over,
}
use acbu_backend.Prelude.Result.{Result, ok, err, guard, ◌>>◌}

pub data TransactionType : Type 0 where
  mint burn bill_payment transfer : TransactionType

pub data TransactionStatus : Type 0 where
  pending processing completed failed cancelled : TransactionStatus

-- A row of `transactions`, with the organization of its user.
pub record TransactionRow : Type 0 where
  pub kind : TransactionType
  pub status : TransactionStatus
  pub created_at : ℕ
  pub user_id : Option ℕ
  pub organization_id : Option ℕ
  pub user_organization_id : Option ℕ
  pub local_currency : ℕ
  pub usdc_amount : Option ℕ
  pub amount_usd : Option ℕ
  pub acbu_amount_burned : Option ℕ

-- `LimitConfig`
pub record LimitConfig : Type 0 where
  pub deposit_daily_usd : ℕ
  pub deposit_monthly_usd : ℕ
  pub withdrawal_daily_usd : ℕ
  pub withdrawal_monthly_usd : ℕ

pub data Actor : Type 0 where
  user organization : ℕ → Actor
  nobody : Actor

-- Whom `buildActorWhere` asks for.
abbrev pub build_actor : Option ℕ → Option ℕ → Actor
build_actor (some u) o = user u
build_actor none (some o) = organization o
build_actor none none = nobody

abbrev is_id : ℕ → Option ℕ → Bool
is_id i none = false
is_id i (some j) = j == i

abbrev is_null : Option ℕ → Bool
is_null none = true
is_null (some _) = false

-- The `where` of `buildActorWhere`.
abbrev pub of_actor : Actor → TransactionRow → Bool
of_actor (user u) r = is_id u r.user_id
of_actor (organization o) r =
    if is_id o r.organization_id then true else is_id o r.user_organization_id
of_actor nobody r = is_null r.user_id

-- The statuses that count.
abbrev pub counted : TransactionStatus → Bool
counted pending = true
counted processing = true
counted completed = true
counted _ = false

abbrev pub is_mint : TransactionType → Bool
is_mint mint = true
is_mint _ = false

abbrev is_burn : TransactionType → Bool
is_burn burn = true
is_burn bill_payment = true
is_burn _ = false

abbrev or_zero : Option ℕ → ℕ
or_zero none = 0
or_zero (some n) = n

abbrev pub deposit_since : ℕ → Actor → TransactionRow → Bool
deposit_since since a r =
    is_mint r.kind && (counted r.status && (leb since r.created_at && of_actor a r))

-- `sumDepositsUsdSince`
abbrev pub sum_deposits_usd_since : ℕ → Actor → List TransactionRow → ℕ
sum_deposits_usd_since since a rows =
    sum_where (λ r. deposit_since since a r) (λ r. or_zero r.usdc_amount) rows
    + sum_where (λ r. deposit_since since a r && is_null r.usdc_amount) (λ r. or_zero r.amount_usd)
        rows

abbrev pub burned_since : ℕ → ℕ → Actor → List TransactionRow → ℕ
burned_since since currency a =
    sum_where
      (λ r.
        is_burn r.kind
        && (r.local_currency == currency
            && (counted r.status && (leb since r.created_at && of_actor a r))))
      (λ r. or_zero r.acbu_amount_burned)

pub data LimitError : Type 0 where
  daily_limit monthly_limit : LimitError

-- `checkDepositLimits`, with the starts of the day and of the month.
unfoldable pub check_deposit_limits :
    LimitConfig → ℕ → ℕ → ℕ → Actor → List TransactionRow → Result LimitError (Unit {0})
check_deposit_limits config day month amount_usd a rows =
    let daily = sum_deposits_usd_since day a rows + amount_usd in
    let monthly = sum_deposits_usd_since month a rows + amount_usd in
    if ltb config.deposit_daily_usd daily
    then err daily_limit
    else if ltb config.deposit_monthly_usd monthly
    then err monthly_limit
    else ok tt

-- `checkWithdrawalLimits`, with the starts of the day and of the month and the rate.
unfoldable pub check_withdrawal_limits :
    LimitConfig
    → ℕ
    → ℕ
    → Fraction
    → ℕ
    → ℕ
    → Actor
    → List TransactionRow
    → Result LimitError (Unit {0})
check_withdrawal_limits config day month rate amount_acbu currency a rows =
    let daily = burned_since day currency a rows + amount_acbu in
    let monthly = burned_since month currency a rows + amount_acbu in
    if less (over config.withdrawal_daily_usd 1) (over (daily * rate.num) rate.den)
    then err daily_limit
    else if less (over config.withdrawal_monthly_usd 1) (over (monthly * rate.num) rate.den)
    then err monthly_limit
    else ok tt
