-- ===== src/Limits/Config.antt =====
-- The configured limits and their cache: src/config/limits.ts. `Number` of an environment variable, and
-- `numberFromJson` of a field, are what they find: a number of zero or more, or nothing. The values of
-- the breaker are fractions. Calls come one after the other, so no refresh is shared.
use acbu_backend.Prelude.{
  ℕ, ◌+◌, Option, none, some, List, [], ◌∷◌, ltb, if◌then◌else◌, Fraction, over,
}
use acbu_backend.Limits.{LimitConfig}

pub record CircuitBreakerLimitConfig : Type 0 where
  pub reserve_weight_threshold_pct : Fraction
  pub min_reserve_ratio : Fraction

-- `LimitsSnapshot`
pub record LimitsSnapshot : Type 0 where
  pub retail : LimitConfig
  pub business : LimitConfig
  pub government : LimitConfig
  pub circuit_breaker : CircuitBreakerLimitConfig

-- `readNumber`, and `numberFromJson(…) ?? …`.
abbrev pub or_else : {A : Type 0} → Option A → A → A
or_else none fallback = fallback
or_else (some n) fallback = n

-- The variables of an audience, and of the breaker.
pub record LimitValues : Type 0 where
  pub deposit_daily_usd : Option ℕ
  pub deposit_monthly_usd : Option ℕ
  pub withdrawal_daily_usd : Option ℕ
  pub withdrawal_monthly_usd : Option ℕ

pub record BreakerValues : Type 0 where
  pub reserve_weight_threshold_pct : Option Fraction
  pub min_reserve_ratio : Option Fraction

pub record Environment : Type 0 where
  pub retail : LimitValues
  pub business : LimitValues
  pub government : LimitValues
  pub breaker : BreakerValues
  pub cache_ttl_ms : Option ℕ

-- `applyLimitOverrides`
unfoldable pub apply_limit_overrides : LimitConfig → LimitValues → LimitConfig
apply_limit_overrides c v = record {
  deposit_daily_usd = or_else v.deposit_daily_usd c.deposit_daily_usd;
  deposit_monthly_usd = or_else v.deposit_monthly_usd c.deposit_monthly_usd;
  withdrawal_daily_usd = or_else v.withdrawal_daily_usd c.withdrawal_daily_usd;
  withdrawal_monthly_usd = or_else v.withdrawal_monthly_usd c.withdrawal_monthly_usd;
}

-- `applyCircuitBreakerOverrides`
unfoldable pub apply_circuit_breaker_overrides :
    CircuitBreakerLimitConfig → BreakerValues → CircuitBreakerLimitConfig
apply_circuit_breaker_overrides c v = record {
  reserve_weight_threshold_pct =
      or_else v.reserve_weight_threshold_pct c.reserve_weight_threshold_pct;
  min_reserve_ratio = or_else v.min_reserve_ratio c.min_reserve_ratio;
}

abbrev default_retail : LimitConfig
default_retail = record {
  deposit_daily_usd = 5000;
  deposit_monthly_usd = 50000;
  withdrawal_daily_usd = 10000;
  withdrawal_monthly_usd = 80000;
}

abbrev default_business : LimitConfig
default_business = record {
  deposit_daily_usd = 50000;
  deposit_monthly_usd = 500000;
  withdrawal_daily_usd = 100000;
  withdrawal_monthly_usd = 800000;
}

abbrev default_government : LimitConfig
default_government = record {
  deposit_daily_usd = 500000;
  deposit_monthly_usd = 5000000;
  withdrawal_daily_usd = 500000;
  withdrawal_monthly_usd = 4000000;
}

abbrev default_breaker : CircuitBreakerLimitConfig
default_breaker = record {
  reserve_weight_threshold_pct = over 10 1;
  min_reserve_ratio = over 102 100;
}

-- `envLimits`
unfoldable pub env_limits : Environment → LimitsSnapshot
unfolding apply_limit_overrides apply_circuit_breaker_overrides
env_limits e = record {
  retail = apply_limit_overrides default_retail e.retail;
  business = apply_limit_overrides default_business e.business;
  government = apply_limit_overrides default_government e.government;
  circuit_breaker = apply_circuit_breaker_overrides default_breaker e.breaker;
}

-- A row of `limits_config`, by its scope; one whose values are no object is left out by the loop.
pub data ConfigRow : Type 0 where
  retail_row business_row government_row : LimitValues → ConfigRow
  breaker_row : BreakerValues → ConfigRow
  no_values : ConfigRow

-- The body of the loop over the rows.
abbrev pub apply_row : ConfigRow → LimitsSnapshot → LimitsSnapshot
apply_row (retail_row v) s = record s { retail = apply_limit_overrides s.retail v }
apply_row (business_row v) s = record s { business = apply_limit_overrides s.business v }
apply_row (government_row v) s = record s { government = apply_limit_overrides s.government v }
apply_row (breaker_row v) s = record s {
  circuit_breaker = apply_circuit_breaker_overrides s.circuit_breaker v;
}
apply_row no_values s = s

abbrev pub apply_rows : List ConfigRow → LimitsSnapshot → LimitsSnapshot
apply_rows [] s = s
apply_rows (r ∷ rs) s = apply_rows rs (apply_row r s)

-- The table: it is not in the client, the query fails, or it has rows.
pub data Table : Type 0 where
  no_delegate query_fails : Table
  rows : List ConfigRow → Table

-- The module's variables.
pub record Cache : Type 0 where
  pub cached_snapshot : Option LimitsSnapshot
  pub cache_expires_at : ℕ

-- `loadLimitsSnapshot`
unfoldable pub load_limits_snapshot : Environment → Table → Option LimitsSnapshot → LimitsSnapshot
unfolding env_limits
load_limits_snapshot e no_delegate cached = env_limits e
load_limits_snapshot e query_fails cached = or_else cached (env_limits e)
load_limits_snapshot e (rows rs) cached = apply_rows rs (env_limits e)

-- `invalidateLimitsConfigCache`
abbrev pub invalidate_limits_config_cache : Cache
invalidate_limits_config_cache = record { cached_snapshot = none; cache_expires_at = 0 }

abbrev refreshed : Environment → Table → ℕ → Cache → LimitsSnapshot × Cache
refreshed e t now c =
    let s = load_limits_snapshot e t c.cached_snapshot in
    (s, record { cached_snapshot = some s; cache_expires_at = now + or_else e.cache_ttl_ms 5000 })

abbrev from_cache : Environment → Table → ℕ → Option LimitsSnapshot → Cache → LimitsSnapshot × Cache
from_cache e t now none c = refreshed e t now c
from_cache e t now (some s) c = if ltb now c.cache_expires_at then (s, c) else refreshed e t now c

-- `getLimitsSnapshot`
unfoldable pub get_limits_snapshot : Environment → Table → ℕ → Cache → LimitsSnapshot × Cache
unfolding load_limits_snapshot
get_limits_snapshot e t now c = from_cache e t now c.cached_snapshot c
