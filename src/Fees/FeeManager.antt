-- ===== src/Fees/FeeManager.antt =====
-- Fees of Stellar transactions: src/services/stellar/feeManager.ts. Amounts are whole stroops.
pub mod Bounds
use acbu_backend.Prelude.{
  ℕ, ◌+◌, ◌-◌, ◌*◌, ◌/◌, min, max, Parsed, not_finite, negative, natural, Bool, true, false, Option,
  none, some, ltb, if◌then◌else◌,
}
use acbu_backend.Prelude.Doubles.{double_num, double_den}
use acbu_backend.Prelude.Result.{Result, ok, err, ◌>>=◌}

-- The part of `config.stellar` that the module reads; `none` is an absent or non-numeric knob.
pub record StellarConfig : Type 0 where
  pub use_dynamic_fees : Bool
  pub base_fee_stroops : Parsed
  pub soroban_min_fee_stroops : ℕ
  pub soroban_max_fee_stroops : ℕ
  pub fee_surge_buffer_bps : Option Parsed
  pub max_payment_fee_stroops : Option Parsed

-- `getBaseFee`, with Horizon's answer to `fetchBaseFee` as a parameter: `none` is a failed fetch. The
-- result is the number that `parseInt` reads back from the text.
unfoldable pub get_base_fee : StellarConfig → Option Parsed → Parsed
get_base_fee c fetched =
    if c.use_dynamic_fees
    then elim fetched [ none ↦ c.base_fee_stroops | some fee ↦ fee ]
    else c.base_fee_stroops

-- `calculateSorobanFeeWithCap`
unfoldable pub calculate_soroban_fee_with_cap : StellarConfig → ℕ → ℕ
calculate_soroban_fee_with_cap c total_fee_stroops =
    max c.soroban_min_fee_stroops (min c.soroban_max_fee_stroops total_fee_stroops)

-- `numericConfig`: a negative number is finite, and stays.
abbrev pub numeric_config : Option Parsed → ℕ → Parsed
numeric_config none fallback = natural fallback
numeric_config (some not_finite) fallback = natural fallback
numeric_config (some negative) fallback = negative
numeric_config (some (natural n)) fallback = natural n

-- `getFeeSurgeBufferBps`
unfoldable pub get_fee_surge_buffer_bps : StellarConfig → Parsed
get_fee_surge_buffer_bps c = numeric_config c.fee_surge_buffer_bps 2000

-- `getMaxPaymentFeeStroops`
unfoldable pub get_max_payment_fee_stroops : StellarConfig → Parsed
get_max_payment_fee_stroops c = numeric_config c.max_payment_fee_stroops 1000000

pub record PaymentFeeQuote : Type 0 where
  pub fee_stroops : ℕ
  pub network_fee_stroops : ℕ
  pub buffered : Bool
  pub clamped_to_ceiling : Bool
  pub max_fee_stroops : ℕ

pub data FeeError : Type 0 where
  invalid_base_fee invalid_max_fee invalid_buffer base_fee_not_a_number : FeeError

-- `Number.isFinite(x) && x >= 0`
abbrev pub require_natural : Parsed → FeeError → Result FeeError ℕ
require_natural (natural n) e = ok n
require_natural _ e = err e

-- `1 + bufferBps / 10_000`, where the quotient and the sum are each rounded to a double.
unfoldable pub surge_num : ℕ → ℕ
surge_num bps = double_num (double_den bps 10000 + double_num bps 10000) (double_den bps 10000)

unfoldable pub surge_den : ℕ → ℕ
surge_den bps = double_den (double_den bps 10000 + double_num bps 10000) (double_den bps 10000)

-- `Math.ceil(networkFeeStroops * (1 + bufferBps / 10_000))`, where the product is rounded to a double,
-- for products below 2 ^ 53 stroops.
unfoldable pub buffered_fee : ℕ → ℕ → ℕ
buffered_fee network buffer_bps =
    let a = network * surge_num buffer_bps in
    let b = surge_den buffer_bps in (double_num a b + double_den a b - 1) / double_den a b

abbrev quote : ℕ → ℕ → ℕ → PaymentFeeQuote
quote network maximum buffered = record {
  fee_stroops = min buffered maximum;
  network_fee_stroops = network;
  buffered = ltb network buffered;
  clamped_to_ceiling = ltb (min buffered maximum) buffered;
  max_fee_stroops = maximum;
}

-- `applyFeeSurgeBuffer`
unfoldable pub apply_fee_surge_buffer : Parsed → Parsed → Parsed → Result FeeError PaymentFeeQuote
apply_fee_surge_buffer network_fee_stroops max_fee_stroops buffer_bps = do
  network ← require_natural network_fee_stroops invalid_base_fee
  maximum ← require_natural max_fee_stroops invalid_max_fee
  bps ← require_natural buffer_bps invalid_buffer
  ok (quote network maximum (buffered_fee network bps))

-- `getPaymentFee`
unfoldable pub get_payment_fee : StellarConfig → Option Parsed → Result FeeError PaymentFeeQuote
unfolding get_base_fee apply_fee_surge_buffer get_max_payment_fee_stroops get_fee_surge_buffer_bps
get_payment_fee c fetched = elim (get_base_fee c fetched) [
  | not_finite ↦ err base_fee_not_a_number
  | negative ↦
      apply_fee_surge_buffer negative (get_max_payment_fee_stroops c) (get_fee_surge_buffer_bps c)
  | natural n ↦
      apply_fee_surge_buffer (natural n) (get_max_payment_fee_stroops c)
        (get_fee_surge_buffer_bps c)
]
