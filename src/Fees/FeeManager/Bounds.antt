-- ===== src/Fees/FeeManager/Bounds.antt =====
-- What a fee quote guarantees: src/services/stellar/feeManager.ts.
use acbu_backend.Prelude.{ℕ, ◌+◌, ◌-◌, ◌*◌, ◌/◌, ◌≤◌, ◌<◌, ◌≡◌, ◌↔◌, natural, true, false, arith}
use acbu_backend.Prelude.Result.{ok}
use native.Mathlib.Nat.{le-div_iff_mul-le, mul-le-mul_left, one-mul}
use acbu_backend.Prelude.Doubles.{exact_below, double_num, double_den, double_den-pos, le-double}
use acbu_backend.Fees.FeeManager.{
  StellarConfig, PaymentFeeQuote, apply_fee_surge_buffer, buffered_fee, surge_num, surge_den,
  calculate_soroban_fee_with_cap,
}

surge-ge-one : (bps : ℕ) → 1 * surge_den bps ≤ surge_num bps
unfolding surge_num surge_den
surge-ge-one bps =
    le-double 1 (double_den bps 10000 + double_num bps 10000) (double_den bps 10000)
      (double_den-pos bps 10000) (omega arith)

le-ceil : (n m d : ℕ) → 0 < d → n * d ≤ m → n ≤ (m + d - 1) / d
le-ceil n m d p h = (le-div_iff_mul-le p).1 (omega (arith, h))

-- The buffer never lowers a fee, in spite of the rounding.
network-le-buffered : (network bps : ℕ) → network ≤ buffered_fee network bps
unfolding buffered_fee surge_den
network-le-buffered network bps =
    let a = network * surge_num bps in
    let b = surge_den bps in
    le-ceil network (double_num a b) (double_den a b) (double_den-pos a b) (
      le-double network a b
        (double_den-pos (double_den bps 10000 + double_num bps 10000) (double_den bps 10000))
        (mul-le-mul_left network (rw one-mul at (surge-ge-one bps))))

-- For a buffered fee below 2 ^ 53 stroops: a quote never exceeds the ceiling; where the ceiling is at
-- least the network fee, it is at least the network fee too, so that the transaction is not
-- underpriced; it says that it was clamped exactly when the buffered fee lies above the ceiling, and
-- is the buffered fee where it was not. The buffered fee is the source's, with the rounding of its
-- sum, quotient and product to doubles.
pub quote_bounds :
    (network maximum bps : ℕ) (q : PaymentFeeQuote)
    → network * (10000 + bps) < 10000 * exact_below
    → apply_fee_surge_buffer (natural network) (natural maximum) (natural bps) ≡ ok q
    → (q.fee_stroops ≤ maximum)
      × (network ≤ maximum → network ≤ q.fee_stroops)
      × ((q.clamped_to_ceiling ≡ true) ↔ (maximum < buffered_fee network bps))
      × (q.clamped_to_ceiling ≡ false → q.fee_stroops ≡ buffered_fee network bps)
unfolding apply_fee_surge_buffer
quote_bounds network maximum bps q small h = (
  ground arith,
  λ l. ground (arith, network-le-buffered network bps),
  (λ c. ground arith, λ c. ground arith),
  λ c. ground arith,
)

-- A clamped quote can still be high enough: whenever the ceiling is at least the network fee and
-- below the buffered fee, the quote is marked as clamped and is not below the network's own fee.
pub clamped_not_underpriced :
    (network maximum bps : ℕ) (q : PaymentFeeQuote)
    → network * (10000 + bps) < 10000 * exact_below
    → apply_fee_surge_buffer (natural network) (natural maximum) (natural bps) ≡ ok q
    → network ≤ maximum
    → maximum < buffered_fee network bps
    → (q.clamped_to_ceiling ≡ true) × (network ≤ q.fee_stroops)
clamped_not_underpriced network maximum bps q small h l c =
    let (_, high, clamped, _) = quote_bounds network maximum bps q small h in (clamped.1 c, high l)

-- `calculateSorobanFeeWithCap` keeps every fee within the configured limits, where these are in
-- order, leaves a fee within them alone, and keeps the order of two fees.
pub soroban_fee_capped :
    (c : StellarConfig) (fee fee' : ℕ)
    → c.soroban_min_fee_stroops ≤ c.soroban_max_fee_stroops
    → let capped = calculate_soroban_fee_with_cap c in
      (c.soroban_min_fee_stroops ≤ capped fee)
      × (capped fee ≤ c.soroban_max_fee_stroops)
      × (c.soroban_min_fee_stroops ≤ fee → fee ≤ c.soroban_max_fee_stroops → capped fee ≡ fee)
      × (fee ≤ fee' → capped fee ≤ capped fee')
unfolding calculate_soroban_fee_with_cap
soroban_fee_capped c fee fee' h = omega arith
