-- ===== src/Transfer/Submitting.antt =====
-- The loop of submissions in the first `createTransfer` of src/services/transfer/transferService.ts,
-- with `isInsufficientFeeRejection` and `revalidateFeeBeforeSubmit`. The network is an interface over a
-- world of its own: Horizon's base fee (`none` where the read fails), the loading of the sender's
-- account, the submission of a payment at a fee, and the write of the completed row with its hash.
pub mod Attempts
use acbu_backend.Prelude.{
  ℕ, zero, suc, Parsed, not_finite, negative, natural, Bool, true, false, Option, none, some, List,
  [], ◌∷◌, ◌||◌, any, leb, if◌then◌else◌,
}
use acbu_backend.Prelude.Result.{Result, ok, err}
use acbu_backend.Fees.FeeManager.{
  StellarConfig, FeeError, PaymentFeeQuote, get_base_fee, get_payment_fee,
}

-- A result code of Horizon.
pub data Code : Type 0 where
  tx_insufficient_fee tx_fee_bump_inner_failed : Code
  other_code : ℕ → Code

-- The parts of an error that are read: whether its message has "tx_insufficient_fee" in it, the code of
-- the transaction, those of the operations, and those of the inner transactions. A message that is
-- that code has it in it, so the last line of the function adds nothing.
pub record HorizonError : Type 0 where
  pub mentions_fee : Bool
  pub transaction : Option Code
  pub operations : List Code
  pub inner : List Code

-- `INSUFFICIENT_FEE_RESULT_CODES.has`
abbrev pub is_fee_code : Code → Bool
is_fee_code tx_insufficient_fee = true
is_fee_code _ = false

abbrev pub by_transaction : Option Code → List Code → List Code → Bool
by_transaction (some tx_insufficient_fee) ops inner = true
by_transaction (some tx_fee_bump_inner_failed) ops inner =
    any is_fee_code ops || any is_fee_code inner
by_transaction (some (other_code n)) ops inner = any is_fee_code ops
by_transaction none ops inner = any is_fee_code ops

-- `isInsufficientFeeRejection`
unfoldable pub is_insufficient_fee_rejection : HorizonError → Bool
is_insufficient_fee_rejection e =
    e.mentions_fee || by_transaction e.transaction e.operations e.inner

-- What a submission ends in: a hash, or an error.
pub data Reply : Type 0 where
  accepted : ℕ → Reply
  refused : HorizonError → Reply

pub record Network (W : Type 0) : Type 0 where
  pub fetch_base_fee : W → Option Parsed × W
  pub load_account : W → Bool × W
  pub submit_transaction : ℕ → W → Reply × W
  pub write_completed : ℕ → W → Option HorizonError × W

-- How the call ends: with a hash, an error from the `try`, that of the fee, a failed load of the
-- account, or the error after the loop.
pub data Ending : Type 0 where
  completed_with : ℕ → Ending
  threw : HorizonError → Ending
  fee_failed : FeeError → Ending
  no_account without_result : Ending

-- `revalidateFeeBeforeSubmit`: whether the fee of the built transaction is still high enough. One
-- that cannot be read is no obstacle.
unfoldable pub revalidate_fee_before_submit : StellarConfig → PaymentFeeQuote → Option Parsed → Bool
unfolding get_base_fee
revalidate_fee_before_submit c quote fetched = current (get_base_fee c fetched)
  where
    current : Parsed → Bool
    current not_finite = true
    current negative = true
    current (natural n) = leb n quote.fee_stroops

-- `MAX_SUBMIT_ATTEMPTS`
abbrev pub max_submit_attempts : ℕ
max_submit_attempts = 3

module _ {W : Type 0} (c : StellarConfig) (net : Network W) where
  -- The base fee is asked for where fees are dynamic.
  abbrev pub read_fee : W → Option Parsed × W
  read_fee w = if c.use_dynamic_fees then net.fetch_base_fee w else (none, w)

  -- The `catch`, given the rounds that are left.
  abbrev pub caught : (W → Ending × W) → HorizonError → W → Ending × W
  caught again e w =
      let rest = again w in if is_insufficient_fee_rejection e then rest else (threw e, w)

  -- The write of the completed row, which stands in the same `try` as the submission.
  abbrev pub after_write : (W → Ending × W) → ℕ → Option HorizonError × W → Ending × W
  after_write again hash (none, w) = (completed_with hash, w)
  after_write again hash (some e, w) = caught again e w

  -- One round from the reply on.
  abbrev pub after_reply : (W → Ending × W) → Reply × W → Ending × W
  after_reply again (accepted hash, w) = after_write again hash (net.write_completed hash w)
  after_reply again (refused e, w) = caught again e w

  -- One round from the second reading of the fee on.
  abbrev pub after_revalidation : (W → Ending × W) → PaymentFeeQuote → Bool → W → Ending × W
  after_revalidation again quote true w =
      after_reply again (net.submit_transaction quote.fee_stroops w)
  after_revalidation again quote false w = again w

  abbrev pub revalidated : (W → Ending × W) → PaymentFeeQuote → Option Parsed × W → Ending × W
  revalidated again quote (fetched, w) =
      after_revalidation again quote (revalidate_fee_before_submit c quote fetched) w

  abbrev pub after_load : (W → Ending × W) → PaymentFeeQuote → Bool × W → Ending × W
  after_load again quote (false, w) = (no_account, w)
  after_load again quote (true, w) = revalidated again quote (read_fee w)

  abbrev pub after_quote : (W → Ending × W) → Result FeeError PaymentFeeQuote → W → Ending × W
  after_quote again (err e) w = (fee_failed e, w)
  after_quote again (ok quote) w = after_load again quote (net.load_account w)

  abbrev pub round : (W → Ending × W) → Option Parsed × W → Ending × W
  round again (fetched, w) = after_quote again (get_payment_fee c fetched) w

  -- The loop, with the attempts that are left, and the error after it.
  abbrev pub submit_from : ℕ → W → Ending × W
  submit_from zero w = (without_result, w)
  submit_from (suc n) w = round (λ v. submit_from n v) (read_fee w)

  unfoldable pub submit_payment : W → Ending × W
  unfolding get_payment_fee revalidate_fee_before_submit is_insufficient_fee_rejection
  submit_payment w = submit_from max_submit_attempts w
