-- ===== src/Transfer/Submitting/Attempts.antt =====
-- What the attempts of a payment come to: src/services/transfer/transferService.ts.
use acbu_backend.Prelude.{
  ℕ, zero, suc, ◌+◌, ◌≡◌, refl, sym, subst, ◌≤◌, Parsed, Bool, true, false, Option, none, List, [],
  ◌∷◌, arith, length, if◌then◌else◌, ◌⊎◌, inl, inr, some,
}
use acbu_backend.Prelude.Result.{Result, ok, err}
use acbu_backend.Fees.FeeManager.{StellarConfig, FeeError, PaymentFeeQuote, get_payment_fee}
use acbu_backend.Transfer.Submitting.{
  HorizonError, after_write, Reply, accepted, refused, Network, Ending, completed_with, threw,
  fee_failed, no_account, without_result, is_insufficient_fee_rejection,
  revalidate_fee_before_submit, read_fee, after_reply, after_revalidation, revalidated, after_load,
  after_quote, round, submit_from, submit_payment, max_submit_attempts,
}

-- A network that keeps its replies, the last in front.
abbrev pub logged : {W : Type 0} → Network W → Network (W × List Reply)
logged net = record {
  fetch_base_fee = λ (w, log). let (fee, w') = net.fetch_base_fee w in (fee, (w', log));
  load_account = λ (w, log). let (found, w') = net.load_account w in (found, (w', log));
  submit_transaction =
      λ fee (w, log). let (reply, w') = net.submit_transaction fee w in (reply, (w', reply ∷ log));
  write_completed =
      λ hash (w, log). let (failure, w') = net.write_completed hash w in (failure, (w', log));
}

-- All replies were refusals for the fee.
abbrev pub AllForFee : List Reply → Type 0
AllForFee [] = Unit {0}
AllForFee (accepted hash ∷ rs) = ⊥
AllForFee (refused e ∷ rs) = (is_insufficient_fee_rejection e ≡ true) × AllForFee rs

-- The replies to the submissions, the last in front, as the ending says.
abbrev pub Fits : Ending → List Reply → Type 0
Fits (completed_with hash) log = (rs : List Reply) × (log ≡ accepted hash ∷ rs) × AllForFee rs
Fits (threw e) log =
    (r : Reply) × (rs : List Reply) × (log ≡ r ∷ rs)
    × ((r ≡ refused e) ⊎ ((hash : ℕ) × (r ≡ accepted hash)))
    × (is_insufficient_fee_rejection e ≡ false)
    × AllForFee rs
Fits (fee_failed e) log = AllForFee log
Fits no_account log = AllForFee log
Fits without_result log = AllForFee log

-- No error of the database reads like a refusal for the fee.
abbrev pub DatabaseErrorsDiffer : {W : Type 0} → Network W → Type 0
DatabaseErrorsDiffer {W} net =
    (hash : ℕ) (w : W) (e : HorizonError)
    → (net.write_completed hash w).0 ≡ some e
    → is_insufficient_fee_rejection e ≡ false

module _ {W : Type 0} (c : StellarConfig) (net : Network W)
    (differ : DatabaseErrorsDiffer net) where
  abbrev Out : Type 0
  Out = Ending × (W × List Reply)

  -- The replies fit the ending, and are `k` at most.
  abbrev pub IsGood : ℕ → Out → Type 0
  IsGood k (e, (w, log)) = Fits e log × (length log ≤ k)

  abbrev Continues : ℕ → (W × List Reply → Out) → Type 0
  Continues n again =
      (w : W) (log : List Reply) → AllForFee log → IsGood (length log + n) (again (w, log))

  reply-IsGood :
      (n : ℕ) (again : W × List Reply → Out) (r : Reply) (w : W) (log : List Reply)
      → Continues n again
      → AllForFee log
      → IsGood (length log + suc n) (after_reply c (logged net) again (r, (w, r ∷ log)))
  reply-IsGood n again (accepted hash) w log continues fee =
      go (net.write_completed hash w).0 (net.write_completed hash w).1 refl
    where
      go :
          (failure : Option HorizonError) (w' : W)
          → (net.write_completed hash w).0 ≡ failure
          → IsGood
              (length log + suc n)
              (after_write c (logged net) again hash (failure, (w', accepted hash ∷ log)))
      go none w' h = ((log, refl, fee), omega arith)
      go (some e) w' h =
          let other : is_insufficient_fee_rejection e ≡ false = differ hash w e h in
          rw other ((accepted hash, log, refl, inr (hash, refl), other, fee), omega arith)
  reply-IsGood n again (refused e) w log continues fee = go (is_insufficient_fee_rejection e) refl
    where
      go :
          (b : Bool)
          → is_insufficient_fee_rejection e ≡ b
          → IsGood (length log + suc n) (
              let rest = again (w, refused e ∷ log) in
              if b then rest else (threw e, (w, refused e ∷ log)))
      go true h =
          let (fits, few) = continues w (refused e ∷ log) (h, fee) in (fits, omega (arith, few))
      go false h = ((refused e, log, refl, inl refl, h, fee), omega arith)

  again-IsGood :
      (n : ℕ) (again : W × List Reply → Out) (w : W) (log : List Reply)
      → Continues n again
      → AllForFee log
      → IsGood (length log + suc n) (again (w, log))
  again-IsGood n again w log continues fee =
      let (fits, few) = continues w log fee in (fits, omega (arith, few))

  revalidation-IsGood :
      (n : ℕ) (again : W × List Reply → Out) (quote : PaymentFeeQuote) (current : Bool) (w : W)
      (log : List Reply)
      → Continues n again
      → AllForFee log
      → IsGood (length log + suc n) (after_revalidation c (logged net) again quote current (w, log))
  revalidation-IsGood n again quote true w log continues fee =
      let (r, w') = net.submit_transaction quote.fee_stroops w in
      reply-IsGood n again r w' log continues fee
  revalidation-IsGood n again quote false w log continues fee =
      again-IsGood n again w log continues fee

  read_fee-log : (w : W) (log : List Reply) → (read_fee c (logged net) (w, log)).1.1 ≡ log
  read_fee-log w log = go c.use_dynamic_fees
    where
      go :
          (b : Bool)
          → (if b then (logged net).fetch_base_fee (w, log) else (none, (w, log))).1.1 ≡ log
      go true = refl
      go false = refl

  revalidated-IsGood :
      (n : ℕ) (again : W × List Reply → Out) (quote : PaymentFeeQuote) (w : W) (log : List Reply)
      → Continues n again
      → AllForFee log
      → IsGood
          (length log + suc n)
          (revalidated c (logged net) again quote (read_fee c (logged net) (w, log)))
  revalidated-IsGood n again quote w log continues fee =
      go (read_fee c (logged net) (w, log)) (read_fee-log w log)
    where
      go :
          (x : Option Parsed × (W × List Reply))
          → x.1.1 ≡ log
          → IsGood (length log + suc n) (revalidated c (logged net) again quote x)
      go (fetched, (v, l)) same =
          subst
            (λ m. IsGood (length log + suc n) (
              after_revalidation c (logged net) again quote
                (revalidate_fee_before_submit c quote fetched) (v, m)))
            (sym same)
            (revalidation-IsGood n again quote (revalidate_fee_before_submit c quote fetched) v log
              continues fee)

  load-IsGood :
      (n : ℕ) (again : W × List Reply → Out) (quote : PaymentFeeQuote) (found : Bool) (w : W)
      (log : List Reply)
      → Continues n again
      → AllForFee log
      → IsGood (length log + suc n) (after_load c (logged net) again quote (found, (w, log)))
  load-IsGood n again quote false w log continues fee = (fee, omega arith)
  load-IsGood n again quote true w log continues fee =
      revalidated-IsGood n again quote w log continues fee

  quote-IsGood :
      (n : ℕ) (again : W × List Reply → Out) (quote : Result FeeError PaymentFeeQuote) (w : W)
      (log : List Reply)
      → Continues n again
      → AllForFee log
      → IsGood (length log + suc n) (after_quote c (logged net) again quote (w, log))
  quote-IsGood n again (err e) w log continues fee = (fee, omega arith)
  quote-IsGood n again (ok quote) w log continues fee =
      let (found, w') = net.load_account w in load-IsGood n again quote found w' log continues fee

  submit_from-Continues : (n : ℕ) → Continues n (submit_from c (logged net) n)
  submit_from-Continues zero w log fee = (fee, omega arith)
  submit_from-Continues (suc n) w log fee =
      go (read_fee c (logged net) (w, log)) (read_fee-log w log) (submit_from-Continues n)
    where
      go :
          (x : Option Parsed × (W × List Reply))
          → x.1.1 ≡ log
          → Continues n (submit_from c (logged net) n)
          → IsGood
              (length log + suc n)
              (round c (logged net) (λ v. submit_from c (logged net) n v) x)
      go (fetched, (v, l)) same continues =
          subst
            (λ m. IsGood (length log + suc n) (
              after_quote c (logged net) (λ v. submit_from c (logged net) n v)
                (get_payment_fee c fetched) (v, m)))
            (sym same)
            (quote-IsGood n (λ v. submit_from c (logged net) n v) (get_payment_fee c fetched) v log
              continues fee)

  -- Of the submissions of a payment, at most three, only the last can be accepted, and a payment is
  -- submitted again only after a refusal for its fee, provided that no error of the database reads like
  -- one. When the call returns a hash, the last reply is that hash; when it throws from the `try`, the
  -- last reply is that error, which is no refusal for the fee, or the payment was accepted and the
  -- write of its row failed with that error; in every other ending all replies were refusals for the
  -- fee.
  pub submit_payment-replies :
      (w : W)
      → let (e, (w', log)) = submit_payment c (logged net) (w, []) in
        Fits e log × (length log ≤ max_submit_attempts)
  unfolding submit_payment
  submit_payment-replies w = submit_from-Continues 3 w [] tt
