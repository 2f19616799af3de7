-- ===== src/Transfer.antt =====
-- Transfers between users: src/services/transfer/transferService.ts, whose second `createTransfer` is
-- the one that the callers' parameters fit. Parameters: the column `kycStatus`, the users that the
-- recipient is looked up among, what the wallet service needs, `submitStellarPayment`, which the file
-- calls and nothing declares, the id of a new row, the rows that other requests insert between the
-- look-up of the key and the insertion, and whether the writes of a completed and of a failed row are done. The audit
-- trail and the financial events are left out: a failure to write them is caught.
pub mod Amounts
mod Types
pub mod Submitting
mod Rows
pub mod Retries
pub mod Keys
pub mod Guards
pub mod Outcomes
unfoldable pub use Types.*
unfoldable pub use Rows.*
use acbu_backend.Prelude.{
  ℕ, Bool, true, false, not, Option, none, some, List, [], ◌∷◌, ◌++◌, ◌&&◌, ◌||◌, ltb, leb, ◌==◌,
  if◌then◌else◌, any,
}
use acbu_backend.Prelude.Result.{Result, ok, err}
use acbu_backend.TransactionStatus.{Status, pending, completed, failed}
use acbu_backend.Wallet as Wallet
use acbu_backend.Wallet.{Config, HorizonReply, reserve_wallet_version, fetch_wallet_balance}
use acbu_backend.Recipient.{Directory, resolve_recipient_address}
use acbu_backend.Transfer.Amounts.{
  Text, trim_start, trim_end, is_valid_amount, amount_to_smallest_unit, balance_text,
}

-- The end of the `catch`: the row is marked failed, and where that write fails the call throws.
abbrev pub mark_failed : Bool → Result TransferError (ℕ × Status) → Row → World → Outcome
mark_failed true result r s = (result, fail r.id s)
mark_failed false result r s = (err write_failed, s)

-- What follows a submission, by whether the writes of the completed and of the failed row are done: a
-- write of the completed row that fails after the payment was taken is caught like a payment that was
-- refused.
abbrev pub after_submission : Bool → Bool → Row → Submission → World → Outcome
after_submission written failure_written r surged s =
    mark_failed failure_written (err fee_surge) r s
after_submission written failure_written r rejected s =
    mark_failed failure_written (ok (r.id, failed)) r s
after_submission true failure_written r (submitted hash) s =
    (ok (r.id, completed), complete r.id hash (record s { payments = payment_of r ∷ s.payments }))
after_submission false failure_written r (submitted hash) s =
    mark_failed failure_written (ok (r.id, failed)) r
      (record s { payments = payment_of r ∷ s.payments })

-- What follows where the client has submitted the payment: no error is caught here.
abbrev pub record_submitted : Bool → Row → ℕ → World → Outcome
record_submitted true r hash s = (ok (r.id, completed), complete r.id hash s)
record_submitted false r hash s = (err write_failed, s)

module _ (env : Env) where
  -- The submission with the sender's key, where there is one.
  abbrev pub submit_signed : Row → Option ℕ → World → Outcome
  submit_signed r none s = (ok (r.id, pending), s)
  submit_signed r (some secret) s =
      after_submission env.completion_written env.failure_written r
        (env.submit_stellar_payment secret r.recipient_address r.acbu_amount) s

  abbrev pub settle_by : Row → Option ℕ → SigningKey → World → Outcome
  settle_by r (some hash) key s = record_submitted env.completion_written r hash s
  settle_by r none not_given s = (ok (r.id, pending), s)
  settle_by r none throws s = (err key_unavailable, s)
  settle_by r none (returns key) s = submit_signed r (truthy key) s

  -- What follows the insertion of the row.
  unfoldable pub settle_transfer : CreateTransferOptions → Row → World → Outcome
  settle_transfer o r s =
      settle_by r (truthy o.submitted_blockchain_tx_hash) o.get_sender_signing_key s

  -- What the insertion of a row that the unique index refuses is turned into.
  abbrev pub found_again : Option Row → World → Outcome
  found_again none s = (err key_taken, s)
  found_again (some r) s = (ok (r.id, r.status), s)

  -- The insertion, and the look-up where the unique index refuses it.
  unfoldable pub insert_transfer :
      CreateTransferParams → CreateTransferOptions → Text → ℕ → World → Outcome
  unfolding settle_transfer
  insert_transfer q o amount to s =
      let rows = env.inserted ++ s.rows in
      let r = new_row env.new_id q amount to in
      if key_is_taken q.idempotency_key rows
      then found_again (replayed (truthy q.idempotency_key) q.sender_user_id rows)
          (record s { rows = rows })
      else settle_transfer o r (record s { rows = r ∷ rows })

  -- The address of the recipient, unless the balance, the recipient or the Travel Rule forbids the
  -- payment; without a configuration of the rule, reading it throws.
  unfoldable pub check_transfer :
      CreateTransferParams → Option ℕ → ℕ → ℕ → Wallet.Store → Result TransferError ℕ
  unfolding check_travel_rule_compliance
  check_transfer q own amount balance w =
      if is_below (amount_to_smallest_unit (balance_text balance)) amount
      then err insufficient_balance
      else elim (resolve_recipient_address env.directory (address_of w) q.to q.sender_user_id) [
        | none ↦ err recipient_not_found
        | some to ↦ if is_own own to then err self_transfer else elim env.travel_rule [
          | none ↦ err no_travel_rule
          | some t ↦
              if check_travel_rule_compliance t amount false
              then ok to
              else err travel_rule_violation
        ]
      ]

  -- What follows the checks.
  abbrev pub after_check :
      CreateTransferParams → CreateTransferOptions → Text → Result TransferError ℕ → World → Outcome
  after_check q o text (err e) s = (err e, s)
  after_check q o text (ok to) s = insert_transfer q o text to s

  -- What follows the reading of the balance.
  abbrev pub after_fetch :
      CreateTransferParams
      → CreateTransferOptions
      → Text
      → ℕ
      → Option ℕ
      → Result Wallet.WalletError (Wallet.Snapshot × ℕ)
      → World
      → Outcome
  after_fetch q o text amount own (err e) s = (err (wallet_error e), s)
  after_fetch q o text amount own (ok (snapshot, _)) s =
      after_check q o text (check_transfer q own amount snapshot.balance s.wallet) s

  -- What follows the claim of the wallet's version.
  abbrev pub after_claim :
      CreateTransferParams
      → CreateTransferOptions
      → Text
      → ℕ
      → Option ℕ
      → Result Wallet.WalletError ℕ
      → World
      → Outcome
  after_claim q o text amount own (err e) s = (err (wallet_error e), s)
  after_claim q o text amount own (ok _) s =
      let (fetched, w) =
        fetch_wallet_balance env.config env.horizon env.read_at env.stored_at q.sender_user_id
          s.wallet in
      after_fetch q o text amount own fetched (record s { wallet = w })

  -- What follows the look-up of the key: the version of the wallet is claimed, then the balance read.
  unfoldable pub pay :
      CreateTransferParams → CreateTransferOptions → Text → ℕ → Option ℕ → World → Outcome
  unfolding check_transfer insert_transfer
  pay q o text amount own s =
      let (claimed, w) = reserve_wallet_version q.sender_user_id o.if_match s.wallet in
      after_claim q o text amount own claimed (record s { wallet = w })

  abbrev pub after_replay :
      CreateTransferParams
      → CreateTransferOptions
      → Text
      → ℕ
      → Option ℕ
      → Option Row
      → World
      → Outcome
  after_replay q o text amount own (some r) s = (ok (r.id, r.status), s)
  after_replay q o text amount own none s = pay q o text amount own s

  abbrev pub after_kyc :
      CreateTransferParams → CreateTransferOptions → Text → ℕ → Option ℕ → Bool → World → Outcome
  after_kyc q o text amount own false s = (err kyc_required, s)
  after_kyc q o text amount own true s =
      after_replay q o text amount own (replayed (truthy q.idempotency_key) q.sender_user_id s.rows)
        s

  abbrev pub after_sender :
      CreateTransferParams → CreateTransferOptions → Text → ℕ → Option Wallet.User → World → Outcome
  after_sender q o text amount none s = (err sender_not_found, s)
  after_sender q o text amount (some u) s =
      after_kyc q o text amount u.stellar_address (env.kyc_verified q.sender_user_id) s

  abbrev pub after_amount :
      CreateTransferParams → CreateTransferOptions → Text → Option ℕ → World → Outcome
  after_amount q o text none s = (err invalid_amount, s)
  after_amount q o text (some amount) s =
      after_sender q o text amount (s.wallet.users q.sender_user_id) s

  -- `createTransfer`
  unfoldable pub create_transfer : CreateTransferParams → CreateTransferOptions → World → Outcome
  unfolding pay valid_amount
  create_transfer q o s =
      let text = trim_end (trim_start q.amount_acbu) in after_amount q o text (valid_amount text) s
