-- ===== src/Transfer/Types.antt =====
-- The rows, the requests and the errors of src/services/transfer/transferService.ts.
use acbu_backend.Prelude.{ℕ, Bool, Option, List}
use acbu_backend.TransactionStatus.{Status}
use acbu_backend.Wallet as Wallet
use acbu_backend.Wallet.{WalletError}
use acbu_backend.Recipient.{Query, Directory}
use acbu_backend.Transfer.Amounts.{Text}

-- The column `type` of a transaction: "transfer", or another.
pub data Kind : Type 0 where
  transfer other : Kind

-- The columns of `transactions` that a transfer reads or writes.
pub record Row : Type 0 where
  pub id : ℕ
  pub user_id : ℕ
  pub kind : Kind
  pub status : Status
  pub recipient_address : ℕ
  pub acbu_amount : Text
  pub idempotency_key : Option ℕ
  pub blockchain_tx_hash : Option ℕ

-- A payment that the network took: the row it was submitted for, its key, where it went.
pub record Payment : Type 0 where
  pub transaction_id : ℕ
  pub idempotency_key : Option ℕ
  pub recipient_address : ℕ
  pub amount : Text

pub record World : Type 0 where
  pub wallet : Wallet.Store
  pub rows : List Row
  pub payments : List Payment

-- `mode` of the Travel Rule.
pub data Mode : Type 0 where
  allowlist strict other_mode : Mode

-- `config.travelRule`, its threshold in smallest units.
pub record TravelRule : Type 0 where
  pub threshold_acbu : ℕ
  pub enforce : Bool
  pub mode : Mode

-- `CreateTransferParams`. Keys are numbers, and 0 is the empty text, which JavaScript takes for false.
pub record CreateTransferParams : Type 0 where
  pub sender_user_id : ℕ
  pub to : Query
  pub amount_acbu : Text
  pub idempotency_key : Option ℕ

-- `getSenderSigningKey`: not given, or what it returns, unless it throws.
pub data SigningKey : Type 0 where
  not_given throws : SigningKey
  returns : Option ℕ → SigningKey

-- `CreateTransferOptions`, without the id for logs.
pub record CreateTransferOptions : Type 0 where
  pub get_sender_signing_key : SigningKey
  pub submitted_blockchain_tx_hash : Option ℕ
  pub if_match : Option ℕ

-- What a submission ends in: a hash, the error of a fee surge, another error.
pub data Submission : Type 0 where
  submitted : ℕ → Submission
  surged rejected : Submission

pub data TransferError : Type 0 where
  invalid_amount sender_not_found kyc_required : TransferError
  wallet_error : WalletError → TransferError
  insufficient_balance recipient_not_found self_transfer : TransferError
  no_travel_rule travel_rule_violation key_taken fee_surge write_failed key_unavailable :
      TransferError

-- What `createTransfer` finds around it.
pub record Env : Type 0 where
  pub kyc_verified : ℕ → Bool
  pub directory : Directory
  pub travel_rule : Option TravelRule
  pub config : Wallet.Config
  pub horizon : ℕ → Wallet.HorizonReply
  pub read_at : ℕ
  pub stored_at : ℕ
  pub submit_stellar_payment : ℕ → ℕ → Text → Submission
  pub new_id : ℕ
  pub inserted : List Row
  pub completion_written : Bool
  pub failure_written : Bool
