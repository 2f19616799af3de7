-- ===== src/Witnesses/Transfers.antt =====
-- The theorems about src/services/transfer/transferService.ts and src/services/recipient at concrete
-- transfers.
use acbu_backend.Prelude.{
  false, length, suc, ℕ, ◌≡◌, ◌≤◌, refl, ◌⊎◌, inr, true, Option, none, some, [], ◌∷◌, ◌==◌,
  if◌then◌else◌, count_where, arith,
}
use acbu_backend.Prelude.Doubles.{to_double}
use acbu_backend.Prelude.Result.{ok}
use acbu_backend.TransactionStatus.{completed}
use acbu_backend.Wallet as Wallet
use acbu_backend.Wallet.{User, Config, HorizonReply, account, issued}
use acbu_backend.Recipient.{Query, username, Profile, Contact, Directory, resolve_recipient}
use acbu_backend.Recipient.Privacy.{Shows, resolve_recipient-Shows}
use acbu_backend.Transfer.Amounts.{
  Text, digit, point, space, trim_start, trim_end, amount_to_smallest_unit, balance_text,
}
use acbu_backend.Transfer.Amounts.RoundTrip.{amount-balance_text}
use acbu_backend.Transfer.{
  World, TravelRule, strict, CreateTransferParams, CreateTransferOptions, returns, submitted, Env,
  create_transfer,
}
use acbu_backend.Transfer.Guards.{
  Quiet, Permitted, Inserts, transfer_outcomes, without_if_match, without_travel_rule,
}
use acbu_backend.Prelude.{natural}
use acbu_backend.Fees.FeeManager.{StellarConfig}
use acbu_backend.Transfer.Submitting.{
  HorizonError, tx_insufficient_fee, accepted, refused, Network, submit_payment,
  max_submit_attempts,
}
use acbu_backend.Transfer.Submitting.Attempts.{logged, Fits, submit_payment-replies}
use acbu_backend.Transfer.Keys.{Request, run, pays_with, key_paid_once}
use acbu_backend.Transfer.Retries.{transfer_retried}

abbrev alice : User
alice = record {
  stellar_address = some 77;
  encrypted_stellar_secret = none;
  key_encryption_hint = none;
  wallet_version = 4;
}

abbrev bob : User
bob = record {
  stellar_address = some 88;
  encrypted_stellar_secret = none;
  key_encryption_hint = none;
  wallet_version = 0;
}

abbrev world : World
world = record {
  wallet = record {
    users = λ i. if i == 1 then some alice else if i == 2 then some bob else none;
    cache = [];
  };
  rows = [];
  payments = [];
}

abbrev bob_profile : Profile
bob_profile = record {
  id = 2;
  username = some 20;
  phone_e164 = none;
  email = none;
  privacy_hide_from_search = true;
}

abbrev directory : Directory
directory = record {
  profiles = bob_profile ∷ [];
  contacts = record { user_id = 2; contact_user_id = 1 } ∷ [];
}

abbrev rule : TravelRule
rule = record { threshold_acbu = 10000000000; enforce = true; mode = strict }

abbrev funded : ℕ → HorizonReply
funded _ = account (issued 1 2 (some 500000000) ∷ [])

abbrev env : Env
env = record {
  kyc_verified = λ _. true;
  directory = directory;
  travel_rule = some rule;
  config = record { horizon_url = 9; asset = record { code = 1; issuer = 2 }; ttl = none };
  horizon = funded;
  read_at = 1000;
  stored_at = 1001;
  submit_stellar_payment = λ _ _ _. submitted 900;
  new_id = 1;
  inserted = [];
  completion_written = true;
  failure_written = true;
}

-- "12.5", with a blank behind it.
abbrev amount : Text
amount = digit 1 ∷ digit 2 ∷ point ∷ digit 5 ∷ space ∷ []

abbrev params : CreateTransferParams
params = record {
  sender_user_id = 1;
  to = username 20;
  amount_acbu = amount;
  idempotency_key = some 7;
}

abbrev options : CreateTransferOptions
options = record {
  get_sender_signing_key = returns (some 3);
  submitted_blockchain_tx_hash = none;
  if_match = some 4;
}

transfer_outcomes_example :
    let out = create_transfer env params options world in
    Quiet env params world out
    ⊎ ((to : ℕ) × Permitted env params options to world
        × Inserts env params options (trim_end (trim_start amount)) to world out)
transfer_outcomes_example = transfer_outcomes env params options world

abbrev after : World
after = (create_transfer env params options world).1

paid : (create_transfer env params options world).0 ≡ ok (1, completed)
unfolding create_transfer trim_start trim_end Wallet.reserve_wallet_version
    Wallet.fetch_wallet_balance Wallet.get_cache balance_text to_double
    acbu_backend.Recipient.resolve_recipient_address
paid = refl

abbrev alice_later : User
alice_later = record alice { wallet_version = 5 }

sender_there : after.wallet.users 1 ≡ some alice_later
unfolding create_transfer trim_start trim_end Wallet.reserve_wallet_version
    Wallet.fetch_wallet_balance Wallet.get_cache balance_text to_double
    acbu_backend.Recipient.resolve_recipient_address
sender_there = refl

transfer_retried_example : create_transfer env params options after ≡ (ok (1, completed), after)
transfer_retried_example =
    transfer_retried env env params options options world 6 1 completed alice_later refl paid
      sender_there refl

abbrev request : Request
request = record { env = env; params = params; options = options }

abbrev again : Request
again = record {
  env = record env { new_id = 2 };
  params = params;
  options = record options { if_match = some 5 };
}

key_paid_once_example : count_where (pays_with 7) (run (request ∷ again ∷ []) world).payments ≤ 1
key_paid_once_example =
    key_paid_once (request ∷ again ∷ []) world (refl, (refl, tt)) (λ k. (omega arith, omega arith))
      7

abbrev unversioned : CreateTransferOptions
unversioned = record options { if_match = none }

without_if_match_example : Quiet env params world (create_transfer env params unversioned world)
without_if_match_example = without_if_match env params unversioned world refl

abbrev unconfigured : Env
unconfigured = record env { travel_rule = none }

without_travel_rule_example :
    Quiet unconfigured params world (create_transfer unconfigured params options world)
without_travel_rule_example = without_travel_rule unconfigured params options world refl

amount-balance_text_example : amount_to_smallest_unit (balance_text 123450000) ≡ some 123450000
amount-balance_text_example = amount-balance_text 123450000 (inr (omega arith)) (omega arith)

found : resolve_recipient directory (username 20) (some 1) ≡ some 2
unfolding resolve_recipient
found = refl

resolve_recipient-Shows_example : Shows directory (username 20) (some 1) 2
resolve_recipient-Shows_example = resolve_recipient-Shows directory (username 20) (some 1) 2 found

abbrev stellar_config : StellarConfig
stellar_config = record {
  use_dynamic_fees = true;
  base_fee_stroops = natural 100;
  soroban_min_fee_stroops = 100;
  soroban_max_fee_stroops = 1000;
  fee_surge_buffer_bps = none;
  max_payment_fee_stroops = none;
}

abbrev underpriced : HorizonError
underpriced = record {
  mentions_fee = false;
  transaction = some tx_insufficient_fee;
  operations = [];
  inner = [];
}

-- A network that counts its submissions, and refuses the first for its fee.
abbrev surging : Network ℕ
surging = record {
  fetch_base_fee = λ n. (some (natural 100), n);
  load_account = λ n. (true, n);
  submit_transaction = λ fee n. (if n == 0 then refused underpriced else accepted 900, suc n);
  write_completed = λ hash n. (none, n);
}

none-ne-some : {e : HorizonError} → ◌≡◌ {A = Option HorizonError} none (some e) → ⊥
none-ne-some h = cc

submit_payment-replies_example :
    let (e, (w', log)) = submit_payment stellar_config (logged surging) (0, []) in
    Fits e log × (length log ≤ max_submit_attempts)
submit_payment-replies_example =
    submit_payment-replies stellar_config surging (λ hash w e h. absurd (none-ne-some h)) 0
