-- ===== src/Transfer/Rows.antt =====
-- The tests and the queries of src/services/transfer/transferService.ts, and what it writes.
use acbu_backend.Prelude.{
  ℕ, Bool, true, false, not, Option, none, some, List, [], ◌∷◌, ◌&&◌, ◌||◌, ltb, leb, ◌==◌,
  if◌then◌else◌, any,
}
use acbu_backend.Prelude.Result.{Result}
use acbu_backend.TransactionStatus.{Status, pending, completed, failed}
use acbu_backend.Wallet as Wallet
use acbu_backend.Transfer.Types.{
  Kind, transfer, other, Row, Payment, World, Mode, allowlist, strict, other_mode, TravelRule,
  CreateTransferParams, TransferError,
}
use acbu_backend.Transfer.Amounts.{Text, is_valid_amount, amount_to_smallest_unit}

-- `checkTravelRuleCompliance`: the threshold is compared in smallest units.
unfoldable pub check_travel_rule_compliance : TravelRule → ℕ → Bool → Bool
check_travel_rule_compliance t amount is_vasp_intermediated =
    if leb amount t.threshold_acbu then true else go t.mode
  where
    go : Mode → Bool
    go allowlist = is_vasp_intermediated || not t.enforce
    go strict = is_vasp_intermediated || not t.enforce
    go other_mode = true

-- The amount in smallest units, of a text that passes the test.
unfoldable pub valid_amount : Text → Option ℕ
unfolding is_valid_amount amount_to_smallest_unit
valid_amount text = if is_valid_amount text then amount_to_smallest_unit text else none

-- `===` on keys that may be undefined.
abbrev pub same_key : Option ℕ → Option ℕ → Bool
same_key (some a) (some b) = a == b
same_key _ _ = false

-- A truthy key: one that is given and not empty.
abbrev pub truthy : Option ℕ → Option ℕ
truthy none = none
truthy (some k) = if k == 0 then none else some k

abbrev pub has_key : ℕ → Row → Bool
has_key k r = same_key (some k) r.idempotency_key

abbrev pub is_transfer : Kind → Bool
is_transfer transfer = true
is_transfer other = false

-- `findFirst` with the key, the user and the type.
abbrev pub find_transfer : ℕ → ℕ → List Row → Option Row
find_transfer k user_id [] = none
find_transfer k user_id (r ∷ rs) =
    let rest = find_transfer k user_id rs in
    if has_key k r && r.user_id == user_id && is_transfer r.kind then some r else rest

-- The existing transfer, where a key is given.
abbrev pub replayed : Option ℕ → ℕ → List Row → Option Row
replayed none user_id rs = none
replayed (some k) user_id rs = find_transfer k user_id rs

-- Whether a row with the key is there, which the unique index refuses a second time.
abbrev pub key_is_taken : Option ℕ → List Row → Bool
key_is_taken none rs = false
key_is_taken (some k) rs = any (has_key k) rs

-- `prisma.transaction.update` with the id, which is the primary key.
abbrev pub update_row : ℕ → (Row → Row) → List Row → List Row
update_row id f [] = []
update_row id f (r ∷ rs) =
    let rest = update_row id f rs in if r.id == id then f r ∷ rs else r ∷ rest

abbrev pub as_completed : ℕ → Row → Row
as_completed hash r = record r { status = completed; blockchain_tx_hash = some hash }

abbrev pub as_failed : Row → Row
as_failed r = record r { status = failed }

abbrev pub complete : ℕ → ℕ → World → World
complete id hash s = record s { rows = update_row id (as_completed hash) s.rows }

abbrev pub fail : ℕ → World → World
fail id s = record s { rows = update_row id as_failed s.rows }

-- The row that `createTransfer` inserts.
abbrev pub new_row : ℕ → CreateTransferParams → Text → ℕ → Row
new_row id q amount to = record {
  id = id;
  user_id = q.sender_user_id;
  kind = transfer;
  status = pending;
  recipient_address = to;
  acbu_amount = amount;
  idempotency_key = q.idempotency_key;
  blockchain_tx_hash = none;
}

abbrev pub Outcome : Type 0
Outcome = Result TransferError (ℕ × Status) × World

-- The payment that a submission makes for a row.
abbrev pub payment_of : Row → Payment
payment_of r = record {
  transaction_id = r.id;
  idempotency_key = r.idempotency_key;
  recipient_address = r.recipient_address;
  amount = r.acbu_amount;
}

-- The column `stellarAddress` of a user.
abbrev pub address_of : Wallet.Store → ℕ → Option ℕ
address_of w id = elim (w.users id) [ none ↦ none | some u ↦ u.stellar_address ]

-- `insufficient`: a comparison with `NaN` is false.
abbrev pub is_below : Option ℕ → ℕ → Bool
is_below none n = false
is_below (some b) n = ltb b n

-- `recipientAddress === sender.stellarAddress`, where the sender has one.
abbrev pub is_own : Option ℕ → ℕ → Bool
is_own none to = false
is_own (some a) to = a == to
