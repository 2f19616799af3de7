-- ===== src/Transfer/Retries.antt =====
-- A transfer that is asked for again: src/services/transfer/transferService.ts.
use acbu_backend.Prelude.{
  ℕ, suc, ◌≡◌, refl, inl, inr, true, Option, some, List, ◌∷◌, ◌++◌, arith, ==-refl, ap, ◌∙◌,
  Option-cases,
}
use acbu_backend.Prelude.Result.{Result, ok}
use acbu_backend.TransactionStatus.{Status}
use acbu_backend.Wallet.{User}
use acbu_backend.Transfer.Amounts.{trim_start, trim_end}
use acbu_backend.Transfer.{
  Row, Payment, World, CreateTransferParams, CreateTransferOptions, TransferError, Env, truthy,
  replayed, find_transfer, transfer, new_row, valid_amount, after_amount, after_sender, after_kyc,
  after_replay, create_transfer,
}
use acbu_backend.Transfer.Outcomes.{
  Ends, stays_pending, no_key, write_lost, paid_write_lost, client_paid, paid, paid_but_failed,
  not_paid, fee_too_low,
}
use acbu_backend.Transfer.Guards.{transfer_outcomes}

Ends-ok :
    (r : Row) (res : Result TransferError (ℕ × Status)) (st : Status) (hash : Option ℕ)
    (ps : List Payment) (id : ℕ) (st' : Status)
    → Ends r res st hash ps
    → res ≡ ok (id, st')
    → (id ≡ r.id) × (st' ≡ st)
Ends-ok r _ _ _ _ id st' stays_pending h = ground arith
Ends-ok r _ _ _ _ id st' no_key h = ground arith
Ends-ok r _ _ _ _ id st' write_lost h = ground arith
Ends-ok r _ _ _ _ id st' paid_write_lost h = ground arith
Ends-ok r _ _ _ _ id st' client_paid h = ground arith
Ends-ok r _ _ _ _ id st' paid h = ground arith
Ends-ok r _ _ _ _ id st' paid_but_failed h = ground arith
Ends-ok r _ _ _ _ id st' not_paid h = ground arith
Ends-ok r _ _ _ _ id st' fee_too_low h = ground arith

first_found :
    (k : ℕ) (r : Row) (rs : List Row)
    → r.idempotency_key ≡ some k
    → r.kind ≡ transfer
    → find_transfer k r.user_id (r ∷ rs) ≡ some r
first_found k r rs key kind = rw (key, kind, ==-refl k, ==-refl r.user_id) refl

truthy-suc : (k : ℕ) → truthy (some (suc k)) ≡ some (suc k)
truthy-suc k = ground arith

-- A new row with a key is found under it.
new_row-found :
    (k id : ℕ) (q : CreateTransferParams) (to : ℕ) (st : Status) (hash : Option ℕ) (rs : List Row)
    → q.idempotency_key ≡ some (suc k)
    → let r = new_row id q (trim_end (trim_start q.amount_acbu)) to in
      let row : Row = record r { status = st; blockchain_tx_hash = hash } in
      replayed (truthy q.idempotency_key) q.sender_user_id (row ∷ rs) ≡ some row
new_row-found k id q to st hash rs key =
    let r = new_row id q (trim_end (trim_start q.amount_acbu)) to in
    let row : Row = record r { status = st; blockchain_tx_hash = hash } in
    ap (λ t. replayed t q.sender_user_id (row ∷ rs)) (ap truthy key ∙ truthy-suc k)
    ∙ first_found (suc k) row rs key refl

-- A transfer that was returned is found under its key.
abbrev pub Found : CreateTransferParams → ℕ → Status → World → Type 0
Found q id st s =
    (r : Row) × (replayed (truthy q.idempotency_key) q.sender_user_id s.rows ≡ some r)
    × (id ≡ r.id)
    × (st ≡ r.status)

returned-Found :
    (env : Env) (q : CreateTransferParams) (o : CreateTransferOptions) (s : World) (k id : ℕ)
    (st : Status)
    → q.idempotency_key ≡ some (suc k)
    → (create_transfer env q o s).0 ≡ ok (id, st)
    → Found q id st (create_transfer env q o s).1
returned-Found env q o s k id st key h = elim (transfer_outcomes env q o s) [
  | inl (inl (e, failed), rows, paid_before) ↦ ground arith
  | inl (inr (r, returned, found), rows, paid_before) ↦ (r, found, ground arith, ground arith)
  | inr (to, permitted, inserts) ↦
      let (free, settles) = inserts in
      let (st', hash, new, ends, rows, payments) = settles in
      let r = new_row env.new_id q (trim_end (trim_start q.amount_acbu)) to in
      let (same_id, same_status) =
        Ends-ok r (create_transfer env q o s).0 st' hash new id st ends h in
      (
        record r { status = st'; blockchain_tx_hash = hash },
        rw rows (new_row-found k env.new_id q to st' hash (env.inserted ++ s.rows) key),
        same_id,
        same_status,
      )
]

returned-amount :
    (env : Env) (q : CreateTransferParams) (o : CreateTransferOptions) (s : World) (id : ℕ)
    (st : Status)
    → (create_transfer env q o s).0 ≡ ok (id, st)
    → (n : ℕ) × (valid_amount (trim_end (trim_start q.amount_acbu)) ≡ some n)
unfolding create_transfer
returned-amount env q o s id st h =
    elim (Option-cases (valid_amount (trim_end (trim_start q.amount_acbu)))) [
      | inl invalid ↦ ground arith
      | inr valid ↦ valid
    ]

replays :
    (env : Env) (q : CreateTransferParams) (o : CreateTransferOptions) (s : World) (n : ℕ)
    (u : User) (r : Row)
    → valid_amount (trim_end (trim_start q.amount_acbu)) ≡ some n
    → s.wallet.users q.sender_user_id ≡ some u
    → env.kyc_verified q.sender_user_id ≡ true
    → replayed (truthy q.idempotency_key) q.sender_user_id s.rows ≡ some r
    → create_transfer env q o s ≡ (ok (r.id, r.status), s)
unfolding create_transfer
replays env q o s n u r valid there verified found =
    let text = trim_end (trim_start q.amount_acbu) in
    let own = u.stellar_address in
    ap (λ a. after_amount env q o text a s) valid
    ∙ ap (λ x. after_sender env q o text n x s) there
    ∙ ap (λ b. after_kyc env q o text n own b s) verified
    ∙ ap (λ f. after_replay env q o text n own f s) found

-- A transfer that was returned, and is asked for again with the same key, returns the same id and
-- status, and changes nothing: no version is claimed, no row is added and nothing is paid, as long as
-- the sender is there and verified.
pub transfer_retried :
    (env env' : Env) (q : CreateTransferParams) (o o' : CreateTransferOptions) (s : World)
    (k id : ℕ) (st : Status) (u : User)
    → q.idempotency_key ≡ some (suc k)
    → (create_transfer env q o s).0 ≡ ok (id, st)
    → (create_transfer env q o s).1.wallet.users q.sender_user_id ≡ some u
    → env'.kyc_verified q.sender_user_id ≡ true
    → create_transfer env' q o' (create_transfer env q o s).1
      ≡ (ok (id, st), (create_transfer env q o s).1)
transfer_retried env env' q o o' s k id st u key h there verified =
    let (n, valid) = returned-amount env q o s id st h in
    let (r, found, same_id, same_status) = returned-Found env q o s k id st key h in
    replays env' q o' (create_transfer env q o s).1 n u r valid there verified found
    ∙ ap (λ a. (a, (create_transfer env q o s).1)) (ground arith)
