-- ===== src/Transfer/Outcomes.antt =====
-- What a transfer does to the rows and the payments: src/services/transfer/transferService.ts.
use acbu_backend.Prelude.{
  ℕ, ◌≡◌, refl, Bool, true, false, Option, none, some, List, [], ◌∷◌, ◌++◌, ==-refl,
}
use acbu_backend.Prelude.Result.{Result, ok, err}
use acbu_backend.TransactionStatus.{Status, pending, completed, failed}
use acbu_backend.Transfer.Amounts.{Text}
use acbu_backend.Transfer.{
  Row, Payment, World, CreateTransferParams, SigningKey, not_given, throws, returns, Submission,
  submitted, surged, rejected, TransferError, fee_surge, write_failed, key_unavailable, Env, truthy,
  new_row, update_row, as_completed, as_failed, Outcome, payment_of, after_submission,
  record_submitted, submit_signed, settle_by,
}

-- What is returned of a row, and the payments made for it, by the status and hash that it ends with.
pub data Ends (r : Row)
    : Result TransferError (ℕ × Status) → Status → Option ℕ → List Payment → Type 0 where
  stays_pending : Ends r (ok (r.id, pending)) pending none []
  no_key : Ends r (err key_unavailable) pending none []
  write_lost : Ends r (err write_failed) pending none []
  paid_write_lost : Ends r (err write_failed) pending none (payment_of r ∷ [])
  client_paid : {h : ℕ} → Ends r (ok (r.id, completed)) completed (some h) []
  paid : {h : ℕ} → Ends r (ok (r.id, completed)) completed (some h) (payment_of r ∷ [])
  paid_but_failed : Ends r (ok (r.id, failed)) failed none (payment_of r ∷ [])
  not_paid : Ends r (ok (r.id, failed)) failed none []
  fee_too_low : Ends r (err fee_surge) failed none []

-- One row is added in front, and its end is one of those.
abbrev pub Settles : Row → World → Outcome → Type 0
Settles r s out =
    (st : Status) × (hash : Option ℕ) × (ps : List Payment) × Ends r out.0 st hash ps
    × (out.1.rows ≡ record r { status = st; blockchain_tx_hash = hash } ∷ s.rows)
    × (out.1.payments ≡ ps ++ s.payments)

update_row-head : (r : Row) (f : Row → Row) (rs : List Row) → update_row r.id f (r ∷ rs) ≡ f r ∷ rs
update_row-head r f rs = rw (==-refl r.id) refl

module _ (env : Env) (id : ℕ) (q : CreateTransferParams) (text : Text) (to : ℕ) where
  abbrev row : Row
  row = new_row id q text to

  after-Settles :
      (written failure_written : Bool) (e : Submission) (s : World)
      → Settles row s
          (after_submission written failure_written row e (record s { rows = row ∷ s.rows }))
  after-Settles written true surged s =
      (failed, none, [], fee_too_low, update_row-head row as_failed s.rows, refl)
  after-Settles written false surged s = (pending, none, [], write_lost, refl, refl)
  after-Settles written true rejected s =
      (failed, none, [], not_paid, update_row-head row as_failed s.rows, refl)
  after-Settles written false rejected s = (pending, none, [], write_lost, refl, refl)
  after-Settles true failure_written (submitted hash) s =
      (completed, some hash, _, paid, update_row-head row (as_completed hash) s.rows, refl)
  after-Settles false true (submitted hash) s =
      (failed, none, _, paid_but_failed, update_row-head row as_failed s.rows, refl)
  after-Settles false false (submitted hash) s = (pending, none, _, paid_write_lost, refl, refl)

  submitted-Settles :
      (written : Bool) (hash : ℕ) (s : World)
      → Settles row s (record_submitted written row hash (record s { rows = row ∷ s.rows }))
  submitted-Settles true hash s =
      (completed, some hash, [], client_paid, update_row-head row (as_completed hash) s.rows, refl)
  submitted-Settles false hash s = (pending, none, [], write_lost, refl, refl)

  pub settle_by-Settles :
      (hash : Option ℕ) (key : SigningKey) (s : World)
      → Settles row s (settle_by env row hash key (record s { rows = row ∷ s.rows }))
  settle_by-Settles (some hash) key s = submitted-Settles env.completion_written hash s
  settle_by-Settles none not_given s = (pending, none, [], stays_pending, refl, refl)
  settle_by-Settles none throws s = (pending, none, [], no_key, refl, refl)
  settle_by-Settles none (returns key) s = go (truthy key)
    where
      go :
          (k : Option ℕ)
          → Settles row s (submit_signed env row k (record s { rows = row ∷ s.rows }))
      go none = (pending, none, [], stays_pending, refl, refl)
      go (some secret) =
          after-Settles env.completion_written env.failure_written
            (env.submit_stellar_payment secret to text) s
