-- ===== src/Salary.antt =====
-- Salary batches: src/services/salary/salaryService.ts. Amounts are numbers of a common unit; ids,
-- addresses and keys are only compared, so they are numbers. What the calls of `createTransfer` for one
-- chunk come to, which run at the same time, is a parameter over a world of its own, and so is the
-- commit of a chunk's corrective writes. The writes of the batch's own row succeed.
pub mod Batches
pub mod Logs
pub mod Settlement
use acbu_backend.Prelude.{
  ℕ, zero, suc, ◌+◌, Bool, true, false, Option, none, some, List, [], ◌∷◌, map, ◌&&◌, not, ltb,
  ◌==◌, if◌then◌else◌, length, take, drop, select, count_where, any,
}
use acbu_backend.Prelude.Result.{Result, ok, err}

pub data ItemStatus : Type 0 where
  pending processing completed failed : ItemStatus

-- A row of `salary_items`, with the key of its recipient's address.
pub record SalaryItem : Type 0 where
  pub id : ℕ
  pub recipient_id : ℕ
  pub recipient_address : ℕ
  pub amount : ℕ
  pub status : ItemStatus
  pub transaction_id : Option ℕ
  pub has_error : Bool

pub data BatchStatus : Type 0 where
  waiting in_progress all_completed partially_completed all_failed : BatchStatus

-- A row of `salary_batches` with its items.
pub record SalaryBatch : Type 0 where
  pub id : ℕ
  pub user_id : ℕ
  pub organization_id : Option ℕ
  pub total_amount : ℕ
  pub currency : ℕ
  pub idempotency_key : Option ℕ
  pub status : BatchStatus
  pub completed_at : Option ℕ
  pub items : List SalaryItem

-- An item of a request.
pub record ItemRequest : Type 0 where
  pub recipient_id : ℕ
  pub recipient_address : ℕ
  pub amount : ℕ

-- `CreateSalaryBatchParams`
pub record CreateSalaryBatchParams : Type 0 where
  pub organization_id : Option ℕ
  pub user_id : ℕ
  pub total_amount : Option ℕ
  pub currency : ℕ
  pub idempotency_key : Option ℕ
  pub items : List ItemRequest

-- The sum of the amounts.
abbrev pub calculated_total : List ItemRequest → ℕ
calculated_total [] = 0
calculated_total (i ∷ is) = i.amount + calculated_total is

abbrev pub new_items : ℕ → List ItemRequest → List SalaryItem
new_items n [] = []
new_items n (i ∷ is) =
    record {
      id = n;
      recipient_id = i.recipient_id;
      recipient_address = i.recipient_address;
      amount = i.amount;
      status = pending;
      transaction_id = none;
      has_error = false;
    }
    ∷ new_items (suc n) is

abbrev has_key : ℕ → Option ℕ → Bool
has_key k none = false
has_key k (some j) = j == k

-- `findUnique({ where: { idempotencyKey } })`
abbrev find_by_key : ℕ → List SalaryBatch → Option SalaryBatch
find_by_key k [] = none
find_by_key k (b ∷ bs) = if has_key k b.idempotency_key then some b else find_by_key k bs

abbrev pub find_existing : Option ℕ → List SalaryBatch → Option SalaryBatch
find_existing none bs = none
find_existing (some k) bs = find_by_key k bs

abbrev pub differs : Option ℕ → ℕ → Bool
differs none total = false
differs (some t) total = not (t == total)

pub data BatchError : Type 0 where
  total_amount_mismatch corrections_failed : BatchError

pub record CreateSalaryBatchResult : Type 0 where
  pub batch_id : ℕ
  pub status : BatchStatus

-- The row that `createSalaryBatch` writes.
abbrev pub new_batch : ℕ → CreateSalaryBatchParams → SalaryBatch
new_batch id p = record {
  id = id;
  user_id = p.user_id;
  organization_id = p.organization_id;
  total_amount = calculated_total p.items;
  currency = p.currency;
  idempotency_key = p.idempotency_key;
  status = waiting;
  completed_at = none;
  items = new_items 0 p.items;
}

abbrev pub create_new :
    ℕ
    → CreateSalaryBatchParams
    → List SalaryBatch
    → Result BatchError CreateSalaryBatchResult × List SalaryBatch
create_new id p bs =
    if differs p.total_amount (calculated_total p.items)
    then (err total_amount_mismatch, bs)
    else (ok (record { batch_id = id; status = waiting }), new_batch id p ∷ bs)

-- `createSalaryBatch` up to the processing in the background, for the id that the database makes.
unfoldable pub create_salary_batch :
    ℕ
    → CreateSalaryBatchParams
    → List SalaryBatch
    → Result BatchError CreateSalaryBatchResult × List SalaryBatch
create_salary_batch id p bs = elim (find_existing p.idempotency_key bs) [
  | some b ↦ (ok (record { batch_id = b.id; status = b.status }), bs)
  | none ↦ create_new id p bs
]

-- The arguments of a call of `createTransfer`.
pub record TransferCall : Type 0 where
  pub sender_user_id : ℕ
  pub to : ℕ
  pub amount : ℕ

-- How the promise of an item settles: the transfer returned a status and a transaction's id, and the
-- write of the item's row was done; or the transfer threw, or that write did.
pub data TransferEnd : Type 0 where
  returned : ItemStatus → ℕ → TransferEnd
  rejected : TransferEnd

abbrev pub is_completed : ItemStatus → Bool
is_completed completed = true
is_completed _ = false

abbrev is_failed : ItemStatus → Bool
is_failed failed = true
is_failed _ = false

abbrev set_item : ℕ → (SalaryItem → SalaryItem) → List SalaryItem → List SalaryItem
set_item id f = map (λ i. if i.id == id then f i else i)

-- `BATCH_CONCURRENCY`
abbrev pub batch_concurrency : ℕ
batch_concurrency = 10

-- The statuses that a batch is processed in.
abbrev pub runs : BatchStatus → Bool
runs waiting = true
runs all_failed = true
runs _ = false

abbrev pub final_status : ℕ → ℕ → ℕ → BatchStatus
final_status success_count fail_count total =
    if fail_count == 0 && success_count == total
    then all_completed
    else if ltb 0 success_count
    then partially_completed
    else all_failed

abbrev finish_time : ℕ → BatchStatus → Option ℕ
finish_time now all_completed = some now
finish_time now _ = none

-- The world of the transfers, the items of the batch, and the two counts.
pub record Progress (W : Type 0) : Type 0 where
  pub world : W
  pub items : List SalaryItem
  pub success_count : ℕ
  pub fail_count : ℕ

-- What the processing is given: `Promise.allSettled` of the transfers of a chunk, whatever their
-- interleaving, and the commit of the chunk's corrective writes, done or not.
pub record Runner (W : Type 0) : Type 0 where
  pub all_settled : List TransferCall → W → List TransferEnd × W
  pub commit : W → Bool × W

abbrev pub call : ℕ → SalaryItem → TransferCall
call user i = record { sender_user_id = user; to = i.recipient_address; amount = i.amount }

abbrev pub count : Bool → ℕ → ℕ
count true n = suc n
count false n = n

-- The items that are not completed.
abbrev pub pending_items : List SalaryItem → List SalaryItem
pending_items = select (λ i. not (is_completed i.status))

-- The items of the rejected promises.
abbrev pub rejected_items : List SalaryItem → List TransferEnd → List SalaryItem
rejected_items (i ∷ is) (rejected ∷ rs) = i ∷ rejected_items is rs
rejected_items (i ∷ is) (returned st tx ∷ rs) = rejected_items is rs
rejected_items _ _ = []

-- The corrective writes.
abbrev pub correct : List SalaryItem → List SalaryItem → List SalaryItem
correct [] items = items
correct (i ∷ is) items =
    correct is (set_item i.id (λ x. record x { status = failed; has_error = true }) items)

module _ {W : Type 0} where
  -- The row of an item whose transfer returned, and the counts.
  abbrev pub settle : SalaryItem → TransferEnd → Progress W → Progress W
  settle i (returned st tx) p = record p {
    items =
        set_item i.id
          (λ x. record x { status = st; transaction_id = some tx; has_error = is_failed st })
          p.items;
    success_count = count (is_completed st) p.success_count;
    fail_count = count (not (is_completed st)) p.fail_count;
  }
  settle i rejected p = record p { fail_count = suc p.fail_count }

  abbrev pub settle_all : List SalaryItem → List TransferEnd → Progress W → Progress W
  settle_all (i ∷ is) (r ∷ rs) p = settle_all is rs (settle i r p)
  settle_all _ _ p = p

  abbrev pub after_commit : List SalaryItem → Progress W → Bool × W → Bool × Progress W
  after_commit is p (true, w) = (true, record p { world = w; items = correct is p.items })
  after_commit is p (false, w) = (false, record p { world = w })

  -- The corrective writes of a chunk, where there are any, and whether the loop goes on.
  abbrev pub corrected : Runner W → List SalaryItem → Progress W → Bool × Progress W
  corrected run [] p = (true, p)
  corrected run (i ∷ is) p = after_commit (i ∷ is) p (run.commit p.world)

  -- One chunk.
  abbrev pub settle_chunk : Runner W → ℕ → List SalaryItem → Progress W → Bool × Progress W
  settle_chunk run user is p =
      let (rs, w) = run.all_settled (map (call user) is) p.world in
      corrected run (rejected_items is rs) (settle_all is rs (record p { world = w }))

  abbrev pub go_on : (Progress W → Bool × Progress W) → Bool × Progress W → Bool × Progress W
  go_on rest (true, p) = rest p
  go_on rest (false, p) = (false, p)

  -- The loop over the chunks, on fuel, and whether it came to its end.
  unfoldable pub settle_chunks : Runner W → ℕ → ℕ → List SalaryItem → Progress W → Bool × Progress W
  settle_chunks run zero user is p = (true, p)
  settle_chunks run (suc fuel) user [] p = (true, p)
  settle_chunks run (suc fuel) user (i ∷ is) p =
      go_on (λ q. settle_chunks run fuel user (drop batch_concurrency (i ∷ is)) q)
        (settle_chunk run user (take batch_concurrency (i ∷ is)) p)

  abbrev pub start : SalaryBatch → W → Progress W
  start b w = record {
    world = w;
    items = b.items;
    success_count = count_where (λ i. is_completed i.status) b.items;
    fail_count = 0;
  }

  -- The end of the call; where the corrective writes failed, the batch stays in processing.
  abbrev pub finished :
      ℕ → SalaryBatch → Bool × Progress W → Result BatchError (Unit {0}) × SalaryBatch × W
  finished now b (true, p) =
      let status = final_status p.success_count p.fail_count (length b.items) in
      (
        ok tt,
        record b { items = p.items; status = status; completed_at = finish_time now status },
        p.world,
      )
  finished now b (false, p) =
      (err corrections_failed, record b { items = p.items; status = in_progress }, p.world)

  -- `processSalaryBatch`, for a batch that exists.
  unfoldable pub process_salary_batch :
      Runner W → ℕ → SalaryBatch → W → Result BatchError (Unit {0}) × SalaryBatch × W
  process_salary_batch run now b w =
      if runs b.status
      then finished now b
          (settle_chunks run (length b.items) b.user_id (pending_items b.items) (start b w))
      else (ok tt, b, w)
