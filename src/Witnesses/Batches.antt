-- ===== src/Witnesses/Batches.antt =====
-- The theorems about src/services/salary/salaryService.ts at a concrete batch.
use acbu_backend.Prelude.{
  ℕ, suc, ◌≡◌, refl, ap, true, none, some, List, [], ◌∷◌, ◌==◌, if◌then◌else◌, length,
}
use acbu_backend.Salary.{
  completed, waiting, partially_completed, CreateSalaryBatchParams, new_batch, TransferCall,
  TransferEnd, returned, rejected, Runner, process_salary_batch, settle_chunks,
}
use acbu_backend.Salary.Logs.{logged, IsOpen}
use acbu_backend.Salary.Settlement.{Processed, process-transfers}

abbrev two_salaries : CreateSalaryBatchParams
two_salaries = record {
  organization_id = none;
  user_id = 1;
  total_amount = some 30;
  currency = 0;
  idempotency_key = some 5;
  items =
      record { recipient_id = 2; recipient_address = 20; amount = 10 }
      ∷ record { recipient_id = 3; recipient_address = 30; amount = 20 }
      ∷ [];
}

-- Transfers that count themselves; those to one address throw.
abbrev pay : TransferCall → ℕ → TransferEnd
pay c n = if c.to == 30 then rejected else returned completed n

abbrev pay_all : List TransferCall → ℕ → List TransferEnd × ℕ
pay_all [] n = ([], n)
pay_all (c ∷ cs) n = let (rs, n') = pay_all cs (suc n) in (pay c n ∷ rs, n')

abbrev payer : Runner ℕ
payer = record { all_settled = pay_all; commit = λ n. (true, n) }

pay_all-length : (cs : List TransferCall) (n : ℕ) → length (pay_all cs n).0 ≡ length cs
pay_all-length [] n = refl
pay_all-length (c ∷ cs) n = ap suc (pay_all-length cs (suc n))

process-transfers_example :
    let (r, after, (w', log)) =
      process_salary_batch (logged payer) 100 (new_batch 8 two_salaries) (0, []) in
    (IsOpen waiting → Processed (new_batch 8 two_salaries) r after log)
    × (¬ IsOpen waiting → (after ≡ new_batch 8 two_salaries) × (w' ≡ 0) × (log ≡ []))
process-transfers_example = process-transfers payer pay_all-length 100 (new_batch 8 two_salaries) 0

half_paid :
    (process_salary_batch payer 100 (new_batch 8 two_salaries) 0).1.status ≡ partially_completed
unfolding process_salary_batch settle_chunks
half_paid = refl
