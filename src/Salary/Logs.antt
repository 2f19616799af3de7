-- ===== src/Salary/Logs.antt =====
-- The transfers that a batch asks for, as a log of calls: src/services/salary/salaryService.ts.
use acbu_backend.Prelude.{
  ℕ, suc, ◌+◌, ◌≡◌, refl, ap, ◌↔◌, Bool, true, false, List, [], ◌∷◌, ◌++◌, map, not, if◌then◌else◌,
  length, count_where, arith,
}
use acbu_backend.Salary.{
  ItemStatus, completed, pending, processing, failed, BatchStatus, waiting, all_failed,
  partially_completed, SalaryItem, all_completed, in_progress, TransferCall, TransferEnd, returned,
  rejected, is_completed, runs, final_status, Runner, call, pending_items,
}

-- The calls of the transfers with what each came to, in order.
abbrev pub Log : Type 0
Log = List (TransferCall × TransferEnd)

abbrev pub zip : List TransferCall → List TransferEnd → Log
zip (c ∷ cs) (r ∷ rs) = (c, r) ∷ zip cs rs
zip _ _ = []

-- A runner that keeps the calls.
abbrev pub logged : {W : Type 0} → Runner W → Runner (W × Log)
logged run = record {
  all_settled = λ cs (w, log). let (rs, w') = run.all_settled cs w in (rs, (w', log ++ zip cs rs));
  commit = λ (w, log). let (done, w') = run.commit w in (done, (w', log));
}

-- Every promise settles, so there is one result for each call.
abbrev pub AllSettle : {W : Type 0} → Runner W → Type 0
AllSettle {W} run = (cs : List TransferCall) (w : W) → length (run.all_settled cs w).0 ≡ length cs

abbrev pub calls : Log → List TransferCall
calls log = map (λ e. e.0) log

-- The statuses of an item and of a batch, told apart one by one.
abbrev pub is_done : ItemStatus → Bool
is_done completed = true
is_done pending = false
is_done processing = false
is_done failed = false

abbrev pub IsOpen : BatchStatus → Type 0
IsOpen waiting = Unit {0}
IsOpen all_failed = Unit {0}
IsOpen in_progress = ⊥
IsOpen all_completed = ⊥
IsOpen partially_completed = ⊥

-- The items that are not completed.
abbrev pub unfinished : List SalaryItem → List SalaryItem
unfinished [] = []
unfinished (i ∷ is) = if is_done i.status then unfinished is else i ∷ unfinished is

abbrev pub is_paid : TransferEnd → Bool
is_paid (returned st tx) = is_done st
is_paid rejected = false

pub is_completed-is_done : (st : ItemStatus) → is_completed st ≡ is_done st
is_completed-is_done completed = refl
is_completed-is_done _ = refl

pub pending-unfinished : (is : List SalaryItem) → pending_items is ≡ unfinished is
pending-unfinished [] = refl
pending-unfinished (i ∷ is) = ground (arith, pending-unfinished is, is_completed-is_done i.status)

pub runs-IsOpen : (st : BatchStatus) → IsOpen st → runs st ≡ true
runs-IsOpen waiting h = refl
runs-IsOpen all_failed h = refl
runs-IsOpen in_progress h = elim h [ ]
runs-IsOpen all_completed h = elim h [ ]
runs-IsOpen partially_completed h = elim h [ ]

pub not_runs : (st : BatchStatus) → ¬ IsOpen st → runs st ≡ false
not_runs waiting h = absurd (h tt)
not_runs all_failed h = absurd (h tt)
not_runs in_progress h = refl
not_runs all_completed h = refl
not_runs partially_completed h = refl

-- The number of calls that did not come to a completed transfer whose item was written.
abbrev pub unpaid : Log → ℕ
unpaid log = count_where (λ e. not (is_paid e.1)) log

pub calls-zip :
    (cs : List TransferCall) (rs : List TransferEnd)
    → length rs ≡ length cs
    → calls (zip cs rs) ≡ cs
calls-zip [] [] h = refl
calls-zip [] (r ∷ rs) h = refl
calls-zip (c ∷ cs) [] h = absurd (omega (arith, h))
calls-zip (c ∷ cs) (r ∷ rs) h = ap (λ x. c ∷ x) (calls-zip cs rs (omega (arith, h)))

pub unpaid-append : (xs ys : Log) → unpaid (xs ++ ys) ≡ unpaid xs + unpaid ys
unpaid-append [] ys = omega arith
unpaid-append (x ∷ xs) ys = ground (arith, unpaid-append xs ys)

pub length-calls : (xs : Log) → length (calls xs) ≡ length xs
length-calls [] = refl
length-calls (x ∷ xs) = ap suc (length-calls xs)

pub length-call : (user : ℕ) (is : List SalaryItem) → length (map (call user) is) ≡ length is
length-call user [] = refl
length-call user (i ∷ is) = ap suc (length-call user is)

pub pending-count :
    (is : List SalaryItem)
    → count_where (λ i. is_completed i.status) is + length (pending_items is) ≡ length is
pending-count [] = omega arith
pending-count (i ∷ is) = ground (arith, pending-count is)

pub final_iff : (s f n : ℕ) → s + f ≡ n → (final_status s f n ≡ all_completed) ↔ (f ≡ 0)
final_iff s f n h = (λ e. ground arith, λ e. ground arith)
