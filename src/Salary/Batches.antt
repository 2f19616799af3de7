-- ===== src/Salary/Batches.antt =====
-- How batches are created: src/services/salary/salaryService.ts.
use acbu_backend.Prelude.{
  ℕ, suc, ◌+◌, ◌≡◌, refl, ap, ◌∙◌, inl, inr, ◌⊎◌, Option, none, some, List, [], ◌∷◌, ◌==◌, arith,
  Bool-cases, Option-cases,
}
use acbu_backend.Prelude.Result.{ok, err}
use acbu_backend.Salary.{
  SalaryBatch, SalaryItem, ItemRequest, CreateSalaryBatchParams, calculated_total, find_existing,
  new_items, waiting, create_new, new_batch, create_salary_batch, total_amount_mismatch,
}

abbrev pub sum_items : List SalaryItem → ℕ
sum_items [] = 0
sum_items (i ∷ is) = i.amount + sum_items is

new_batch-total :
    (id : ℕ) (p : CreateSalaryBatchParams)
    → calculated_total p.items ≡ sum_items (new_batch id p).items
new_batch-total id p = go p.items 0
  where
    go : (is : List ItemRequest) (n : ℕ) → calculated_total is ≡ sum_items (new_items n is)
    go [] n = refl
    go (i ∷ is) n = ap (λ t. i.amount + t) (go is (suc n))

-- A creation either finds a batch with its key, and then the table is as it was and that batch's
-- id and status are returned; or it adds one waiting batch, whose total is the sum of its items'
-- amounts and what the request said, if it said something; or it throws for a mismatch, and the
-- table is as it was.
pub create-outcomes :
    (id : ℕ) (p : CreateSalaryBatchParams) (bs : List SalaryBatch)
    → let (r, after) = create_salary_batch id p bs in
      ((b : SalaryBatch) × (find_existing p.idempotency_key bs ≡ some b)
        × (r ≡ ok (record { batch_id = b.id; status = b.status }))
        × (after ≡ bs))
      ⊎ (((r ≡ ok (record { batch_id = id; status = waiting }))
            × (after ≡ new_batch id p ∷ bs)
            × ((new_batch id p).total_amount ≡ sum_items (new_batch id p).items)
            × ((p.total_amount ≡ none)
                ⊎ (p.total_amount ≡ some (sum_items (new_batch id p).items))))
          ⊎ ((r ≡ err total_amount_mismatch) × (after ≡ bs)))
unfolding create_salary_batch
create-outcomes id p bs = elim (Option-cases (find_existing p.idempotency_key bs)) [
  | inr (b, found) ↦ rw (create_salary_batch, found) (inl (b, refl, refl, refl))
  | inl fresh ↦ rw (create_salary_batch, fresh) (inr (go p.total_amount refl))
]
  where
    go :
        (said : Option ℕ)
        → p.total_amount ≡ said
        → let (r, after) = create_new id p bs in
          ((r ≡ ok (record { batch_id = id; status = waiting }))
            × (after ≡ new_batch id p ∷ bs)
            × ((new_batch id p).total_amount ≡ sum_items (new_batch id p).items)
            × ((p.total_amount ≡ none)
                ⊎ (p.total_amount ≡ some (sum_items (new_batch id p).items))))
          ⊎ ((r ≡ err total_amount_mismatch) × (after ≡ bs))
    go none e = rw (create_new, e) (inl (refl, refl, new_batch-total id p, inl refl))
    go (some t) e = elim (Bool-cases (t == calculated_total p.items)) [
      | inl same ↦
          let equal : t ≡ calculated_total p.items = ground arith in
          let told = ap some (equal ∙ new_batch-total id p) in
          rw (create_new, e, same) (inl (refl, refl, new_batch-total id p, inr told))
      | inr other ↦ rw (create_new, e, other) (inr (refl, refl))
    ]
