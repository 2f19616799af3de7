-- ===== src/Ledger.antt =====
-- Bulk ledger writes in bounded chunks: src/services/ledger/ledgerService.ts.
pub mod Chunks
use acbu_backend.Prelude.{
  ℕ, zero, suc, ◌+◌, Bool, true, false, Option, none, some, List, [], ◌∷◌, ltb, if◌then◌else◌,
  length, take, drop, Parsed, not_finite, negative, natural,
}
use acbu_backend.Prelude.Result.{Result, ok, err}

-- `parsePositiveInt`, from what `parseInt` makes of the variable.
unfoldable pub parse_positive_int : Parsed → ℕ → ℕ
parse_positive_int not_finite fallback = fallback
parse_positive_int negative fallback = fallback
parse_positive_int (natural n) fallback = if ltb 0 n then n else fallback

-- `LEDGER_BATCH_SIZE`
unfoldable pub ledger_batch_size : Parsed → ℕ
unfolding parse_positive_int
ledger_batch_size value = parse_positive_int value 100

-- `CreateLedgerEntriesResult`
pub record Committed : Type 0 where
  pub inserted : ℕ
  pub batches : ℕ

-- The context that is logged before the error of the database is thrown on.
pub record Failure : Type 0 where
  pub chunk_start : ℕ
  pub chunk_size : ℕ
  pub committed_so_far : ℕ
  pub committed_batches : ℕ

-- The database: `createMany` in a transaction, on the rows of the table. It throws, or gives the new
-- table and the count of the rows that it made.
abbrev pub CreateMany : Type 0 → Type 0
CreateMany A = List A → List A → Option (List A × ℕ)

module _ {A : Type 0} (create_many : CreateMany A) (batch_size : ℕ) where
  -- The `for` loop; `rest` is the entries from `start` on, so the loop's test is that some are left.
  -- Outer `none`: the fuel ran out.
  unfoldable pub commit_chunks :
      ℕ → ℕ → List A → Committed → List A → Option (Result Failure Committed × List A)
  commit_chunks fuel start [] done table = some (ok done, table)
  commit_chunks zero start (e ∷ es) done table = none
  commit_chunks (suc fuel) start (e ∷ es) done table =
      let chunk = take batch_size (e ∷ es) in
      elim (create_many table chunk) [
        | none ↦ some (
          err (record {
            chunk_start = start;
            chunk_size = length chunk;
            committed_so_far = done.inserted;
            committed_batches = done.batches;
          }),
          table,
        )
        | some (table', count) ↦
            commit_chunks fuel (start + batch_size) (drop batch_size (e ∷ es))
              (record { inserted = done.inserted + count; batches = done.batches + 1 }) table'
      ]

  -- `createLedgerEntries`. An empty batch takes the loop's first clause, which returns the zeros of
  -- the early return; there are at most as many rounds as entries.
  unfoldable pub create_ledger_entries :
      List A → List A → Option (Result Failure Committed × List A)
  unfolding commit_chunks
  create_ledger_entries entries table =
      commit_chunks (length entries) 0 entries (record { inserted = 0; batches = 0 }) table
