-- ===== src/Ledger/Chunks.antt =====
-- What the chunked write commits: src/services/ledger/ledgerService.ts.
use acbu_backend.Prelude.{
  ℕ, zero, suc, ◌+◌, ◌-◌, ◌*◌, ◌≤◌, ◌<◌, ◌≡◌, sym, ap, ◌∙◌, inl, inr, Option, none, some, List, [],
  ◌∷◌, ◌++◌, length, take, drop, arith, Option-cases, take-append-drop, length-drop, take-add,
  drop-add, length-take-drop, Parsed,
}
use acbu_backend.Prelude.Result.{Result, ok, err}
use mathlib.Core.Path.{subst}
use mathlib.Core.List.{append_assoc, append-nil}
use acbu_backend.Ledger.{
  Committed, Failure, CreateMany, commit_chunks, create_ledger_entries, ledger_batch_size,
}

-- What Prisma documents of `createMany`: where it returns, it has added the rows, all of them, and
-- counts them.
abbrev pub IsAtomic : {A : Type 0} → CreateMany A → Type 0
IsAtomic {A} create_many =
    (table chunk : List A) (table' : List A) (count : ℕ)
    → create_many table chunk ≡ some (table', count)
    → (table' ≡ table ++ chunk) × (count ≡ length chunk)

-- The batch size that the environment gives is never zero.
pub ledger_batch_size_pos : (value : Parsed) → 0 < ledger_batch_size value
unfolding ledger_batch_size
ledger_batch_size_pos value = ground arith

rounds : (k size n : ℕ) → 0 < size → 0 < n → k * size < (n - size) + size → suc k * size < n + size
rounds zero size n p q h = omega arith
rounds (suc k) size n p q h = omega arith

take_next :
    {A : Type 0} (k size : ℕ) (rest : List A)
    → take size rest ++ take (k * size) (drop size rest) ≡ take (suc k * size) rest
take_next k size rest =
    let e : suc k * size ≡ size + k * size = omega arith in rw (e, take-add size (k * size) rest)

drop_next :
    {A : Type 0} (k size : ℕ) (rest : List A)
    → drop (k * size) (drop size rest) ≡ drop (suc k * size) rest
drop_next k size rest =
    let e : suc k * size ≡ size + k * size = omega arith in rw (e, drop-add size (k * size) rest)

module _ {A : Type 0} (create_many : CreateMany A) (size : ℕ) where
  -- How the loop ends, from `start` with the entries `rest` left.
  abbrev pub Ends :
      ℕ → List A → Committed → List A → Option (Result Failure Committed × List A) → Type 0
  Ends start rest done table none = ⊥
  Ends start rest done table (some (ok c, table')) =
      (table' ≡ table ++ rest)
      × (c.inserted ≡ done.inserted + length rest)
      × ((k : ℕ) × (c.batches ≡ done.batches + k)
          × (length rest ≤ k * size)
          × (k * size < length rest + size))
  Ends start rest done table (some (err f, table')) =
      (k : ℕ) × (table' ≡ table ++ take (k * size) rest)
      × (create_many table' (take size (drop (k * size) rest)) ≡ none)
      × (k * size < length rest)
      × (f.chunk_start ≡ start + k * size)
      × (f.committed_so_far ≡ done.inserted + k * size)
      × (f.committed_batches ≡ done.batches + k)
      × (f.chunk_size ≡ length (take size (drop (k * size) rest)))

  -- One committed chunk before a loop that ends so.
  chunk-Ends :
      (start count : ℕ) (rest : List A) (done : Committed) (table table' : List A)
      (out : Option (Result Failure Committed × List A))
      → 0 < size
      → 0 < length rest
      → table' ≡ table ++ take size rest
      → count ≡ length (take size rest)
      → Ends
          (start + size)
          (drop size rest)
          (record { inserted = done.inserted + count; batches = done.batches + 1 })
          table'
          out
      → Ends start rest done table out
  chunk-Ends start count rest done table table' none pos some_left t c h = h
  chunk-Ends start count rest done table table' (some (ok x, table'')) pos some_left t c
        (rows, n, (k, b, upper, lower)) =
      (
        rows
            ∙ ap (λ r. r ++ drop size rest) t
            ∙ append_assoc table (take size rest) (drop size rest)
            ∙ ap (λ r. table ++ r) (take-append-drop size rest),
        omega (arith, length-take-drop size rest),
        (
          suc k,
          omega arith,
          omega (arith, length-drop size rest),
          rounds k size (length rest) pos some_left (omega (arith, length-drop size rest)),
        ),
      )
  chunk-Ends start count rest done table table' (some (err f, table'')) pos some_left t c
        (k, rows, stopped, left, s, n, b, l) =
      (
        suc k,
        rows
            ∙ ap (λ r. r ++ take (k * size) (drop size rest)) t
            ∙ append_assoc table (take size rest) (take (k * size) (drop size rest))
            ∙ ap (λ r. table ++ r) (take_next k size rest),
        ap (λ r. create_many table'' (take size r)) (sym (drop_next k size rest)) ∙ stopped,
        omega (arith, length-drop size rest),
        omega arith,
        omega (arith, length-take-drop size rest, length-drop size rest),
        omega arith,
        l ∙ ap (λ r. length (take size r)) (drop_next k size rest),
      )

  commit_chunks-Ends :
      (fuel start : ℕ) (rest : List A) (done : Committed) (table : List A)
      → IsAtomic create_many
      → 0 < size
      → length rest ≤ fuel
      → Ends start rest done table (commit_chunks create_many size fuel start rest done table)
  unfolding commit_chunks
  commit_chunks-Ends fuel start [] done table at pos h =
      (sym (append-nil table), omega arith, (0, omega arith, omega arith, omega arith))
  commit_chunks-Ends zero start (e ∷ es) done table at pos h = absurd (omega arith)
  commit_chunks-Ends (suc fuel) start (e ∷ es) done table at pos h =
      elim (Option-cases (create_many table (take size (e ∷ es)))) [
        | inl thrown ↦
            let z : 0 * size ≡ 0 = omega arith in
            subst (Ends start (e ∷ es) done table) (sym (thrown_end thrown)) (
              0,
              rw z (sym (append-nil table)),
              rw z thrown,
              omega arith,
              omega arith,
              omega arith,
              omega arith,
              rw z,
            )
        | inr ((table', count), made) ↦
            let rest = drop size (e ∷ es) in
            let next : Committed = record {
              inserted = done.inserted + count;
              batches = done.batches + 1;
            } in
            let (rows, counted) = at table (take size (e ∷ es)) table' count made in
            subst (Ends start (e ∷ es) done table) (sym (made_end table' count made)) (
              chunk-Ends start count (e ∷ es) done table table' _ pos (omega arith) rows counted (
                commit_chunks-Ends fuel (start + size) rest next table' at pos
                  (omega (arith, length-drop size (e ∷ es)))))
      ]
    where
      thrown_end :
          create_many table (take size (e ∷ es)) ≡ none
          → commit_chunks create_many size (suc fuel) start (e ∷ es) done table
            ≡ some (
              err (record {
                chunk_start = start;
                chunk_size = length (take size (e ∷ es));
                committed_so_far = done.inserted;
                committed_batches = done.batches;
              }),
              table,
            )
      thrown_end h = rw (h, commit_chunks)

      made_end :
          (table' : List A) (count : ℕ)
          → create_many table (take size (e ∷ es)) ≡ some (table', count)
          → commit_chunks create_many size (suc fuel) start (e ∷ es) done table
            ≡ commit_chunks create_many size fuel
                (start + size)
                (drop size (e ∷ es))
                (record { inserted = done.inserted + count; batches = done.batches + 1 })
                table'
      made_end table' count h = rw (h, commit_chunks)

  -- With a positive batch size and a database whose `createMany` is atomic, `createLedgerEntries`
  -- ends. Either it returns: then the table has grown by exactly the entries, in order, the count is
  -- their number, and the number of batches is that number divided by the batch size, rounded up. Or
  -- it throws: then for some `k` the table has grown by the first `k` full chunks and by nothing of
  -- the next, which is the one the database refused, and the logged context names that place.
  pub create_ledger_entries-Ends :
      (entries table : List A)
      → IsAtomic create_many
      → 0 < size
      → Ends 0 entries
          (record { inserted = 0; batches = 0 })
          table
          (create_ledger_entries create_many size entries table)
  unfolding create_ledger_entries
  create_ledger_entries-Ends entries table at pos =
      commit_chunks-Ends (length entries) 0 entries (record { inserted = 0; batches = 0 }) table at
        pos (omega arith)
