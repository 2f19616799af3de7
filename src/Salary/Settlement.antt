-- ===== src/Salary/Settlement.antt =====
-- How batches are processed: src/services/salary/salaryService.ts.
use mathlib.Core.List.{append_assoc, map-append, append-nil}
use acbu_backend.Prelude.{
  ℕ, zero, suc, ◌+◌, ◌≤◌, ◌≡◌, refl, ap, ◌∙◌, ◌↔◌, inl, inr, Bool, true, false, List, [], ◌∷◌, ◌++◌,
  map, length, take, drop, arith, Bool-cases, sym, take-append-drop, length-drop, length-append,
}
use acbu_backend.Prelude.Result.{Result, ok, err}
use acbu_backend.Salary.{
  SalaryItem, SalaryBatch, BatchError, all_completed, in_progress, TransferCall, TransferEnd,
  returned, rejected, is_completed, Progress, Runner, call, rejected_items, settle, settle_all,
  after_commit, corrected, settle_chunk, go_on, settle_chunks, pending_items, start, finished,
  process_salary_batch,
}
use acbu_backend.Salary.Logs.{
  Log, zip, logged, AllSettle, calls, IsOpen, unfinished, is_completed-is_done, pending-unfinished,
  runs-IsOpen, not_runs, unpaid, calls-zip, unpaid-append, length-calls, length-call, pending-count,
  final_iff,
}

module _ {W : Type 0} (run : Runner W) (settle_each : AllSettle run) where
  abbrev P : Type 0
  P = Progress (W × Log)

  -- What a part of the loop does to the log and the counts, when it makes the calls of `new`.
  abbrev Adds : Log → P → P → Type 0
  Adds new p q =
      (q.world.1 ≡ p.world.1 ++ new)
      × (q.fail_count ≡ p.fail_count + unpaid new)
      × (q.success_count + q.fail_count ≡ p.success_count + p.fail_count + length new)

  settle_all-counts :
      (user : ℕ) (is : List SalaryItem) (rs : List TransferEnd) (p : P)
      → let q = settle_all is rs p in
        let new = zip (map (call user) is) rs in
        (q.world ≡ p.world)
        × (q.fail_count ≡ p.fail_count + unpaid new)
        × (q.success_count + q.fail_count ≡ p.success_count + p.fail_count + length new)
  settle_all-counts user [] [] p = (refl, omega arith, omega arith)
  settle_all-counts user [] (r ∷ rs) p = (refl, omega arith, omega arith)
  settle_all-counts user (i ∷ is) [] p = (refl, omega arith, omega arith)
  settle_all-counts user (i ∷ is) (rejected ∷ rs) p =
      let (w, f, n) = settle_all-counts user is rs (settle i rejected p) in
      (w, omega (arith, f), omega (arith, n))
  settle_all-counts user (i ∷ is) (returned st tx ∷ rs) p =
      let (w, f, n) = settle_all-counts user is rs (settle i (returned st tx) p) in
      elim (Bool-cases (is_completed st)) [
        | inl e ↦ (w, ground (arith, f, is_completed-is_done st), ground (arith, n))
        | inr e ↦ (w, ground (arith, f, is_completed-is_done st), ground (arith, n))
      ]

  corrected-same :
      (is : List SalaryItem) (p : P)
      → let q = (corrected (logged run) is p).1 in
        (q.world.1 ≡ p.world.1)
        × (q.fail_count ≡ p.fail_count)
        × (q.success_count ≡ p.success_count)
  corrected-same [] p = (refl, refl, refl)
  corrected-same (i ∷ is) p = go (run.commit p.world.0)
    where
      go :
          (x : Bool × W)
          → let q = (after_commit (i ∷ is) p (x.0, (x.1, p.world.1))).1 in
            (q.world.1 ≡ p.world.1)
            × (q.fail_count ≡ p.fail_count)
            × (q.success_count ≡ p.success_count)
      go (true, w) = (refl, refl, refl)
      go (false, w) = (refl, refl, refl)

  -- The calls that a chunk makes.
  abbrev chunk_log : ℕ → List SalaryItem → P → Log
  chunk_log user is p = zip (map (call user) is) (run.all_settled (map (call user) is) p.world.0).0

  chunk-Adds :
      (user : ℕ) (is : List SalaryItem) (p : P)
      → Adds (chunk_log user is p) p (settle_chunk (logged run) user is p).1
  chunk-Adds user is p =
      let (rs, w) = run.all_settled (map (call user) is) p.world.0 in
      let p' : P = record p { world = (w, p.world.1 ++ chunk_log user is p) } in
      let (same, f, n) = settle_all-counts user is rs p' in
      let q = settle_all is rs p' in
      let (l, f', s') = corrected-same (rejected_items is rs) q in
      (l ∙ ap (λ x. x.1) same, f' ∙ f, omega (arith, f', s', n))

  Adds-append : (xs ys : Log) (p q r : P) → Adds xs p q → Adds ys q r → Adds (xs ++ ys) p r
  Adds-append xs ys p q r (l, f, n) (l', f', n') = (
    l' ∙ ap (λ x. x ++ ys) l ∙ append_assoc p.world.1 xs ys,
    omega (arith, f, f', unpaid-append xs ys),
    omega (arith, n, n', length-append xs ys),
  )

  -- How the loop ends: the calls that were made are those of the items, in order, up to a rest that
  -- is left out, and there is no rest where the loop comes to its end.
  abbrev LoopEnds : ℕ → List SalaryItem → P → Bool × P → Type 0
  LoopEnds user is p out =
      (new : Log) × (rest : List TransferCall) × Adds new p out.1
      × (calls new ++ rest ≡ map (call user) is)
      × (out.0 ≡ true → rest ≡ [])

  chunk-calls :
      (user : ℕ) (is : List SalaryItem) (p : P) → calls (chunk_log user is p) ≡ map (call user) is
  chunk-calls user is p =
      calls-zip (map (call user) is) (run.all_settled (map (call user) is) p.world.0).0
        (settle_each (map (call user) is) p.world.0)

  split-calls :
      (user : ℕ) (is : List SalaryItem)
      → map (call user) (take 10 is) ++ map (call user) (drop 10 is) ≡ map (call user) is
  split-calls user is =
      sym (map-append (call user) (take 10 is) (drop 10 is))
      ∙ ap (map (call user)) (take-append-drop 10 is)

  settle_chunks-LoopEnds :
      (fuel user : ℕ) (is : List SalaryItem) (p : P)
      → length is ≤ fuel
      → LoopEnds user is p (settle_chunks (logged run) fuel user is p)
  unfolding settle_chunks
  settle_chunks-LoopEnds zero user [] p h =
      ([], [], (sym (append-nil p.world.1), omega arith, omega arith), refl, λ e. refl)
  settle_chunks-LoopEnds zero user (i ∷ is) p h = absurd (omega (arith, h))
  settle_chunks-LoopEnds (suc fuel) user [] p h =
      ([], [], (sym (append-nil p.world.1), omega arith, omega arith), refl, λ e. refl)
  settle_chunks-LoopEnds (suc fuel) user (i ∷ is) p h =
      go (settle_chunk (logged run) user (take 10 (i ∷ is)) p)
        (chunk-Adds user (take 10 (i ∷ is)) p)
        (λ q.
          settle_chunks-LoopEnds fuel user (drop 10 (i ∷ is)) q
            (omega (arith, h, length-drop 10 (i ∷ is))))
    where
      later : List SalaryItem
      later = drop 10 (i ∷ is)

      first : Log
      first = chunk_log user (take 10 (i ∷ is)) p

      made : calls first ≡ map (call user) (take 10 (i ∷ is))
      made = chunk-calls user (take 10 (i ∷ is)) p

      go :
          (x : Bool × P)
          → Adds first p x.1
          → ((q : P) → LoopEnds user later q (settle_chunks (logged run) fuel user later q))
          → LoopEnds user (i ∷ is) p (go_on (λ q. settle_chunks (logged run) fuel user later q) x)
      go (false, q) adds ih = (
        first,
        map (call user) later,
        adds,
        ap (λ cs. cs ++ map (call user) later) made ∙ split-calls user (i ∷ is),
        λ e. absurd (clash e),
      )
        where
          clash : false ≡ true → ⊥
          clash e = cc
      go (true, q) adds ih =
          let (new, rest, adds', split, ends) = ih q in
          (
            first ++ new,
            rest,
            Adds-append first new p q (settle_chunks (logged run) fuel user later q).1 adds adds',
            ap (λ cs. cs ++ rest) (map-append (λ e. e.0) first new)
                ∙ append_assoc (calls first) (calls new) rest
                ∙ ap (λ cs. calls first ++ cs) split
                ∙ ap (λ cs. cs ++ map (call user) later) made
                ∙ split-calls user (i ∷ is),
            ends,
          )

-- What a call for a batch `b` comes to that is processed, with the calls in `log`: it returns, all
-- items that were not completed have their call, and the batch is completed if and only if all of them
-- are paid; or it throws, the calls are a first part of those, and the batch stays in processing.
abbrev pub Processed : SalaryBatch → Result BatchError (Unit {0}) → SalaryBatch → Log → Type 0
Processed b (ok _) after log =
    (calls log ≡ map (call b.user_id) (unfinished b.items))
    × ((after.status ≡ all_completed) ↔ (unpaid log ≡ 0))
Processed b (err e) after log =
    ((rest : List TransferCall) × (calls log ++ rest ≡ map (call b.user_id) (unfinished b.items)))
    × (after.status ≡ in_progress)

module _ {W : Type 0} (run : Runner W) (settle_each : AllSettle run) where
  finished-Processed :
      (now : ℕ) (b : SalaryBatch) (w : W) (out : Bool × Progress (W × Log))
      → LoopEnds run settle_each b.user_id (pending_items b.items) (start b (w, [])) out
      → let (r, after, (w', log)) = finished now b out in Processed b r after log
  finished-Processed now b w (false, q) (new, rest, (l, f, n), split, ends) = (
    (
      rest,
      ap (λ x. calls x ++ rest) l ∙ split ∙ ap (map (call b.user_id)) (pending-unfinished b.items),
    ),
    refl,
  )
  finished-Processed now b w (true, q) (new, rest, (l, f, n), split, ends) =
      let made : calls new ≡ map (call b.user_id) (pending_items b.items) =
        sym (append-nil (calls new)) ∙ ap (λ x. calls new ++ x) (sym (ends refl)) ∙ split in
      let size =
        sym (length-calls new) ∙ ap length made ∙ length-call b.user_id (pending_items b.items) in
      let counted = pending-count b.items in
      let (to, from) =
        final_iff q.success_count q.fail_count (length b.items) (omega (arith, n, size, counted)) in
      (
        ap calls l ∙ made ∙ ap (map (call b.user_id)) (pending-unfinished b.items),
        (
          λ e. ap unpaid l ∙ omega (arith, f, to e),
          λ e. from (omega (arith, f, sym (ap unpaid l) ∙ e)),
        ),
      )

  -- Processing a batch that is pending or failed, whatever the interleaving of the transfers of a
  -- chunk. Either the call returns: then it has asked for the transfers of exactly the items that are
  -- not completed, each once and in order, and the batch is completed if and only if every one of them
  -- returned `completed` and its item was written. Or a chunk's corrective writes failed: then the
  -- call throws, the transfers that were asked for are a first part of those, and the batch is left in
  -- processing. A batch in any other status is left as it is, with no transfer.
  pub process-transfers :
      (now : ℕ) (b : SalaryBatch) (w : W)
      → let (r, after, (w', log)) = process_salary_batch (logged run) now b (w, []) in
        (IsOpen b.status → Processed b r after log)
        × (¬ IsOpen b.status → (after ≡ b) × (w' ≡ w) × (log ≡ []))
  unfolding process_salary_batch
  process-transfers now b w = (
    λ h. rw (runs-IsOpen b.status h) (
        finished-Processed now b w
          (settle_chunks (logged run) (length b.items) b.user_id (pending_items b.items)
            (start b (w, [])))
          (settle_chunks-LoopEnds run settle_each (length b.items) b.user_id (pending_items b.items)
            (start b (w, [])) (omega (arith, pending-count b.items)))),
    λ h. rw (not_runs b.status h) (refl, refl, refl),
  )
