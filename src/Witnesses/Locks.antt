-- ===== src/Witnesses/Locks.antt =====
-- The theorems about locks, keys, deny-lists and retries at concrete calls.
use acbu_backend.Prelude.{ℕ, zero, suc, ◌≡◌, refl, true, false, none, some, List, [], ◌∷◌, arith}
use acbu_backend.Prelude.Result.{Result, ok, err}
use acbu_backend.Idempotency.{
  IdempotencyRecord, Collection, acquire_idempotency_key, resolve_idempotency_key,
}
use acbu_backend.Idempotency.Replay.{resolved_replays}
use acbu_backend.JobLock.{Locks, runs, duplicate_key, acquire_job_lock}
use acbu_backend.JobLock.Exclusion.{Move, acquire, run, job_lock_exclusive}
use acbu_backend.DenyList.{DenyList, consume_jti, revoke_jti, is_jti_revoked}
use acbu_backend.DenyList.SingleUse.{Call, consume, consumed_once, revoked_everywhere}

abbrev no_keys : Collection ℕ
no_keys _ = none

resolved_replays_example :
    let c' = (resolve_idempotency_key true 1 42 60 1000 no_keys).1 in
    acquire_idempotency_key true 1 60 2000 c' ≡ (ok (some 42), c')
unfolding acbu_backend.Idempotency.Replay.run
resolved_replays_example = resolved_replays 1 60 1000 2000 42 [] no_keys tt

abbrev no_locks : Locks
no_locks _ = none

abbrev other_job : List Move
other_job = acquire runs 2 60 1500 ∷ []

job_lock_exclusive_example :
    let (first, ls') = acquire_job_lock runs 1 60 1000 no_locks in
    (first ≡ true)
    × (acquire_job_lock runs 1 60 2000 (run other_job ls') ≡ (false, run other_job ls'))
    × ((acquire_job_lock duplicate_key 1 60 2000 (run other_job ls')).0 ≡ false)
job_lock_exclusive_example = job_lock_exclusive 1 60 1000 60 2000 other_job no_locks refl tt

abbrev no_tokens : DenyList
no_tokens = record { redis = []; mirrors = [] }

abbrev other_token : List Call
other_token = consume true 1 60000 8 500 ∷ []

consumed_once_example :
    (consume_jti true 2 70000 7 300 (
      acbu_backend.DenyList.SingleUse.run other_token
        (consume_jti true 1 50000 7 300 no_tokens).1)).0
    ≡ false
unfolding consume_jti
consumed_once_example =
    consumed_once 1 2 50000 70000 7 300 300 other_token no_tokens refl ((λ e. omega (arith, e)), tt)
      (omega arith)

-- An operation that throws until its counter has run out.
abbrev flaky : ℕ → Result ℕ ℕ × ℕ
flaky zero = (ok 9, 0)
flaky (suc n) = (err n, n)
