-- ===== src/JobLock.antt =====
-- The lock of the scheduled jobs: src/utils/jobLock.ts. The collection `job_locks` has one document
-- for a job at most; jobs are only compared, so they are numbers. What the datastore does with a
-- call is a parameter of the call.
pub mod Exclusion
use acbu_backend.Prelude.{
  ℕ, ◌+◌, ◌*◌, Bool, true, false, Option, none, some, ◌==◌, leb, if◌then◌else◌,
}

pub record Lock : Type 0 where
  pub acquired_at : ℕ
  pub expires_at : ℕ

abbrev pub Locks : Type 0
Locks = ℕ → Option Lock

-- The datastore runs the command, loses a race of two upserts (error 11000), or fails otherwise.
pub data Reply : Type 0 where
  runs duplicate_key fails : Reply

abbrev pub put : ℕ → Option Lock → Locks → Locks
put job lock ls j = if j == job then lock else ls j

-- `acquireJobLock`
unfoldable pub acquire_job_lock : Reply → ℕ → ℕ → ℕ → Locks → Bool × Locks
acquire_job_lock runs job ttl_seconds now ls = elim (ls job) [
  | none ↦ (
    true,
    put job (some (record { acquired_at = now; expires_at = now + ttl_seconds * 1000 })) ls,
  )
  | some _ ↦ (false, ls)
]
acquire_job_lock duplicate_key job ttl_seconds now ls = (false, ls)
acquire_job_lock fails job ttl_seconds now ls = (true, ls)

-- `releaseJobLock`, whose errors are swallowed.
unfoldable pub release_job_lock : Reply → ℕ → Locks → Locks
release_job_lock runs job ls = put job none ls
release_job_lock _ job ls = ls

abbrev unless_expired : ℕ → Option Lock → Option Lock
unless_expired now none = none
unless_expired now (some l) = if leb l.expires_at now then none else some l

-- The TTL index that `ensureJobLockIndex` creates: the server deletes what has expired.
unfoldable pub purge : ℕ → Locks → Locks
purge now ls job = unless_expired now (ls job)
