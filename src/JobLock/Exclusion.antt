-- ===== src/JobLock/Exclusion.antt =====
-- Who holds a job's lock: src/utils/jobLock.ts.
use acbu_backend.Prelude.{
  ℕ, ◌+◌, ◌*◌, ◌≤◌, ◌<◌, ◌≡◌, refl, ◌≢◌, true, false, none, some, List, [], ◌∷◌, arith,
}
use acbu_backend.JobLock.{
  Lock, Locks, Reply, runs, duplicate_key, fails, acquire_job_lock, release_job_lock, purge,
}

-- What the instances and the server do, in the order in which the datastore sees it.
pub data Move : Type 0 where
  acquire : Reply → ℕ → ℕ → ℕ → Move
  release : Reply → ℕ → Move
  expire : ℕ → Move

unfoldable pub move : Move → Locks → Locks
unfolding acquire_job_lock release_job_lock purge
move (acquire r job ttl now) ls = (acquire_job_lock r job ttl now ls).1
move (release r job) ls = release_job_lock r job ls
move (expire now) ls = purge now ls

unfoldable pub run : List Move → Locks → Locks
run [] ls = ls
run (m ∷ ms) ls = run ms (move m ls)

-- No release of the job reaches the datastore, and no deletion runs at `limit` or later.
abbrev pub Held : ℕ → ℕ → List Move → Type 0
Held job limit [] = Unit
Held job limit (acquire _ _ _ _ ∷ ms) = Held job limit ms
Held job limit (release _ j ∷ ms) = (j ≢ job) × Held job limit ms
Held job limit (expire now ∷ ms) = (now < limit) × Held job limit ms

move-keeps :
    (job limit : ℕ) (l : Lock) (m : Move) (ls : Locks)
    → ls job ≡ some l
    → l.expires_at ≡ limit
    → Held job limit (m ∷ [])
    → move m ls job ≡ some l
unfolding move
move-keeps job limit l (acquire runs j ttl now) ls e x h = ground arith
move-keeps job limit l (acquire duplicate_key j ttl now) ls e x h = e
move-keeps job limit l (acquire fails j ttl now) ls e x h = e
move-keeps job limit l (release runs j) ls e x h = ground arith
move-keeps job limit l (release duplicate_key j) ls e x h = e
move-keeps job limit l (release fails j) ls e x h = e
move-keeps job limit l (expire now) ls e x h = ground arith

run-keeps :
    (job limit : ℕ) (l : Lock) (ms : List Move) (ls : Locks)
    → ls job ≡ some l
    → l.expires_at ≡ limit
    → Held job limit ms
    → run ms ls job ≡ some l
unfolding run
run-keeps job limit l [] ls e x h = e
run-keeps job limit l (acquire r j ttl now ∷ ms) ls e x h =
    run-keeps job limit l ms _ (move-keeps job limit l (acquire r j ttl now) ls e x tt) x h
run-keeps job limit l (release r j ∷ ms) ls e x h =
    run-keeps job limit l ms _ (move-keeps job limit l (release r j) ls e x (h.0, tt)) x h.1
run-keeps job limit l (expire now ∷ ms) ls e x h =
    run-keeps job limit l ms _ (move-keeps job limit l (expire now) ls e x (h.0, tt)) x h.1

blocked :
    (job ttl now : ℕ) (l : Lock) (ls : Locks)
    → ls job ≡ some l
    → (acquire_job_lock runs job ttl now ls ≡ (false, ls))
      × ((acquire_job_lock duplicate_key job ttl now ls).0 ≡ false)
unfolding acquire_job_lock
blocked job ttl now l ls e = (ground arith, refl)

claimed :
    (job ttl now : ℕ) (ls : Locks)
    → ls job ≡ none
    → let (first, ls') = acquire_job_lock runs job ttl now ls in
      (first ≡ true)
      × (ls' job ≡ some (record { acquired_at = now; expires_at = now + ttl * 1000 }))
unfolding acquire_job_lock
claimed job ttl now ls free = (ground arith, ground arith)

-- When an instance finds a job unlocked and acquires it at `now`, then every other acquisition that
-- the datastore answers fails, through any moves for any jobs, as long as nobody releases the job
-- and the server has not deleted at the lock's expiry or later.
pub job_lock_exclusive :
    (job ttl now ttl' later : ℕ) (ms : List Move) (ls : Locks)
    → ls job ≡ none
    → Held job (now + ttl * 1000) ms
    → let (first, ls') = acquire_job_lock runs job ttl now ls in
      (first ≡ true)
      × (acquire_job_lock runs job ttl' later (run ms ls') ≡ (false, run ms ls'))
      × ((acquire_job_lock duplicate_key job ttl' later (run ms ls')).0 ≡ false)
job_lock_exclusive job ttl now ttl' later ms ls free h =
    let l : Lock = record { acquired_at = now; expires_at = now + ttl * 1000 } in
    let (won, written) = claimed job ttl now ls free in
    let (refused, raced) =
      blocked job ttl' later l _ (run-keeps job (now + ttl * 1000) l ms _ written refl h) in
    (won, refused, raced)

-- A release takes the lock away from whoever holds it: when a first holder's lock has expired and a
-- second instance has acquired the job, the first holder's own late release lets a third instance
-- acquire it while the second still runs.
pub late_release_unlocks :
    (job ttl now ttl' later ttl'' last : ℕ) (ls : Locks)
    → ls job ≡ none
    → now + ttl * 1000 ≤ later
    → let first = acquire_job_lock runs job ttl now ls in
      let second = acquire_job_lock runs job ttl' later (purge later first.1) in
      let third = acquire_job_lock runs job ttl'' last (release_job_lock runs job second.1) in
      (first.0 ≡ true) × (second.0 ≡ true) × (third.0 ≡ true)
unfolding acquire_job_lock release_job_lock purge
late_release_unlocks job ttl now ttl' later ttl'' last ls free late =
    (ground arith, ground arith, ground arith)
