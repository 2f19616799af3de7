-- ===== src/Auth/Guard/Counts.antt =====
-- What the recorded failures do: src/utils/authBruteGuard.ts.
use acbu_backend.Prelude.{
  ℕ, suc, ◌+◌, ◌≡◌, ◌<◌, refl, ◌∙◌, ap, ◌≤◌, true, Option, none, some, List, [], ◌∷◌, ◌*◌, ◌↔◌,
  ==-refl, lt→ltb, if◌then◌else◌, arith, length,
}
use acbu_backend.Auth.Guard.{
  Counter, Counters, GuardConfig, record_failure, get_status, reset, incremented, status_of,
  unless_expired,
}

-- Failures for a key, at their times.
abbrev pub fail_all : GuardConfig → ℕ → List ℕ → Counters → Counters
fail_all g key [] cs = cs
fail_all g key (now ∷ times) cs = fail_all g key times (record_failure g true now key cs).1

-- The last of the times.
abbrev pub last_of : ℕ → List ℕ → ℕ
last_of t [] = t
last_of t (u ∷ us) = last_of u us

-- The counter after a failure that is followed by as many as `n` others.
abbrev counted : GuardConfig → ℕ → ℕ → Option Counter → Counter
counted g n last before = record {
  attempts = incremented (suc n) before;
  expires_at = last + g.brute_lockout_ms;
}

counted-again :
    (g : GuardConfig) (n last now : ℕ) (before : Option Counter)
    → counted g n last (some (counted g 0 now before)) ≡ counted g (suc n) last before
counted-again g n last now none =
    ap (λ a. record { attempts = a; expires_at = last + g.brute_lockout_ms }) (omega arith)
counted-again g n last now (some c) =
    ap (λ a. record { attempts = a; expires_at = last + g.brute_lockout_ms }) (omega arith)

one_counter :
    (g : GuardConfig) (key now : ℕ) (cs : Counters)
    → (record_failure g true now key cs).1 key ≡ some (counted g 0 now (cs key))
unfolding record_failure
one_counter g key now cs = rw (==-refl key) refl

fail_all-counter :
    (g : GuardConfig) (key first : ℕ) (times : List ℕ) (cs : Counters)
    → fail_all g key (first ∷ times) cs key
      ≡ some (counted g (length times) (last_of first times) (cs key))
fail_all-counter g key first [] cs = one_counter g key first cs
fail_all-counter g key first (t ∷ times) cs =
    fail_all-counter g key t times (record_failure g true first key cs).1
    ∙ ap (λ c. some (counted g (length times) (last_of t times) c)) (one_counter g key first cs)
    ∙ ap some (counted-again g (length times) (last_of t times) first (cs key))

live_status :
    (g : GuardConfig) (now key : ℕ) (cs : Counters) (c : Counter)
    → cs key ≡ some c
    → now < c.expires_at
    → get_status g true now key cs ≡ status_of g (some c)
unfolding get_status
live_status g now key cs c e h =
    ap (λ o. status_of g (unless_expired now o)) e
    ∙ ap (λ b. status_of g (if b then some c else none)) (lt→ltb now c.expires_at h)

reset_status :
    (g : GuardConfig) (now key : ℕ) (cs : Counters)
    → get_status g true now key (reset true key cs) ≡ status_of g none
unfolding get_status reset
reset_status g now key cs = rw (==-refl key) refl

-- Failures for a key that has no counter lock it exactly when they are as many as the limit, and ask
-- for a captcha exactly when they are at least half of it, until the time of the lock-out has passed
-- since the last of them; a reset forgets them.
pub failures_lock :
    (g : GuardConfig) (key first now : ℕ) (times : List ℕ) (cs : Counters)
    → cs key ≡ none
    → now < last_of first times + g.brute_lockout_ms
    → let after = fail_all g key (first ∷ times) cs in
      let status = get_status g true now key after in
      (status.attempts ≡ length (first ∷ times))
      × ((status.locked ≡ true) ↔ (g.brute_max_attempts ≤ length (first ∷ times)))
      × ((status.requires_captcha ≡ true) ↔ (g.brute_max_attempts ≤ 2 * length (first ∷ times)))
      × (get_status g true now key (reset true key after) ≡ status_of g none)
failures_lock g key first now times cs empty h =
    let after = fail_all g key (first ∷ times) cs in
    let c = counted g (length times) (last_of first times) none in
    let there : after key ≡ some c =
      fail_all-counter g key first times cs
      ∙ ap (λ o. some (counted g (length times) (last_of first times) o)) empty in
    rw (live_status g now key after c there h) (
      refl,
      (λ l. ground arith, λ l. ground arith),
      (λ l. ground arith, λ l. ground arith),
      reset_status g now key after,
    )
