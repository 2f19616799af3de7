-- ===== src/CircuitBreaker/Traces.antt =====
-- Sequences of calls: src/utils/circuitBreaker.ts.
use acbu_backend.Prelude.{ℕ, ◌+◌, ◌<◌, ◌≡◌, refl, false, some, List, [], ◌∷◌, length, map, arith}
use acbu_backend.CircuitBreaker.{
  closed, opened, Options, Breaker, can_execute, Call, execute, success, failure, query, step,
}
use acbu_backend.CircuitBreaker.Invariant.{IsValid, step-IsValid}

-- A run of calls, from the left.
unfoldable pub run : Options → Breaker → List Call → Breaker
run o b [] = b
run o b (c ∷ cs) = run o (step o b c) cs

-- From a valid breaker, such as a new one, after any calls at any times, a closed circuit is below
-- the failure threshold, a half-open one below the success threshold, and an open or half-open one
-- has a last failure, provided that both thresholds are at least one.
pub run-IsValid :
    (o : Options) (b : Breaker) (cs : List Call)
    → 0 < o.failure_threshold
    → 0 < o.success_threshold
    → IsValid o b
    → IsValid o (run o b cs)
unfolding run
run-IsValid o b [] hf hs v = v
run-IsValid o b (c ∷ cs) hf hs v = run-IsValid o (step o b c) cs hf hs (step-IsValid o b c hf hs v)

closed_failure :
    (o : Options) (b : Breaker) (t : ℕ)
    → b.state ≡ closed
    → b.failure_count + 1 < o.failure_threshold
    → ((step o b (failure t)).state ≡ closed)
      × ((step o b (failure t)).failure_count ≡ b.failure_count + 1)
unfolding step
closed_failure o b t s h = ground arith

closed_last_failure :
    (o : Options) (b : Breaker) (t : ℕ)
    → b.state ≡ closed
    → b.failure_count + 1 ≡ o.failure_threshold
    → ((step o b (failure t)).state ≡ opened) × ((step o b (failure t)).last_failure_time ≡ some t)
unfolding step
closed_last_failure o b t s h = ground arith

-- A closed circuit that is `k + 1` failures short of its threshold is open after `k + 1` failures in
-- a row, at whatever times, and after the first `k` of them it is still closed.
pub failures_open :
    (o : Options) (b : Breaker) (ts : List ℕ) (t : ℕ)
    → b.state ≡ closed
    → b.failure_count + length ts + 1 ≡ o.failure_threshold
    → ((run o b (map failure ts)).state ≡ closed)
      × ((run o (run o b (map failure ts)) (failure t ∷ [])).state ≡ opened)
unfolding run
failures_open o b [] t s h = (s, (closed_last_failure o b t s (omega arith)).0)
failures_open o b (u ∷ ts) t s h =
    let (s', n) = closed_failure o b u s (omega arith) in
    failures_open o (step o b (failure u)) ts t s' (omega arith)

-- The calls that a client makes while it only asks: `canExecute` and `getState`, at times before
-- `limit`.
abbrev pub AsksBefore : ℕ → List Call → Type 0
AsksBefore limit [] = Unit
AsksBefore limit (execute now ∷ cs) = (now < limit) × AsksBefore limit cs
AsksBefore limit (query now ∷ cs) = (now < limit) × AsksBefore limit cs
AsksBefore limit (success ∷ cs) = AsksBefore limit cs
AsksBefore limit (failure _ ∷ cs) = ⊥
AsksBefore limit (_ ∷ cs) = ⊥

open_step :
    (o : Options) (b : Breaker) (t now : ℕ)
    → b.state ≡ opened
    → b.last_failure_time ≡ some t
    → now < t + o.cooldown_ms
    → (step o b (execute now) ≡ b) × (step o b (query now) ≡ b) × (step o b success ≡ b)
unfolding step
open_step o b t now s l h = (ground arith, ground arith, ground arith)

asks_keep :
    (o : Options) (b : Breaker) (t now : ℕ) (cs : List Call)
    → b.state ≡ opened
    → b.last_failure_time ≡ some t
    → now < t + o.cooldown_ms
    → AsksBefore (t + o.cooldown_ms) cs
    → run o b cs ≡ b
unfolding run
asks_keep o b t now [] s l h a = refl
asks_keep o b t now (execute u ∷ cs) s l h a =
    rw (open_step o b t u s l a.0).0 (asks_keep o b t now cs s l h a.1)
asks_keep o b t now (query u ∷ cs) s l h a =
    rw (open_step o b t u s l a.0).1 (asks_keep o b t now cs s l h a.1)
asks_keep o b t now (success ∷ cs) s l h a =
    rw (open_step o b t now s l h).2 (asks_keep o b t now cs s l h a)
asks_keep o b t now (failure u ∷ cs) s l h a = absurd a
asks_keep o b t now (_ ∷ cs) s l h a = absurd a

refuses :
    (o : Options) (b : Breaker) (t now : ℕ)
    → b.state ≡ opened
    → b.last_failure_time ≡ some t
    → now < t + o.cooldown_ms
    → (can_execute o now b).1 ≡ false
unfolding can_execute
refuses o b t now s l h = ground arith

-- An open circuit that last failed at `t` stays as it is through all questions and late successes
-- before `t + cooldownMs`, so that `canExecute` refuses throughout that time.
pub open_until_cooldown :
    (o : Options) (b : Breaker) (t now : ℕ) (cs : List Call)
    → b.state ≡ opened
    → b.last_failure_time ≡ some t
    → now < t + o.cooldown_ms
    → AsksBefore (t + o.cooldown_ms) cs
    → (run o b cs ≡ b) × ((can_execute o now (run o b cs)).1 ≡ false)
open_until_cooldown o b t now cs s l h a =
    let kept = asks_keep o b t now cs s l h a in (kept, rw kept (refuses o b t now s l h))
