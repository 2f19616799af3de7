-- ===== src/CircuitBreaker/Invariant.antt =====
-- What holds of a breaker between two calls: src/utils/circuitBreaker.ts.
use acbu_backend.Prelude.{ℕ, ◌<◌, ◌≡◌, ◌≢◌, ◌⊎◌, ◌↔◌, true, false, none, arith}
use acbu_backend.CircuitBreaker.{
  closed, opened, half_open, Options, Breaker, fresh, cooled_down, can_execute, Call, step,
}

-- A closed circuit is below its failure threshold, a half-open one below its success threshold, and
-- a circuit that is not closed has seen a failure.
pub record IsValid (o : Options) (b : Breaker) : Type 0 where
  pub closed_below : b.state ≡ closed → b.failure_count < o.failure_threshold
  pub half_open_below : b.state ≡ half_open → b.success_count < o.success_threshold
  pub tripped_by_failure : (b.state ≡ closed) ⊎ (b.last_failure_time ≢ none)

pub fresh-IsValid : (o : Options) → 0 < o.failure_threshold → IsValid o fresh
fresh-IsValid o h = ground arith

-- With thresholds of at least one, every method keeps the invariant, in every state and at every
-- time.
pub step-IsValid :
    (o : Options) (b : Breaker) (c : Call)
    → 0 < o.failure_threshold
    → 0 < o.success_threshold
    → IsValid o b
    → IsValid o (step o b c)
unfolding step
step-IsValid o b c hf hs v = ground arith

-- `canExecute` refuses exactly when the circuit is open and its cooldown, counted from the last
-- failure, is not over; where it refuses it changes nothing.
pub can_execute_refuses :
    (o : Options) (now : ℕ) (b : Breaker)
    → (((can_execute o now b).1 ≡ false)
        ↔ ((b.state ≡ opened) × (cooled_down o now b.last_failure_time ≡ false)))
      × ((can_execute o now b).1 ≡ false → (can_execute o now b).0 ≡ b)
unfolding can_execute
can_execute_refuses o now b = ((λ h. ground arith, λ h. ground arith), λ h. ground arith)

-- A call of `canExecute` on a half-open circuit is always allowed and leaves no trace.
pub half_open_unlimited :
    (o : Options) (now : ℕ) (b : Breaker) → b.state ≡ half_open → can_execute o now b ≡ (b, true)
unfolding can_execute
half_open_unlimited o now b h = ground arith
