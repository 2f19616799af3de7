-- ===== src/CircuitBreaker.antt =====
-- The circuit breaker of the shared stores: src/utils/circuitBreaker.ts. A method takes the time that
-- `Date.now()` gives it, in milliseconds, and returns the new object with its result. Log lines and
-- the state metric, whose errors are swallowed, change nothing in the object.
pub mod Invariant
pub mod Traces
use acbu_backend.Prelude.{
  ℕ, ◌+◌, Bool, true, false, Option, none, some, ◌&&◌, ltb, leb, if◌then◌else◌,
}

pub data CircuitState : Type 0 where
  closed opened half_open : CircuitState

-- `CircuitBreakerOptions`, without the name of the service, which goes to the metric alone.
pub record Options : Type 0 where
  pub failure_threshold : ℕ
  pub cooldown_ms : ℕ
  pub success_threshold : ℕ

-- `DEFAULT_OPTIONS`
abbrev pub default_options : Options
default_options = record { failure_threshold = 5; cooldown_ms = 60000; success_threshold = 2 }

-- The fields of `class CircuitBreaker`; `none` is `null`.
pub record Breaker : Type 0 where
  pub state : CircuitState
  pub failure_count : ℕ
  pub success_count : ℕ
  pub last_failure_time : Option ℕ

-- The fields as the constructor sets them.
abbrev pub fresh : Breaker
fresh = record { state = closed; failure_count = 0; success_count = 0; last_failure_time = none }

abbrev pub same_state : CircuitState → CircuitState → Bool
same_state closed closed = true
same_state opened opened = true
same_state half_open half_open = true
same_state _ _ = false

-- The counters that `transitionTo` resets on the way into a state.
abbrev enter : CircuitState → Breaker → Breaker
enter closed b = record b { state = closed; failure_count = 0; success_count = 0 }
enter half_open b = record b { state = half_open; success_count = 0 }
enter opened b = record b { state = opened }

-- `transitionTo`
unfoldable pub transition_to : CircuitState → Breaker → Breaker
transition_to new_state b = if same_state b.state new_state then b else enter new_state b

-- `this.lastFailureTime && now - this.lastFailureTime >= cooldownMs`. A time of 0 counts as unset, and
-- the difference is of integers, so the term goes to the other side.
abbrev pub cooled_down : Options → ℕ → Option ℕ → Bool
cooled_down o now none = false
cooled_down o now (some t) = ltb 0 t && leb (t + o.cooldown_ms) now

abbrev execute_in : CircuitState → Options → ℕ → Breaker → Breaker × Bool
execute_in closed o now b = (b, true)
execute_in opened o now b =
    if cooled_down o now b.last_failure_time then (enter half_open b, true) else (b, false)
execute_in half_open o now b = (b, true)

-- `canExecute`. The transition is out of the open state, so it takes place.
unfoldable pub can_execute : Options → ℕ → Breaker → Breaker × Bool
can_execute o now b = execute_in b.state o now b

abbrev success_in : CircuitState → Options → Breaker → Breaker
success_in half_open o b =
    let c = record b { success_count = b.success_count + 1 } in
    if leb o.success_threshold c.success_count then transition_to closed c else c
success_in closed o b = record b { failure_count = 0 }
success_in opened o b = b

-- `recordSuccess`
unfoldable pub record_success : Options → Breaker → Breaker
unfolding transition_to
record_success o b = success_in b.state o b

abbrev failure_in : CircuitState → Options → Breaker → Breaker
failure_in half_open o c = transition_to opened c
failure_in closed o c =
    if leb o.failure_threshold c.failure_count then transition_to opened c else c
failure_in opened o c = c

-- `recordFailure`
unfoldable pub record_failure : Options → ℕ → Breaker → Breaker
unfolding transition_to
record_failure o now b =
    failure_in b.state o
      (record b { failure_count = b.failure_count + 1; last_failure_time = some now })

-- `getState`: it may move an open circuit to half-open, as `canExecute` does.
unfoldable pub get_state : Options → ℕ → Breaker → Breaker × CircuitState
unfolding transition_to
get_state o now b =
    let c =
      if same_state b.state opened && cooled_down o now b.last_failure_time
      then transition_to half_open b
      else b in
    (c, c.state)

-- `reset`
unfoldable pub reset : Breaker → Breaker
unfolding transition_to
reset b = record (transition_to closed b) {
  failure_count = 0;
  success_count = 0;
  last_failure_time = none;
}

-- A call of a client: each carries the time at which it is made.
pub data Call : Type 0 where
  execute : ℕ → Call
  success : Call
  failure : ℕ → Call
  query : ℕ → Call
  reset_all : Call

unfoldable pub step : Options → Breaker → Call → Breaker
unfolding can_execute record_success record_failure get_state reset
step o b (execute now) = (can_execute o now b).0
step o b success = record_success o b
step o b (failure now) = record_failure o now b
step o b (query now) = (get_state o now b).0
step o b reset_all = reset b
