-- ===== src/Witnesses/Breaker.antt =====
-- The theorems about src/utils/circuitBreaker.ts at concrete calls.
use acbu_backend.Prelude.{ℕ, ◌≡◌, refl, false, some, List, [], ◌∷◌, arith}
use acbu_backend.CircuitBreaker.{
  opened, Breaker, fresh, default_options, can_execute, Call, execute, failure, success, query,
}
use acbu_backend.CircuitBreaker.Invariant.{IsValid, fresh-IsValid}
use acbu_backend.CircuitBreaker.Traces.{run, run-IsValid, open_until_cooldown}

abbrev open_at_1000 : Breaker
open_at_1000 = record {
  state = opened;
  failure_count = 5;
  success_count = 0;
  last_failure_time = some 1000;
}

abbrev mixed_calls : List Call
mixed_calls = execute 10 ∷ failure 20 ∷ success ∷ failure 30 ∷ query 40 ∷ []

run-IsValid_example : IsValid default_options (run default_options fresh mixed_calls)
run-IsValid_example =
    run-IsValid default_options fresh mixed_calls (omega arith) (omega arith)
      (fresh-IsValid default_options (omega arith))

abbrev four_failures : List ℕ
four_failures = 1 ∷ 2 ∷ 3 ∷ 4 ∷ []

abbrev early_calls : List Call
early_calls = execute 1500 ∷ success ∷ query 60999 ∷ []

open_until_cooldown_example :
    (run default_options open_at_1000 early_calls ≡ open_at_1000)
    × ((can_execute default_options 60000 (run default_options open_at_1000 early_calls)).1 ≡ false)
open_until_cooldown_example =
    open_until_cooldown default_options open_at_1000 1000 60000 early_calls refl refl (omega arith)
      (omega arith, (omega arith, tt))
