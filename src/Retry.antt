-- ===== src/Retry.antt =====
-- Retries with a growing delay: src/utils/retry.ts. The operation is a parameter, over a state of its
-- own; what `onRetry` is told and what the timer waits for is the list of the delays.
pub mod Delays
use acbu_backend.Prelude.{
  ℕ, zero, suc, ◌-◌, ◌*◌, ◌^◌, Bool, Option, none, some, List, [], ◌∷◌, leb, if◌then◌else◌, min,
}
use acbu_backend.Prelude.Result.{Result, ok, err}

pub record RetryOptions : Type 0 where
  pub attempts : ℕ
  pub initial_delay_ms : ℕ
  pub max_delay_ms : ℕ
  pub backoff_multiplier : ℕ

abbrev pub default_options : RetryOptions
default_options = record {
  attempts = 3;
  initial_delay_ms = 250;
  max_delay_ms = 4000;
  backoff_multiplier = 2;
}

abbrev pub delay_ms : RetryOptions → ℕ → ℕ
delay_ms o attempt = min (o.initial_delay_ms * o.backoff_multiplier ^ (attempt - 1)) o.max_delay_ms

-- What a call leaves: the value or what was thrown (nothing, if the operation never ran), the delays
-- waited for, the oldest first, and the state.
pub record Outcome (S E A : Type 0) : Type 0 where
  pub result : Result (Option E) A
  pub delays : List ℕ
  pub state : S

module _ {S E A : Type 0} (operation : S → Result E A × S) where
  abbrev pub delayed : ℕ → Outcome S E A → Outcome S E A
  delayed d r = record { result = r.result; delays = d ∷ r.delays; state = r.state }

  -- The loop of `retryWithBackoff`, with `left` attempts to go after this one.
  unfoldable pub attempts_from : RetryOptions → ℕ → ℕ → S → Outcome S E A
  attempts_from o attempt zero s =
      let (r, s') = operation s in
      elim r [
        | ok a ↦ record { result = ok a; delays = []; state = s' }
        | err e ↦ record { result = err (some e); delays = []; state = s' }
      ]
  attempts_from o attempt (suc left) s =
      let (r, s') = operation s in
      let rest = attempts_from o (suc attempt) left s' in
      elim r [
        | ok a ↦ record { result = ok a; delays = []; state = s' }
        | err e ↦ delayed (delay_ms o attempt) rest
      ]

  -- The loop for a number of attempts; without any, what is thrown is no error.
  abbrev pub with_attempts : RetryOptions → ℕ → S → Outcome S E A
  with_attempts o zero s = record { result = err none; delays = []; state = s }
  with_attempts o (suc left) s = attempts_from o 1 left s

  -- `retryWithBackoff`
  unfoldable pub retry_with_backoff : RetryOptions → S → Outcome S E A
  retry_with_backoff o s = with_attempts o o.attempts s
