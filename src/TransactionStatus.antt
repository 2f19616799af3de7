-- ===== src/TransactionStatus.antt =====
-- The life of a transaction row: src/utils/transactionStateMachine.ts.
pub mod Paths
use acbu_backend.Prelude.{Bool, true, false, Option, none, some, List, [], ◌∷◌, any, ◌==◌, length}
use acbu_backend.Prelude.Result.{Result, ok, err, guard, ◌>>=◌}

-- `TransactionStatus`
pub data Status : Type 0 where
  pending processing completed failed refunded : Status

pub data TransitionError : Type 0 where
  unknown_source invalid_transition : TransitionError

-- `===` on two statuses.
abbrev pub same : Status → Status → Bool
same pending pending = true
same processing processing = true
same completed completed = true
same failed failed = true
same refunded refunded = true
same _ _ = false

-- `ALLOWED_TRANSITIONS[from]`. A record with a row for each status: no lookup is `undefined`.
unfoldable pub allowed_transitions : Status → Option (List Status)
allowed_transitions pending = some (processing ∷ failed ∷ [])
allowed_transitions processing = some (completed ∷ failed ∷ [])
allowed_transitions completed = some []
allowed_transitions failed = some []
allowed_transitions refunded = some []

-- `assertValidTransition`: 422 with no row for the source, 409 where the row lacks the target.
unfoldable pub assert_valid_transition : Status → Status → Result TransitionError (Unit {0})
unfolding allowed_transitions
assert_valid_transition from to = elim (allowed_transitions from) [
  | none ↦ err unknown_source
  | some allowed ↦ guard (any (same to) allowed) invalid_transition
]

-- `isTerminalStatus`: `?.` gives `undefined`, which is not 0, where there is no row.
unfoldable pub is_terminal_status : Status → Bool
unfolding allowed_transitions
is_terminal_status status = elim (allowed_transitions status) [
  | none ↦ false
  | some allowed ↦ length allowed == 0
]
