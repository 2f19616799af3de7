-- ===== src/Witnesses/Status.antt =====
-- The theorems about src/utils/transactionStateMachine.ts at concrete statuses.
use acbu_backend.Prelude.{◌≤◌, ◌≡◌, refl, true, List, [], ◌∷◌, length}
use acbu_backend.TransactionStatus.{
  Status, pending, processing, completed, assert_valid_transition, is_terminal_status,
}
use acbu_backend.TransactionStatus.Paths.{writes_bounded}

abbrev paid : List Status
paid = processing ∷ completed ∷ []

writes_bounded_example : (length paid ≤ 2) × (is_terminal_status pending ≡ true → paid ≡ [])
unfolding assert_valid_transition
writes_bounded_example = writes_bounded pending paid (refl, (refl, tt))
