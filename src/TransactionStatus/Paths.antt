-- ===== src/TransactionStatus/Paths.antt =====
-- The table of src/utils/transactionStateMachine.ts as a relation, and what a row can go through.
use acbu_backend.Prelude.{ℕ, suc, ◌+◌, ◌≤◌, ◌≡◌, refl, ◌↔◌, ◌⊎◌, true, arith, List, [], ◌∷◌, length}
use acbu_backend.Prelude.Result.{ok, err}
use acbu_backend.TransactionStatus.{
  Status, pending, processing, completed, failed, refunded, invalid_transition,
  assert_valid_transition, is_terminal_status,
}

-- One step of a payment: it is picked up, it ends well, or it fails.
pub data Step : Status → Status → Type 0 where
  pick_up : Step pending processing
  finish : Step processing completed
  drop_pending : Step pending failed
  drop_processing : Step processing failed

-- A history of a row, with the number of its steps.
pub data History : ℕ → Status → Status → Type 0 where
  here : {s : Status} → History 0 s s
  then : {n : ℕ} {s t u : Status} → Step s t → History n t u → History (suc n) s u

accept : {s t : Status} → Step s t → assert_valid_transition s t ≡ ok tt
unfolding assert_valid_transition
accept pick_up = refl
accept finish = refl
accept drop_pending = refl
accept drop_processing = refl

Step-of_accept : (s t : Status) → assert_valid_transition s t ≡ ok tt → Step s t
unfolding assert_valid_transition
Step-of_accept pending pending h = cc
Step-of_accept pending processing h = pick_up
Step-of_accept pending completed h = cc
Step-of_accept pending failed h = drop_pending
Step-of_accept pending refunded h = cc
Step-of_accept processing pending h = cc
Step-of_accept processing processing h = cc
Step-of_accept processing completed h = finish
Step-of_accept processing failed h = drop_processing
Step-of_accept processing refunded h = cc
Step-of_accept completed t h = no_row t h
  where
    no_row : (t : Status) → assert_valid_transition completed t ≡ ok tt → Step completed t
    no_row pending h = cc
    no_row _ h = cc
Step-of_accept failed t h = no_row t h
  where
    no_row : (t : Status) → assert_valid_transition failed t ≡ ok tt → Step failed t
    no_row pending h = cc
    no_row _ h = cc
Step-of_accept refunded t h = no_row t h
  where
    no_row : (t : Status) → assert_valid_transition refunded t ≡ ok tt → Step refunded t
    no_row pending h = cc
    no_row _ h = cc

-- For every pair of statuses, the assertion passes exactly on the four steps of the relation, and in
-- every other case it throws the 409 error, never the 422 one.
pub assert_valid_transition-Step :
    (s t : Status)
    → ((assert_valid_transition s t ≡ ok tt) ↔ Step s t)
      × ((assert_valid_transition s t ≡ ok tt)
          ⊎ (assert_valid_transition s t ≡ err invalid_transition))
unfolding assert_valid_transition
assert_valid_transition-Step s t = ((Step-of_accept s t, accept), ground arith)

no-Step : {s t : Status} → is_terminal_status s ≡ true → Step s t → ⊥
unfolding is_terminal_status
no-Step h pick_up = cc
no-Step h finish = cc
no-Step h drop_pending = cc
no-Step h drop_processing = cc

-- From a status that `isTerminalStatus` reports as terminal, every history is empty.
pub terminal_stays :
    {n : ℕ} {s t : Status} → is_terminal_status s ≡ true → History n s t → (n ≡ 0) × (t ≡ s)
terminal_stays h here = (refl, refl)
terminal_stays h (then st p) = absurd (no-Step h st)

-- The steps that are left to a status at most.
abbrev pub steps_left : Status → ℕ
steps_left pending = 2
steps_left processing = 1
steps_left _ = 0

Step-left : {s t : Status} → Step s t → suc (steps_left t) ≤ steps_left s
Step-left pick_up = omega arith
Step-left finish = omega arith
Step-left drop_pending = omega arith
Step-left drop_processing = omega arith

-- Every history of a row has at most two steps, whatever status it starts in; the ones that start
-- in a terminal status have none.
pub path_bounded : {n : ℕ} {s t : Status} → History n s t → n + steps_left t ≤ steps_left s
path_bounded here = omega arith
path_bounded (then st p) = omega (arith, Step-left st, path_bounded p)

-- No history that starts in another status ends in `refunded`: the table has no way to it.
pub refunded_unreachable : {n : ℕ} {s t : Status} → History n s t → t ≡ refunded → s ≡ refunded
refunded_unreachable here e = e
refunded_unreachable (then st p) e = absurd (no_way st (refunded_unreachable p e))
  where
    no_way : {s t : Status} → Step s t → t ≡ refunded → ⊥
    no_way pick_up h = cc
    no_way finish h = cc
    no_way drop_pending h = cc
    no_way drop_processing h = cc

-- A sequence of writes of the status, each of which the assertion passes.
abbrev pub AllAccepted : Status → List Status → Type 0
AllAccepted s [] = Unit
AllAccepted s (t ∷ ts) = (assert_valid_transition s t ≡ ok tt) × AllAccepted t ts

writes_left : (s : Status) (ts : List Status) → AllAccepted s ts → length ts ≤ steps_left s
writes_left s [] h = omega arith
writes_left s (t ∷ ts) h = omega (arith, Step-left (Step-of_accept s t h.0), writes_left t ts h.1)

at_most_two : (s : Status) → steps_left s ≤ 2
at_most_two pending = omega arith
at_most_two processing = omega arith
at_most_two completed = omega arith
at_most_two failed = omega arith
at_most_two refunded = omega arith

terminal_written :
    (s : Status) (ts : List Status) → is_terminal_status s ≡ true → AllAccepted s ts → ts ≡ []
terminal_written s [] h a = refl
terminal_written s (t ∷ ts) h a = absurd (no-Step h (Step-of_accept s t a.0))

-- The assertion passes at most two writes of a row's status in a row, whatever status it starts in,
-- and none from a status that `isTerminalStatus` reports as terminal.
pub writes_bounded :
    (s : Status) (ts : List Status)
    → AllAccepted s ts
    → (length ts ≤ 2) × (is_terminal_status s ≡ true → ts ≡ [])
writes_bounded s ts h =
    (omega (arith, writes_left s ts h, at_most_two s), λ t. terminal_written s ts t h)
