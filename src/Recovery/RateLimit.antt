-- ===== src/Recovery/RateLimit.antt =====
-- Limits on recovery attempts: src/services/recovery/rateLimitService.ts. Users, identifiers and
-- addresses are only compared, so they are numbers; an empty text counts as absent, as it does in the
-- source's tests. Times are in milliseconds.
pub mod Windows
use text.Mathlib.Text.{starts_with}
use Prim.Native.String.{String}
use acbu_backend.Prelude.{
  ℕ, ◌+◌, ◌-◌, ◌*◌, Bool, true, false, Option, none, some, List, [], ◌∷◌, ◌&&◌, ltb, leb, ◌==◌, not,
  if◌then◌else◌, count_where, select, length,
}

-- A row of `recovery_attempts`.
pub record Attempt : Type 0 where
  pub user_id : ℕ
  pub identifier : ℕ
  pub success : Bool
  pub reason : Option String
  pub ip : Option ℕ
  pub created_at : ℕ

-- `RATE_LIMITS`
abbrev pub identifier_max_attempts : ℕ
identifier_max_attempts = 5

abbrev pub identifier_window_ms : ℕ
identifier_window_ms = 15 * 60 * 1000

abbrev pub ip_max_attempts : ℕ
ip_max_attempts = 10

abbrev pub ip_window_ms : ℕ
ip_window_ms = 60 * 60 * 1000

abbrev pub user_max_attempts : ℕ
user_max_attempts = 3

abbrev pub user_window_ms : ℕ
user_window_ms = 24 * 60 * 60 * 1000

pub data Refusal : Type 0 where
  too_many_for_identifier too_many_from_ip too_many_for_account : Refusal

-- `RecoveryRateLimitResult`
pub record RateLimitResult : Type 0 where
  pub allowed : Bool
  pub remaining_attempts : ℕ
  pub reset_time : Option ℕ
  pub reason : Option Refusal

abbrev reason_starts : String → Option String → Bool
reason_starts prefix none = false
reason_starts prefix (some r) = starts_with r prefix

-- `attemptFilter`
abbrev pub attempt_filter : Option String → Attempt → Bool
attempt_filter none a = true
attempt_filter (some prefix) a = reason_starts prefix a.reason

-- `createdAt: { gte: now - windowMs }`, with the window on the other side.
abbrev pub recent : ℕ → ℕ → Attempt → Bool
recent now window_ms a = leb now (a.created_at + window_ms)

abbrev has_ip : ℕ → Option ℕ → Bool
has_ip i none = false
has_ip i (some j) = j == i

-- The three count queries.
abbrev pub identifier_attempts : Option String → ℕ → ℕ → List Attempt → ℕ
identifier_attempts prefix now identifier = count_where (λ a.
    a.identifier == identifier && recent now identifier_window_ms a && attempt_filter prefix a)

abbrev pub ip_attempts : Option String → ℕ → ℕ → List Attempt → ℕ
ip_attempts prefix now ip =
    count_where (λ a. has_ip ip a.ip && recent now ip_window_ms a && attempt_filter prefix a)

abbrev pub user_attempts : Option String → ℕ → ℕ → List Attempt → ℕ
user_attempts prefix now user_id =
    count_where
      (λ a. a.user_id == user_id && recent now user_window_ms a && attempt_filter prefix a)

abbrev refuse : ℕ → Refusal → RateLimitResult
refuse reset_time reason = record {
  allowed = false;
  remaining_attempts = 0;
  reset_time = some reset_time;
  reason = some reason;
}

-- The checks that stand under `if (ip)` and `if (userId)`.
abbrev ip_exceeded : Option String → ℕ → Option ℕ → List Attempt → Bool
ip_exceeded prefix now none rows = false
ip_exceeded prefix now (some ip) rows = leb ip_max_attempts (ip_attempts prefix now ip rows)

abbrev user_exceeded : Option String → ℕ → Option ℕ → List Attempt → Bool
user_exceeded prefix now none rows = false
user_exceeded prefix now (some user_id) rows =
    leb user_max_attempts (user_attempts prefix now user_id rows)

-- `checkRecoveryRateLimit`, over the rows of the table.
unfoldable pub check_recovery_rate_limit :
    ℕ → ℕ → Option ℕ → Option ℕ → Option String → List Attempt → RateLimitResult
check_recovery_rate_limit now identifier user_id ip prefix rows =
    let attempts = identifier_attempts prefix now identifier rows in
    if leb identifier_max_attempts attempts
    then refuse (now + identifier_window_ms) too_many_for_identifier
    else if ip_exceeded prefix now ip rows
    then refuse (now + ip_window_ms) too_many_from_ip
    else if user_exceeded prefix now user_id rows
    then refuse (now + user_window_ms) too_many_for_account
    else record {
      allowed = true;
      remaining_attempts = identifier_max_attempts - attempts;
      reset_time = none;
      reason = none;
    }

-- `recordRecoveryAttempt`; the newest row is in front.
unfoldable pub record_recovery_attempt :
    ℕ → ℕ → ℕ → Bool → Option String → Option ℕ → List Attempt → List Attempt
record_recovery_attempt now user_id identifier success reason ip rows =
    record {
      user_id = user_id;
      identifier = identifier;
      success = success;
      reason = reason;
      ip = ip;
      created_at = now;
    }
    ∷ rows

-- `cleanupOldRecoveryAttempts`
unfoldable pub cleanup_old_recovery_attempts : ℕ → List Attempt → List Attempt
cleanup_old_recovery_attempts now =
    select (λ a. not (ltb (a.created_at + 30 * 24 * 60 * 60 * 1000) now))
