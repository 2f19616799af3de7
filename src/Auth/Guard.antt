-- ===== src/Auth/Guard.antt =====
-- The brute-force guard: src/utils/authBruteGuard.ts over the counters of src/utils/cache.ts. A key is
-- the number of a canonical identifier with an address; times are in milliseconds. Where the datastore
-- does not answer, a read gives nothing and a write throws; `available` says whether it answers.
pub mod Counts
use acbu_backend.Prelude.{
  ℕ, ◌+◌, ◌*◌, ◌/◌, Bool, true, false, Option, none, some, ◌==◌, ltb, leb, if◌then◌else◌,
}
use acbu_backend.Prelude.Result.{Result, ok, err}

-- A document of the cache collection, with the field `attempts`.
pub record Counter : Type 0 where
  pub attempts : ℕ
  pub expires_at : ℕ

abbrev pub Counters : Type 0
Counters = ℕ → Option Counter

pub data CacheError : Type 0 where
  unavailable : CacheError

abbrev pub put : ℕ → Option Counter → Counters → Counters
put key c cs j = if j == key then c else cs j

-- `cacheService.get`
abbrev pub unless_expired : ℕ → Option Counter → Option Counter
unless_expired now none = none
unless_expired now (some c) = if ltb now c.expires_at then some c else none

unfoldable pub get : Bool → ℕ → ℕ → Counters → Option Counter
get false now key cs = none
get true now key cs = unless_expired now (cs key)

-- What `$inc` makes of a document, or of none: one that has expired and is still there is counted on.
abbrev pub incremented : ℕ → Option Counter → ℕ
incremented amount none = amount
incremented amount (some c) = c.attempts + amount

-- `cacheService.increment`, without a cap.
unfoldable pub increment : Bool → ℕ → ℕ → ℕ → ℕ → Counters → Result CacheError ℕ × Counters
increment false now key amount ttl cs = (err unavailable, cs)
increment true now key amount ttl cs =
    let n = incremented amount (cs key) in
    (ok n, put key (some (record { attempts = n; expires_at = now + ttl })) cs)

-- `cacheService.delete`: an error is caught.
unfoldable pub delete : Bool → ℕ → Counters → Counters
delete false key cs = cs
delete true key cs = put key none cs

-- `BruteStatus`
pub record BruteStatus : Type 0 where
  pub attempts : ℕ
  pub locked : Bool
  pub requires_captcha : Bool

-- `config.auth`
pub record GuardConfig : Type 0 where
  pub brute_lockout_ms : ℕ
  pub brute_max_attempts : ℕ

-- `recordFailure`
unfoldable pub record_failure :
    GuardConfig → Bool → ℕ → ℕ → Counters → Result CacheError ℕ × Counters
unfolding increment
record_failure g available now key cs = increment available now key 1 g.brute_lockout_ms cs

abbrev pub status_of : GuardConfig → Option Counter → BruteStatus
status_of g none = record { attempts = 0; locked = false; requires_captcha = false }
status_of g (some c) = record {
  attempts = c.attempts;
  locked = leb g.brute_max_attempts c.attempts;
  requires_captcha = leb ((g.brute_max_attempts + 1) / 2) c.attempts;
}

-- `getStatus`
unfoldable pub get_status : GuardConfig → Bool → ℕ → ℕ → Counters → BruteStatus
unfolding get
get_status g available now key cs = status_of g (get available now key cs)

-- `reset`
unfoldable pub reset : Bool → ℕ → Counters → Counters
unfolding delete
reset available key cs = delete available key cs
