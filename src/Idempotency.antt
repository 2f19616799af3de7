-- ===== src/Idempotency.antt =====
-- The idempotency store: src/services/idempotency/idempotencyStore.ts. The collection has one
-- document for a key at most, by its unique index, so it is a function of the key; keys are only
-- compared, so they are numbers. Times are in milliseconds. `available` says whether the datastore
-- answers; where it does not, the error propagates.
pub mod Replay
use acbu_backend.Prelude.{
  ℕ, ◌+◌, ◌*◌, Bool, true, false, Option, none, some, List, [], ◌∷◌, ◌==◌, leb, if◌then◌else◌,
}
use acbu_backend.Prelude.Result.{Result, ok, err}

pub data RecordStatus : Type 0 where
  pending resolved : RecordStatus

pub data StoreError : Type 0 where
  unavailable : StoreError

-- `DEFAULT_TTL_SECONDS`
abbrev pub default_ttl_seconds : ℕ
default_ttl_seconds = 24 * 60 * 60

-- `IdempotencyRecord`; its key is where it stands, and `none` is a record with no `result`.
pub record IdempotencyRecord (R : Type 0) : Type 0 where
  pub status : RecordStatus
  pub result : Option R
  pub created_at : ℕ
  pub expires_at : ℕ

abbrev pub Collection : Type 0 → Type 0
Collection R = ℕ → Option (IdempotencyRecord R)

module _ {R : Type 0} where
  abbrev pub put : ℕ → IdempotencyRecord R → Collection R → Collection R
  put key doc c j = if j == key then some doc else c j

  -- What `acquireIdempotencyKey` returns of the document that stood there before.
  abbrev cached : RecordStatus → Option R → Option R
  cached resolved result = result
  cached pending result = none

  -- `acquireIdempotencyKey`: one `findOneAndUpdate` that inserts if nothing is there.
  unfoldable pub acquire_idempotency_key :
      Bool → ℕ → ℕ → ℕ → Collection R → Result StoreError (Option R) × Collection R
  acquire_idempotency_key false key ttl_seconds now c = (err unavailable, c)
  acquire_idempotency_key true key ttl_seconds now c = elim (c key) [
    | none ↦ (
      ok none,
      put key
          (record {
            status = pending;
            result = none;
            created_at = now;
            expires_at = now + ttl_seconds * 1000;
          })
          c,
    )
    | some before ↦ (ok (cached before.status before.result), c)
  ]

  -- The time of creation that `$setOnInsert` leaves to an existing document.
  abbrev creation : ℕ → Option (IdempotencyRecord R) → ℕ
  creation now none = now
  creation now (some doc) = doc.created_at

  -- `resolveIdempotencyKey`: an upsert.
  unfoldable pub resolve_idempotency_key :
      Bool → ℕ → R → ℕ → ℕ → Collection R → Result StoreError (Unit {0}) × Collection R
  resolve_idempotency_key false key result ttl_seconds now c = (err unavailable, c)
  resolve_idempotency_key true key result ttl_seconds now c = (
    ok tt,
    put key
        (record {
          status = resolved;
          result = some result;
          created_at = creation now (c key);
          expires_at = now + ttl_seconds * 1000;
        })
        c,
  )

  abbrev unless_expired : ℕ → Option (IdempotencyRecord R) → Option (IdempotencyRecord R)
  unless_expired now none = none
  unless_expired now (some doc) = if leb doc.expires_at now then none else some doc

  -- The TTL index that `ensureIdempotencyIndex` creates: the server deletes what has expired.
  unfoldable pub purge : ℕ → Collection R → Collection R
  purge now c key = unless_expired now (c key)
