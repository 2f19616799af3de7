-- ===== src/Idempotency/Replay.antt =====
-- Replays of a request: src/services/idempotency/idempotencyStore.ts.
use acbu_backend.Prelude.{
  ℕ, ◌+◌, ◌*◌, ◌<◌, ◌≡◌, refl, ◌≢◌, Bool, true, false, Option, some, List, [], ◌∷◌, arith, ==-refl,
}
use acbu_backend.Prelude.Result.{ok}
use acbu_backend.Idempotency.{
  resolved, IdempotencyRecord, Collection, acquire_idempotency_key, resolve_idempotency_key, purge,
  put, creation, cached,
}

-- A call on the store, by any instance, or a run of the server's deletion.
pub data Call (R : Type 0) : Type 0 where
  acquire : Bool → ℕ → ℕ → ℕ → Call R
  resolve : Bool → ℕ → R → ℕ → ℕ → Call R
  expire : ℕ → Call R

module _ {R : Type 0} where
  unfoldable pub call : Call R → Collection R → Collection R
  unfolding acquire_idempotency_key resolve_idempotency_key purge
  call (acquire up key ttl now) c = (acquire_idempotency_key up key ttl now c).1
  call (resolve up key r ttl now) c = (resolve_idempotency_key up key r ttl now c).1
  call (expire now) c = purge now c

  unfoldable pub run : List (Call R) → Collection R → Collection R
  run [] c = c
  run (x ∷ xs) c = run xs (call x c)

  -- No call resolves `key` again, and no deletion runs at `limit` or later.
  abbrev pub Undisturbed : ℕ → ℕ → List (Call R) → Type 0
  Undisturbed key limit [] = Unit
  Undisturbed key limit (acquire _ _ _ _ ∷ xs) = Undisturbed key limit xs
  Undisturbed key limit (resolve _ j _ _ _ ∷ xs) = (j ≢ key) × Undisturbed key limit xs
  Undisturbed key limit (expire now ∷ xs) = (now < limit) × Undisturbed key limit xs

  run-keeps :
      (key limit : ℕ) (doc : IdempotencyRecord R) (xs : List (Call R)) (c : Collection R)
      → c key ≡ some doc
      → doc.expires_at ≡ limit
      → Undisturbed key limit xs
      → run xs c key ≡ some doc
  unfolding run call
  run-keeps key limit doc [] c e l u = e
  run-keeps key limit doc (acquire false j ttl now ∷ xs) c e l u =
      run-keeps key limit doc xs c e l u
  run-keeps key limit doc (acquire true j ttl now ∷ xs) c e l u =
      run-keeps key limit doc xs _ (ground (arith)) l u
  run-keeps key limit doc (resolve false j r ttl now ∷ xs) c e l u =
      run-keeps key limit doc xs c e l u.1
  run-keeps key limit doc (resolve true j r ttl now ∷ xs) c e l u =
      run-keeps key limit doc xs _ (ground arith) l u.1
  run-keeps key limit doc (expire now ∷ xs) c e l u =
      run-keeps key limit doc xs _ (ground arith) l u.1

  acquire_found :
      (key ttl now : ℕ) (doc : IdempotencyRecord R) (c : Collection R)
      → c key ≡ some doc
      → acquire_idempotency_key true key ttl now c ≡ (ok (cached doc.status doc.result), c)
  unfolding acquire_idempotency_key
  acquire_found key ttl now doc c h = ground arith

  -- Once a key is resolved at `now`, every later acquisition returns that result and leaves the
  -- store alone, through any calls for this and other keys by any instances, failed ones included,
  -- until the key is resolved again or the server deletes at its expiry or later.
  pub resolved_replays :
      (key ttl now later : ℕ) (r : R) (xs : List (Call R)) (c : Collection R)
      → Undisturbed key (now + ttl * 1000) xs
      → let c' = run xs (resolve_idempotency_key true key r ttl now c).1 in
        acquire_idempotency_key true key ttl later c' ≡ (ok (some r), c')
  unfolding resolve_idempotency_key
  resolved_replays key ttl now later r xs c u =
      let doc : IdempotencyRecord R = record {
        status = resolved;
        result = some r;
        created_at = creation now (c key);
        expires_at = now + ttl * 1000;
      } in
      let kept =
        run-keeps key (now + ttl * 1000) doc xs (put key doc c) (rw (==-refl key)) refl u in
      acquire_found key ttl later doc (run xs (put key doc c)) kept

  -- While the datastore does not answer, neither operation reports success and neither writes.
  pub unavailable_refused :
      (key ttl now : ℕ) (r : R) (c : Collection R)
      → ((acquire_idempotency_key false key ttl now c).1 ≡ c)
        × ((resolve_idempotency_key false key r ttl now c).1 ≡ c)
        × ((v : Option R) → (acquire_idempotency_key false key ttl now c).0 ≢ ok v)
        × ((resolve_idempotency_key false key r ttl now c).0 ≢ ok tt)
  unfolding acquire_idempotency_key resolve_idempotency_key
  unavailable_refused key ttl now r c = (refl, refl, λ v h. cc, λ h. cc)
