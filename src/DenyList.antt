-- ===== src/DenyList.antt =====
-- The deny-list of challenge tokens: src/utils/jtiDenyList.ts, with one Redis store that all instances
-- share and the in-process map of each instance. Token ids and instances are only compared, so they
-- are numbers; times are in milliseconds and `exp` is in seconds. Whether Redis answers in time is a
-- parameter of each call; a call that it does not answer leaves the store alone.
pub mod SingleUse
use acbu_backend.Prelude.{
  ℕ, ◌+◌, ◌-◌, ◌*◌, ◌/◌, Bool, true, false, List, [], ◌∷◌, ◌&&◌, ◌||◌, not, ltb, leb, ◌==◌,
  if◌then◌else◌, any, select,
}

-- A key of Redis, which the server forgets at `until`.
pub record Key : Type 0 where
  pub jti : ℕ
  pub until : ℕ

-- An entry of the map `localDenyList` of an instance.
pub record Mirror : Type 0 where
  pub instance_id : ℕ
  pub jti : ℕ
  pub expires_at : ℕ

pub record DenyList : Type 0 where
  pub redis : List Key
  pub mirrors : List Mirror

-- `ttlSeconds`
abbrev pub ttl_seconds : ℕ → ℕ → ℕ
ttl_seconds exp now = if ltb now (exp * 1000) then (exp * 1000 - now + 999) / 1000 else 1

-- `SET key "1" EX ttl`
abbrev pub set_key : ℕ → ℕ → List Key → List Key
set_key jti until ks = record { jti = jti; until = until } ∷ select (λ k. not (k.jti == jti)) ks

-- Whether Redis has the key at a time.
abbrev pub key_exists : ℕ → ℕ → List Key → Bool
key_exists now jti = any (λ k. k.jti == jti && ltb now k.until)

-- `localDenyList.set`
abbrev pub set_mirror : ℕ → ℕ → ℕ → List Mirror → List Mirror
set_mirror i jti expires_at ms =
    record { instance_id = i; jti = jti; expires_at = expires_at }
    ∷ select (λ m. not (m.instance_id == i && m.jti == jti)) ms

-- `localDenyList.has`
abbrev pub has_mirror : ℕ → ℕ → List Mirror → Bool
has_mirror i jti = any (λ m. m.instance_id == i && m.jti == jti)

-- `pruneExpired`, in one instance.
abbrev pub prune_expired : ℕ → ℕ → List Mirror → List Mirror
prune_expired i now = select (λ m. not (m.instance_id == i && leb m.expires_at now))

-- `revokeJti`, in instance `i`.
unfoldable pub revoke_jti : Bool → ℕ → ℕ → ℕ → ℕ → DenyList → DenyList
revoke_jti reachable i now jti exp d = record {
  redis = if reachable then set_key jti (now + ttl_seconds exp now * 1000) (d.redis) else d.redis;
  mirrors = set_mirror i jti (exp * 1000) (d.mirrors);
}

-- `consumeJti`, in instance `i`.
unfoldable pub consume_jti : Bool → ℕ → ℕ → ℕ → ℕ → DenyList → Bool × DenyList
consume_jti reachable i now jti exp d =
    let kept = prune_expired i now (d.mirrors) in
    let denied : Bool × DenyList = (false, record { redis = d.redis; mirrors = kept }) in
    let mirrors = set_mirror i jti (exp * 1000) kept in
    if has_mirror i jti kept
    then denied
    else if not reachable
    then (true, record { redis = d.redis; mirrors = mirrors })
    else if key_exists now jti (d.redis)
    then denied
    else (
      true,
      record {
        redis = set_key jti (now + ttl_seconds exp now * 1000) (d.redis);
        mirrors = mirrors;
      },
    )

-- `isJtiRevoked`, in instance `i`.
unfoldable pub is_jti_revoked : Bool → ℕ → ℕ → ℕ → DenyList → Bool × DenyList
is_jti_revoked reachable i now jti d =
    let kept = prune_expired i now (d.mirrors) in
    (
      has_mirror i jti kept || (reachable && key_exists now jti (d.redis)),
      record { redis = d.redis; mirrors = kept },
    )
