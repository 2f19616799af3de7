-- ===== src/DenyList/SingleUse.antt =====
-- How often a challenge token can be used: src/utils/jtiDenyList.ts.
use acbu_backend.Prelude.{
  ℕ, ◌+◌, ◌*◌, ◌≤◌, ◌<◌, ◌≡◌, refl, inl, inr, Bool, true, false, List, [], ◌∷◌, ◌&&◌, not, leb,
  ◌==◌, any, select, arith, Bool-cases,
}
use acbu_backend.DenyList.{
  Key, DenyList, ttl_seconds, set_key, key_exists, has_mirror, prune_expired, revoke_jti,
  consume_jti, is_jti_revoked,
}

-- A call of one of the operations by an instance: whether Redis answers, the instance, the time, the
-- token and its expiry.
pub data Call : Type 0 where
  revoke consume : Bool → ℕ → ℕ → ℕ → ℕ → Call
  is_revoked : Bool → ℕ → ℕ → ℕ → Call

unfoldable pub call : Call → DenyList → DenyList
unfolding revoke_jti consume_jti is_jti_revoked
call (revoke r i now j exp) d = revoke_jti r i now j exp d
call (consume r i now j exp) d = (consume_jti r i now j exp d).1
call (is_revoked r i now j) d = (is_jti_revoked r i now j d).1

unfoldable pub run : List Call → DenyList → DenyList
run [] d = d
run (c ∷ cs) d = run cs (call c d)

-- Every call that names the token names an expiry of at least `exp`.
abbrev pub SameExpiry : ℕ → ℕ → Call → Type 0
SameExpiry j exp (revoke _ _ _ k e) = k ≡ j → exp ≤ e
SameExpiry j exp (consume _ _ _ k e) = k ≡ j → exp ≤ e
SameExpiry j exp (is_revoked _ _ _ _) = Unit

abbrev pub AllSameExpiry : ℕ → ℕ → List Call → Type 0
AllSameExpiry j exp [] = Unit
AllSameExpiry j exp (c ∷ cs) = SameExpiry j exp c × AllSameExpiry j exp cs

-- Redis has the token's key until `at` at least.
abbrev in_redis : ℕ → ℕ → List Key → Bool
in_redis j at = any (λ k. k.jti == j && leb at k.until)

ttl-covers : (exp now : ℕ) → exp * 1000 ≤ now + ttl_seconds exp now * 1000
ttl-covers exp now = ground arith

select-in_redis :
    (j k at : ℕ) (ks : List Key)
    → k == j ≡ false
    → in_redis j at ks ≡ true
    → in_redis j at (select (λ x. not (x.jti == k)) ks) ≡ true
select-in_redis j k at [] n h = h
select-in_redis j k at (x ∷ ks) n h = ground (arith, select-in_redis j k at ks n)

set_key-in_redis :
    (j k at until : ℕ) (ks : List Key)
    → (k ≡ j → at ≤ until)
    → in_redis j at ks ≡ true
    → in_redis j at (set_key k until ks) ≡ true
set_key-in_redis j k at until ks later h = elim (Bool-cases (k == j)) [
  | inl e ↦ ground (arith, later)
  | inr n ↦ ground (arith, select-in_redis j k at ks n h)
]

in_redis-exists :
    (j at now : ℕ) (ks : List Key) → now < at → in_redis j at ks ≡ true → key_exists now j ks ≡ true
in_redis-exists j at now [] b h = h
in_redis-exists j at now (x ∷ ks) b h = ground (arith, in_redis-exists j at now ks b)

stays_in_redis :
    (j exp : ℕ) (c : Call) (d : DenyList)
    → SameExpiry j exp c
    → in_redis j (exp * 1000) d.redis ≡ true
    → in_redis j (exp * 1000) (call c d).redis ≡ true
unfolding call consume_jti revoke_jti is_jti_revoked
stays_in_redis j exp (revoke true i now k e) d s h =
    set_key-in_redis j k (exp * 1000) _ d.redis (λ p. omega (arith, s p, ttl-covers e now)) h
stays_in_redis j exp (revoke false i now k e) d s h = h
stays_in_redis j exp (is_revoked r i now k) d s h = h
stays_in_redis j exp (consume r i now k e) d s h =
    let written =
      set_key-in_redis j k (exp * 1000) (now + ttl_seconds e now * 1000) d.redis
        (λ p. omega (arith, s p, ttl-covers e now)) h in
    elim (Bool-cases (has_mirror i k (prune_expired i now d.mirrors))) [
      | inl m ↦ rw (call, m) h
      | inr n ↦ elim (Bool-cases r) [
        | inr f ↦ rw (call, n, f) h
        | inl t ↦ elim (Bool-cases (key_exists now k d.redis)) [
          | inl x ↦ rw (call, n, t, x) h
          | inr m ↦ rw (call, n, t, m) written
        ]
      ]
    ]

run-in_redis :
    (j exp : ℕ) (cs : List Call) (d : DenyList)
    → AllSameExpiry j exp cs
    → in_redis j (exp * 1000) d.redis ≡ true
    → in_redis j (exp * 1000) (run cs d).redis ≡ true
unfolding run
run-in_redis j exp [] d s h = h
run-in_redis j exp (c ∷ cs) d s h =
    run-in_redis j exp cs (call c d) s.1 (stays_in_redis j exp c d s.0 h)

claimed_in_redis :
    (i now j exp : ℕ) (d : DenyList)
    → (consume_jti true i now j exp d).0 ≡ true
    → in_redis j (exp * 1000) (consume_jti true i now j exp d).1.redis ≡ true
unfolding consume_jti
claimed_in_redis i now j exp d h =
    elim (Bool-cases (has_mirror i j (prune_expired i now d.mirrors))) [
      | inl e ↦ ground arith
      | inr n ↦ elim (Bool-cases (key_exists now j d.redis)) [
        | inl e ↦ ground arith
        | inr m ↦ rw (n, m) (ground (arith, ttl-covers exp now))
      ]
    ]

refused_by_redis :
    (i now j exp exp' : ℕ) (d : DenyList)
    → now < exp * 1000
    → in_redis j (exp * 1000) d.redis ≡ true
    → (consume_jti true i now j exp' d).0 ≡ false
unfolding consume_jti
refused_by_redis i now j exp exp' d b h =
    let e = in_redis-exists j (exp * 1000) now d.redis b h in
    elim (Bool-cases (has_mirror i j (prune_expired i now d.mirrors))) [
      | inl f ↦ rw f refl
      | inr n ↦ rw (n, e) refl
    ]

-- A token that an instance has consumed while Redis answers is consumed by no instance again before
-- it expires, while Redis answers that instance, whatever calls came in between, answered or not,
-- for any tokens, which name an expiry of that token no earlier than its own.
pub consumed_once :
    (i k now later j exp exp' : ℕ) (cs : List Call) (d : DenyList)
    → (consume_jti true i now j exp d).0 ≡ true
    → AllSameExpiry j exp cs
    → later < exp * 1000
    → (consume_jti true k later j exp' (run cs (consume_jti true i now j exp d).1)).0 ≡ false
consumed_once i k now later j exp exp' cs d h s b =
    refused_by_redis k later j exp exp' _ b
      (run-in_redis j exp cs _ s (claimed_in_redis i now j exp d h))

revoked_in_redis :
    (i now j exp : ℕ) (d : DenyList)
    → in_redis j (exp * 1000) (revoke_jti true i now j exp d).redis ≡ true
unfolding revoke_jti
revoked_in_redis i now j exp d = ground (arith, ttl-covers exp now)

seen_as_revoked :
    (i now j exp : ℕ) (d : DenyList)
    → now < exp * 1000
    → in_redis j (exp * 1000) d.redis ≡ true
    → (is_jti_revoked true i now j d).0 ≡ true
unfolding is_jti_revoked
seen_as_revoked i now j exp d b h =
    let e = in_redis-exists j (exp * 1000) now d.redis b h in
    elim (Bool-cases (has_mirror i j (prune_expired i now d.mirrors))) [
      | inl f ↦ rw f refl
      | inr n ↦ rw (n, e) refl
    ]

-- A token that an instance revokes while Redis answers is seen as revoked and cannot be consumed, in
-- every instance that Redis answers, until it expires, whatever calls came in between that name an
-- expiry of that token no earlier than its own.
pub revoked_everywhere :
    (i k now later j exp exp' : ℕ) (cs : List Call) (d : DenyList)
    → AllSameExpiry j exp cs
    → later < exp * 1000
    → let after = run cs (revoke_jti true i now j exp d) in
      ((is_jti_revoked true k later j after).0 ≡ true)
      × ((consume_jti true k later j exp' after).0 ≡ false)
revoked_everywhere i k now later j exp exp' cs d s b =
    let kept = run-in_redis j exp cs _ s (revoked_in_redis i now j exp d) in
    (seen_as_revoked k later j exp _ b kept, refused_by_redis k later j exp exp' _ b kept)

-- While Redis does not answer, two instances can each consume the same token.
pub unreachable_consumed_twice :
    (i k now later j exp : ℕ)
    → (k == i) ≡ false
    → let (first, d) = consume_jti false i now j exp (record { redis = []; mirrors = [] }) in
      (first ≡ true) × ((consume_jti false k later j exp d).0 ≡ true)
unfolding consume_jti
unreachable_consumed_twice i k now later j exp n = (refl, ground arith)
