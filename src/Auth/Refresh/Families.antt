-- ===== src/Auth/Refresh/Families.antt =====
-- What a rotation leaves of the old token: src/services/auth/authService.ts.
use acbu_backend.Prelude.{
  ℕ, ◌≡◌, refl, ◌≤◌, inl, inr, Bool, true, false, Option, none, some, List, [], ◌∷◌, ◌==◌, ==-refl,
  ◌&&◌, arith, Bool-cases, any, count_where,
}
use acbu_backend.Prelude.Result.{ok}
use acbu_backend.Auth.Refresh.{
  RefreshToken, Store, issue_refresh_token, is_usable, is_active, find_token, revoke_family,
  replaced, revoked, rotate, refresh_access_token, withdraw, revoke_refresh_token,
}

-- An update that revokes what it is applied to.
abbrev pub Revokes : (RefreshToken → RefreshToken) → Type 0
Revokes g = (h : ℕ) (x : RefreshToken) → is_active h (g x) ≡ false

and-false : (b : Bool) → b && false ≡ false
and-false true = refl
and-false false = refl

replaced-Revokes : (now hash : ℕ) → Revokes (replaced now hash)
replaced-Revokes now hash h x = and-false (x.token_hash == h)

revoked-Revokes : (now : ℕ) → Revokes (revoked now)
revoked-Revokes now h x = and-false (x.token_hash == h)

-- Revoking a family makes no token active.
inactive_stays :
    (h f : ℕ) (g : RefreshToken → RefreshToken) (ts : List RefreshToken)
    → Revokes g
    → any (is_active h) ts ≡ false
    → any (is_active h) (revoke_family f g ts) ≡ false
inactive_stays h f g [] revokes none_active = refl
inactive_stays h f g (x ∷ ts) revokes none_active =
    ground (arith, revokes h x, inactive_stays h f g ts revokes)

absent_inactive :
    (h : ℕ) (ts : List RefreshToken)
    → count_where (λ t. t.token_hash == h) ts ≡ 0
    → any (is_active h) ts ≡ false
absent_inactive h [] none_there = refl
absent_inactive h (x ∷ ts) none_there = ground (arith, absent_inactive h ts)

found_present :
    (h : ℕ) (p : RefreshToken → Bool) (t : RefreshToken) (ts : List RefreshToken)
    → ((x : RefreshToken) → p x ≡ true → is_active h x ≡ true)
    → find_token p ts ≡ some t
    → 1 ≤ count_where (λ t. t.token_hash == h) ts
found_present h p t [] implies found = ground arith
found_present h p t (x ∷ ts) implies found = elim (Bool-cases (p x)) [
  | inl yes_p ↦ let active = implies x yes_p in ground arith
  | inr no_p ↦ let rest = found_present h p t ts implies (ground arith) in ground arith
]

-- The hash is active in no row once its family is revoked.
revoked_inactive :
    (h : ℕ) (p : RefreshToken → Bool) (t : RefreshToken) (g : RefreshToken → RefreshToken)
    (ts : List RefreshToken)
    → Revokes g
    → ((x : RefreshToken) → p x ≡ true → is_active h x ≡ true)
    → count_where (λ t. t.token_hash == h) ts ≤ 1
    → find_token p ts ≡ some t
    → any (is_active h) (revoke_family t.token_family_id g ts) ≡ false
revoked_inactive h p t g [] revokes implies one found = ground arith
revoked_inactive h p t g (x ∷ ts) revokes implies one found = elim (Bool-cases (p x)) [
  | inl yes_p ↦
      let here : x ≡ t = ground arith in
      let active = implies x yes_p in
      let rest_inactive = absent_inactive h ts (ground arith) in
      let rest = inactive_stays h t.token_family_id g ts revokes rest_inactive in
      let same : x.token_family_id == t.token_family_id ≡ true =
        rw here (==-refl t.token_family_id) in
      ground (arith, revokes h x)
  | inr no_p ↦
      let found' : find_token p ts ≡ some t = ground arith in
      let there = found_present h p t ts implies found' in
      let rest = revoked_inactive h p t g ts revokes implies (ground arith) found' in
      let other : x.token_hash == h ≡ false = ground arith in ground (arith, revokes h x)
]

-- One of the three operations, with what it draws at random.
pub data Op : Type 0 where
  issue : (now user_id hash family : ℕ) → Op
  refresh : (now hash new_hash new_family key : ℕ) → Op
  revoke : (now hash : ℕ) → Op

abbrev pub step : Op → Store → Store
step (issue now user_id hash family) s = issue_refresh_token now user_id hash family s
step (refresh now hash new_hash new_family key) s =
    (refresh_access_token now hash new_hash new_family key s).1
step (revoke now hash) s = (revoke_refresh_token now hash s).1

abbrev pub run : List Op → Store → Store
run [] s = s
run (o ∷ os) s = run os (step o s)

-- No operation draws the hash `h` again.
abbrev pub Avoids : ℕ → List Op → Type 0
Avoids h [] = Unit {0}
Avoids h (issue now user_id hash family ∷ os) = (hash == h ≡ false) × Avoids h os
Avoids h (refresh now hash new_hash new_family key ∷ os) = (new_hash == h ≡ false) × Avoids h os
Avoids h (revoke now hash ∷ os) = Avoids h os

rotate-inactive :
    (h now hash new_hash new_family key : ℕ) (found : Option RefreshToken) (s : Store)
    → new_hash == h ≡ false
    → any (is_active h) s.tokens ≡ false
    → any (is_active h) (rotate now hash new_hash new_family key found s).1.tokens ≡ false
rotate-inactive h now hash new_hash new_family key none s other dead = dead
rotate-inactive h now hash new_hash new_family key (some t) s other dead = rw other (
    inactive_stays h t.token_family_id (replaced now hash) s.tokens (replaced-Revokes now hash)
      dead)

withdraw-inactive :
    (h now : ℕ) (found : Option RefreshToken) (s : Store)
    → any (is_active h) s.tokens ≡ false
    → any (is_active h) (withdraw now found s).1.tokens ≡ false
withdraw-inactive h now none s dead = dead
withdraw-inactive h now (some t) s dead =
    inactive_stays h t.token_family_id (revoked now) s.tokens (revoked-Revokes now) dead

pub run-inactive :
    (h : ℕ) (os : List Op) (s : Store)
    → Avoids h os
    → any (is_active h) s.tokens ≡ false
    → any (is_active h) (run os s).tokens ≡ false
unfolding issue_refresh_token refresh_access_token revoke_refresh_token
run-inactive h [] s avoids dead = dead
run-inactive h (issue now user_id hash family ∷ os) s (other, avoids) dead =
    run-inactive h os (issue_refresh_token now user_id hash family s) avoids (rw other dead)
run-inactive h (refresh now hash new_hash new_family key ∷ os) s (other, avoids) dead =
    run-inactive h os (refresh_access_token now hash new_hash new_family key s).1 avoids (
      rotate-inactive h now hash new_hash new_family key (find_token (is_usable now hash) s.tokens)
        s other dead)
run-inactive h (revoke now hash ∷ os) s avoids dead =
    run-inactive h os (revoke_refresh_token now hash s).1 avoids
      (withdraw-inactive h now (find_token (is_active hash) s.tokens) s dead)

-- A token that is active in no row is refused.
pub find-inactive :
    (h : ℕ) (p : RefreshToken → Bool) (ts : List RefreshToken)
    → ((x : RefreshToken) → p x ≡ true → is_active h x ≡ true)
    → any (is_active h) ts ≡ false
    → find_token p ts ≡ none
find-inactive h p [] implies dead = refl
find-inactive h p (x ∷ ts) implies dead = elim (Bool-cases (p x)) [
  | inl yes_p ↦ let active = implies x yes_p in ground arith
  | inr no_p ↦ let rest = find-inactive h p ts implies (ground arith) in ground arith
]

pub usable-active : (now h : ℕ) (x : RefreshToken) → is_usable now h x ≡ true → is_active h x ≡ true
usable-active now h x usable = ground arith

-- The hash that a refresh has used is active in no row.
pub refreshed-inactive :
    (now h new_hash new_family key : ℕ) (s : Store) (out : ℕ × ℕ)
    → count_where (λ t. t.token_hash == h) s.tokens ≤ 1
    → new_hash == h ≡ false
    → (refresh_access_token now h new_hash new_family key s).0 ≡ ok out
    → any (is_active h) (refresh_access_token now h new_hash new_family key s).1.tokens ≡ false
unfolding refresh_access_token
refreshed-inactive now h new_hash new_family key s out one other done =
    go (find_token (is_usable now h) s.tokens) refl done
  where
    go :
        (found : Option RefreshToken)
        → find_token (is_usable now h) s.tokens ≡ found
        → (rotate now h new_hash new_family key found s).0 ≡ ok out
        → any (is_active h) (rotate now h new_hash new_family key found s).1.tokens ≡ false
    go none e d = ground arith
    go (some t) e d = rw other (
        revoked_inactive h (is_usable now h) t (replaced now h) s.tokens (replaced-Revokes now h)
          (usable-active now h) one e)
