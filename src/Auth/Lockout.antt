-- ===== src/Auth/Lockout.antt =====
-- Wrong passcodes lock an account: src/services/auth/authService.ts.
use acbu_backend.Prelude.{
  ℕ, ◌+◌, ◌≡◌, refl, sym, subst, ◌∙◌, ap, ◌≤◌, ◌<◌, Bool, true, false, Option, none, some, List, [],
  ◌∷◌, ==-refl, lt→ltb, arith, length,
}
use acbu_backend.Prelude.Result.{err}
use acbu_backend.Auth.Guard.{get_status}
use acbu_backend.Auth.Types.{
  Account, State, Config, Draw, SigninParams, invalid_credentials, too_many_attempts,
}
use acbu_backend.Auth.Signin.{
  Outcome, is_locked, failed_once, write, after_compare, check_passcode, check_lockout,
  resolved_account, resolved, check_guard, guarded, signin,
}

-- The guard has counted nothing.
abbrev pub NoCounts : State → Type 0
NoCounts s = (k : ℕ) → s.counters k ≡ none

-- No captcha was given, or one that is right.
abbrev pub captcha_passes : Option Bool → Bool
captcha_passes none = true
captcha_passes (some b) = b

pub NoCounts-status :
    (c : Config) (available : Bool) (now k : ℕ) (s : State)
    → NoCounts s
    → get_status c.guard available now k s.counters
      ≡ record { attempts = 0; locked = false; requires_captcha = false }
unfolding get_status
NoCounts-status c false now k s h = refl
NoCounts-status c true now k s h = rw (h k) refl

guard_passes :
    (c : Config) (d : Draw) (now : ℕ) (captcha : Option Bool)
    → captcha_passes captcha ≡ true
    → check_guard c d now
        (record { attempts = 0; locked = false; requires_captcha = false })
        captcha
      ≡ none
guard_passes c d now none h = refl
guard_passes c d now (some true) h = refl
guard_passes c d now (some false) h = ground arith

-- A sign-in that the guard lets through, with an account.
signin-account :
    (c : Config) (d : Draw) (available : Bool) (now id : ℕ) (a : Account) (q : SigninParams)
    (s : State)
    → NoCounts s
    → captcha_passes q.captcha ≡ true
    → s.index q.identifier ≡ some id
    → s.users id ≡ some a
    → signin c d now available q s ≡ check_lockout c d now id a (is_locked now a.lockout_until) q s
unfolding signin
signin-account c d available now id a q s counts captcha found there =
    ap (λ st. guarded c d now (check_guard c d now st q.captcha) q s)
      (NoCounts-status c available now q.guard_key s counts)
    ∙ ap (λ e. guarded c d now e q s) (guard_passes c d now q.captcha captcha)
    ∙ ap (λ i. resolved c d now i q s) found
    ∙ ap (λ x. resolved_account c d now id x q s) there

-- A sign-in, with its time and what it draws.
pub record Attempt : Type 0 where
  pub now : ℕ
  pub available : Bool
  pub draw : Draw
  pub params : SigninParams

abbrev pub attempt : Config → Attempt → State → Outcome
attempt c x s = signin c x.draw x.now x.available x.params s

abbrev pub attempts : Config → List Attempt → State → State
attempts c [] s = s
attempts c (x ∷ xs) s = attempts c xs (attempt c x s).1

-- Sign-ins to an account with passcodes that do not match its hash.
abbrev pub AllWrong : Config → State → ℕ → ℕ → List Attempt → Type 0
AllWrong c s id hash [] = Unit {0}
AllWrong c s id hash (x ∷ xs) =
    (s.index x.params.identifier ≡ some id)
    × (captcha_passes x.params.captcha ≡ true)
    × (c.matches x.params.passcode hash ≡ false)
    × AllWrong c s id hash xs

-- The account after failures at the times of the attempts.
abbrev pub failed_all : Config → List Attempt → Account → Account
failed_all c [] a = a
failed_all c (x ∷ xs) a = failed_all c xs (failed_once c x.now a)

wrong_attempt :
    (c : Config) (x : Attempt) (id hash : ℕ) (a : Account) (s : State)
    → NoCounts s
    → s.index x.params.identifier ≡ some id
    → captcha_passes x.params.captcha ≡ true
    → c.matches x.params.passcode hash ≡ false
    → s.users id ≡ some a
    → a.passcode_hash ≡ some hash
    → a.lockout_until ≡ none
    → attempt c x s ≡ (err invalid_credentials, write id (failed_once c x.now a) s)
wrong_attempt c x id hash a s counts found captcha wrong there hashed unlocked =
    let q = x.params in
    let r = q.issue_refresh_token in
    signin-account c x.draw x.available x.now id a q s counts captcha found there
    ∙ ap (λ l. check_lockout c x.draw x.now id a (is_locked x.now l) q s) unlocked
    ∙ ap (λ h. check_passcode c x.draw x.now id a h q s) hashed
    ∙ ap (λ b. after_compare c x.draw x.now id a b r s) wrong

AllWrong-write :
    (c : Config) (s : State) (id hash : ℕ) (a : Account) (xs : List Attempt)
    → AllWrong c s id hash xs
    → AllWrong c (write id a s) id hash xs
AllWrong-write c s id hash a [] h = tt
AllWrong-write c s id hash a (x ∷ xs) (i, k, w, rest) =
    (i, k, w, AllWrong-write c s id hash a xs rest)

-- The state after the failures: the account has them, and the index and the counters are as before.
abbrev pub Failed : Config → List Attempt → ℕ → Account → State → State → Type 0
Failed c xs id a s t =
    (t.users id ≡ some (failed_all c xs a)) × (t.index ≡ s.index) × (t.counters ≡ s.counters)

attempts-Failed :
    (c : Config) (xs : List Attempt) (id hash : ℕ) (a : Account) (s : State)
    → NoCounts s
    → s.users id ≡ some a
    → a.passcode_hash ≡ some hash
    → a.lockout_until ≡ none
    → AllWrong c s id hash xs
    → a.failed_signin_attempts + length xs ≤ c.max_signin_attempts
    → Failed c xs id a s (attempts c xs s)
attempts-Failed c [] id hash a s counts there hashed unlocked wrong few = (there, refl, refl)
attempts-Failed c (x ∷ []) id hash a s counts there hashed unlocked (i, k, w, rest) few =
    subst (λ o. Failed c (x ∷ []) id a s o.1)
      (sym (wrong_attempt c x id hash a s counts i k w there hashed unlocked))
      (rw (==-refl id) refl, refl, refl)
attempts-Failed c (x ∷ y ∷ xs) id hash a s counts there hashed unlocked (i, k, w, rest) few =
    let a' = failed_once c x.now a in
    let s' = write id a' s in
    let still : a'.lockout_until ≡ none = ground arith in
    subst (λ o. Failed c (x ∷ y ∷ xs) id a s (attempts c (y ∷ xs) o.1))
      (sym (wrong_attempt c x id hash a s counts i k w there hashed unlocked))
      (attempts-Failed c (y ∷ xs) id hash a' s' counts (rw (==-refl id) refl) hashed still
        (AllWrong-write c s id hash a' (y ∷ xs) rest) (omega (arith, few)))

abbrev pub last_time : Attempt → List Attempt → ℕ
last_time x [] = x.now
last_time x (y ∷ ys) = last_time y ys

failed_all-lockout :
    (c : Config) (x : Attempt) (xs : List Attempt) (a : Account)
    → a.failed_signin_attempts + length (x ∷ xs) ≡ c.max_signin_attempts
    → (failed_all c (x ∷ xs) a).lockout_until ≡ some (last_time x xs + c.signin_lockout_duration_ms)
failed_all-lockout c x [] a full = ground arith
failed_all-lockout c x (y ∷ ys) a full =
    failed_all-lockout c y ys (failed_once c x.now a) (omega (arith, full))

-- Wrong passcodes lock an account: when the failures of an account that is not locked come to the
-- maximum, every further sign-in to it, with the right passcode too, is refused and changes nothing,
-- until the time of the lock-out has passed since the last of them. The guard is to have counted
-- nothing, and a captcha, where one is given, is right.
pub wrong_passcodes_lock :
    (c : Config) (x : Attempt) (xs : List Attempt) (id hash : ℕ) (a : Account) (s : State)
    (y : Attempt)
    → NoCounts s
    → s.users id ≡ some a
    → a.passcode_hash ≡ some hash
    → a.lockout_until ≡ none
    → AllWrong c s id hash (x ∷ xs)
    → a.failed_signin_attempts + length (x ∷ xs) ≡ c.max_signin_attempts
    → s.index y.params.identifier ≡ some id
    → captcha_passes y.params.captcha ≡ true
    → y.now < last_time x xs + c.signin_lockout_duration_ms
    → let t = attempts c (x ∷ xs) s in attempt c y t ≡ (err too_many_attempts, t)
wrong_passcodes_lock c x xs id hash a s y counts there hashed unlocked wrong full found captcha
      soon =
    let t = attempts c (x ∷ xs) s in
    let (users, index, counters) =
      attempts-Failed c (x ∷ xs) id hash a s counts there hashed unlocked wrong
        (omega (arith, full)) in
    let b = failed_all c (x ∷ xs) a in
    let now = y.now in
    signin-account c y.draw y.available now id b y.params t
      (λ k. ap (λ cs. cs k) counters ∙ counts k) captcha
      (ap (λ i. i y.params.identifier) index ∙ found) users
    ∙ ap (λ l. check_lockout c y.draw now id b (is_locked now l) y.params t)
        (failed_all-lockout c x xs a full)
    ∙ ap (λ l. check_lockout c y.draw now id b l y.params t)
        (lt→ltb now (last_time x xs + c.signin_lockout_duration_ms) soon)
