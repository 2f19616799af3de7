-- ===== src/Auth/Factors.antt =====
-- When a key is handed out: src/services/auth/authService.ts.
use mathlib.Core.List.{Mem, mem-cons_self, mem-cons_of_mem}
use acbu_backend.Prelude.{
  ℕ, ◌≤◌, ◌<◌, ◌≡◌, refl, subst, sym, ◌∙◌, ap, ◌⊎◌, inl, inr, Bool, true, false, Option, none, some,
  List, [], ◌∷◌, ◌==◌, ◌&&◌, ltb, arith, Bool-cases,
}
use acbu_backend.Prelude.Result.{ok}
use acbu_backend.Auth.Types.{
  Method, totp, sms, email, unsupported, same_method, Account, OtpChallenge, State, Config, Draw,
  ChallengePayload, Verify2faParams, signed_in, Verdict, right_code, wrong_code, unanswerable,
}
use acbu_backend.Auth.Refresh.{is_unset}
use acbu_backend.Auth.Signin.{is_locked}
use acbu_backend.Auth.SecondFactor.{
  is_open, later, newest_open, against_challenge, check_code, after_code, unless_locked,
  with_method, with_account, unless_guarded, with_payload, verify_2fa,
}

later-cases :
    (c : Config) (d : Draw) (now : ℕ) (y x : OtpChallenge) (rest : Option OtpChallenge)
    → later c d now y rest ≡ some x
    → (y ≡ x) ⊎ (rest ≡ some x)
later-cases c d now y x none h = inl (ground arith)
later-cases c d now y x (some z) h = ground arith

same_method-eq : (a b : Method) → same_method a b ≡ true → a ≡ b
same_method-eq totp totp h = refl
same_method-eq sms sms h = refl
same_method-eq email email h = refl
same_method-eq unsupported unsupported h = refl
same_method-eq totp sms h = cc
same_method-eq totp email h = cc
same_method-eq totp unsupported h = cc
same_method-eq sms totp h = cc
same_method-eq sms email h = cc
same_method-eq sms unsupported h = cc
same_method-eq email totp h = cc
same_method-eq email sms h = cc
same_method-eq email unsupported h = cc
same_method-eq unsupported totp h = cc
same_method-eq unsupported sms h = cc
same_method-eq unsupported email h = cc

is_unset-none : (o : Option ℕ) → is_unset o ≡ true → o ≡ none
is_unset-none none h = refl
is_unset-none (some n) h = cc

open-parts :
    (p q r t : Bool) → (p && q && r && t) ≡ true → (p ≡ true) × (q ≡ true) × (r ≡ true) × (t ≡ true)
open-parts p q r t h = ground arith

module _ (c : Config) (d : Draw) (now : ℕ) where
  newest_open-Mem :
      (id : ℕ) (m : Method) (xs : List OtpChallenge) (x : OtpChallenge)
      → newest_open c d now id m xs ≡ some x
      → Mem x xs × (is_open c d now id m x ≡ true)
  newest_open-Mem id m [] x h = ground arith
  newest_open-Mem id m (y ∷ ys) x h = elim (Bool-cases (is_open c d now id m y)) [
    | inl opened ↦ elim (later-cases c d now y x (newest_open c d now id m ys) (ground arith)) [
      | inl here ↦ rw (sym here) (mem-cons_self, opened)
      | inr below ↦
          let (member, open_x) = newest_open-Mem id m ys x below in
          (mem-cons_of_mem y member, open_x)
    ]
    | inr closed ↦
        let (member, open_x) = newest_open-Mem id m ys x (ground arith) in
        (mem-cons_of_mem y member, open_x)
  ]

  -- A challenge of the user and the channel that is neither used nor expired.
  abbrev pub IsOpen : ℕ → Method → OtpChallenge → Type 0
  IsOpen id m x = (x.user_id ≡ id) × (x.channel ≡ m) × (now < x.expires_at) × (x.used_at ≡ none)

  opened : (id : ℕ) (m : Method) (x : OtpChallenge) → is_open c d now id m x ≡ true → IsOpen id m x
  opened id m x h =
      let (owner, channel, live, fresh) =
        open-parts (x.user_id == id) (same_method x.channel m) (ltb now x.expires_at)
          (is_unset x.used_at) h in
      (
        ground arith,
        same_method-eq x.channel m channel,
        ground arith,
        is_unset-none x.used_at fresh,
      )

  challenge-right :
      (id : ℕ) (m : Method) (code : ℕ) (xs : List OtpChallenge)
      → against_challenge c d now code (newest_open c d now id m xs) ≡ right_code
      → (x : OtpChallenge) × Mem x xs × IsOpen id m x × (c.matches code x.code_hash ≡ true)
  challenge-right id m code xs h = go (newest_open c d now id m xs) refl h
    where
      go :
          (found : Option OtpChallenge)
          → newest_open c d now id m xs ≡ found
          → against_challenge c d now code found ≡ right_code
          → (x : OtpChallenge) × Mem x xs × IsOpen id m x × (c.matches code x.code_hash ≡ true)
      go none e r = ground arith
      go (some x) e r =
          let (member, open_x) = newest_open-Mem id m xs x e in
          let right : c.matches code x.code_hash ≡ true = ground arith in
          (x, member, opened id m x open_x, right)

  -- The passcode of an account without a second factor, or the code of its second factor.
  abbrev pub Answers : ℕ → Account → Method → ℕ → List OtpChallenge → Type 0
  Answers id a totp code xs =
      (secret : ℕ) × (a.totp_secret ≡ some secret) × (c.check_totp code secret ≡ true)
  Answers id a sms code xs =
      (x : OtpChallenge) × Mem x xs × IsOpen id sms x × (c.matches code x.code_hash ≡ true)
  Answers id a email code xs =
      (x : OtpChallenge) × Mem x xs × IsOpen id email x × (c.matches code x.code_hash ≡ true)
  Answers id a unsupported code xs = Unit {0}

  check_code-Answers :
      (id code : ℕ) (a : Account) (m : Method) (xs : List OtpChallenge)
      → check_code c d now id code a m xs ≡ right_code
      → Answers id a m code xs
  check_code-Answers id code a totp xs h = ground arith
  check_code-Answers id code a sms xs h = challenge-right id sms code xs h
  check_code-Answers id code a email xs h = challenge-right id email code xs h
  check_code-Answers id code a unsupported xs h = tt

  after_code-right :
      (p : ChallengePayload) (a : Account) (refresh : Bool) (v : Verdict) (s : State) (key id : ℕ)
      → (after_code c d now p a refresh v s).0 ≡ ok (signed_in key id)
      → (v ≡ right_code) × (p.user_id ≡ id)
  after_code-right p a refresh right_code s key id h = ground arith
  after_code-right p a refresh wrong_code s key id h = ground arith
  after_code-right p a refresh (unanswerable e) s key id h = ground arith

  unlocked : (until : Option ℕ) → is_locked now until ≡ false → (t : ℕ) → until ≡ some t → t ≤ now
  unlocked none h t e = absurd (none-ne-some t e)
    where
      none-ne-some : (t : ℕ) → ◌≡◌ {A = Option ℕ} none (some t) → ⊥
      none-ne-some t e = cc
  unlocked (some u) h t e = ground arith

  -- The key that `verify2fa` issues goes to the user of the challenge token, whose account is there
  -- and not locked, and whose method the code answers: it is right for the TOTP secret, or it matches
  -- a challenge of that user and channel that is neither used nor expired; only a method that is none
  -- of TOTP, SMS and e-mail asks for no code.
  pub verify_2fa-Answers :
      (available : Bool) (q : Verify2faParams) (s : State) (key id : ℕ)
      → (verify_2fa c d now available q s).0 ≡ ok (signed_in key id)
      → (p : ChallengePayload) × (a : Account) × (m : Method) × (q.payload ≡ some p)
        × (p.user_id ≡ id)
        × (s.users id ≡ some a)
        × (a.two_fa_method ≡ some m)
        × ((t : ℕ) → a.lockout_until ≡ some t → t ≤ now)
        × Answers id a m q.code s.challenges
  unfolding verify_2fa
  verify_2fa-Answers available q s key id h = from_payload q.payload refl h
    where
      Answered : Type 0
      Answered =
          (p : ChallengePayload) × (a : Account) × (m : Method) × (q.payload ≡ some p)
          × (p.user_id ≡ id)
          × (s.users id ≡ some a)
          × (a.two_fa_method ≡ some m)
          × ((t : ℕ) → a.lockout_until ≡ some t → t ≤ now)
          × Answers id a m q.code s.challenges

      from_lock :
          (locked : Bool) (p : ChallengePayload) (a : Account) (m : Method)
          → q.payload ≡ some p
          → is_locked now a.lockout_until ≡ locked
          → s.users p.user_id ≡ some a
          → a.two_fa_method ≡ some m
          → (unless_locked c d now locked p a m q s).0 ≡ ok (signed_in key id)
          → Answered
      from_lock true p a m e l u f r = ground arith
      from_lock false p a m e l u f r =
          let (right, same) =
            after_code-right p a q.issue_refresh_token
              (check_code c d now p.user_id q.code a m s.challenges) s key id r in
          let answers = check_code-Answers p.user_id q.code a m s.challenges right in
          (
            p,
            a,
            m,
            e,
            same,
            ap s.users (sym same) ∙ u,
            f,
            unlocked a.lockout_until l,
            subst (λ i. Answers i a m q.code s.challenges) same answers,
          )

      from_method :
          (p : ChallengePayload) (a : Account) (m : Option Method)
          → q.payload ≡ some p
          → s.users p.user_id ≡ some a
          → a.two_fa_method ≡ m
          → (with_method c d now p a m q s).0 ≡ ok (signed_in key id)
          → Answered
      from_method p a none e u f r = ground arith
      from_method p a (some m) e u f r = from_lock _ p a m e refl u f r

      from_account :
          (p : ChallengePayload) (a : Option Account)
          → q.payload ≡ some p
          → s.users p.user_id ≡ a
          → (with_account c d now p a q s).0 ≡ ok (signed_in key id)
          → Answered
      from_account p none e u r = ground arith
      from_account p (some a) e u r = from_method p a a.two_fa_method e u refl r

      from_guard :
          (locked : Bool) (p : ChallengePayload)
          → q.payload ≡ some p
          → (unless_guarded c d now locked p q s).0 ≡ ok (signed_in key id)
          → Answered
      from_guard true p e r = ground arith
      from_guard false p e r = from_account p (s.users p.user_id) e refl r

      from_payload :
          (p : Option ChallengePayload)
          → q.payload ≡ p
          → (with_payload c d now available p q s).0 ≡ ok (signed_in key id)
          → Answered
      from_payload none e r = ground arith
      from_payload (some p) e r = from_guard _ p e r
