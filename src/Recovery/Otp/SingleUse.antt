-- ===== src/Recovery/Otp/SingleUse.antt =====
-- How often a code can be used: src/services/recovery/recoveryService.ts.
use acbu_backend.Prelude.{
  ℕ, ◌≡◌, refl, ap, subst, sym, ◌∙◌, inl, inr, Bool, true, false, none, some, List, [], ◌∷◌, map,
  ltb, ◌==◌, arith, Bool-cases, Option-cases,
}
use acbu_backend.Recovery.Otp.{
  ChallengePayload, OtpChallenge, Store, Faults, VerifyRecoveryOtpParams, find_challenge, names,
  usable, later, used, verify_recovery_otp,
}
use acbu_backend.Recovery.Otp.Flow.{Refused}
use acbu_backend.Recovery.Otp.Issue.{Issued, key_issued_only}

-- A challenge that the lookup finds is usable.
found-usable :
    (p : ChallengePayload) (now : ℕ) (cs : List OtpChallenge) (c : OtpChallenge)
    → find_challenge p now cs ≡ some c
    → usable p now c ≡ true
found-usable p now [] c e = ground arith
found-usable p now (d ∷ cs) c e = elim (Bool-cases (usable p now d)) [
  | inr n ↦ found-usable p now cs c (ground arith)
  | inl t ↦ elim (Option-cases (find_challenge p now cs)) [
    | inl gone ↦ let same : d ≡ c = ground arith in subst (λ x. usable p now x ≡ true) same t
    | inr (f, found) ↦ elim (Bool-cases (ltb d.created_at f.created_at)) [
      | inl l ↦ let same : f ≡ c = ground arith in found-usable p now cs c (found ∙ ap some same)
      | inr m ↦ let same : d ≡ c = ground arith in subst (λ x. usable p now x ≡ true) same t
    ]
  ]
]

used-not_usable :
    (p : ChallengePayload) (i now later : ℕ) (c : OtpChallenge)
    → p.otp_challenge_id ≡ some i
    → usable p later (used i now c) ≡ false
used-not_usable p i now later c e = elim (Bool-cases (c.id == i)) [
  | inl t ↦ rw (t, e) (ground arith)
  | inr n ↦ rw (n, e) (ground arith)
]

used-not_found :
    (p : ChallengePayload) (i now later : ℕ) (cs : List OtpChallenge)
    → p.otp_challenge_id ≡ some i
    → find_challenge p later (map (used i now) cs) ≡ none
used-not_found p i now later [] e = refl
used-not_found p i now later (c ∷ cs) e =
    rw (used-not_usable p i now later c e) (used-not_found p i now later cs e)

usable-id :
    (p : ChallengePayload) (i now : ℕ) (c : OtpChallenge)
    → p.otp_challenge_id ≡ some i
    → usable p now c ≡ true
    → c.id ≡ i
usable-id p i now c e h =
    let at : (names p.otp_challenge_id c.id) ≡ true = ground arith in
    let named : c.id == i ≡ true = subst (λ o. names o c.id ≡ true) e at in ground arith

module _ (matches : ℕ → ℕ → Bool) where
  not_issued :
      (faults : Faults) (now : ℕ) (q : VerifyRecoveryOtpParams) (api_key : ℕ) (p : ChallengePayload)
      (s : Store)
      → q.token ≡ some p
      → find_challenge p now s.challenges ≡ none
      → Refused s (verify_recovery_otp matches faults now q api_key s)
  not_issued faults now q api_key p s e gone =
      elim (key_issued_only matches faults now q api_key s) [
        | inl refused ↦ refused
        | inr (inl issued) ↦
            nothing_found issued.payload issued.challenge issued.token_decodes issued.found
        | inr (inr cut) ↦ nothing_found cut.payload cut.challenge cut.token_decodes cut.found
      ]
    where
      some_injective : {x y : ChallengePayload} → some x ≡ some y → x ≡ y
      some_injective h = ground arith

      clash : {x : OtpChallenge} → none ≡ some x → ⊥
      clash h = ground arith

      nothing_found :
          {A : Type 0} (p' : ChallengePayload) (c : OtpChallenge)
          → q.token ≡ some p'
          → find_challenge p' now s.challenges ≡ some c
          → A
      nothing_found p' c e' found =
          let same : p' ≡ p = some_injective (sym e' ∙ e) in
          let found_for_p = subst (λ x. find_challenge x now s.challenges ≡ some c) same found in
          absurd (clash (sym gone ∙ found_for_p))

  -- After a key has been issued for a token that names its challenge, no later request whose token
  -- names the same challenge gets a key while the challenges stay as they were left, whatever the
  -- token, the code, the time and the failures are; the keys then stay as they are.
  pub code_used_once :
      (faults faults' : Faults) (now later i : ℕ) (q q' : VerifyRecoveryOtpParams)
      (api_key api_key' : ℕ) (s t : Store) (p' : ChallengePayload)
      (issued : Issued matches faults now q api_key s
        (verify_recovery_otp matches faults now q api_key s))
      → issued.payload.otp_challenge_id ≡ some i
      → q'.token ≡ some p'
      → p'.otp_challenge_id ≡ some i
      → t.challenges ≡ (verify_recovery_otp matches faults now q api_key s).1.challenges
      → Refused t (verify_recovery_otp matches faults' later q' api_key' t)
  code_used_once faults faults' now later i q q' api_key api_key' s t p' issued names token names'
        same =
      let id_is : issued.challenge.id ≡ i =
        usable-id issued.payload i now issued.challenge names
          (found-usable issued.payload now s.challenges issued.challenge issued.found) in
      let left : t.challenges ≡ map (used i now) s.challenges =
        same ∙ issued.accepted.1.challenges_used ∙ ap (λ k. map (used k now) s.challenges) id_is in
      not_issued faults' later q' api_key' p' t token (
        subst (λ cs. find_challenge p' later cs ≡ none) (sym left)
          (used-not_found p' i now later s.challenges names'))
