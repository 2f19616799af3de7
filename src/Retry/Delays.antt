-- ===== src/Retry/Delays.antt =====
-- How often and how late the operation runs again: src/utils/retry.ts.
use acbu_backend.Prelude.{
  ℕ, zero, suc, ◌-◌, ◌≤◌, ◌<◌, ◌≡◌, refl, ap, ◌∙◌, some, List, [], ◌∷◌, length, arith,
}
use acbu_backend.Prelude.Result.{Result, ok, err}
use acbu_backend.Retry.{
  RetryOptions, delay_ms, Outcome, delayed, attempts_from, with_attempts, retry_with_backoff,
}

abbrev pub AllWithin : ℕ → List ℕ → Type 0
AllWithin bound [] = Unit
AllWithin bound (d ∷ ds) = (d ≤ bound) × AllWithin bound ds

-- The delays before attempts `attempt + 1` to `attempt + n`.
abbrev pub backoffs : RetryOptions → ℕ → ℕ → List ℕ
backoffs o attempt zero = []
backoffs o attempt (suc n) = delay_ms o attempt ∷ backoffs o (suc attempt) n

module _ {S E A : Type 0} (operation : S → Result E A × S) where
  -- The operation throws `n` times in a row from `s` on and gets to `s'`.
  pub data Failures : S → ℕ → S → Type 0 where
    no_failure : (s : S) → Failures s 0 s
    failure :
        (s m t : S) (e : E) (n : ℕ)
        → operation s ≡ (err e, m)
        → Failures m n t
        → Failures s (suc n) t

  delays_from :
      (o : RetryOptions) (attempt left : ℕ) (s : S)
      → let r = attempts_from operation o attempt left s in
        (length (r.delays) ≤ left) × AllWithin o.max_delay_ms (r.delays)
  unfolding attempts_from
  delays_from o attempt zero s = go (operation s)
    where
      go :
          (r : Result E A × S)
          → let r : Outcome S E A = elim r.0 [
            | ok a ↦ record { result = ok a; delays = []; state = r.1 }
            | err e ↦ record { result = err (some e); delays = []; state = r.1 }
          ] in
            (length (r.delays) ≤ 0) × AllWithin o.max_delay_ms (r.delays)
      go (ok a, s') = (omega arith, tt)
      go (err x, s') = (omega arith, tt)
  delays_from o attempt (suc left) s =
      go (operation s).0 (operation s).1 (delays_from o (suc attempt) left (operation s).1)
    where
      go :
          (r : Result E A) (s' : S)
          → (let r = attempts_from operation o (suc attempt) left s' in
              (length (r.delays) ≤ left) × AllWithin o.max_delay_ms (r.delays))
          → let r : Outcome S E A = elim r [
            | ok a ↦ record { result = ok a; delays = []; state = s' }
            | err e ↦
                let rest = attempts_from operation o (suc attempt) left s' in
                record {
                  result = rest.result;
                  delays = delay_ms o attempt ∷ rest.delays;
                  state = rest.state;
                }
          ] in
            (length (r.delays) ≤ suc left) × AllWithin o.max_delay_ms (r.delays)
      go (ok a) s' h = (omega arith, tt)
      go (err x) s' (l, w) = (omega (arith, l), (omega arith, w))

  step_fails :
      (o : RetryOptions) (attempt left : ℕ) (s m : S) (x : E)
      → operation s ≡ (err x, m)
      → attempts_from operation o attempt (suc left) s
        ≡ delayed operation (delay_ms o attempt) (attempts_from operation o (suc attempt) left m)
  unfolding attempts_from
  step_fails o attempt left s m x e =
      rw (attempts_from, ap (λ p. p.0) e)
        (ap
          (λ t.
            delayed operation (delay_ms o attempt) (attempts_from operation o (suc attempt) left t))
          (ap (λ p. p.1) e))

  step_succeeds :
      (o : RetryOptions) (attempt left : ℕ) (s u : S) (a : A)
      → operation s ≡ (ok a, u)
      → attempts_from operation o attempt left s ≡ record { result = ok a; delays = []; state = u }
  unfolding attempts_from
  step_succeeds o attempt zero s u a e = rw (attempts_from, ap (λ p. p.0) e, ap (λ p. p.1) e) refl
  step_succeeds o attempt (suc left) s u a e =
      rw (attempts_from, ap (λ p. p.0) e, ap (λ p. p.1) e) refl

  succeeds_from :
      (o : RetryOptions) (attempt left n : ℕ) (a : A) (s t u : S)
      → n ≤ left
      → Failures s n t
      → operation t ≡ (ok a, u)
      → attempts_from operation o attempt left s
        ≡ record { result = ok a; delays = backoffs o attempt n; state = u }
  succeeds_from o attempt left zero a s _ u h (no_failure _) e =
      step_succeeds o attempt left s u a e
  succeeds_from o attempt zero (suc n) a s t u h f e = absurd (omega (arith, h))
  succeeds_from o attempt (suc left) (suc n) a s t u h (failure _ m _ x _ first rest) e =
      step_fails o attempt left s m x first
      ∙ ap (λ r. delayed operation (delay_ms o attempt) r)
          (succeeds_from o (suc attempt) left n a m t u (omega (arith, h)) rest e)

  fails_from :
      (o : RetryOptions) (attempt left : ℕ) (x : E) (s t u : S)
      → Failures s left t
      → operation t ≡ (err x, u)
      → attempts_from operation o attempt left s
        ≡ record { result = err (some x); delays = backoffs o attempt left; state = u }
  unfolding attempts_from
  fails_from o attempt zero x s _ u (no_failure _) e =
      rw (attempts_from, ap (λ p. p.0) e, ap (λ p. p.1) e) refl
  fails_from o attempt (suc left) x s t u (failure _ m _ y _ first rest) e =
      step_fails o attempt left s m y first
      ∙ ap (λ r. delayed operation (delay_ms o attempt) r)
          (fails_from o (suc attempt) left x m t u rest e)

  delays_within :
      (o : RetryOptions) (n : ℕ) (s : S)
      → let r = with_attempts operation o n s in
        (length (r.delays) ≤ n - 1) × AllWithin o.max_delay_ms (r.delays)
  delays_within o zero s = (omega arith, tt)
  delays_within o (suc left) s = let (l, w) = delays_from o 1 left s in (omega (arith, l), w)

  succeeds_within :
      (o : RetryOptions) (k n : ℕ) (a : A) (s t u : S)
      → n < k
      → Failures s n t
      → operation t ≡ (ok a, u)
      → with_attempts operation o k s ≡ record { result = ok a; delays = backoffs o 1 n; state = u }
  succeeds_within o zero n a s t u h f e = absurd (omega (arith, h))
  succeeds_within o (suc left) n a s t u h f e =
      succeeds_from o 1 left n a s t u (omega (arith, h)) f e

  -- There are fewer delays than attempts, and none is longer than the greatest delay.
  pub retry-delays :
      (o : RetryOptions) (s : S)
      → let r = retry_with_backoff operation o s in
        (length (r.delays) ≤ o.attempts - 1) × AllWithin o.max_delay_ms (r.delays)
  unfolding retry_with_backoff
  retry-delays o s = delays_within o o.attempts s

  -- An operation that throws `n` times, fewer than the attempts, and then returns: the retries return
  -- its value in its last state, after the `n` delays that grow by the multiplier up to the greatest.
  pub retry_succeeds :
      (o : RetryOptions) (n : ℕ) (a : A) (s t u : S)
      → n < o.attempts
      → Failures s n t
      → operation t ≡ (ok a, u)
      → retry_with_backoff operation o s
        ≡ record { result = ok a; delays = backoffs o 1 n; state = u }
  unfolding retry_with_backoff
  retry_succeeds o n a s t u h f e = succeeds_within o o.attempts n a s t u h f e

  -- An operation that throws in every attempt: the last error is thrown, after a delay between each
  -- two attempts.
  pub retry_gives_up :
      (o : RetryOptions) (n : ℕ) (x : E) (s t u : S)
      → o.attempts ≡ suc n
      → Failures s n t
      → operation t ≡ (err x, u)
      → retry_with_backoff operation o s
        ≡ record { result = err (some x); delays = backoffs o 1 n; state = u }
  unfolding retry_with_backoff
  retry_gives_up o n x s t u h f e =
      ap (λ k. with_attempts operation o k s) h ∙ fails_from o 1 n x s t u f e
