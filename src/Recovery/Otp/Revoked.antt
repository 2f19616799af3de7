-- ===== src/Recovery/Otp/Revoked.antt =====
-- The deny-list of the tokens: src/services/recovery/recoveryService.ts.
use mathlib.Core.List.{Mem, not-mem-nil, mem-cons}
use mathlib.Core.Logic.Or
use mathlib.Core.HLevel.{⊥_prop}
use acbu_backend.Prelude.{ℕ, ◌≡◌, false, Option, none, some, List, [], ◌∷◌, ◌==◌, any, arith}
use acbu_backend.Recovery.Otp.{is_revoked}

-- No token with this id is on the deny-list.
abbrev pub NotRevoked : Option ℕ → List ℕ → Type 0
NotRevoked jti js = (j : ℕ) → jti ≡ some j → ¬ Mem j js

any-mem : (j : ℕ) (js : List ℕ) → any (λ k. k == j) js ≡ false → ¬ Mem j js
any-mem j [] h m = not-mem-nil m
any-mem j (k ∷ js) h m =
    Or.elim ⊥_prop (mem-cons.0 m) (λ e. ground arith) (λ below. any-mem j js (ground arith) below)

pub unrevoked : (jti : Option ℕ) (js : List ℕ) → is_revoked jti js ≡ false → NotRevoked jti js
unrevoked none js h j e = absurd (clash e)
  where
    clash : ◌≡◌ {A = Option ℕ} none (some j) → ⊥
    clash e' = cc
unrevoked (some i) js h j e = let same : i ≡ j = ground arith in rw (← same) (any-mem i js h)
