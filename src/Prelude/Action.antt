-- ===== src/Prelude/Action.antt =====
-- Code that reads and writes a state and may throw. What was written before a throw stays written.
use acbu_backend.Prelude.Result.{Result, ok, err}

abbrev pub Action : Type 0 → Type 0 → Type 0 → Type 0
Action S E A = S → Result E A × S

abbrev pub raise : {S E A : Type 0} → E → S → Result E A × S
raise e s = (err e, s)

abbrev pub pure : {S E A : Type 0} → A → S → Result E A × S
pure a s = (ok a, s)

abbrev pub modify : {S E : Type 0} → (S → S) → S → Result E (Unit {0}) × S
modify f s = (ok tt, f s)

infixl 5 ◌>>=◌ ◌>>◌
abbrev pub ◌>>=◌ :
    {S E A B : Type 0} → (S → Result E A × S) → (A → S → Result E B × S) → S → Result E B × S
◌>>=◌ m f s = let (r, s') = m s in elim r [ ok a ↦ f a s' | err e ↦ (err e, s') ]

abbrev pub ◌>>◌ :
    {S E B : Type 0} → (S → Result E (Unit {0}) × S) → (S → Result E B × S) → S → Result E B × S
m >> k = m >>= λ _. k
