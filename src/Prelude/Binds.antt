-- ===== src/Prelude/Binds.antt =====
-- What a chain of fallible steps that succeeds says of each step.
use mathlib.Core.Path.{◌≡◌, refl}
use mathlib.Core.Bool.{Bool, true, false}
use native.Mathlib.Omega.{arith}
use acbu_backend.Prelude.Result.{Result, ok, err, guard, ◌>>=◌, ◌>>◌}

pub bind-ok :
    {E A B : Type 0} (m : Result E A) (f : A → Result E B) (b : B)
    → m >>= f ≡ ok b
    → (a : A) × (m ≡ ok a) × (f a ≡ ok b)
bind-ok (ok a) f b h = (a, refl, h)
bind-ok (err e) f b h = ground arith

pub guard-ok :
    {E B : Type 0} (t : Bool) (e : E) (k : Result E B) (b : B)
    → guard t e >> k ≡ ok b
    → (t ≡ true) × (k ≡ ok b)
guard-ok true e k b h = (refl, h)
guard-ok false e k b h = ground arith
