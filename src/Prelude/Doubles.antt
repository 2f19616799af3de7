-- ===== src/Prelude/Doubles.antt =====
-- Rounding to the numbers of JavaScript, doubles of 53 bits: a double is a whole number over a power of
-- two, or a whole number times one. Negative numbers and infinities are left out.
use Prim.Native.Nat.{ℕ, zero, suc, ◌+◌, ◌*◌, ◌/◌, ◌%◌, ◌≤◌, ◌<◌}
use mathlib.Core.Path.{◌≡◌}
use native.Mathlib.Omega.{arith}
use native.Mathlib.Nat.{le-div_iff_mul-le, mul-le-mul_right}
use acbu_backend.Prelude.Tests.{ltb, if◌then◌else◌}

-- 2 ^ 53, up to which every whole number is a double.
abbrev pub exact_below : ℕ
exact_below = 9007199254740992

-- `a / b`, rounded to the nearest whole number, and to the even one of two.
unfoldable pub round_half_even : ℕ → ℕ → ℕ
round_half_even a b =
    let q = a / b in
    let r = a % b in if ltb (2 * r) b then q else if ltb b (2 * r) then q + 1 else q + q % 2

-- The largest of `s`, `2 * s`, ... with which `a / b`, taken that many times, stays below 2 ^ 53.
unfoldable pub scale_up : ℕ → ℕ → ℕ → ℕ → ℕ
scale_up zero s a b = s
scale_up (suc fuel) s a b =
    let finer = scale_up fuel (2 * s) a b in
    if ltb (a * (2 * s)) (exact_below * b) then finer else s

-- The double next to `a / b`, which is below 2 ^ 53, is `double_num a b` over `double_den a b`. With
-- 80 doublings every number that is zero or at least 2 ^ -27 gets its 53 bits.
unfoldable pub double_den : ℕ → ℕ → ℕ
double_den a b = scale_up 80 1 a b

unfoldable pub double_num : ℕ → ℕ → ℕ
double_num a b = round_half_even (a * double_den a b) b

-- The smallest of `s`, `2 * s`, ... that a number below `s` times 2 ^ 53 is rounded to a multiple of.
unfoldable pub scale_down : ℕ → ℕ → ℕ → ℕ
scale_down zero s n = s
scale_down (suc fuel) s n =
    let coarser = scale_down fuel (2 * s) n in if ltb n (exact_below * s) then s else coarser

-- The double next to a whole number. The fuel covers all finite doubles.
unfoldable pub to_double : ℕ → ℕ
to_double n =
    let s = scale_down 1000 1 n in if ltb n exact_below then n else round_half_even n s * s

pub to_double-exact : (n : ℕ) → n < exact_below → to_double n ≡ n
unfolding to_double
to_double-exact n h = ground arith

scale_up-pos : (fuel s a b : ℕ) → 0 < s → 0 < scale_up fuel s a b
unfolding scale_up
scale_up-pos zero s a b h = h
scale_up-pos (suc fuel) s a b h = ground (arith, scale_up-pos fuel (2 * s) a b (omega arith))

pub double_den-pos : (a b : ℕ) → 0 < double_den a b
unfolding double_den
double_den-pos a b = scale_up-pos 80 1 a b (omega arith)

le-round_half_even : (k a b : ℕ) → 0 < b → k * b ≤ a → k ≤ round_half_even a b
unfolding round_half_even
le-round_half_even k a b p h =
    let below : k ≤ a / b = (le-div_iff_mul-le p).1 h in ground (arith, below)

-- A whole number that is at most `a / b` is at most the double next to it.
pub le-double : (k a b : ℕ) → 0 < b → k * b ≤ a → k * double_den a b ≤ double_num a b
unfolding double_num
le-double k a b p h = le-round_half_even (k * double_den a b) (a * double_den a b) b p scaled
  where
    swap : (x y z : ℕ) → x * y * z ≡ x * z * y
    swap x y z = grind arith

    scaled : k * double_den a b * b ≤ a * double_den a b
    scaled = rw (swap k (double_den a b) b) (mul-le-mul_right (double_den a b) h)
