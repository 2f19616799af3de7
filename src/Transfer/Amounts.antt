-- ===== src/Transfer/Amounts.antt =====
-- Amounts as texts: `amountToSmallestUnit` and the test on the amount in
-- src/services/transfer/transferService.ts, and `String` of a balance, as
-- src/services/wallet/walletStateService.ts returns it. A text is a list of symbols; `digit d` is the
-- digit d, for d below 10. No text that reaches `amountToSmallestUnit` here starts with a sign or a
-- blank: it is an amount that has passed the test, or a printed balance.
pub mod RoundTrip
use acbu_backend.Prelude.{
  ℕ, zero, suc, ◌+◌, ◌-◌, ◌*◌, ◌/◌, ◌%◌, Bool, true, false, not, Option, none, some, List, [], ◌∷◌,
  ◌++◌, ◌==◌, ◌&&◌, ◌^◌, ltb, leb, if◌then◌else◌, length,
}
use acbu_backend.Prelude.Doubles.{to_double, double_num, double_den}

pub data Symbol : Type 0 where
  digit : ℕ → Symbol
  point minus letter_e space other : Symbol

abbrev pub Text : Type 0
Text = List Symbol

-- `trim`
abbrev is_space : Symbol → Bool
is_space space = true
is_space _ = false

unfoldable pub trim_start : Text → Text
trim_start [] = []
trim_start (c ∷ cs) = let rest = trim_start cs in if is_space c then rest else c ∷ cs

unfoldable pub trim_end : Text → Text
trim_end [] = []
trim_end (c ∷ cs) = trimmed c (trim_end cs)
  where
    trimmed : Symbol → Text → Text
    trimmed space [] = []
    trimmed c rest = c ∷ rest

-- The digits that a text starts with, and what follows them.
abbrev pub leading : Text → List ℕ × Text
leading [] = ([], [])
leading (digit d ∷ cs) = let (ds, rest) = leading cs in (d ∷ ds, rest)
leading (c ∷ cs) = ([], c ∷ cs)

-- The number that digits make, after a number of which the digits were read.
abbrev pub value_from : ℕ → List ℕ → ℕ
value_from acc [] = acc
value_from acc (d ∷ ds) = value_from (acc * 10 + d) ds

-- `parseInt(text, 10)` of a text without sign and blanks in front, a double; `none` is `NaN`.
abbrev pub number_of : List ℕ → Option ℕ
number_of [] = none
number_of (d ∷ ds) = some (value_from d ds)

abbrev pub rounded : Option ℕ → Option ℕ
rounded none = none
rounded (some n) = some (to_double n)

unfoldable pub parse_int : Text → Option ℕ
parse_int t = rounded (number_of (leading t).0)

-- `split(".")`: the first piece, and the second, which is empty by default.
abbrev pub whole_part : Text → Text
whole_part [] = []
whole_part (point ∷ cs) = []
whole_part (c ∷ cs) = c ∷ whole_part cs

abbrev pub frac_part : Text → Text
frac_part [] = []
frac_part (point ∷ cs) = whole_part cs
frac_part (c ∷ cs) = frac_part cs

-- `slice(0, n).padEnd(n, "0")`
abbrev pub fit : ℕ → Text → Text
fit zero t = []
fit (suc n) [] = digit 0 ∷ fit n []
fit (suc n) (c ∷ cs) = c ∷ fit n cs

-- The product and the sum are doubles too.
abbrev pub plus : Option ℕ → Option ℕ → Option ℕ
plus (some a) (some b) = some (to_double (to_double (a * 10000000) + b))
plus _ _ = none

-- `amountToSmallestUnit`
unfoldable pub amount_to_smallest_unit : Text → Option ℕ
unfolding parse_int
amount_to_smallest_unit t = plus (parse_int (whole_part t)) (parse_int (fit 7 (frac_part t)))

-- `/^\d+(\.\d{1,7})?$/.test(amount)`
abbrev ends : List ℕ × Text → Bool
ends (ds, []) = leb 1 (length ds) && leb (length ds) 7
ends (ds, c ∷ cs) = false

abbrev after_whole : List ℕ × Text → Bool
after_whole ([], rest) = false
after_whole (d ∷ ds, []) = true
after_whole (d ∷ ds, point ∷ cs) = ends (leading cs)
after_whole (d ∷ ds, c ∷ cs) = false

unfoldable pub is_decimal : Text → Bool
is_decimal t = after_whole (leading t)

-- Whether `Number` of a decimal is zero: all its digits are.
abbrev pub is_zero : Text → Bool
is_zero [] = true
is_zero (digit zero ∷ cs) = is_zero cs
is_zero (digit (suc d) ∷ cs) = false
is_zero (c ∷ cs) = is_zero cs

-- The test that `createTransfer` makes of the amount.
unfoldable pub is_valid_amount : Text → Bool
unfolding is_decimal
is_valid_amount t = is_decimal t && not (is_zero t)

-- `n` in decimal digits, in front of a text.
abbrev pub print_onto : ℕ → ℕ → Text → Text
print_onto zero n t = digit (n % 10) ∷ t
print_onto (suc fuel) n t =
    let rest = print_onto fuel (n / 10) (digit (n % 10) ∷ t) in
    if ltb n 10 then digit n ∷ t else rest

-- The last `k` digits of `n`.
abbrev pub last_digits : ℕ → ℕ → Text → Text
last_digits zero n t = t
last_digits (suc k) n t = last_digits k (n / 10) (digit (n % 10) ∷ t)

-- A text without the zeros that it ends in.
abbrev pub cons_unless_zero : Symbol → Text → Text
cons_unless_zero (digit zero) [] = []
cons_unless_zero c t = c ∷ t

abbrev pub strip_zeros : Text → Text
strip_zeros [] = []
strip_zeros (c ∷ cs) = cons_unless_zero c (strip_zeros cs)

abbrev pub with_fraction : Text → Text
with_fraction [] = []
with_fraction (c ∷ cs) = point ∷ c ∷ cs

-- A number of smallest units with a point and without an exponent.
abbrev pub decimal_text : ℕ → Text
decimal_text n = print_onto n (n / 10000000) (with_fraction (strip_zeros (last_digits 7 n [])))

-- Whether two numbers of smallest units are the same double as numbers of ACBU.
abbrev pub same_double : ℕ → ℕ → Bool
same_double m n =
    double_num m 10000000 * double_den n 10000000 == double_num n 10000000 * double_den m 10000000

-- The multiples of `step` on both sides of the double next to `n` smallest units, the nearer of those
-- that are the same double.
abbrev pub lower : ℕ → ℕ → ℕ
lower step n = double_num n 10000000 * 10000000 / double_den n 10000000 / step * step

abbrev pub nearer : Bool → Bool → ℕ → ℕ → Option ℕ
nearer true true step n =
    let a = lower step n in
    if leb (2 * double_num n 10000000 * 10000000) ((2 * a + step) * double_den n 10000000)
    then some a
    else some (a + step)
nearer true false step n = some (lower step n)
nearer false true step n = some (lower step n + step)
nearer false false step n = none

-- The number with the fewest digits that is the same double, searched from the coarsest step on.
unfoldable pub shortest : ℕ → ℕ → ℕ
shortest zero n = n
shortest (suc k) n =
    let step = 10 ^ k in
    let finer = shortest k n in
    elim (nearer (same_double (lower step n) n) (same_double (lower step n + step) n) step n) [
      | some m ↦ m
      | none ↦ finer
    ]

-- `String(Number.parseFloat(balance))` for a balance of `n` smallest units, below 2 ^ 53 ACBU.
-- JavaScript prints a number below a millionth with an exponent, and others with the fewest digits
-- that name the same double; a decimal of 15 digits at most is printed as it is.
unfoldable pub balance_text : ℕ → Text
balance_text n =
    if leb 1 n && ltb n 10
    then digit n ∷ letter_e ∷ minus ∷ digit 7 ∷ []
    else if ltb n (10 ^ 15)
    then decimal_text n
    else decimal_text (shortest 22 n)
