-- ===== src/Transfer/Amounts/RoundTrip.antt =====
-- A balance that is printed and read again: src/services/transfer/transferService.ts.
use acbu_backend.Prelude.{
  ℕ, zero, suc, ◌+◌, ◌*◌, ◌/◌, ◌%◌, ◌≡◌, refl, ap, ◌∙◌, ◌≤◌, ◌<◌, ◌⊎◌, inl, inr, some, List, [],
  ◌∷◌, ltb, length, map, arith, Bool-cases,
}
use native.Mathlib.Nat.{add-zero}
use acbu_backend.Prelude.Doubles.{exact_below, to_double-exact}
use acbu_backend.Transfer.Amounts.{
  Text, digit, letter_e, minus, decimal_text, amount_to_smallest_unit, balance_text, leading,
  value_from, number_of, whole_part, frac_part, fit, print_onto, last_digits, strip_zeros,
  cons_unless_zero, with_fraction, parse_int,
}

-- A number that is printed in front of a text is read with the digits that the text starts with.
number_of-print :
    (fuel n : ℕ) (t : Text)
    → n ≤ fuel
    → number_of (leading (print_onto fuel n t)).0 ≡ some (value_from n (leading t).0)
number_of-print zero n t h = ground arith
number_of-print (suc fuel) n t h = elim (Bool-cases (ltb n 10)) [
  | inl small ↦ rw small refl
  | inr large ↦
      let digits : n / 10 * 10 + n % 10 ≡ n = omega arith in
      rw large (
        number_of-print fuel (n / 10) (digit (n % 10) ∷ t) (ground arith)
        ∙ ap (λ m. some (value_from m (leading t).0)) digits)
]

whole_part-print :
    (fuel n : ℕ) (t : Text) → whole_part (print_onto fuel n t) ≡ print_onto fuel n (whole_part t)
whole_part-print zero n t = refl
whole_part-print (suc fuel) n t = elim (Bool-cases (ltb n 10)) [
  | inl small ↦ rw small refl
  | inr large ↦ rw large (whole_part-print fuel (n / 10) (digit (n % 10) ∷ t))
]

frac_part-print : (fuel n : ℕ) (t : Text) → frac_part (print_onto fuel n t) ≡ frac_part t
frac_part-print zero n t = refl
frac_part-print (suc fuel) n t = elim (Bool-cases (ltb n 10)) [
  | inl small ↦ rw small refl
  | inr large ↦ rw large (frac_part-print fuel (n / 10) (digit (n % 10) ∷ t))
]

whole_part-with_fraction : (t : Text) → whole_part (with_fraction t) ≡ []
whole_part-with_fraction [] = refl
whole_part-with_fraction (c ∷ cs) = refl

frac_part-with_fraction : (t : Text) → frac_part (with_fraction t) ≡ whole_part t
frac_part-with_fraction [] = refl
frac_part-with_fraction (c ∷ cs) = refl

-- Zeros at the end of the digits of a fraction may be left out.
fit-strip_zeros :
    (ds : List ℕ) → fit (length ds) (whole_part (strip_zeros (map digit ds))) ≡ map digit ds
fit-strip_zeros [] = refl
fit-strip_zeros (d ∷ ds) = go d (strip_zeros (map digit ds)) (fit-strip_zeros ds)
  where
    go :
        (d : ℕ) (t : Text)
        → fit (length ds) (whole_part t) ≡ map digit ds
        → fit (suc (length ds)) (whole_part (cons_unless_zero (digit d) t)) ≡ digit d ∷ map digit ds
    go zero [] h = ap (λ r. digit 0 ∷ r) h
    go zero (c ∷ cs) h = ap (λ r. digit 0 ∷ r) h
    go (suc d) t h = ap (λ r. digit (suc d) ∷ r) h

-- The digits of a number, the most significant first.
abbrev pub digits_of : ℕ → ℕ → List ℕ → List ℕ
digits_of zero n ds = ds
digits_of (suc k) n ds = digits_of k (n / 10) (n % 10 ∷ ds)

read_fraction : (n : ℕ) → number_of (digits_of 7 n []) ≡ some (n % 10000000)
read_fraction n = ap some (omega arith)

frac_part-balance :
    (fuel n : ℕ)
    → fit 7 (
        frac_part
          (print_onto fuel (n / 10000000) (with_fraction (strip_zeros (last_digits 7 n [])))))
      ≡ map digit (digits_of 7 n [])
frac_part-balance fuel n =
    let t = strip_zeros (last_digits 7 n []) in
    ap (fit 7) (frac_part-print fuel (n / 10000000) (with_fraction t) ∙ frac_part-with_fraction t)
    ∙ fit-strip_zeros (digits_of 7 n [])

whole_part-decimal :
    (n : ℕ) → number_of (leading (whole_part (decimal_text n))).0 ≡ some (n / 10000000)
whole_part-decimal n =
    let t = with_fraction (strip_zeros (last_digits 7 n [])) in
    ap (λ w. number_of (leading w).0)
      (whole_part-print n (n / 10000000) t
        ∙ ap (print_onto n (n / 10000000))
            (whole_part-with_fraction (strip_zeros (last_digits 7 n []))))
    ∙ number_of-print n (n / 10000000) [] (omega arith)

amount-decimal : (n : ℕ) → n < exact_below → amount_to_smallest_unit (decimal_text n) ≡ some n
unfolding amount_to_smallest_unit parse_int
amount-decimal n h =
    let whole = whole_part-decimal n in
    let frac : number_of (leading (fit 7 (frac_part (decimal_text n)))).0 ≡ some (n % 10000000) =
      ap (λ f. number_of (leading f).0) (frac_part-balance n n) ∙ read_fraction n in
    let units : n / 10000000 * 10000000 + n % 10000000 ≡ n = omega arith in
    rw
      (
        whole,
        frac,
        to_double-exact (n / 10000000) (omega arith),
        to_double-exact (n % 10000000) (omega arith),
        to_double-exact (n / 10000000 * 10000000) (omega arith),
        units,
        to_double-exact n h,
      )
      refl

-- A balance of nothing, or of ten smallest units or more, and of at most 15 digits, that is printed
-- and read again with the numbers of JavaScript is the balance.
pub amount-balance_text :
    (n : ℕ)
    → (n ≡ 0) ⊎ (10 ≤ n)
    → n < 1000000000000000
    → amount_to_smallest_unit (balance_text n) ≡ some n
unfolding balance_text
amount-balance_text n h small =
    let plain : balance_text n ≡ decimal_text n = ground arith in
    ap amount_to_smallest_unit plain ∙ amount-decimal n (omega arith)

-- A balance below a millionth of an ACBU is printed with an exponent, and read as so many whole
-- ACBU: ten million times what it is.
pub tiny_balance_misread :
    (n : ℕ) → 0 < n → n < 10 → amount_to_smallest_unit (balance_text n) ≡ some (n * 10000000)
unfolding balance_text amount_to_smallest_unit parse_int
tiny_balance_misread n h k =
    let tiny : balance_text n ≡ digit n ∷ letter_e ∷ minus ∷ digit 7 ∷ [] = ground arith in
    ap amount_to_smallest_unit tiny
    ∙ rw
        (
          to_double-exact n (omega arith),
          to_double-exact (n * 10000000) (omega arith),
          to_double-exact 0 (omega arith),
          add-zero (n * 10000000),
          to_double-exact (n * 10000000) (omega arith),
        )
        refl
