-- ===== src/Basket/Rounding.antt =====
-- Rounding to basis points is exact: src/config/basket.ts.
use acbu_backend.Prelude.{
  ℕ, zero, suc, ◌+◌, ◌-◌, ◌*◌, ◌≤◌, ◌<◌, ◌≡◌, refl, inl, inr, true, false, List, [], ◌∷◌, map, ◌&&◌,
  ltb, leb, length, any, arith, Bool-cases,
}
use acbu_backend.Prelude.Result.{ok}
use acbu_backend.Basket.{
  Entry, sum_parts, sum_floored, insert_by_remainder, sort_by_remainder, give_missing, split_weight,
  off_total, round_weights_to_exact_basis_points,
}

sum_floored-insert :
    (e : Entry) (es : List Entry)
    → (sum_floored (insert_by_remainder e es) ≡ e.floored + sum_floored es)
      × (length (insert_by_remainder e es) ≡ suc (length es))
unfolding insert_by_remainder
sum_floored-insert e [] = (refl, refl)
sum_floored-insert e (f ∷ fs) = ground (arith, sum_floored-insert e fs)

sum_floored-sort :
    (es : List Entry)
    → (sum_floored (sort_by_remainder es) ≡ sum_floored es)
      × (length (sort_by_remainder es) ≡ length es)
unfolding sort_by_remainder
sum_floored-sort [] = (refl, refl)
sum_floored-sort (e ∷ es) =
    omega (arith, sum_floored-sort es, sum_floored-insert e (sort_by_remainder es))

sum_floored-give :
    (n : ℕ) (es : List Entry)
    → n ≤ length es
    → (sum_floored (give_missing n es) ≡ sum_floored es + n)
      × (length (give_missing n es) ≡ length es)
unfolding give_missing
sum_floored-give zero es h = omega arith
sum_floored-give (suc n) [] h = absurd (omega arith)
sum_floored-give (suc n) (e ∷ es) h = omega (arith, sum_floored-give n es)

-- A list of properties, one for each entry.
abbrev pub All : (Entry → Type 0) → List Entry → Type 0
All P [] = Unit
All P (e ∷ es) = P e × All P es

All-insert :
    (P : Entry → Type 0) (e : Entry) (es : List Entry)
    → P e
    → All P es
    → All P (insert_by_remainder e es)
unfolding insert_by_remainder
All-insert P e [] p a = (p, tt)
All-insert P e (f ∷ fs) p a = elim (Bool-cases (leb f.remainder e.remainder)) [
  | inl t ↦ rw t (p, a)
  | inr n ↦ rw n (a.0, All-insert P e fs p a.1)
]

All-sort : (P : Entry → Type 0) (es : List Entry) → All P es → All P (sort_by_remainder es)
unfolding sort_by_remainder
All-sort P [] a = tt
All-sort P (e ∷ es) a = All-insert P e (sort_by_remainder es) a.0 (All-sort P es a.1)

le_of_mul : (u a b : ℕ) → 0 < u → u * a ≤ b * u → a ≤ b
le_of_mul u a b pos h = grind arith

module _ (unit : ℕ) where
  -- The weight is the exact one rounded down.
  abbrev IsFloor : Entry → Type 0
  IsFloor e = (e.floored * unit ≤ e.scaled) × (e.scaled < (e.floored + 1) * unit)

  -- The weight is less than a basis point below the exact one, or at most one above.
  abbrev pub IsClose : Entry → Type 0
  IsClose e = (e.floored * unit ≤ e.scaled + unit) × (e.scaled < (e.floored + 1) * unit)

  All-give : (n : ℕ) (es : List Entry) → All IsFloor es → All IsClose (give_missing n es)
  unfolding give_missing
  All-give zero [] a = tt
  All-give zero (e ∷ es) a = (omega arith, All-give zero es a.1)
  All-give (suc n) [] a = tt
  All-give (suc n) (e ∷ es) a = (omega arith, All-give n es a.1)

  split-IsFloor : (ws : List (ℕ × ℕ)) → 0 < unit → All IsFloor (map (split_weight unit) ws)
  split-IsFloor [] pos = tt
  split-IsFloor ((c, w) ∷ ws) pos = (omega arith, split-IsFloor ws pos)

  -- The parts that the floors leave over: less than `unit` for each entry.
  left_over :
      (ws : List (ℕ × ℕ))
      → 0 < unit
      → let es = map (split_weight unit) ws in
        (unit * sum_floored es ≤ sum_parts ws)
        × (sum_parts ws ≤ unit * sum_floored es + length es * unit)
        × (length es ≡ length ws)
  left_over [] pos = omega arith
  left_over ((c, w) ∷ ws) pos = omega (arith, left_over ws pos)

  allocatable :
      (ws : List (ℕ × ℕ))
      → 0 < unit
      → sum_parts ws ≡ 10000 * unit
      → let es = map (split_weight unit) ws in
        (sum_floored es ≤ 10000) × (10000 - sum_floored es ≤ length es)
  allocatable ws pos total =
      let es = map (split_weight unit) ws in
      let (low, high, _) = left_over ws pos in
      (
        le_of_mul unit (sum_floored es) 10000 pos (omega arith),
        omega (arith, le_of_mul unit 10000 (sum_floored es + length es) pos (omega arith)),
      )

  off_total-exact : (t : ℕ) → t ≡ 10000 * unit → off_total unit t ≡ false
  off_total-exact t e = ground arith

  in_range : (a b : ℕ) → a ≤ 10000 → 10000 - a ≤ b → leb a 10000 && leb (10000 - a) b ≡ true
  in_range a b h k = ground arith

  accepted :
      (ws : List (ℕ × ℕ))
      → sum_parts ws ≡ 10000 * unit
      → any (λ w. ltb (10000 * unit) w.1) ws ≡ false
      → let es = map (split_weight unit) ws in
        sum_floored es ≤ 10000
        → 10000 - sum_floored es ≤ length es
        → round_weights_to_exact_basis_points unit ws
          ≡ ok (give_missing (10000 - sum_floored es) (sort_by_remainder es))
  unfolding round_weights_to_exact_basis_points
  accepted ws total each fits enough =
      rw (off_total-exact (sum_parts ws) total, each, in_range _ _ fits enough)

  -- For weights that add up to exactly 100% and are each at most 100%, at any fineness, the rounding
  -- never throws, its weights add up to exactly 10000 basis points, there are as many as before, and
  -- each is within one basis point of the exact weight.
  pub round_weights-exact :
      (ws : List (ℕ × ℕ))
      → 0 < unit
      → sum_parts ws ≡ 10000 * unit
      → any (λ w. ltb (10000 * unit) w.1) ws ≡ false
      → (es : List Entry) × (round_weights_to_exact_basis_points unit ws ≡ ok es)
        × (sum_floored es ≡ 10000)
        × (length es ≡ length ws)
        × All IsClose es
  unfolding round_weights_to_exact_basis_points
  round_weights-exact ws pos total each =
      let es = map (split_weight unit) ws in
      let missing = 10000 - sum_floored es in
      let (fits, enough) = allocatable ws pos total in
      let (same_sum, same_length) = sum_floored-sort es in
      let (given, kept) = sum_floored-give missing (sort_by_remainder es) (omega arith) in
      (
        give_missing missing (sort_by_remainder es),
        accepted ws total each fits enough,
        omega arith,
        omega (arith, left_over ws pos),
        All-give missing (sort_by_remainder es) (All-sort IsFloor es (split-IsFloor ws pos)),
      )
