-- ===== src/Pagination/Range.antt =====
-- The pages that can be asked for: src/utils/pagination.ts.
use native.Mathlib.Nat.{div-one, le-div_iff_mul-le}
use acbu_backend.Prelude.{
  ℕ, ◌≤◌, ◌<◌, ◌≡◌, refl, inl, inr, true, Option, none, ltb, leb, if◌then◌else◌, min, max, Fraction,
  over, arith, Bool-cases,
}
use acbu_backend.Pagination.{
  max_page_limit, max_page_offset, Query, unusable, below_zero, number, OffsetPagination, floor,
  parse_offset_pagination, or_default,
}

-- The pagination is within its range: at least one row, and no more than the limit and the offset
-- that the database takes.
pub data InRange (max_limit : ℕ) (p : OffsetPagination) : Type 0 where
  in_range : 1 ≤ p.limit → p.limit ≤ max_limit → p.offset ≤ max_page_offset → InRange max_limit p

floor-pos : (q : Fraction) → 0 < q.den → leb q.den q.num ≡ true → 1 ≤ floor q
floor-pos q d h = (le-div_iff_mul-le d).1 (ground arith)

-- A query value has a positive denominator.
abbrev pub IsNumber : Query → Type 0
IsNumber (number q) = 0 < q.den
IsNumber _ = Unit

offset_bounded :
    (l : Query) (d m : Option ℕ) (o : Query)
    → (parse_offset_pagination l o d m).offset ≤ max_page_offset
unfolding parse_offset_pagination
offset_bounded l d m unusable = omega arith
offset_bounded l d m below_zero = omega arith
offset_bounded l d m (number q) = ground arith

limit_bounded :
    (o : Query) (d m : Option ℕ) (l : Query)
    → IsNumber l
    → let max_limit = max 1 (or_default max_page_limit m) in
      let p = parse_offset_pagination l o d m in (1 ≤ p.limit) × (p.limit ≤ max_limit)
unfolding parse_offset_pagination
limit_bounded o d m unusable n = (omega arith, omega arith)
limit_bounded o d m below_zero n = (omega arith, omega arith)
limit_bounded o d m (number q) n = elim (Bool-cases (leb q.den q.num)) [
  | inl t ↦ rw t (omega (arith, floor-pos q n t), omega arith)
  | inr f ↦ rw f (omega arith, omega arith)
]

-- Whatever the query values and the options are, the limit is at least one and at most the largest
-- page (100, or what the options say, but at least one), and the offset fits the database's integer.
pub pagination-InRange :
    (l o : Query) (d m : Option ℕ)
    → IsNumber l
    → InRange (max 1 (or_default max_page_limit m)) (parse_offset_pagination l o d m)
pagination-InRange l o d m n =
    let (low, high) = limit_bounded o d m l n in in_range low high (offset_bounded l d m o)

-- A request for a whole number of rows from 1 to 100 after a whole number of rows that fits the
-- database is taken as it is, with the default options.
pub pagination_as_asked :
    (n k : ℕ)
    → 1 ≤ n
    → n ≤ max_page_limit
    → k ≤ max_page_offset
    → parse_offset_pagination (number (over n 1)) (number (over k 1)) none none
      ≡ record { limit = n; offset = k }
unfolding parse_offset_pagination
pagination_as_asked n k low high fits =
    let a : (if leb 1 n then min max_page_limit n else 20) ≡ n = ground arith in
    let b : (if ltb 0 k then min max_page_offset k else 0) ≡ k = ground arith in
    rw (div-one n, div-one k, a, b) refl
