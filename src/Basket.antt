-- ===== src/Basket.antt =====
-- The basket of currencies and its weights: src/services/basket/basketService.ts and
-- src/config/basket.ts. Currency codes are only compared, so they are numbers, and those of the
-- basket are numbered in the order of the source. A stored weight has two decimals of a percent, so
-- it is a number of basis points: 10000 are 100%.
pub mod Rounding
pub mod Weights
use acbu_backend.Prelude.{
  ℕ, ◌+◌, ◌-◌, ◌*◌, ◌/◌, ◌%◌, max, Bool, true, false, not, Option, none, some, List, [], ◌∷◌, map,
  ltb, leb, ◌==◌, ◌&&◌, ◌||◌, if◌then◌else◌, length, select, any, zero, suc,
}
use acbu_backend.Prelude.Result.{Result, ok, err, guard, ◌>>◌, ◌>>=◌}

-- `BASKET_CURRENCIES`: NGN, ZAR, KES, EGP, GHS, RWF, XOF, MAD, TZS, UGX.
abbrev pub basket_currencies : List ℕ
basket_currencies = 0 ∷ 1 ∷ 2 ∷ 3 ∷ 4 ∷ 5 ∷ 6 ∷ 7 ∷ 8 ∷ 9 ∷ []

-- `BASKET_WEIGHTS`, in basis points.
abbrev pub basket_weights : List (ℕ × ℕ)
basket_weights =
    (0, 1800)
    ∷ (1, 1500)
    ∷ (2, 1200)
    ∷ (3, 1100)
    ∷ (4, 900)
    ∷ (5, 800)
    ∷ (6, 800)
    ∷ (7, 700)
    ∷ (8, 600)
    ∷ (9, 600)
    ∷ []

-- `BASKET_WEIGHT_BASIS_POINTS`
abbrev pub basket_weight_basis_points : ℕ
basket_weight_basis_points = 10000

pub record BasketEntry : Type 0 where
  pub currency : ℕ
  pub weight : ℕ

-- `weights[c] ?? 0`
abbrev pub weight_or_zero : ℕ → List (ℕ × ℕ) → ℕ
weight_or_zero c [] = 0
weight_or_zero c ((j, w) ∷ ws) = if j == c then w else weight_or_zero c ws

-- `getDefaultBasket`
unfoldable pub get_default_basket : List BasketEntry
get_default_basket =
    map (λ c. record { currency = c; weight = weight_or_zero c basket_weights }) basket_currencies

-- A row of `BasketConfig`.
pub record ConfigRow : Type 0 where
  pub currency : ℕ
  pub weight : ℕ
  pub active : Bool
  pub effective_from : ℕ

pub data BasketError : Type 0 where
  invalid_weights : ℕ → BasketError

-- `rows[0].effectiveFrom` of rows in descending order of it.
abbrev pub latest_effective_from : List ConfigRow → ℕ
latest_effective_from [] = 0
latest_effective_from (r ∷ rs) = max r.effective_from (latest_effective_from rs)

abbrev pub sum_weights : List ConfigRow → ℕ
sum_weights [] = 0
sum_weights (r ∷ rs) = r.weight + sum_weights rs

abbrev entry_of : ConfigRow → BasketEntry
entry_of r = record { currency = r.currency; weight = r.weight }

-- What both readers do with the rows of the query.
abbrev latest_basket : List ConfigRow → Result BasketError (List BasketEntry)
latest_basket rows =
    let current_rows = select (λ r. r.effective_from == latest_effective_from rows) rows in
    let sum_bps = sum_weights current_rows in
    if sum_bps == basket_weight_basis_points
    then ok (map entry_of current_rows)
    else err (invalid_weights sum_bps)

-- The early return on no rows, and the rest.
abbrev latest_or : List BasketEntry → List ConfigRow → Result BasketError (List BasketEntry)
latest_or fallback [] = ok fallback
latest_or fallback (r ∷ rs) = latest_basket (r ∷ rs)

-- `getCurrentBasket`, over the table.
unfoldable pub get_current_basket : List ConfigRow → Result BasketError (List BasketEntry)
unfolding get_default_basket
get_current_basket table = latest_or get_default_basket (select (λ r. r.active) table)

-- `getBasketAsOf`
unfoldable pub get_basket_as_of : ℕ → List ConfigRow → Result BasketError (List BasketEntry)
get_basket_as_of date table =
    latest_or [] (select (λ r. r.active && leb r.effective_from date) table)

-- `basket.find((e) => e.currency === currency)?.weight ?? 0`
abbrev pub find_weight : ℕ → List BasketEntry → ℕ
find_weight c [] = 0
find_weight c (e ∷ es) = if e.currency == c then e.weight else find_weight c es

-- `getTargetWeight`
unfoldable pub get_target_weight : ℕ → List ConfigRow → Result BasketError ℕ
unfolding get_current_basket
get_target_weight currency table = do
  basket ← get_current_basket table
  ok (find_weight currency basket)

-- `getCurrencies`
unfoldable pub get_currencies : List ConfigRow → Result BasketError (List ℕ)
unfolding get_current_basket
get_currencies table = do basket ← get_current_basket table; ok (map (λ e. e.currency) basket)

-- `isAllowedDepositCurrency`
unfoldable pub is_allowed_deposit_currency : ℕ → Bool
is_allowed_deposit_currency currency = any (λ c. c == currency) basket_currencies

-- Rounding of weights that are finer than a basis point. A weight counts parts of which `unit` make
-- a basis point; the tolerance of 1e-8 percent on their total is 1e-6 basis points.
pub data RoundingError : Type 0 where
  wrong_total invalid_weight cannot_allocate : RoundingError

pub record Entry : Type 0 where
  pub currency : ℕ
  pub scaled : ℕ
  pub floored : ℕ
  pub remainder : ℕ

abbrev pub sum_parts : List (ℕ × ℕ) → ℕ
sum_parts [] = 0
sum_parts ((_, w) ∷ ws) = w + sum_parts ws

abbrev pub sum_floored : List Entry → ℕ
sum_floored [] = 0
sum_floored (e ∷ es) = e.floored + sum_floored es

-- `entries.sort((a, b) => b.remainder - a.remainder)`, which is stable.
unfoldable pub insert_by_remainder : Entry → List Entry → List Entry
insert_by_remainder e [] = e ∷ []
insert_by_remainder e (f ∷ fs) =
    let later = f ∷ insert_by_remainder e fs in
    if leb f.remainder e.remainder then e ∷ f ∷ fs else later

unfoldable pub sort_by_remainder : List Entry → List Entry
unfolding insert_by_remainder
sort_by_remainder [] = []
sort_by_remainder (e ∷ es) = insert_by_remainder e (sort_by_remainder es)

-- The loop that gives a basis point to each of the first `missing` entries.
unfoldable pub give_missing : ℕ → List Entry → List Entry
give_missing zero es = es
give_missing (suc n) [] = []
give_missing (suc n) (e ∷ es) = record e { floored = e.floored + 1 } ∷ give_missing n es

module _ (unit : ℕ) where
  abbrev pub split_weight : ℕ × ℕ → Entry
  split_weight (c, w) = record {
    currency = c;
    scaled = w;
    floored = w / unit;
    remainder = w % unit;
  }

  -- `Math.abs(total - BASKET_WEIGHTS_SUM) > 1e-8`
  abbrev pub off_total : ℕ → Bool
  off_total total =
      ltb unit ((total - 10000 * unit) * 1000000) || ltb unit ((10000 * unit - total) * 1000000)

  -- `roundWeightsToExactBasisPoints`; the weights of the result are in basis points.
  unfoldable pub round_weights_to_exact_basis_points :
      List (ℕ × ℕ) → Result RoundingError (List Entry)
  unfolding sort_by_remainder give_missing
  round_weights_to_exact_basis_points weights = do
    guard (not (off_total (sum_parts weights))) wrong_total
    guard (not (any (λ w. ltb (10000 * unit) w.1) weights)) invalid_weight
    let entries = map split_weight weights
    let missing = 10000 - sum_floored entries
    guard (leb (sum_floored entries) 10000 && leb missing (length entries)) cannot_allocate
    ok (give_missing missing (sort_by_remainder entries))
