-- ===== src/Basket/Weights.antt =====
-- Every basket that the service hands out is complete: src/services/basket/basketService.ts.
use acbu_backend.Prelude.{
  ℕ, ◌+◌, ◌≡◌, refl, sym, ◌⊎◌, inl, inr, List, [], ◌∷◌, map, ◌==◌, ◌&&◌, leb, select, arith,
}
use mathlib.Core.Path.{subst}
use acbu_backend.Prelude.Result.{ok}
use acbu_backend.Basket.{
  BasketEntry, ConfigRow, get_default_basket, get_current_basket, get_basket_as_of, sum_weights,
  entry_of, latest_basket, latest_effective_from, latest_or,
}

abbrev pub total_weight : List BasketEntry → ℕ
total_weight [] = 0
total_weight (e ∷ es) = e.weight + total_weight es

total_weight-map : (rs : List ConfigRow) → total_weight (map entry_of rs) ≡ sum_weights rs
total_weight-map [] = refl
total_weight-map (r ∷ rs) = omega (arith, total_weight-map rs)

latest_basket-total :
    (rows : List ConfigRow) (basket : List BasketEntry)
    → latest_basket rows ≡ ok basket
    → total_weight basket ≡ 10000
latest_basket-total rows basket h =
    ground
      (arith, total_weight-map (select (λ r. r.effective_from == latest_effective_from rows) rows))

latest_or-total :
    (fallback basket : List BasketEntry) (rows : List ConfigRow)
    → latest_or fallback rows ≡ ok basket
    → (fallback ≡ basket) ⊎ (total_weight basket ≡ 10000)
latest_or-total fallback basket [] h = inl (cc)
latest_or-total fallback basket (r ∷ rs) h = inr (latest_basket-total (r ∷ rs) basket h)

default-total : total_weight get_default_basket ≡ 10000
unfolding get_default_basket
default-total = refl

-- Whatever rows the table holds, a current basket that is returned has weights that sum to exactly
-- 100%, the default basket of an empty table included; and a historic basket does so too, or is
-- empty.
pub basket-total_weight :
    (date : ℕ) (table : List ConfigRow) (basket : List BasketEntry)
    → (get_current_basket table ≡ ok basket → total_weight basket ≡ 10000)
      × (get_basket_as_of date table ≡ ok basket → (basket ≡ []) ⊎ (total_weight basket ≡ 10000))
unfolding get_current_basket get_basket_as_of
basket-total_weight date table basket = (
  λ h. complete _ (latest_or-total get_default_basket basket (select (λ r. r.active) table) h),
  λ h.
      maybe_empty _
        (latest_or-total [] basket (select (λ r. r.active && leb r.effective_from date) table) h),
)
  where
    complete :
        (b : List BasketEntry)
        → (get_default_basket ≡ b) ⊎ (total_weight b ≡ 10000)
        → total_weight b ≡ 10000
    complete b (inl e) = subst (λ x. total_weight x ≡ 10000) e default-total
    complete b (inr t) = t

    maybe_empty :
        (b : List BasketEntry)
        → ([] ≡ b) ⊎ (total_weight b ≡ 10000)
        → (b ≡ []) ⊎ (total_weight b ≡ 10000)
    maybe_empty b (inl e) = inl (sym e)
    maybe_empty b (inr t) = inr t
