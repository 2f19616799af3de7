-- ===== src/Treasury/Aggregates.antt =====
-- The aggregates by currency are the sums over the rows: src/services/treasury/TreasuryService.ts.
use acbu_backend.Prelude.{
  ℕ, max, zero, suc, length, ◌≡◌, refl, ◌∙◌, ap, ◌≤◌, Bool, true, false, Option, none, some, List,
  [], ◌∷◌, ◌==◌, ◌&&◌, if◌then◌else◌, count_where, arith, take, select, inl, inr, Bool-cases,
}
use acbu_backend.TransactionStatus.{Status, pending, processing, completed, failed, refunded}
use acbu_backend.Treasury.{
  Kind, mint, burn, transfer, other, Arithmetic, Transaction, TransactionAggregate,
  decimal_to_number, empty_aggregate, add_amount, update_aggregate, add_transaction,
  add_transactions, row_cap, is_final, is_listed, is_counted, aggregate_transactions_by_segment,
}

abbrev pub is_kind : Kind → Kind → Bool
is_kind mint mint = true
is_kind burn burn = true
is_kind transfer transfer = true
is_kind _ _ = false

abbrev pub in_currency : ℕ → Option ℕ → Bool
in_currency c none = false
in_currency c (some d) = d == c

-- The rows of a kind in a currency.
abbrev pub rows_of : Kind → ℕ → Transaction → Bool
rows_of k c t = is_kind k t.kind && in_currency c t.local_currency

-- The rows that count: completed or processing, and a mint, a burn or a transfer.
abbrev pub is_under_way : Status → Bool
is_under_way completed = true
is_under_way processing = true
is_under_way pending = false
is_under_way failed = false
is_under_way refunded = false

abbrev pub counts : Transaction → Bool
counts t = is_under_way t.status && is_kind t.kind t.kind

is_final-is_under_way : (st : Status) → is_final st ≡ is_under_way st
is_final-is_under_way completed = refl
is_final-is_under_way _ = refl

is_listed-is_kind : (k : Kind) → is_listed k ≡ is_kind k k
is_listed-is_kind mint = refl
is_listed-is_kind _ = refl

select-counts : (ts : List Transaction) → select is_counted ts ≡ select counts ts
select-counts [] = refl
select-counts (t ∷ ts) =
    let same : is_counted t ≡ counts t =
      rw (is_final-is_under_way t.status, is_listed-is_kind t.kind) refl in
    rw (same, select-counts ts) refl

take-all : (n : ℕ) (ts : List Transaction) → length ts ≤ n → take n ts ≡ ts
take-all zero [] h = refl
take-all zero (t ∷ ts) h = absurd (omega (arith, h))
take-all (suc n) [] h = refl
take-all (suc n) (t ∷ ts) h = ap (λ r. t ∷ r) (take-all n ts (omega (arith, h)))

module _ {D : Type 0} (n : Arithmetic D) where
  abbrev pub for_currency : ℕ → TransactionAggregate D → Bool
  for_currency c a = a.currency == c

  -- The total of a kind in an aggregate.
  abbrev pub total : Kind → TransactionAggregate D → D
  total mint a = a.total_minted_usd
  total burn a = a.total_burned_usd
  total transfer a = a.net_transferred_usd
  total other a = n.nought

  -- The total of a kind in the entry of a currency.
  abbrev pub total_in : Kind → ℕ → List (TransactionAggregate D) → D
  total_in k c [] = n.nought
  total_in k c (a ∷ xs) = let rest = total_in k c xs in if for_currency c a then total k a else rest

  -- What a number becomes when the amounts of the rows that pass are added to it, one after the other.
  abbrev pub added : (Transaction → Bool) → D → List Transaction → D
  added p acc [] = acc
  added p acc (t ∷ ts) =
      added p (if p t then n.plus acc (decimal_to_number n t.usdc_amount) else acc) ts

  total-add :
      (k j : Kind) (x : D) (a : TransactionAggregate D)
      → total k (add_amount n j x a) ≡ (if is_kind k j then n.plus (total k a) x else total k a)
  total-add mint mint x a = refl
  total-add mint _ x a = refl
  total-add burn burn x a = refl
  total-add burn _ x a = refl
  total-add transfer transfer x a = refl
  total-add transfer _ x a = refl
  total-add other mint x a = refl
  total-add other _ x a = refl

  currency-add :
      (j : Kind) (x : D) (a : TransactionAggregate D) → (add_amount n j x a).currency ≡ a.currency
  currency-add mint x a = refl
  currency-add _ x a = refl

  total-empty : (k : Kind) (c : ℕ) → total k (empty_aggregate n c) ≡ n.nought
  total-empty mint c = refl
  total-empty _ c = refl

  total_in-update :
      (k j : Kind) (c d : ℕ) (x : D) (xs : List (TransactionAggregate D))
      → total_in k c (update_aggregate n d (add_amount n j x) xs)
        ≡ (if is_kind k j && (d == c) then n.plus (total_in k c xs) x else total_in k c xs)
  total_in-update k j c d x [] = ground (
    arith,
    total-add k j x (empty_aggregate n d),
    total-empty k d,
    currency-add j x (empty_aggregate n d),
  )
  total_in-update k j c d x (a ∷ xs) =
      ground (arith, total-add k j x a, currency-add j x a, total_in-update k j c d x xs)

  count-update :
      (j : Kind) (c d : ℕ) (x : D) (xs : List (TransactionAggregate D))
      → count_where (for_currency c) (update_aggregate n d (add_amount n j x) xs) ≡ (
          if d == c
          then max 1 (count_where (for_currency c) xs)
          else count_where (for_currency c) xs)
  count-update j c d x [] = ground (arith, currency-add j x (empty_aggregate n d))
  count-update j c d x (a ∷ xs) = ground (arith, currency-add j x a, count-update j c d x xs)

  total_in-add :
      (k : Kind) (c : ℕ) (t : Transaction) (xs : List (TransactionAggregate D))
      → total_in k c (add_transaction n t xs) ≡ (
          if rows_of k c t
          then n.plus (total_in k c xs) (decimal_to_number n t.usdc_amount)
          else total_in k c xs)
  total_in-add k c t xs = go t.local_currency
    where
      amount : D
      amount = decimal_to_number n t.usdc_amount

      go :
          (l : Option ℕ)
          → total_in k c
              (elim l [ none ↦ xs | some d ↦ update_aggregate n d (add_amount n t.kind amount) xs ])
            ≡ (if is_kind k t.kind && in_currency c l
                then n.plus (total_in k c xs) amount
                else total_in k c xs)
      go none = ground arith
      go (some d) = total_in-update k t.kind c d amount xs

  total_in-add_transactions :
      (k : Kind) (c : ℕ) (ts : List Transaction) (xs : List (TransactionAggregate D))
      → total_in k c (add_transactions n ts xs) ≡ added (rows_of k c) (total_in k c xs) ts
  total_in-add_transactions k c [] xs = refl
  total_in-add_transactions k c (t ∷ ts) xs =
      total_in-add_transactions k c ts (add_transaction n t xs)
      ∙ ap (λ acc. added (rows_of k c) acc ts) (total_in-add k c t xs)

  added-select :
      (p q : Transaction → Bool) (ts : List Transaction) (acc : D)
      → added p acc (select q ts) ≡ added (λ t. q t && p t) acc ts
  added-select p q [] acc = refl
  added-select p q (t ∷ ts) acc = elim (Bool-cases (q t)) [
    | inl e ↦
        rw e (
          added-select p q ts (if p t then n.plus acc (decimal_to_number n t.usdc_amount) else acc))
    | inr e ↦ rw e (added-select p q ts acc)
  ]

  count-add :
      (c : ℕ) (t : Transaction) (xs : List (TransactionAggregate D))
      → count_where (for_currency c) xs ≤ 1
      → count_where (for_currency c) (add_transaction n t xs) ≤ 1
  count-add c t xs h = go t.local_currency
    where
      amount : D
      amount = decimal_to_number n t.usdc_amount

      go :
          (l : Option ℕ)
          → count_where
              (for_currency c)
              (elim l [ none ↦ xs | some d ↦ update_aggregate n d (add_amount n t.kind amount) xs ])
            ≤ 1
      go none = h
      go (some d) = ground (arith, h, count-update t.kind c d amount xs)

  count-add_transactions :
      (c : ℕ) (ts : List Transaction) (xs : List (TransactionAggregate D))
      → count_where (for_currency c) xs ≤ 1
      → count_where (for_currency c) (add_transactions n ts xs) ≤ 1
  count-add_transactions c [] xs h = h
  count-add_transactions c (t ∷ ts) xs h =
      count-add_transactions c ts (add_transaction n t xs) (count-add c t xs h)

  -- Of at most 50,000 mints, burns and transfers that are completed or processing, the aggregates have
  -- one entry at most for each currency, and for each of the three kinds it holds what comes of zero
  -- when the amounts of all these rows of that kind in that currency are added to it, in the order of
  -- the rows and by the addition of the program's numbers, whatever its rounding.
  pub aggregate-sums :
      (ts : List Transaction)
      → length (select counts ts) ≤ 50000
      → (k : Kind) (c : ℕ)
      → (count_where (for_currency c) (aggregate_transactions_by_segment n ts) ≤ 1)
        × (total_in k c (aggregate_transactions_by_segment n ts)
            ≡ added (λ t. counts t && rows_of k c t) n.nought ts)
  unfolding aggregate_transactions_by_segment
  aggregate-sums ts h k c = (
    count-add_transactions c (take row_cap (select is_counted ts)) [] (omega arith),
    ap (λ rows. total_in k c (add_transactions n (take row_cap rows) [])) (select-counts ts)
        ∙ ap (λ rows. total_in k c (add_transactions n rows []))
            (take-all row_cap (select counts ts) h)
        ∙ total_in-add_transactions k c (select counts ts) []
        ∙ added-select (rows_of k c) counts ts n.nought,
  )
