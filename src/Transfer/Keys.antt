-- ===== src/Transfer/Keys.antt =====
-- One key, one payment: src/services/transfer/transferService.ts.
use acbu_backend.Prelude.{
  ℕ, suc, ◌≡◌, refl, ◌≤◌, ◌⊎◌, inl, inr, Bool, true, false, Option, none, some, List, [], ◌∷◌, ◌++◌,
  arith, count_where, any, if◌then◌else◌,
}
use acbu_backend.Prelude.Result.{Result}
use acbu_backend.TransactionStatus.{Status}
use acbu_backend.Transfer.Amounts.{trim_start, trim_end}
use acbu_backend.Transfer.{
  Row, Payment, World, CreateTransferParams, CreateTransferOptions, TransferError, Env, same_key,
  has_key, key_is_taken, new_row, create_transfer, payment_of,
}
use acbu_backend.Transfer.Outcomes.{
  Ends, stays_pending, no_key, write_lost, paid_write_lost, client_paid, paid, paid_but_failed,
  not_paid, fee_too_low,
}
use acbu_backend.Transfer.Guards.{transfer_outcomes}

abbrev pub pays_with : ℕ → Payment → Bool
pays_with k p = same_key (some k) p.idempotency_key

-- No key stands in two rows, and none is paid more often than it stands in a row.
abbrev pub IsKeyed : List Row → List Payment → Type 0
IsKeyed rs ps =
    (k : ℕ)
    → (count_where (pays_with k) ps ≤ count_where (has_key k) rs) × (count_where (has_key k) rs ≤ 1)

any-count : (k : ℕ) (rs : List Row) → any (has_key k) rs ≡ false → count_where (has_key k) rs ≡ 0
any-count k [] h = refl
any-count k (r ∷ rs) h = ground (arith, any-count k rs)

-- A key that is not taken stands in no row.
free_key :
    (key : Option ℕ) (rs : List Row) (k : ℕ)
    → key_is_taken key rs ≡ false
    → same_key (some k) key ≡ true
    → count_where (has_key k) rs ≡ 0
free_key none rs k h e = ground arith
free_key (some j) rs k h e = let same : k ≡ j = ground arith in rw same (any-count j rs h)

-- The payments for a row are one at most, with its key.
Ends-key :
    (r : Row) (res : Result TransferError (ℕ × Status)) (st : Status) (hash : Option ℕ)
    (ps : List Payment)
    → Ends r res st hash ps
    → (ps ≡ []) ⊎ (ps ≡ payment_of r ∷ [])
Ends-key r _ _ _ _ stays_pending = inl refl
Ends-key r _ _ _ _ no_key = inl refl
Ends-key r _ _ _ _ write_lost = inl refl
Ends-key r _ _ _ _ paid_write_lost = inr refl
Ends-key r _ _ _ _ client_paid = inl refl
Ends-key r _ _ _ _ paid = inr refl
Ends-key r _ _ _ _ paid_but_failed = inr refl
Ends-key r _ _ _ _ not_paid = inl refl
Ends-key r _ _ _ _ fee_too_low = inl refl

count-new :
    (r : Row) (ps new : List Payment) (k : ℕ)
    → (new ≡ []) ⊎ (new ≡ payment_of r ∷ [])
    → count_where (pays_with k) (new ++ ps)
      ≤ (if has_key k r then suc (count_where (pays_with k) ps) else count_where (pays_with k) ps)
count-new r ps new k (inl e) = rw e (ground arith)
count-new r ps new k (inr e) = rw e (omega arith)

insert-IsKeyed :
    (r : Row) (rs : List Row) (ps new : List Payment)
    → IsKeyed rs ps
    → key_is_taken r.idempotency_key rs ≡ false
    → (new ≡ []) ⊎ (new ≡ payment_of r ∷ [])
    → IsKeyed (r ∷ rs) (new ++ ps)
insert-IsKeyed r rs ps new inv free e k =
    let count = count-new r ps new k e in let old = inv k in go (has_key k r) refl count
  where
    go :
        (b : Bool)
        → has_key k r ≡ b
        → count_where (pays_with k) (new ++ ps)
          ≤ (if b then suc (count_where (pays_with k) ps) else count_where (pays_with k) ps)
        → (count_where (pays_with k) (new ++ ps)
            ≤ (if b then suc (count_where (has_key k) rs) else count_where (has_key k) rs))
          × ((if b then suc (count_where (has_key k) rs) else count_where (has_key k) rs) ≤ 1)
    go true h count =
        let none_yet = free_key r.idempotency_key rs k free h in
        let old = inv k in (omega arith, omega arith)
    go false h count = let old = inv k in (omega arith, omega arith)

-- The rows that other requests insert keep the keys apart.
abbrev pub KeepsKeys : Env → World → Type 0
KeepsKeys env s = IsKeyed (env.inserted ++ s.rows) s.payments

-- A transfer keeps the keys apart: where no key stands in two rows, those that other requests insert
-- included, and none is paid more often than it stands in a row, that is so after `createTransfer`
-- too, whatever it returns.
pub create_transfer-IsKeyed :
    (env : Env) (q : CreateTransferParams) (o : CreateTransferOptions) (s : World)
    → IsKeyed s.rows s.payments
    → KeepsKeys env s
    → let out = (create_transfer env q o s).1 in IsKeyed out.rows out.payments
create_transfer-IsKeyed env q o s inv keeps = elim (transfer_outcomes env q o s) [
  | inl (_, inl rows, payments) ↦ rw (rows, payments) inv
  | inl (_, inr rows, payments) ↦ rw (rows, payments) keeps
  | inr (to, permitted, inserts) ↦
      let (free, settles) = inserts in
      let (st, hash, new, ends, rows, payments) = settles in
      let r = new_row env.new_id q (trim_end (trim_start q.amount_acbu)) to in
      let row : Row = record r { status = st; blockchain_tx_hash = hash } in
      rw (rows, payments)
        (insert-IsKeyed row (env.inserted ++ s.rows) s.payments new keeps free
          (Ends-key r (create_transfer env q o s).0 st hash new ends))
]

-- A call of `createTransfer` with what it finds around it.
pub record Request : Type 0 where
  pub env : Env
  pub params : CreateTransferParams
  pub options : CreateTransferOptions

abbrev pub run : List Request → World → World
run [] s = s
run (c ∷ cs) s = run cs (create_transfer c.env c.params c.options s).1

-- No other request inserts a row during a call: what it inserts is done by a call before or after.
abbrev pub OneByOne : List Request → Type 0
OneByOne [] = Unit {0}
OneByOne (c ∷ cs) = (c.env.inserted ≡ []) × OneByOne cs

run-IsKeyed :
    (cs : List Request) (s : World)
    → OneByOne cs
    → IsKeyed s.rows s.payments
    → IsKeyed (run cs s).rows (run cs s).payments
run-IsKeyed [] s h inv = inv
run-IsKeyed (c ∷ cs) s (h, hs) inv =
    run-IsKeyed cs (create_transfer c.env c.params c.options s).1 hs
      (create_transfer-IsKeyed c.env c.params c.options s inv (rw h inv))

-- Whatever transfers are asked for, one after the other, by whichever users, with whatever balances,
-- fees and failures around them: no idempotency key is paid twice, when at the start no key stands in
-- two rows and none is paid more often than it stands in a row.
pub key_paid_once :
    (cs : List Request) (s : World)
    → OneByOne cs
    → IsKeyed s.rows s.payments
    → (k : ℕ) → count_where (pays_with k) (run cs s).payments ≤ 1
key_paid_once cs s h inv k = let keyed = run-IsKeyed cs s h inv k in omega arith
