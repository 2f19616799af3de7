-- ===== src/Transfer/Guards.antt =====
-- What stands before a transfer: src/services/transfer/transferService.ts.
use acbu_backend.Prelude.{
  ℕ, ◌≡◌, refl, ◌⊎◌, inl, inr, Bool, true, false, Option, none, some, ◌++◌, arith, Bool-cases,
}
use acbu_backend.Prelude.Result.{Result, ok, err}
use acbu_backend.Wallet.{
  Store, User, Snapshot, WalletError, reserve_wallet_version, fetch_wallet_balance,
}
use acbu_backend.Recipient.{resolve_recipient_address}
use acbu_backend.Transfer.Amounts.{
  Text, balance_text, amount_to_smallest_unit, trim_start, trim_end,
}
use acbu_backend.Transfer.{
  Row, World, TravelRule, CreateTransferParams, CreateTransferOptions, TransferError, Env, truthy,
  replayed, key_is_taken, new_row, Outcome, address_of, is_below, is_own,
  check_travel_rule_compliance, valid_amount, after_fetch, after_claim, after_check, after_replay,
  after_amount, after_kyc, after_sender, found_again, settle_transfer, insert_transfer,
  check_transfer, pay, create_transfer,
}
use acbu_backend.Transfer.Outcomes.{Settles, settle_by-Settles}

-- The result is an error, or what the transfer of the sender with the key holds; no row is added but
-- those that other requests insert, no row is changed, and no payment is made.
abbrev pub Quiet : Env → CreateTransferParams → World → Outcome → Type 0
Quiet env q s out =
    (((e : TransferError) × (out.0 ≡ err e))
      ⊎ ((r : Row) × (out.0 ≡ ok (r.id, r.status))
          × (replayed (truthy q.idempotency_key) q.sender_user_id out.1.rows ≡ some r)))
    × ((out.1.rows ≡ s.rows) ⊎ (out.1.rows ≡ env.inserted ++ s.rows))
    × (out.1.payments ≡ s.payments)

-- The checks after the balance is read.
abbrev pub Checked : Env → CreateTransferParams → Option ℕ → ℕ → ℕ → Store → ℕ → Type 0
Checked env q own amount balance w to =
    (is_below (amount_to_smallest_unit (balance_text balance)) amount ≡ false)
    × (resolve_recipient_address env.directory (address_of w) q.to q.sender_user_id ≡ some to)
    × (is_own own to ≡ false)
    × (t : TravelRule) × (env.travel_rule ≡ some t)
    × (check_travel_rule_compliance t amount false ≡ true)

check_transfer-Checked :
    (env : Env) (q : CreateTransferParams) (own : Option ℕ) (amount balance : ℕ) (w : Store)
    (to : ℕ)
    → check_transfer env q own amount balance w ≡ ok to
    → Checked env q own amount balance w to
unfolding check_transfer
check_transfer-Checked env q own amount balance w to h = ground arith

unclaimed :
    {A : Type 0} (id claimed : ℕ) (if_match : Option ℕ) (w : Store)
    → if_match ≡ none
    → (reserve_wallet_version id if_match w).0 ≡ ok claimed
    → A
unfolding reserve_wallet_version
unclaimed id claimed none w h c = ground arith
unclaimed id claimed (some v) w h c = ground arith

module _ (env : Env) (q : CreateTransferParams) (o : CreateTransferOptions) where
  abbrev with_inserted : World → World
  with_inserted s = record s { rows = env.inserted ++ s.rows }

  -- The key is not taken, and the row that is added goes to `to`.
  abbrev pub Inserts : Text → ℕ → World → Outcome → Type 0
  Inserts text to s out =
      (key_is_taken q.idempotency_key (env.inserted ++ s.rows) ≡ false)
      × Settles (new_row env.new_id q text to) (with_inserted s) out

  insert_transfer-cases :
      (text : Text) (to : ℕ) (s : World)
      → Quiet env q s (insert_transfer env q o text to s)
        ⊎ Inserts text to s (insert_transfer env q o text to s)
  unfolding insert_transfer settle_transfer
  insert_transfer-cases text to s =
      elim (Bool-cases (key_is_taken q.idempotency_key (env.inserted ++ s.rows))) [
        | inl t ↦ inl (
            rw t (
              go (replayed (truthy q.idempotency_key) q.sender_user_id (env.inserted ++ s.rows))
                refl))
        | inr f ↦ inr (
            rw f (
              refl,
              settle_by-Settles env env.new_id q text to (truthy o.submitted_blockchain_tx_hash)
                  o.get_sender_signing_key (with_inserted s),
            ))
      ]
    where
      go :
          (found : Option Row)
          → replayed (truthy q.idempotency_key) q.sender_user_id (env.inserted ++ s.rows) ≡ found
          → Quiet env q s (found_again env found (with_inserted s))
      go none h = (inl (_, refl), inr refl, refl)
      go (some r) h = (inr (r, refl, h), inr refl, refl)

  after_check-cases :
      (text : Text) (checked : Result TransferError ℕ) (s : World)
      → let out = after_check env q o text checked s in
        Quiet env q s out ⊎ ((to : ℕ) × (checked ≡ ok to) × Inserts text to s out)
  after_check-cases text (err e) s = inl (inl (e, refl), inl refl, refl)
  after_check-cases text (ok to) s = elim (insert_transfer-cases text to s) [
    | inl quiet ↦ inl quiet
    | inr inserts ↦ inr (to, refl, inserts)
  ]

  after_fetch-cases :
      (text : Text) (amount : ℕ) (own : Option ℕ) (fetched : Result WalletError (Snapshot × ℕ))
      (s : World)
      → let out = after_fetch env q o text amount own fetched s in
        Quiet env q s out
        ⊎ ((snapshot : Snapshot) × (version : ℕ) × (to : ℕ) × (fetched ≡ ok (snapshot, version))
            × Checked env q own amount snapshot.balance s.wallet to
            × Inserts text to s out)
  after_fetch-cases text amount own (err e) s = inl (inl (_, refl), inl refl, refl)
  after_fetch-cases text amount own (ok (snapshot, version)) s =
      elim (after_check-cases text (check_transfer env q own amount snapshot.balance s.wallet) s) [
        | inl quiet ↦ inl quiet
        | inr (to, e, inserts) ↦ inr (
          snapshot,
          version,
          to,
          refl,
          check_transfer-Checked env q own amount snapshot.balance s.wallet to e,
          inserts,
        )
      ]

  -- The balance that is read once the version is claimed, and the wallet after it.
  abbrev pub fetched_from : Store → Result WalletError (Snapshot × ℕ) × Store
  fetched_from =
      fetch_wallet_balance env.config env.horizon env.read_at env.stored_at q.sender_user_id

  -- What a transfer of `amount` to `to` needs of a sender with the address `own`: the version of the
  -- wallet, a balance that covers it and a recipient that is allowed.
  abbrev pub Payable : ℕ → Option ℕ → Store → ℕ → Type 0
  Payable amount own w to =
      (claimed version : ℕ) × (snapshot : Snapshot) × ((reserve_wallet_version q.sender_user_id
          o.if_match w).0
        ≡ ok claimed)
      × ((fetched_from (reserve_wallet_version q.sender_user_id o.if_match w).1).0
          ≡ ok (snapshot, version))
      × Checked env q own amount snapshot.balance
          (fetched_from (reserve_wallet_version q.sender_user_id o.if_match w).1).1 to

  pay-cases :
      (text : Text) (amount : ℕ) (own : Option ℕ) (s : World)
      → let out = pay env q o text amount own s in
        Quiet env q s out ⊎ ((to : ℕ) × Payable amount own s.wallet to × Inserts text to s out)
  unfolding pay
  pay-cases text amount own s =
      go (reserve_wallet_version q.sender_user_id o.if_match s.wallet).0 refl
    where
      w : Store
      w = (reserve_wallet_version q.sender_user_id o.if_match s.wallet).1

      go :
          (claimed : Result WalletError ℕ)
          → (reserve_wallet_version q.sender_user_id o.if_match s.wallet).0 ≡ claimed
          → let out = after_claim env q o text amount own claimed (record s { wallet = w }) in
            Quiet env q s out ⊎ ((to : ℕ) × Payable amount own s.wallet to × Inserts text to s out)
      go (err e) h = inl (inl (_, refl), inl refl, refl)
      go (ok claimed) h =
          let (fetched, w') = fetched_from w in
          elim (after_fetch-cases text amount own fetched (record s { wallet = w' })) [
            | inl quiet ↦ inl quiet
            | inr (snapshot, version, to, f, checked, inserts) ↦
                inr (to, (claimed, version, snapshot, h, f, checked), inserts)
          ]

  -- What a transfer of the amount that a text gives needs.
  abbrev pub Permitted : ℕ → World → Type 0
  Permitted to s =
      (amount : ℕ) × (u : User) × (valid_amount (trim_end (trim_start q.amount_acbu)) ≡ some amount)
      × (s.wallet.users q.sender_user_id ≡ some u)
      × (env.kyc_verified q.sender_user_id ≡ true)
      × (replayed (truthy q.idempotency_key) q.sender_user_id s.rows ≡ none)
      × Payable amount u.stellar_address s.wallet to

  -- `createTransfer` ends in one of two ways. Either it returns an error or an existing row, adds and
  -- changes no row and makes no payment; or the amount is valid, the sender is verified, no transfer
  -- of the sender has the key, the version of the wallet was claimed, the balance that was read after
  -- it covers the amount, the recipient is found and is not the sender, the Travel Rule allows the
  -- payment and no row has the key, and then it adds one row in front, which ends, with the payments
  -- made, as the result says: it stays pending, is paid or is failed, also where the call throws after
  -- that, since the signing key, the payment or a write of the row fails.
  pub transfer_outcomes :
      (s : World)
      → let out = create_transfer env q o s in
        Quiet env q s out
        ⊎ ((to : ℕ) × Permitted to s × Inserts (trim_end (trim_start q.amount_acbu)) to s out)
  unfolding create_transfer
  transfer_outcomes s = from_amount (valid_amount text) refl
    where
      text : Text
      text = trim_end (trim_start q.amount_acbu)

      Ending : Outcome → Type 0
      Ending out = Quiet env q s out ⊎ ((to : ℕ) × Permitted to s × Inserts text to s out)

      from_replay :
          (amount : ℕ) (u : User) (found : Option Row)
          → valid_amount text ≡ some amount
          → s.wallet.users q.sender_user_id ≡ some u
          → env.kyc_verified q.sender_user_id ≡ true
          → replayed (truthy q.idempotency_key) q.sender_user_id s.rows ≡ found
          → Ending (after_replay env q o text amount u.stellar_address found s)
      from_replay amount u (some r) a e k h = inl (inr (r, refl, h), inl refl, refl)
      from_replay amount u none a e k h = elim (pay-cases text amount u.stellar_address s) [
        | inl quiet ↦ inl quiet
        | inr (to, payable, inserts) ↦ inr (to, (amount, u, a, e, k, h, payable), inserts)
      ]

      from_kyc :
          (amount : ℕ) (u : User) (verified : Bool)
          → valid_amount text ≡ some amount
          → s.wallet.users q.sender_user_id ≡ some u
          → env.kyc_verified q.sender_user_id ≡ verified
          → Ending (after_kyc env q o text amount u.stellar_address verified s)
      from_kyc amount u false a e k = inl (inl (_, refl), inl refl, refl)
      from_kyc amount u true a e k = from_replay amount u _ a e k refl

      from_sender :
          (amount : ℕ) (sender : Option User)
          → valid_amount text ≡ some amount
          → s.wallet.users q.sender_user_id ≡ sender
          → Ending (after_sender env q o text amount sender s)
      from_sender amount none a e = inl (inl (_, refl), inl refl, refl)
      from_sender amount (some u) a e =
          from_kyc amount u (env.kyc_verified q.sender_user_id) a e refl

      from_amount :
          (amount : Option ℕ)
          → valid_amount text ≡ amount
          → Ending (after_amount env q o text amount s)
      from_amount none a = inl (inl (_, refl), inl refl, refl)
      from_amount (some n) a = from_sender n (s.wallet.users q.sender_user_id) a refl

  -- Without a wallet version in the request, as the salary service calls it, `createTransfer` adds and
  -- changes no row and makes no payment.
  pub without_if_match : (s : World) → o.if_match ≡ none → Quiet env q s (create_transfer env q o s)
  without_if_match s h = elim (transfer_outcomes s) [
    | inl quiet ↦ quiet
    | inr (to, (amount, u, a, e, k, r, payable), inserts) ↦
        let (claimed, version, snapshot, c, f, checked) = payable in
        unclaimed q.sender_user_id claimed o.if_match s.wallet h c
  ]

  -- Without a configuration of the Travel Rule, as in src/config/env.ts, no transfer adds or changes a
  -- row or makes a payment.
  pub without_travel_rule :
      (s : World) → env.travel_rule ≡ none → Quiet env q s (create_transfer env q o s)
  without_travel_rule s h = elim (transfer_outcomes s) [
    | inl quiet ↦ quiet
    | inr (to, (amount, u, a, e, k, r, payable), inserts) ↦
        let (claimed, version, snapshot, c, f, checked) = payable in
        let (b, recipient, own, t, configured, compliant) = checked in ground arith
  ]
