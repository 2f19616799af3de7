-- ===== src/Wallet/Versions.antt =====
-- The version of a wallet is a compare-and-swap: src/services/wallet/walletStateService.ts.
use acbu_backend.Prelude.{
  ℕ, ◌+◌, ◌≡◌, refl, ◌≢◌, ◌⊎◌, inl, inr, Option, none, some, arith, ◌==◌, Bool-cases,
}
use acbu_backend.Prelude.Result.{ok, err}
use acbu_backend.Wallet.{
  User, Store, precondition_required, precondition_failed, reserve_wallet_version,
  invalidate_balance_cache,
}

pub reserve_wallet_version_lem :
    (id : ℕ) (u : User) (if_match : Option ℕ) (s : Store)
    → s.users id ≡ some u
    → let (r, s') = reserve_wallet_version id if_match s in
      ((if_match ≡ some u.wallet_version)
        × (r ≡ ok (u.wallet_version + 1))
        × (s'.users id ≡ some (record u { wallet_version = u.wallet_version + 1 }))
        × ((j : ℕ) → j ≢ id → s'.users j ≡ s.users j)
        × (s'.cache ≡ invalidate_balance_cache id s.cache))
      ⊎ ((if_match ≢ some u.wallet_version)
          × ((r ≡ err precondition_failed) ⊎ ((r ≡ err precondition_required) × (if_match ≡ none)))
          × (s' ≡ s))
unfolding reserve_wallet_version
reserve_wallet_version_lem id u none s e = inr (λ h. cc, inr (refl, refl), refl)
reserve_wallet_version_lem id u (some v) s e = elim (Bool-cases (u.wallet_version == v)) [
  | inl t ↦ inl (ground arith, ground arith, ground arith, λ j ne. ground arith, ground arith)
  | inr f ↦ inr (ground arith, inl (ground arith), ground arith)
]
