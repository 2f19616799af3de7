-- ===== src/Wallet/Balances.antt =====
-- The balance cache never outlives the wallet version that it was filled under:
-- src/services/wallet/walletStateService.ts.
use acbu_backend.Prelude.{ℕ, ◌+◌, ◌≡◌, refl, ap, ◌∙◌, inl, inr, none, some, List, [], ◌∷◌, arith}
use acbu_backend.Prelude.Result.{ok}
use acbu_backend.Wallet.Versions.{reserve_wallet_version_lem}
use acbu_backend.Wallet.{
  User, Store, Config, HorizonReply, CacheKey, CacheEntry, cache_key, get_cache,
  invalidate_balance_cache, reserve_wallet_version, fetch_live, fetch_wallet_balance,
}

get_cache-invalidate :
    (k : CacheKey) (es : List CacheEntry)
    → get_cache k (invalidate_balance_cache k.user_id es) ≡ none
unfolding get_cache invalidate_balance_cache
get_cache-invalidate k [] = refl
get_cache-invalidate k (e ∷ es) = ground (arith, get_cache-invalidate k es)

module _ (c : Config) (horizon : ℕ → HorizonReply) (read_at stored_at : ℕ) where
  fetch_missed :
      (id address : ℕ) (u : User) (s : Store)
      → s.users id ≡ some u
      → u.stellar_address ≡ some address
      → get_cache (cache_key c id) s.cache ≡ none
      → fetch_wallet_balance c horizon read_at stored_at id s
        ≡ fetch_live c horizon read_at stored_at id address u.wallet_version s
  unfolding fetch_wallet_balance
  fetch_missed id address u s e ea miss = ground arith

  -- After a `reserveWalletVersion` that succeeded, the next balance of that user comes from Horizon
  -- and is returned under the new version, whatever was cached before.
  pub fetch_after_reserve :
      (id v address : ℕ) (u : User) (s : Store)
      → s.users id ≡ some u
      → u.stellar_address ≡ some address
      → (reserve_wallet_version id (some v) s).0 ≡ ok (v + 1)
      → let s' = (reserve_wallet_version id (some v) s).1 in
        fetch_wallet_balance c horizon read_at stored_at id s'
        ≡ fetch_live c horizon read_at stored_at id address (v + 1) s'
  fetch_after_reserve id v address u s e ea h =
      elim (reserve_wallet_version_lem id u (some v) s e) [
        | inl won ↦
            let s' = (reserve_wallet_version id (some v) s).1 in
            let current : u.wallet_version ≡ v = ground arith in
            let missed : get_cache (cache_key c id) s'.cache ≡ none =
              rw (won.4) (get_cache-invalidate (cache_key c id) s.cache) in
            fetch_missed id address (record u { wallet_version = u.wallet_version + 1 }) s' won.2 ea
              missed
            ∙ ap (λ w. fetch_live c horizon read_at stored_at id address (w + 1) s') current
        | inr lost ↦ ground arith
      ]
