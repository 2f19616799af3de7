-- ===== src/Wallet.antt =====
-- Wallet state under optimistic concurrency: src/services/wallet/walletStateService.ts, with the
-- `If-Match` test of src/utils/walletConcurrency.ts. Ids, addresses and secrets are only compared or
-- stored, so they are numbers; a balance counts the smallest unit of 7 decimals. The header stands
-- for what `parseIfMatchHeader` reads in it. The key of the balance cache joins four texts with bars;
-- it is a record here, and the test on its prefix compares the user, which holds for ids without a
-- bar, as the UUIDs of the database are.
mod Types
pub mod Versions
pub mod Races
pub mod Balances
pub mod Coherence
unfoldable pub use Types.*
use acbu_backend.Prelude.{
  ℕ, ◌+◌, min, Parsed, not_finite, negative, natural, Bool, true, false, not, Option, none, some,
  List, [], ◌∷◌, ◌&&◌, ltb, ◌==◌, if◌then◌else◌, select,
}
use acbu_backend.Prelude.Result.{Result, ok, err}

-- `getBalanceCacheTtlMs`, from what `Number` makes of the environment variable.
pub get_balance_cache_ttl_ms : Option Parsed → ℕ
get_balance_cache_ttl_ms none = 15000
get_balance_cache_ttl_ms (some not_finite) = 15000
get_balance_cache_ttl_ms (some negative) = 15000
get_balance_cache_ttl_ms (some (natural n)) = min n 120000

-- `invalidateBalanceCache`
unfoldable pub invalidate_balance_cache : ℕ → List CacheEntry → List CacheEntry
invalidate_balance_cache user_id = select (λ e. not (e.key.user_id == user_id))

-- `getWalletVersion`
unfoldable pub get_wallet_version : ℕ → Store → Result WalletError ℕ
get_wallet_version user_id s = elim (s.users user_id) [
  | none ↦ err user_not_found
  | some u ↦ ok u.wallet_version
]

-- `assertIfMatchHeaderPresent`
abbrev pub assert_if_match_header_present : Option ℕ → Result WalletError ℕ
assert_if_match_header_present none = err precondition_required
assert_if_match_header_present (some version) = ok version

-- `prisma.user.updateMany` with the id and the version in its `where`: the rows after it and the
-- count of changed rows, which is one at most, as ids are unique.
unfoldable pub update_if_version : ℕ → ℕ → (User → User) → Users → Users × ℕ
update_if_version user_id expected f users = elim (users user_id) [
  | none ↦ (users, 0)
  | some u ↦ if u.wallet_version == expected then (set_user user_id (f u) users, 1) else (users, 0)
]

-- What `reserveWalletVersion` and `updateWalletWithConcurrency` share.
abbrev claim_version : (User → User) → ℕ → Option ℕ → Store → Result WalletError ℕ × Store
claim_version f user_id if_match s = elim (assert_if_match_header_present if_match) [
  | err e ↦ (err e, s)
  | ok expected ↦
      let (users', count) = update_if_version user_id expected f s.users in
      if count == 0 then (err precondition_failed, s) else (
        ok (expected + 1),
        record { users = users'; cache = invalidate_balance_cache user_id s.cache },
      )
]

-- `reserveWalletVersion`
unfoldable pub reserve_wallet_version : ℕ → Option ℕ → Store → Result WalletError ℕ × Store
unfolding update_if_version invalidate_balance_cache
reserve_wallet_version = claim_version (λ u. record u { wallet_version = u.wallet_version + 1 })

-- `updateWalletWithConcurrency`
unfoldable pub update_wallet_with_concurrency :
    ℕ → Option ℕ → WalletData → Store → Result WalletError ℕ × Store
unfolding update_if_version invalidate_balance_cache
update_wallet_with_concurrency user_id if_match d =
    claim_version (λ u. record (write_data d u) { wallet_version = u.wallet_version + 1 }) user_id
      if_match

-- The ACBU trustline of an account: the first balance that is not native and names code and issuer.
unfoldable pub find_acbu : Asset → List Line → Option (Option ℕ)
find_acbu a [] = none
find_acbu a (native n ∷ ls) = find_acbu a ls
find_acbu a (pool_share n ∷ ls) = find_acbu a ls
find_acbu a (issued code issuer n ∷ ls) =
    let rest = find_acbu a ls in if code == a.code && issuer == a.issuer then some n else rest

-- `acbuBalance ? Number.parseFloat(acbuBalance.balance) : 0`, and 0 where that is not finite.
abbrev display_num : Option (Option ℕ) → ℕ
display_num (some (some n)) = n
display_num _ = 0

-- What the `try` and the `catch` of `fetchWalletBalance` make of Horizon's reply.
unfoldable pub read_reply : Asset → ℕ → HorizonReply → Result WalletError Snapshot
unfolding find_acbu
read_reply a address (account lines) =
    let n = display_num (find_acbu a lines) in
    ok (record {
      balance = n;
      stellar_address = some address;
      balance_stellar = n;
      balance_source = stellar;
    })
read_reply a address not_found = ok (record {
  balance = 0;
  stellar_address = some address;
  balance_stellar = 0;
  balance_source = no_source;
})
read_reply a address (failed_with e) = err (horizon_error e)

abbrev no_address_snapshot : Snapshot
no_address_snapshot = record {
  balance = 0;
  stellar_address = none;
  balance_stellar = 0;
  balance_source = no_source;
}

-- `fetchWalletBalance`. Horizon's reply is a parameter, and so are the times at which the cache is
-- read and written.
module _ (c : Config) (horizon : ℕ → HorizonReply) (read_at stored_at : ℕ) where
  -- The part after the cache: ask Horizon, and keep what it says.
  unfoldable pub fetch_live : ℕ → ℕ → ℕ → Store → Result WalletError (Snapshot × ℕ) × Store
  unfolding read_reply get_balance_cache_ttl_ms
  fetch_live user_id address version s = elim (read_reply c.asset address (horizon address)) [
    | err e ↦ (err e, s)
    | ok snapshot ↦ (
      ok (snapshot, version),
      record s {
        cache =
            set_cache
              (record {
                key = cache_key c user_id;
                expires_at = stored_at + get_balance_cache_ttl_ms c.ttl;
                value = snapshot;
                wallet_version = version;
              })
              s.cache;
      },
    )
  ]

  unfoldable pub fetch_wallet_balance : ℕ → Store → Result WalletError (Snapshot × ℕ) × Store
  unfolding fetch_live
  fetch_wallet_balance user_id s = elim (s.users user_id) [
    | none ↦ (err user_not_found, s)
    | some u ↦ elim u.stellar_address [
      | none ↦ (ok (no_address_snapshot, u.wallet_version), s)
      | some address ↦ elim (get_cache (cache_key c user_id) s.cache) [
        | none ↦ fetch_live user_id address u.wallet_version s
        | some e ↦
            if ltb read_at e.expires_at && e.wallet_version == u.wallet_version
            then (ok (e.value, u.wallet_version), s)
            else fetch_live user_id address u.wallet_version s
      ]
    ]
  ]

  -- `getWalletState`: the snapshot with the version beside it.
  unfoldable pub get_wallet_state : ℕ → Store → Result WalletError (Snapshot × ℕ) × Store
  unfolding fetch_wallet_balance
  get_wallet_state user_id s = fetch_wallet_balance user_id s
