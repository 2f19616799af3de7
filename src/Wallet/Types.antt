-- ===== src/Wallet/Types.antt =====
-- The rows, the cache and the replies that src/services/wallet/walletStateService.ts works on.
use acbu_backend.Prelude.{
  ℕ, Parsed, Bool, Option, none, some, List, [], ◌∷◌, ◌&&◌, ◌==◌, if◌then◌else◌,
}

-- The columns of a user's row that the service reads or writes.
pub record User : Type 0 where
  pub stellar_address : Option ℕ
  pub encrypted_stellar_secret : Option ℕ
  pub key_encryption_hint : Option ℕ
  pub wallet_version : ℕ

abbrev pub Users : Type 0
Users = ℕ → Option User

abbrev pub set_user : ℕ → User → Users → Users
set_user id u users j = if j == id then some u else users j

-- The `data` of `updateWalletWithConcurrency`: the outer `none` is `undefined`, which leaves the
-- column alone.
pub record WalletData : Type 0 where
  pub stellar_address : Option (Option ℕ)
  pub encrypted_stellar_secret : Option (Option ℕ)
  pub key_encryption_hint : Option (Option ℕ)

abbrev pub or_keep : Option (Option ℕ) → Option ℕ → Option ℕ
or_keep none old = old
or_keep (some new) old = new

abbrev pub write_data : WalletData → User → User
write_data d u = record {
  stellar_address = or_keep d.stellar_address u.stellar_address;
  encrypted_stellar_secret = or_keep d.encrypted_stellar_secret u.encrypted_stellar_secret;
  key_encryption_hint = or_keep d.key_encryption_hint u.key_encryption_hint;
  wallet_version = u.wallet_version;
}

pub data Source : Type 0 where
  stellar no_source : Source

-- `WalletBalanceSnapshot`, without the currency, which is always "ACBU".
pub record Snapshot : Type 0 where
  pub balance : ℕ
  pub stellar_address : Option ℕ
  pub balance_stellar : ℕ
  pub balance_source : Source

pub record CacheKey : Type 0 where
  pub user_id : ℕ
  pub horizon_url : ℕ
  pub asset_code : ℕ
  pub asset_issuer : ℕ

pub record CacheEntry : Type 0 where
  pub key : CacheKey
  pub expires_at : ℕ
  pub value : Snapshot
  pub wallet_version : ℕ

abbrev pub same_key : CacheKey → CacheKey → Bool
same_key a b =
    a.user_id == b.user_id
    && a.horizon_url == b.horizon_url
    && a.asset_code == b.asset_code
    && a.asset_issuer == b.asset_issuer

-- `balanceCache.get`
unfoldable pub get_cache : CacheKey → List CacheEntry → Option CacheEntry
get_cache k [] = none
get_cache k (e ∷ es) = let rest = get_cache k es in if same_key e.key k then some e else rest

-- `balanceCache.set`
unfoldable pub set_cache : CacheEntry → List CacheEntry → List CacheEntry
set_cache n [] = n ∷ []
set_cache n (e ∷ es) =
    let rest = e ∷ set_cache n es in if same_key e.key n.key then n ∷ es else rest

pub record Store : Type 0 where
  pub users : Users
  pub cache : List CacheEntry

pub data WalletError : Type 0 where
  user_not_found precondition_required precondition_failed : WalletError
  horizon_error : ℕ → WalletError

pub record Asset : Type 0 where
  pub code : ℕ
  pub issuer : ℕ

-- A balance of a Stellar account; the amount is `none` where its text is no number.
pub data Line : Type 0 where
  native : Option ℕ → Line
  pool_share : Option ℕ → Line
  issued : ℕ → ℕ → Option ℕ → Line

-- What `server.loadAccount` ends in: an account, an error with status 404, another error.
pub data HorizonReply : Type 0 where
  account : List Line → HorizonReply
  not_found : HorizonReply
  failed_with : ℕ → HorizonReply

pub record Config : Type 0 where
  pub horizon_url : ℕ
  pub asset : Asset
  pub ttl : Option Parsed

abbrev pub cache_key : Config → ℕ → CacheKey
cache_key c user_id = record {
  user_id = user_id;
  horizon_url = c.horizon_url;
  asset_code = c.asset.code;
  asset_issuer = c.asset.issuer;
}
