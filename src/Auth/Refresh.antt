-- ===== src/Auth/Refresh.antt =====
-- Refresh tokens: `issueRefreshToken`, `refreshAccessToken` and `revokeRefreshToken` of
-- src/services/auth/authService.ts. A token stands for its hash. The hash, the family and the key that
-- a call draws at random are parameters of it.
pub mod Families
pub mod Rotation
use acbu_backend.Prelude.{
  ℕ, ◌+◌, ◌*◌, Bool, true, false, Option, none, some, List, [], ◌∷◌, ◌==◌, ◌&&◌, ltb, if◌then◌else◌,
}
use acbu_backend.Prelude.Result.{Result, ok, err}

-- A row of `refresh_tokens`.
pub record RefreshToken : Type 0 where
  pub user_id : ℕ
  pub token_family_id : ℕ
  pub token_hash : ℕ
  pub expires_at : ℕ
  pub revoked_at : Option ℕ
  pub replaced_by_token : Option ℕ

-- The key that `generateApiKey` inserts, with its owner.
pub record IssuedKey : Type 0 where
  pub key : ℕ
  pub user_id : ℕ

pub record Store : Type 0 where
  pub tokens : List RefreshToken
  pub keys : List IssuedKey

pub data RefreshError : Type 0 where
  invalid_or_expired invalid_token : RefreshError

-- `REFRESH_TOKEN_EXPIRY_DAYS`
abbrev pub refresh_token_expiry_days : ℕ
refresh_token_expiry_days = 30

abbrev pub new_token : ℕ → ℕ → ℕ → ℕ → RefreshToken
new_token now user_id hash family = record {
  user_id = user_id;
  token_family_id = family;
  token_hash = hash;
  expires_at = now + refresh_token_expiry_days * 24 * 60 * 60 * 1000;
  revoked_at = none;
  replaced_by_token = none;
}

-- `issueRefreshToken`
unfoldable pub issue_refresh_token : ℕ → ℕ → ℕ → ℕ → Store → Store
issue_refresh_token now user_id hash family s = record s {
  tokens = new_token now user_id hash family ∷ s.tokens;
}

abbrev pub is_unset : Option ℕ → Bool
is_unset none = true
is_unset (some _) = false

-- The `where` of the refresh: the hash, not revoked, not expired.
abbrev pub is_usable : ℕ → ℕ → RefreshToken → Bool
is_usable now hash t = t.token_hash == hash && is_unset t.revoked_at && ltb now t.expires_at

-- The `where` of the revocation.
abbrev pub is_active : ℕ → RefreshToken → Bool
is_active hash t = t.token_hash == hash && is_unset t.revoked_at

-- `findFirst`
abbrev pub find_token : (RefreshToken → Bool) → List RefreshToken → Option RefreshToken
find_token p [] = none
find_token p (t ∷ ts) = let rest = find_token p ts in if p t then some t else rest

-- `updateMany` of the tokens of a family that are not revoked.
abbrev pub revoke_family : ℕ → (RefreshToken → RefreshToken) → List RefreshToken → List RefreshToken
revoke_family family f [] = []
revoke_family family f (t ∷ ts) =
    let rest = revoke_family family f ts in
    if t.token_family_id == family && is_unset t.revoked_at then f t ∷ rest else t ∷ rest

abbrev pub replaced : ℕ → ℕ → RefreshToken → RefreshToken
replaced now hash t = record t { revoked_at = some now; replaced_by_token = some hash }

abbrev pub revoked : ℕ → RefreshToken → RefreshToken
revoked now t = record t { revoked_at = some now }

-- The new token of a refresh, and its owner.
abbrev pub Refreshed : Type 0
Refreshed = Result RefreshError (ℕ × ℕ) × Store

-- What follows the look-up of `refreshAccessToken`.
abbrev pub rotate : ℕ → ℕ → ℕ → ℕ → ℕ → Option RefreshToken → Store → Refreshed
rotate now hash new_hash new_family key none s = (err invalid_or_expired, s)
rotate now hash new_hash new_family key (some t) s = (
  ok (new_hash, t.user_id),
  record {
    tokens =
        new_token now t.user_id new_hash new_family
        ∷ revoke_family t.token_family_id (replaced now hash) s.tokens;
    keys = record { key = key; user_id = t.user_id } ∷ s.keys;
  },
)

-- `refreshAccessToken`
unfoldable pub refresh_access_token : ℕ → ℕ → ℕ → ℕ → ℕ → Store → Refreshed
refresh_access_token now hash new_hash new_family key s =
    rotate now hash new_hash new_family key (find_token (is_usable now hash) s.tokens) s

abbrev pub withdraw : ℕ → Option RefreshToken → Store → Result RefreshError (Unit {0}) × Store
withdraw now none s = (err invalid_token, s)
withdraw now (some t) s =
    (ok tt, record s { tokens = revoke_family t.token_family_id (revoked now) s.tokens })

-- `revokeRefreshToken`
unfoldable pub revoke_refresh_token : ℕ → ℕ → Store → Result RefreshError (Unit {0}) × Store
revoke_refresh_token now hash s = withdraw now (find_token (is_active hash) s.tokens) s
