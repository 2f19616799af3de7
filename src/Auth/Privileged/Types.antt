-- ===== src/Auth/Privileged/Types.antt =====
-- The keys, the scopes and the requests of the privileged keys: src/services/auth/authService.ts.
use acbu_backend.Prelude.{ℕ, Bool, true, false, Option, List, [], ◌∷◌}
use acbu_backend.Auth.Types.{Method, OtpChallenge, ChallengePayload}

-- A permission scope: one of `ADMIN_SCOPES`, another that the schema knows, or a text that it rejects.
pub data Scope : Type 0 where
  p2p_admin sme_admin gateway_admin enterprise_admin : Scope
  other_scope unknown_scope : ℕ → Scope

abbrev pub admin_scopes : List Scope
admin_scopes = p2p_admin ∷ sme_admin ∷ gateway_admin ∷ enterprise_admin ∷ []

abbrev pub is_admin_scope : Scope → Bool
is_admin_scope (other_scope n) = false
is_admin_scope (unknown_scope n) = false
is_admin_scope _ = true

abbrev pub is_unknown : Scope → Bool
is_unknown (unknown_scope n) = true
is_unknown _ = false

pub data KeyType : Type 0 where
  user_key admin_key break_glass_key : KeyType

-- The columns of a user that these operations read.
pub record Admin : Type 0 where
  pub enterprise_tier : Bool
  pub organization_id : Option ℕ
  pub two_fa_method : Option Method
  pub totp_secret : Option ℕ

-- A row of `api_keys`.
pub record PrivilegedKey : Type 0 where
  pub id : ℕ
  pub user_id : ℕ
  pub organization_id : ℕ
  pub key_type : KeyType
  pub permissions : List Scope
  pub expires_at : Option ℕ
  pub revoked_at : Option ℕ

pub record Store : Type 0 where
  pub users : ℕ → Option Admin
  pub challenges : List OtpChallenge
  pub revoked : List ℕ
  pub keys : List PrivilegedKey

pub data PrivilegedError : Type 0 where
  admin_tier_required organization_required reason_required invalid_scope : PrivilegedError
  admin_scope_required break_glass_ttl invalid_challenge two_factor_required : PrivilegedError
  totp_not_configured invalid_code invalid_or_expired_code unsupported_method : PrivilegedError
  key_not_found : PrivilegedError

-- `IssueAdminKeyParams` and `IssueBreakGlassKeyParams`.
pub record IssueParams : Type 0 where
  pub actor_user_id : ℕ
  pub has_reason : Bool
  pub permissions : List Scope
  pub ttl_minutes : Option ℕ
  pub payload : Option ChallengePayload
  pub code : ℕ
