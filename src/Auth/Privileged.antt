-- ===== src/Auth/Privileged.antt =====
-- The keys of administrators and the break-glass keys: src/services/auth/authService.ts. The queueing of
-- a code and the audit trail are left out. A tier is whether it is "enterprise", and a reason whether
-- it is more than blanks.
mod Types
pub mod Grants
unfoldable pub use Types.*
use acbu_backend.Prelude.{
  ℕ, ◌+◌, ◌*◌, Bool, true, false, not, Option, none, some, List, [], ◌∷◌, map, ◌==◌, ◌&&◌, ltb,
  if◌then◌else◌, any, select,
}
use acbu_backend.Prelude.Result.{Result, ok, err, guard, ◌>>◌, ◌>>=◌}
use acbu_backend.Auth.Types.{
  Method, totp, sms, email, unsupported, OtpChallenge, Config, Draw, ChallengePayload,
}
use acbu_backend.Auth.SecondFactor.{newest_open}

-- `validateAdminScopes`
abbrev pub some_scopes : List Scope → Result PrivilegedError (List Scope)
some_scopes [] = err admin_scope_required
some_scopes (x ∷ xs) = ok (x ∷ xs)

unfoldable pub validate_admin_scopes : List Scope → Result PrivilegedError (List Scope)
validate_admin_scopes xs =
    if any is_unknown xs then err invalid_scope else some_scopes (select is_admin_scope xs)

-- The organization of an administrator.
abbrev pub organization_of : Option ℕ → Result PrivilegedError ℕ
organization_of none = err organization_required
organization_of (some o) = ok o

abbrev pub check_admin : Option Admin → Result PrivilegedError ℕ
check_admin none = err admin_tier_required
check_admin (some a) =
    if a.enterprise_tier then organization_of a.organization_id else err admin_tier_required

abbrev pub mark_used : ℕ → ℕ → List OtpChallenge → List OtpChallenge
mark_used now id = map (λ x. if x.id == id then record x { used_at = some now } else x)

abbrev pub revoke_jti : Option ℕ → Store → Store
revoke_jti none s = s
revoke_jti (some jti) s = record s { revoked = jti ∷ s.revoked }

-- What a key is granted: the organization, the scopes and the expiry.
abbrev pub Grant : Type 0
Grant = ℕ × List Scope × Option ℕ

-- `BREAK_GLASS_DEFAULT_TTL_MINUTES` and `BREAK_GLASS_MAX_TTL_MINUTES`
abbrev pub break_glass_default_ttl_minutes : ℕ
break_glass_default_ttl_minutes = 15

abbrev pub break_glass_max_ttl_minutes : ℕ
break_glass_max_ttl_minutes = 60

abbrev pub ttl_or_default : Option ℕ → ℕ
ttl_or_default none = break_glass_default_ttl_minutes
ttl_or_default (some n) = n

abbrev pub scopes_or_all : List Scope → Result PrivilegedError (List Scope)
scopes_or_all [] = ok admin_scopes
scopes_or_all (x ∷ xs) = validate_admin_scopes (x ∷ xs)

-- The checks of `issueAdminKey` before the second factor.
unfoldable pub admin_grant : IssueParams → Option Admin → Result PrivilegedError Grant
unfolding validate_admin_scopes
admin_grant q a = do
  org ← check_admin a
  guard q.has_reason reason_required
  scopes ← validate_admin_scopes q.permissions
  ok (org, scopes, none)

-- The checks of `issueBreakGlassKey` before the second factor.
unfoldable pub break_glass_grant : ℕ → IssueParams → Option Admin → Result PrivilegedError Grant
unfolding validate_admin_scopes
break_glass_grant now q a = do
  let ttl = ttl_or_default q.ttl_minutes
  org ← check_admin a
  guard q.has_reason reason_required
  guard (not (ltb ttl 1) && not (ltb break_glass_max_ttl_minutes ttl)) break_glass_ttl
  scopes ← scopes_or_all q.permissions
  ok (org, scopes, some (now + ttl * 60 * 1000))

module _ (c : Config) (d : Draw) (now : ℕ) where
  -- The second factor of `verifyMfaChallengeForUser`, by the method.
  abbrev pub totp_verdict : Bool → Store → Result PrivilegedError (Unit {0}) × Store
  totp_verdict true s = (ok tt, s)
  totp_verdict false s = (err invalid_code, s)

  abbrev pub by_secret : ℕ → Option ℕ → Store → Result PrivilegedError (Unit {0}) × Store
  by_secret code none s = (err totp_not_configured, s)
  by_secret code (some secret) s = totp_verdict (c.check_totp code secret) s

  abbrev pub code_verdict : OtpChallenge → Bool → Store → Result PrivilegedError (Unit {0}) × Store
  code_verdict x true s = (ok tt, record s { challenges = mark_used now x.id s.challenges })
  code_verdict x false s = (err invalid_code, s)

  abbrev pub by_challenge :
      ℕ → Option OtpChallenge → Store → Result PrivilegedError (Unit {0}) × Store
  by_challenge code none s = (err invalid_or_expired_code, s)
  by_challenge code (some x) s = code_verdict x (c.matches code x.code_hash) s

  abbrev pub by_method :
      ℕ → ℕ → Admin → Option Method → Store → Result PrivilegedError (Unit {0}) × Store
  by_method id code a none s = (err two_factor_required, s)
  by_method id code a (some totp) s = by_secret code a.totp_secret s
  by_method id code a (some sms) s = by_challenge code (newest_open c d now id sms s.challenges) s
  by_method id code a (some email) s =
      by_challenge code (newest_open c d now id email s.challenges) s
  by_method id code a (some unsupported) s = (err unsupported_method, s)

  abbrev pub by_account : ℕ → ℕ → Option Admin → Store → Result PrivilegedError (Unit {0}) × Store
  by_account id code none s = (err two_factor_required, s)
  by_account id code (some a) s = by_method id code a a.two_fa_method s

  abbrev pub consume :
      Option ℕ
      → Result PrivilegedError (Unit {0}) × Store
      → Result PrivilegedError (Unit {0}) × Store
  consume jti (err e, s) = (err e, s)
  consume jti (ok u, s) = (ok u, revoke_jti jti s)

  -- `verifyMfaChallengeForUser`
  unfoldable pub verify_mfa_challenge_for_user :
      ℕ → Option ChallengePayload → ℕ → Store → Result PrivilegedError (Unit {0}) × Store
  verify_mfa_challenge_for_user id none code s = (err invalid_challenge, s)
  verify_mfa_challenge_for_user id (some p) code s =
      let checked = consume p.jti (by_account id code (s.users id) s) in
      if p.user_id == id then checked else (err invalid_challenge, s)

  abbrev pub insert_key :
      KeyType
      → ℕ
      → Grant
      → Result PrivilegedError (Unit {0}) × Store
      → Result PrivilegedError PrivilegedKey × Store
  insert_key t id g (err e, s) = (err e, s)
  insert_key t id (org, scopes, expires) (ok u, s) =
      let k : PrivilegedKey = record {
        id = d.key;
        user_id = id;
        organization_id = org;
        key_type = t;
        permissions = scopes;
        expires_at = expires;
        revoked_at = none;
      } in
      (ok k, record s { keys = k ∷ s.keys })

  abbrev pub issue_granted :
      KeyType
      → Result PrivilegedError Grant
      → IssueParams
      → Store
      → Result PrivilegedError PrivilegedKey × Store
  issue_granted t (err e) q s = (err e, s)
  issue_granted t (ok g) q s =
      insert_key t q.actor_user_id g
        (verify_mfa_challenge_for_user q.actor_user_id q.payload q.code s)

  -- `issueAdminKey`
  unfoldable pub issue_admin_key :
      IssueParams → Store → Result PrivilegedError PrivilegedKey × Store
  unfolding admin_grant verify_mfa_challenge_for_user
  issue_admin_key q s = issue_granted admin_key (admin_grant q (s.users q.actor_user_id)) q s

  -- `issueBreakGlassKey`
  unfoldable pub issue_break_glass_key :
      IssueParams → Store → Result PrivilegedError PrivilegedKey × Store
  unfolding break_glass_grant verify_mfa_challenge_for_user
  issue_break_glass_key q s =
      issue_granted break_glass_key (break_glass_grant now q (s.users q.actor_user_id)) q s

-- The keys that `listPrivilegedKeys` and `revokePrivilegedKey` ask for.
abbrev pub is_privileged : KeyType → Bool
is_privileged user_key = false
is_privileged _ = true

abbrev pub is_administrator : Option Admin → Bool
is_administrator none = false
is_administrator (some a) = a.enterprise_tier

-- `listPrivilegedKeys`, whose order is that of the rows, the newest first.
unfoldable pub list_privileged_keys : ℕ → Store → Result PrivilegedError (List PrivilegedKey)
list_privileged_keys actor s =
    if is_administrator (s.users actor)
    then ok (select (λ k. k.user_id == actor && is_privileged k.key_type) s.keys)
    else err admin_tier_required

abbrev pub is_unset : Option ℕ → Bool
is_unset none = true
is_unset (some _) = false

-- The `where` of the revocation.
abbrev pub is_revocable : ℕ → ℕ → PrivilegedKey → Bool
is_revocable actor id k =
    k.id == id && k.user_id == actor && is_privileged k.key_type && is_unset k.revoked_at

abbrev pub set_revoked : ℕ → ℕ → List PrivilegedKey → List PrivilegedKey
set_revoked now id = map (λ k. if k.id == id then record k { revoked_at = some now } else k)

-- `revokePrivilegedKey`
unfoldable pub revoke_privileged_key :
    ℕ → ℕ → Bool → ℕ → Store → Result PrivilegedError (Unit {0}) × Store
revoke_privileged_key now actor has_reason id s =
    if not (is_administrator (s.users actor))
    then (err admin_tier_required, s)
    else if not has_reason
    then (err reason_required, s)
    else if any (is_revocable actor id) s.keys
    then (ok tt, record s { keys = set_revoked now id s.keys })
    else (err key_not_found, s)
