-- ===== src/Auth/Privileged/Grants.antt =====
-- What a privileged key needs and is: src/services/auth/authService.ts.
use acbu_backend.Prelude.{
  ℕ, ◌+◌, ◌*◌, ◌≡◌, refl, sym, ◌∙◌, ap, ◌≤◌, true, Option, none, some, List, [], ◌∷◌, arith,
  Bool-cases, select, any, inl, inr, subst, not, ltb, ◌&&◌,
}
use acbu_backend.Prelude.Result.{Result, ok, err}
use acbu_backend.Prelude.Binds.{bind-ok, guard-ok}
use acbu_backend.Auth.Types.{Config, Draw}
use acbu_backend.Auth.Privileged.{
  Scope, admin_scopes, is_admin_scope, is_unknown, KeyType, break_glass_key, Admin, PrivilegedKey,
  Store, PrivilegedError, IssueParams, some_scopes, validate_admin_scopes, organization_of,
  check_admin, Grant, ttl_or_default, scopes_or_all, break_glass_grant,
  verify_mfa_challenge_for_user, insert_key, issue_granted, issue_break_glass_key,
}

-- Every scope of the list is one of an administrator.
abbrev pub AdminOnly : List Scope → Type 0
AdminOnly [] = Unit {0}
AdminOnly (x ∷ xs) = (is_admin_scope x ≡ true) × AdminOnly xs

select-AdminOnly : (xs : List Scope) → AdminOnly (select is_admin_scope xs)
select-AdminOnly [] = tt
select-AdminOnly (x ∷ xs) = elim (Bool-cases (is_admin_scope x)) [
  | inl yes_x ↦ rw yes_x (yes_x, select-AdminOnly xs)
  | inr no_x ↦ rw no_x (select-AdminOnly xs)
]

some_scopes-AdminOnly : (xs ys : List Scope) → AdminOnly xs → some_scopes xs ≡ ok ys → AdminOnly ys
some_scopes-AdminOnly [] ys only h = ground arith
some_scopes-AdminOnly (x ∷ xs) ys only h =
    let same : x ∷ xs ≡ ys = ground arith in subst AdminOnly same only

validate-AdminOnly : (xs ys : List Scope) → validate_admin_scopes xs ≡ ok ys → AdminOnly ys
unfolding validate_admin_scopes
validate-AdminOnly xs ys h = elim (Bool-cases (any is_unknown xs)) [
  | inl bad ↦ ground arith
  | inr good ↦
      some_scopes-AdminOnly (select is_admin_scope xs) ys (select-AdminOnly xs) (ground arith)
]

scopes_or_all-AdminOnly : (xs ys : List Scope) → scopes_or_all xs ≡ ok ys → AdminOnly ys
scopes_or_all-AdminOnly [] ys h =
    let same : admin_scopes ≡ ys = ground arith in
    subst AdminOnly same (refl, (refl, (refl, (refl, tt))))
scopes_or_all-AdminOnly (x ∷ xs) ys h = validate-AdminOnly (x ∷ xs) ys h

-- The actor is an administrator of the organization.
abbrev pub Administers : Option Admin → ℕ → Type 0
Administers a org =
    (x : Admin) × (a ≡ some x) × (x.enterprise_tier ≡ true) × (x.organization_id ≡ some org)

organization_of-some : (o : Option ℕ) (org : ℕ) → organization_of o ≡ ok org → o ≡ some org
organization_of-some none org h = ground arith
organization_of-some (some x) org h = ground arith

check_admin-Administers : (a : Option Admin) (org : ℕ) → check_admin a ≡ ok org → Administers a org
check_admin-Administers none org h = ground arith
check_admin-Administers (some x) org h = elim (Bool-cases x.enterprise_tier) [
  | inl tier ↦ (x, refl, tier, organization_of-some x.organization_id org (ground arith))
  | inr other ↦ ground arith
]

-- The time to live, in minutes, is within an hour.
abbrev pub IsShort : ℕ → Type 0
IsShort ttl = (1 ≤ ttl) × (ttl ≤ 60)

break_glass_grant_lem :
    (now : ℕ) (q : IssueParams) (a : Option Admin) (org : ℕ) (scopes : List Scope)
    (expires : Option ℕ)
    → break_glass_grant now q a ≡ ok (org, scopes, expires)
    → let ttl = ttl_or_default q.ttl_minutes in
      Administers a org
      × (q.has_reason ≡ true)
      × IsShort ttl
      × AdminOnly scopes
      × (expires ≡ some (now + ttl * 60 * 1000))
unfolding break_glass_grant
break_glass_grant_lem now q a org scopes expires h =
    let ttl = ttl_or_default q.ttl_minutes in
    let (org', admin, h1) = bind-ok (check_admin a) _ _ h in
    let (reason, h2) = guard-ok q.has_reason _ _ _ h1 in
    let (short, h3) = guard-ok (not (ltb ttl 1) && not (ltb 60 ttl)) _ _ _ h2 in
    let (scopes', valid, h4) = bind-ok (scopes_or_all q.permissions) _ _ h3 in
    let same_org : org' ≡ org = ground arith in
    let same_scopes : scopes' ≡ scopes = ground arith in
    let same_expiry : expires ≡ some (now + ttl * 60 * 1000) = ground arith in
    (
      check_admin-Administers a org (admin ∙ ap ok same_org),
      reason,
      ground arith,
      scopes_or_all-AdminOnly q.permissions scopes (valid ∙ ap ok same_scopes),
      same_expiry,
    )

issue_granted_lem :
    (c : Config) (d : Draw) (now : ℕ) (t : KeyType) (g : Result PrivilegedError Grant)
    (q : IssueParams) (s : Store) (k : PrivilegedKey)
    → (issue_granted c d now t g q s).0 ≡ ok k
    → (org : ℕ) × (scopes : List Scope) × (expires : Option ℕ) × (g ≡ ok (org, scopes, expires))
      × ((verify_mfa_challenge_for_user c d now q.actor_user_id q.payload q.code s).0 ≡ ok tt)
      × (k.user_id ≡ q.actor_user_id)
      × (k.organization_id ≡ org)
      × (k.permissions ≡ scopes)
      × (k.expires_at ≡ expires)
issue_granted_lem c d now t (err e) q s k h = ground arith
issue_granted_lem c d now t (ok (org, scopes, expires)) q s k h =
    let (mfa, user, organization, permissions, expiry) =
      inserted (verify_mfa_challenge_for_user c d now q.actor_user_id q.payload q.code s) h in
    (org, scopes, expires, refl, mfa, user, organization, permissions, expiry)
  where
    inserted :
        (m : Result PrivilegedError (Unit {0}) × Store)
        → (insert_key c d now t q.actor_user_id (org, scopes, expires) m).0 ≡ ok k
        → (m.0 ≡ ok tt)
          × (k.user_id ≡ q.actor_user_id)
          × (k.organization_id ≡ org)
          × (k.permissions ≡ scopes)
          × (k.expires_at ≡ expires)
    inserted (err e, s') i = ground arith
    inserted (ok u, s') i = ground arith

-- A break-glass key is given only to a user of the enterprise tier with an organization, for a reason,
-- after the second factor has passed; it belongs to that user and organization, has scopes of
-- administrators only, and expires within an hour.
pub break_glass_key_bounds :
    (c : Config) (d : Draw) (now : ℕ) (q : IssueParams) (s : Store) (k : PrivilegedKey)
    → (issue_break_glass_key c d now q s).0 ≡ ok k
    → let ttl = ttl_or_default q.ttl_minutes in
      ((verify_mfa_challenge_for_user c d now q.actor_user_id q.payload q.code s).0 ≡ ok tt)
      × (k.user_id ≡ q.actor_user_id)
      × Administers (s.users q.actor_user_id) k.organization_id
      × (q.has_reason ≡ true)
      × AdminOnly k.permissions
      × IsShort ttl
      × (k.expires_at ≡ some (now + ttl * 60 * 1000))
unfolding issue_break_glass_key
break_glass_key_bounds c d now q s k h =
    let (org, scopes, expires, granted, mfa, user, organization, permissions, expiry) =
      issue_granted_lem c d now break_glass_key (break_glass_grant now q (s.users q.actor_user_id))
        q s k h in
    let (admin, reason, short, only, soon) =
      break_glass_grant_lem now q (s.users q.actor_user_id) org scopes expires granted in
    (
      mfa,
      user,
      subst (Administers (s.users q.actor_user_id)) (sym organization) admin,
      reason,
      subst AdminOnly (sym permissions) only,
      short,
      expiry ∙ soon,
    )
