-- ===== src/Wallet/Coherence.antt =====
-- No cached balance belongs to an address that the user has left:
-- src/services/wallet/walletStateService.ts.
use acbu_backend.Prelude.{
  ℕ, ◌+◌, ◌≡◌, refl, ap, sym, ◌∙◌, ◌⊎◌, inl, inr, true, false, Option, none, some, List, [], ◌∷◌,
  ◌&&◌, arith, ◌==◌, ltb, Option-cases, Bool-cases,
}
use mathlib.Core.Path.{subst}
use acbu_backend.Prelude.Result.{Result, ok, err}
use acbu_backend.Wallet.{
  User, Users, Store, Config, HorizonReply, account, not_found, failed_with, WalletData, Asset,
  WalletError, Snapshot, CacheKey, CacheEntry, same_key, cache_key, get_cache, set_cache, set_user,
  invalidate_balance_cache, reserve_wallet_version, update_wallet_with_concurrency, claim_version,
  update_if_version, get_balance_cache_ttl_ms, no_address_snapshot, fetch_live,
  fetch_wallet_balance, read_reply,
}

-- An entry that the user's current version would let through shows the user's current address.
abbrev pub Fits : Option User → CacheEntry → Type 0
Fits none e = Unit
Fits (some u) e = e.wallet_version ≡ u.wallet_version → e.value.stellar_address ≡ u.stellar_address

abbrev pub AllFit : Users → List CacheEntry → Type 0
AllFit users [] = Unit
AllFit users (e ∷ es) = Fits (users e.key.user_id) e × AllFit users es

abbrev pub IsCoherent : Store → Type 0
IsCoherent s = AllFit s.users s.cache

same_key-user : (a b : CacheKey) → same_key a b ≡ true → a.user_id ≡ b.user_id
same_key-user a b h = ground arith

found : (f e : CacheEntry) → some f ≡ some e → f ≡ e
found f e h = cc

get_cache-Fits :
    (users : Users) (k : CacheKey) (es : List CacheEntry) (e : CacheEntry)
    → AllFit users es
    → get_cache k es ≡ some e
    → Fits (users k.user_id) e
unfolding get_cache
get_cache-Fits users k [] e a h = cc
get_cache-Fits users k (f ∷ es) e a h = elim (Bool-cases (same_key f.key k)) [
  | inl t ↦
      subst (Fits (users k.user_id)) (found f e (rw t at h))
        (subst (λ i. Fits (users i) f) (same_key-user f.key k t) a.0)
  | inr n ↦ get_cache-Fits users k es e a.1 (rw n at h)
]

AllFit-set_cache :
    (users : Users) (n : CacheEntry) (es : List CacheEntry)
    → AllFit users es
    → Fits (users n.key.user_id) n
    → AllFit users (set_cache n es)
unfolding set_cache
AllFit-set_cache users n [] a f = (f, tt)
AllFit-set_cache users n (e ∷ es) a f = elim (Bool-cases (same_key e.key n.key)) [
  | inl t ↦ rw t (f, a.1)
  | inr d ↦ rw d (a.0, AllFit-set_cache users n es a.1 f)
]

set_user_ne :
    (id j : ℕ) (u : User) (users : Users) → j == id ≡ false → set_user id u users j ≡ users j
set_user_ne id j u users d = rw d

AllFit-invalidate :
    (users : Users) (id : ℕ) (u : User) (es : List CacheEntry)
    → AllFit users es
    → AllFit (set_user id u users) (invalidate_balance_cache id es)
unfolding invalidate_balance_cache
AllFit-invalidate users id u [] a = tt
AllFit-invalidate users id u (e ∷ es) a = elim (Bool-cases (e.key.user_id == id)) [
  | inl t ↦ rw t (AllFit-invalidate users id u es a.1)
  | inr d ↦ rw d (
    subst (λ o. Fits o e) (sym (set_user_ne id e.key.user_id u users d)) a.0,
    AllFit-invalidate users id u es a.1,
  )
]

read_reply-address :
    (a : Asset) (address : ℕ) (reply : HorizonReply) (snapshot : Snapshot)
    → read_reply a address reply ≡ ok snapshot
    → snapshot.stellar_address ≡ some address
unfolding read_reply
read_reply-address a address (account ls) snapshot h = ground arith
read_reply-address a address not_found snapshot h = ground arith
read_reply-address a address (failed_with e) snapshot h = cc

claim_cases :
    (f : User → User) (id : ℕ) (if_match : Option ℕ) (s : Store)
    → ((claim_version f id if_match s).1 ≡ s)
      ⊎ ((u : User) × ((claim_version f id if_match s).1 ≡ record {
        users = set_user id (f u) s.users;
        cache = invalidate_balance_cache id s.cache;
      }))
unfolding update_if_version
claim_cases f id none s = inl refl
claim_cases f id (some v) s = elim (Option-cases (s.users id)) [
  | inl e ↦ inl (ground arith)
  | inr (u, e) ↦ elim (Bool-cases (u.wallet_version == v)) [
    | inl t ↦ inr (u, ground arith)
    | inr n ↦ inl (ground arith)
  ]
]

claimed-IsCoherent :
    (f : User → User) (id : ℕ) (if_match : Option ℕ) (s : Store)
    → IsCoherent s
    → IsCoherent (claim_version f id if_match s).1
claimed-IsCoherent f id if_match s h = elim (claim_cases f id if_match s) [
  | inl same ↦ subst IsCoherent (sym same) h
  | inr (u, won) ↦ subst IsCoherent (sym won) (AllFit-invalidate s.users id (f u) s.cache h)
]

-- Every claim of a version, by either operation, keeps the store coherent, also where it changes the
-- address, and where it fails.
pub claim-IsCoherent :
    (id : ℕ) (if_match : Option ℕ) (d : WalletData) (s : Store)
    → IsCoherent s
    → IsCoherent (reserve_wallet_version id if_match s).1
      × IsCoherent (update_wallet_with_concurrency id if_match d s).1
unfolding reserve_wallet_version update_wallet_with_concurrency
claim-IsCoherent id if_match d s h =
    (claimed-IsCoherent _ id if_match s h, claimed-IsCoherent _ id if_match s h)

reply_cases :
    (r : Result WalletError Snapshot)
    → ((x : WalletError) × (r ≡ err x)) ⊎ ((a : Snapshot) × (r ≡ ok a))
reply_cases (err x) = inl (x, refl)
reply_cases (ok a) = inr (a, refl)

-- What a fetch for a user with the row `u` may end in.
abbrev pub Fetched : User → Result WalletError (Snapshot × ℕ) × Store → Type 0
Fetched u (r, s') =
    IsCoherent s'
    × ((snapshot : Snapshot) (v : ℕ)
        → r ≡ ok (snapshot, v)
        → (v ≡ u.wallet_version) × (snapshot.stellar_address ≡ u.stellar_address))

abbrev Reply : Type 0
Reply = Result WalletError (Snapshot × ℕ)

same_value :
    (a b : Snapshot) (v w : ℕ) → ◌≡◌ {A = Reply} (ok (a, v)) (ok (b, w)) → (w ≡ v) × (b ≡ a)
same_value a b v w h = (cc, cc)

-- A successful end, from its parts.
returned :
    (u : User) (snapshot : Snapshot) (s' : Store)
    → IsCoherent s'
    → snapshot.stellar_address ≡ u.stellar_address
    → Fetched u (ok (snapshot, u.wallet_version), s')
returned u snapshot s' h a =
    (h, λ other v g. same other v (same_value snapshot other u.wallet_version v g))
  where
    same :
        (other : Snapshot) (v : ℕ)
        → (v ≡ u.wallet_version) × (other ≡ snapshot)
        → (v ≡ u.wallet_version) × (other.stellar_address ≡ u.stellar_address)
    same other v g = (g.0, ap (λ x. x.stellar_address) g.1 ∙ a)

module _ (c : Config) (horizon : ℕ → HorizonReply) (read_at stored_at : ℕ) where
  live_cases :
      (id address version : ℕ) (s : Store)
      → ((x : WalletError) × (fetch_live c horizon read_at stored_at id address version s
            ≡ (err x, s)))
        ⊎ ((e : CacheEntry) × (fetch_live c horizon read_at stored_at id address version s
              ≡ (ok (e.value, version), record s { cache = set_cache e s.cache }))
            × (e.key.user_id ≡ id)
            × (e.value.stellar_address ≡ some address))
  unfolding fetch_live
  live_cases id address version s =
      elim (reply_cases (read_reply c.asset address (horizon address))) [
        | inl (x, f) ↦ inl (x, ground arith)
        | inr (snapshot, f) ↦ inr (
          record {
            key = cache_key c id;
            expires_at = stored_at + get_balance_cache_ttl_ms c.ttl;
            value = snapshot;
            wallet_version = version;
          },
          ground arith,
          refl,
          read_reply-address c.asset address (horizon address) snapshot f,
        )
      ]

  fetch_live-IsCoherent :
      (id address : ℕ) (u : User) (s : Store)
      → s.users id ≡ some u
      → u.stellar_address ≡ some address
      → IsCoherent s
      → Fetched u (fetch_live c horizon read_at stored_at id address u.wallet_version s)
  fetch_live-IsCoherent id address u s e ea h = elim (live_cases id address u.wallet_version s) [
    | inl (x, f) ↦ subst (Fetched u) (sym f) (h, λ snapshot v g. cc)
    | inr (n, f, k, a) ↦ subst (Fetched u) (sym f) (
        returned u n.value _
          (AllFit-set_cache s.users n s.cache h
            (subst (λ o. Fits o n) (sym e ∙ ap s.users (sym k)) (λ _. a ∙ sym ea)))
          (a ∙ sym ea))
  ]

  fetch_cases :
      (id address : ℕ) (u : User) (s : Store)
      → s.users id ≡ some u
      → u.stellar_address ≡ some address
      → (fetch_wallet_balance c horizon read_at stored_at id s
          ≡ fetch_live c horizon read_at stored_at id address u.wallet_version s)
        ⊎ ((e : CacheEntry) × (get_cache (cache_key c id) s.cache ≡ some e)
            × (e.wallet_version ≡ u.wallet_version)
            × (fetch_wallet_balance c horizon read_at stored_at id s
                ≡ (ok (e.value, u.wallet_version), s)))
  unfolding fetch_wallet_balance
  fetch_cases id address u s e ea = elim (Option-cases (get_cache (cache_key c id) s.cache)) [
    | inl n ↦ inl (ground arith)
    | inr (x, f) ↦
        elim (Bool-cases (ltb read_at x.expires_at && x.wallet_version == u.wallet_version)) [
          | inl t ↦ inr (x, f, ground arith, ground arith)
          | inr d ↦ inl (ground arith)
        ]
  ]

  -- In a coherent store, whatever balance `fetchWalletBalance` returns, from the cache or from
  -- Horizon, carries the user's current version and current address, and the store that it leaves is
  -- coherent again.
  pub fetch-IsCoherent :
      (id : ℕ) (u : User) (s : Store)
      → s.users id ≡ some u
      → IsCoherent s
      → Fetched u (fetch_wallet_balance c horizon read_at stored_at id s)
  unfolding fetch_wallet_balance
  fetch-IsCoherent id u s e h = elim (Option-cases u.stellar_address) [
    | inl ea ↦
        let f : fetch_wallet_balance c horizon read_at stored_at id s
            ≡ (ok (no_address_snapshot, u.wallet_version), s) =
          ground arith in
        subst (Fetched u) (sym f) (returned u no_address_snapshot s h (sym ea))
    | inr (address, ea) ↦ elim (fetch_cases id address u s e ea) [
      | inl f ↦ subst (Fetched u) (sym f) (fetch_live-IsCoherent id address u s e ea h)
      | inr (x, g, same, f) ↦ subst (Fetched u) (sym f) (
          returned u x.value s h
            (subst (λ o. Fits o x) e (get_cache-Fits s.users (cache_key c id) s.cache x h g) same))
    ]
  ]
