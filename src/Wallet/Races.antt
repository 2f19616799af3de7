-- ===== src/Wallet/Races.antt =====
-- Requests that race for a wallet, in the order in which the database serves them:
-- src/services/wallet/walletStateService.ts.
use acbu_backend.Prelude.{
  ℕ, ◌+◌, ◌≤◌, ◌<◌, ◌≡◌, refl, ◌⊎◌, inl, inr, Bool, true, false, Option, none, some, List, [], ◌∷◌,
  ◌&&◌, arith, ◌==◌, if◌then◌else◌, Option-cases,
}
use acbu_backend.Prelude.Result.{Result, ok, err}
use acbu_backend.Wallet.{
  User, Store, WalletData, WalletError, reserve_wallet_version, update_wallet_with_concurrency,
}

-- A call of one of the two operations that claim a version.
pub data Action : Type 0 where
  reserve : Action
  update : WalletData → Action

pub record Request : Type 0 where
  pub user_id : ℕ
  pub if_match : Option ℕ
  pub action : Action

abbrev serve_action : Action → ℕ → Option ℕ → Store → Result WalletError ℕ × Store
serve_action reserve = reserve_wallet_version
serve_action (update d) = λ id m. update_wallet_with_concurrency id m d

unfoldable pub serve : Request → Store → Result WalletError ℕ × Store
unfolding reserve_wallet_version update_wallet_with_concurrency
serve q s = serve_action q.action q.user_id q.if_match s

unfoldable pub serve_all : List Request → Store → Store
serve_all [] s = s
serve_all (q ∷ qs) s = serve_all qs (serve q s).1

abbrev pub succeeded : Result WalletError ℕ → Bool
succeeded (ok _) = true
succeeded (err _) = false

abbrev pub version_of : Option User → ℕ
version_of none = 0
version_of (some u) = u.wallet_version

abbrev pub version : ℕ → Store → ℕ
version i s = version_of (s.users i)

abbrev names : Option ℕ → ℕ → Bool
names none v = false
names (some w) v = w == v

-- How many of the requests for wallet `i` succeed.
unfoldable pub successes : ℕ → List Request → Store → ℕ
successes i [] s = 0
successes i (q ∷ qs) s =
    let (r, s') = serve q s in
    let rest = successes i qs s' in if q.user_id == i && succeeded r then rest + 1 else rest

-- How many of the requests that name version `v` of wallet `i` succeed.
unfoldable pub winners : ℕ → ℕ → List Request → Store → ℕ
winners i v [] s = 0
winners i v (q ∷ qs) s =
    let (r, s') = serve q s in
    let rest = winners i v qs s' in
    if (q.user_id == i && names q.if_match v) && succeeded r then rest + 1 else rest

-- What one request does to the version of wallet `i`.
abbrev Effect : ℕ → Request → Store → Type 0
Effect i q s =
    ((q.user_id ≡ i)
      × (succeeded (serve q s).0 ≡ true)
      × (q.if_match ≡ some (version i s))
      × (version i (serve q s).1 ≡ version i s + 1))
    ⊎ ((q.user_id == i && succeeded (serve q s).0 ≡ false)
        × (version i (serve q s).1 ≡ version i s))

served :
    (i id w : ℕ) (a : Action) (u : User) (s : Store)
    → s.users id ≡ some u
    → let (r, s') = serve_action a id (some w) s in
      ((u.wallet_version ≡ w)
        × (succeeded r ≡ true)
        × (version i s' ≡ (if id == i then version i s + 1 else version i s)))
      ⊎ ((succeeded r ≡ false) × (s' ≡ s))
unfolding serve
served i id w reserve u s e = ground arith
served i id w (update d) u s e = ground arith

refused :
    (id : ℕ) (m : Option ℕ) (a : Action) (s : Store)
    → (s.users id ≡ none) ⊎ (m ≡ none)
    → let (r, s') = serve_action a id m s in (succeeded r ≡ false) × (s' ≡ s)
unfolding serve
refused id none reserve s h = (refl, refl)
refused id none (update d) s h = (refl, refl)
refused id (some w) reserve s h = ground arith
refused id (some w) (update d) s h = ground arith

effect_of :
    (i id : ℕ) (m : Option ℕ) (a : Action) (s : Store)
    → let (r, s') = serve_action a id m s in
      ((id ≡ i)
        × (succeeded r ≡ true)
        × (m ≡ some (version i s))
        × (version i s' ≡ version i s + 1))
      ⊎ (((id == i) && succeeded r ≡ false) × (version i s' ≡ version i s))
effect_of i id m a s = elim (Option-cases (s.users id)) [
  | inl e ↦ ground (arith, refused id m a s (inl e))
  | inr (u, e) ↦ elim (Option-cases m) [
    | inl n ↦ ground (arith, refused id m a s (inr n))
    | inr (w, n) ↦ rw n (ground (arith, served i id w a u s e))
  ]
]

serve-Effect : (i : ℕ) (q : Request) (s : Store) → Effect i q s
unfolding serve
serve-Effect i q s = effect_of i q.user_id q.if_match q.action s

-- After any sequence of requests for any wallets, the version of a wallet has grown by exactly the
-- number of requests for it that succeeded.
pub version-serve_all :
    (i : ℕ) (qs : List Request) (s : Store)
    → version i (serve_all qs s) ≡ version i s + successes i qs s
unfolding serve_all successes
version-serve_all i [] s = omega arith
version-serve_all i (q ∷ qs) s =
    ground (arith, serve-Effect i q s, version-serve_all i qs (serve q s).1)

winners_past : (i v : ℕ) (qs : List Request) (s : Store) → v < version i s → winners i v qs s ≡ 0
unfolding winners
winners_past i v [] s h = refl
winners_past i v (q ∷ qs) s h =
    ground (arith, serve-Effect i q s, winners_past i v qs (serve q s).1)

-- Of all requests that name the same version of the same wallet, in whatever order they and others
-- are served, at most one succeeds.
pub one_winner : (i v : ℕ) (qs : List Request) (s : Store) → winners i v qs s ≤ 1
unfolding winners
one_winner i v [] s = omega arith
one_winner i v (q ∷ qs) s =
    ground (
      arith,
      serve-Effect i q s,
      one_winner i v qs (serve q s).1,
      winners_past i v qs (serve q s).1,
    )
