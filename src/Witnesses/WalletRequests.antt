-- ===== src/Witnesses/WalletRequests.antt =====
-- The theorems about src/services/wallet/walletStateService.ts and src/services/ledger at concrete
-- requests.
use acbu_backend.Prelude.{
  ℕ, ◌≤◌, refl, none, some, Option, List, [], ◌∷◌, ◌++◌, length, arith, if◌then◌else◌, ◌==◌,
}
use acbu_backend.Wallet.{
  User, Store, WalletData, Config, HorizonReply, not_found, fetch_wallet_balance,
}
use acbu_backend.Wallet.Races.{Request, reserve, winners, one_winner}
use acbu_backend.Wallet.Coherence.{Fetched, fetch-IsCoherent}
use acbu_backend.Ledger.{CreateMany, create_ledger_entries}
use acbu_backend.Ledger.Chunks.{IsAtomic, Ends, create_ledger_entries-Ends}

abbrev alice : User
alice = record {
  stellar_address = some 77;
  encrypted_stellar_secret = none;
  key_encryption_hint = none;
  wallet_version = 4;
}

abbrev one_user : Store
one_user = record { users = λ i. if i == 1 then some alice else none; cache = [] }

abbrev new_address : WalletData
new_address = record {
  stellar_address = some (some 78);
  encrypted_stellar_secret = none;
  key_encryption_hint = none;
}

abbrev config : Config
config = record { horizon_url = 9; asset = record { code = 1; issuer = 2 }; ttl = none }

abbrev unfunded : ℕ → HorizonReply
unfunded _ = not_found

abbrev version_4 : Option ℕ
version_4 = some 4

abbrev two_requests : List Request
two_requests =
    record { user_id = 1; if_match = some 4; action = reserve }
    ∷ record { user_id = 1; if_match = some 4; action = reserve }
    ∷ []

one_winner_example : winners 1 4 two_requests one_user ≤ 1
one_winner_example = one_winner 1 4 two_requests one_user

fetch-IsCoherent_example : Fetched alice (fetch_wallet_balance config unfunded 100 200 1 one_user)
fetch-IsCoherent_example = fetch-IsCoherent config unfunded 100 200 1 alice one_user refl tt

-- A database that never fails.
abbrev append_all : CreateMany ℕ
append_all table chunk = some (table ++ chunk, length chunk)

append_all-IsAtomic : IsAtomic append_all
append_all-IsAtomic table chunk table' count e = (ground arith, ground arith)

abbrev five_entries : List ℕ
five_entries = 1 ∷ 2 ∷ 3 ∷ 4 ∷ 5 ∷ []

create_ledger_entries-Ends_example :
    Ends append_all 2 0 five_entries
      (record { inserted = 0; batches = 0 })
      (0 ∷ [])
      (create_ledger_entries append_all 2 five_entries (0 ∷ []))
create_ledger_entries-Ends_example =
    create_ledger_entries-Ends append_all 2 five_entries (0 ∷ []) append_all-IsAtomic (omega arith)
