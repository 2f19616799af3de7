-- ===== src/Limits/Snapshots.antt =====
-- How long a snapshot of the limits is served: src/config/limits.ts.
use acbu_backend.Prelude.{ℕ, ◌≡◌, ◌<◌, ◌≤◌, some, arith}
use acbu_backend.Limits.Config.{
  Environment, Table, Cache, load_limits_snapshot, get_limits_snapshot,
}

-- A snapshot that was just returned is served again, whatever the table holds by then, as long as the
-- cache has not expired; once it has, the table is read again.
pub snapshot_served :
    (e : Environment) (t t' : Table) (now now' : ℕ) (c : Cache)
    → let (s, c') = get_limits_snapshot e t now c in
      (now' < c'.cache_expires_at → get_limits_snapshot e t' now' c' ≡ (s, c'))
      × (c'.cache_expires_at ≤ now'
          → (get_limits_snapshot e t' now' c').0 ≡ load_limits_snapshot e t' (some s))
unfolding get_limits_snapshot
snapshot_served e t t' now now' c = ground arith
