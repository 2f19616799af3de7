-- ===== src/Auth/Refresh/Rotation.antt =====
-- A refresh token that is used again: src/services/auth/authService.ts.
use acbu_backend.Prelude.{ℕ, ◌≡◌, ap, ◌≤◌, false, List, ◌==◌, count_where}
use acbu_backend.Prelude.Result.{ok, err}
use acbu_backend.Auth.Refresh.{Store, invalid_or_expired, is_usable, rotate, refresh_access_token}
use acbu_backend.Auth.Refresh.Families.{
  Op, run, Avoids, run-inactive, find-inactive, usable-active, refreshed-inactive,
}

-- A refresh token is exchanged once at most: after a refresh with it that succeeded, and any tokens
-- that are issued, refreshed or revoked since, with hashes other than its own, a refresh with it is
-- refused and changes nothing.
pub refreshed_once :
    (now now' h new_hash new_family key new_hash' new_family' key' : ℕ) (s : Store) (out : ℕ × ℕ)
    (os : List Op)
    → count_where (λ t. t.token_hash == h) s.tokens ≤ 1
    → new_hash == h ≡ false
    → (refresh_access_token now h new_hash new_family key s).0 ≡ ok out
    → Avoids h os
    → let s' = run os (refresh_access_token now h new_hash new_family key s).1 in
      refresh_access_token now' h new_hash' new_family' key' s' ≡ (err invalid_or_expired, s')
unfolding refresh_access_token
refreshed_once now now' h new_hash new_family key new_hash' new_family' key' s out os one other done
      avoids =
    let s1 = (refresh_access_token now h new_hash new_family key s).1 in
    let dead =
      run-inactive h os s1 avoids
        (refreshed-inactive now h new_hash new_family key s out one other done) in
    ap (λ found. rotate now' h new_hash' new_family' key' found (run os s1))
      (find-inactive h (is_usable now' h) (run os s1).tokens (usable-active now' h) dead)
