-- ===== src/Auth/Refresh/Atomicity.antt =====
-- A refresh that fails, but for the answer to a replay, has changed nothing.
use sauth.Prelude.{ℕ, ◌≡◌, ◌≢◌}
use sauth.Text.{Text}
use sauth.Errors.{Err, Outcome, ok, err, Lookup, found, missing, failed, refresh_reuse}
use sauth.Env.{Env}
use sauth.Db.{Session}
use sauth.Exec.{World}
use sauth.Exec.Atomic.{
  IsQuiet, IsAtomic, IsAtomic-bind, IsAtomic-attempt-raise, IsAtomic-reject, IsAtomic-commit_now,
  quiet_rules, atomic_rules,
}
use sauth.Exec.FailSafe.{IsFailSafe, fail_safe_rules}
use sauth.Auth.Issue.Quiet.{mint_access-IsQuiet, new_refresh_token-IsQuiet}
use sauth.Auth.Refresh.{
  refresh, refresh_in_tx, refresh_found, not_current, replayed, revoke_victim, renew,
  rotate_session, rotation_of,
}

-- Every error but the one that answers a replay.
abbrev pub NotReuse : Err → Type 0
NotReuse e = e ≢ refresh_reuse

module _ (env : Env) where
  revoke_victim-IsQuiet : (r : Outcome Session) → IsQuiet (revoke_victim env r)
  revoke_victim-IsQuiet (ok s) = search quiet_rules depth 12
  revoke_victim-IsQuiet (err e) = search quiet_rules

  replayed-IsAtomic : (r : Outcome ℕ) → IsAtomic NotReuse (replayed env r)
  replayed-IsAtomic (err e) = search atomic_rules
  replayed-IsAtomic (ok sid) = IsAtomic-bind _ _ (search quiet_rules depth 12) λ victim.
      IsAtomic-bind _ _ (revoke_victim-IsQuiet victim)
        λ _. IsAtomic-attempt-raise _ refresh_reuse (λ x n. n)

  not_current-IsAtomic : (h : Text) → IsAtomic NotReuse (not_current env h)
  unfolding not_current
  not_current-IsAtomic h = search (atomic_rules, replayed-IsAtomic) depth 12

  rotation_of-IsQuiet : (l : Lookup Session) → IsQuiet (rotation_of env l)
  rotation_of-IsQuiet (found s) = search quiet_rules
  rotation_of-IsQuiet missing = search quiet_rules
  rotation_of-IsQuiet (failed e) = search quiet_rules

  rotate_session-IsQuiet : (h nh : Text) (s : Session) → IsQuiet (rotate_session env h nh s)
  unfolding rotate_session
  rotate_session-IsQuiet h nh s = search (quiet_rules, rotation_of-IsQuiet) depth 12

  renew-IsAtomic : (h : Text) (s : Session) → IsAtomic NotReuse (renew env h s)
  unfolding renew
  renew-IsAtomic h s = IsAtomic-bind _ _ (new_refresh_token-IsQuiet env) λ t.
      IsAtomic-bind _ _ (rotate_session-IsQuiet h t.1 s) λ rotated.
        IsAtomic-bind _ _ (search quiet_rules) λ user.
          IsAtomic-reject _ _ _
            (IsAtomic-bind _ _ (mint_access-IsQuiet env user) λ minted. IsAtomic-commit_now env _)

  refresh_found-IsAtomic :
      (h : Text) (l : Lookup Session) → IsAtomic NotReuse (refresh_found env h l)
  refresh_found-IsAtomic h missing = not_current-IsAtomic h
  refresh_found-IsAtomic h (failed e) = search atomic_rules
  refresh_found-IsAtomic h (found s) = search (atomic_rules, renew-IsAtomic) depth 12

  refresh_in_tx-IsAtomic : (h : Text) → IsAtomic NotReuse (refresh_in_tx env h)
  unfolding refresh_in_tx
  refresh_in_tx-IsAtomic h = search (atomic_rules, refresh_found-IsAtomic) depth 12

  refresh-IsFailSafe : (raw : Text) → IsFailSafe NotReuse (λ d. d) (refresh env raw)
  unfolding refresh
  refresh-IsFailSafe raw = search (fail_safe_rules, refresh_in_tx-IsAtomic) depth 12

  -- A refresh that fails with any other error than the reuse error (an unknown, expired or revoked
  -- token, a banned user, a failed statement or commit) leaves the database as it was: the token
  -- that was presented is neither rotated nor recorded.
  pub refresh-atomic :
      (raw : Text) (w : World) (e : Err)
      → e ≢ refresh_reuse
      → (refresh env raw w).0 ≡ err e
      → (refresh env raw w).1.db ≡ w.db
  refresh-atomic raw w e n h = (refresh-IsFailSafe raw).at w e n h
