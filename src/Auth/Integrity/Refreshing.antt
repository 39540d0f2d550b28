-- ===== src/Auth/Integrity/Refreshing.antt =====
-- Refresh and logout keep what the statements keep.
use sauth.Prelude.{ℕ}
use sauth.Text.{Text}
use sauth.Errors.{Outcome, ok, err, Lookup, found, missing, failed}
use sauth.Env.{Env}
use sauth.Db.{Db, Session}
use sauth.Db.Kept.{IsKept, read_rules, write_rules}
use sauth.Exec.Keeps.{Keeps, keeps_rules, Keeps-raise, Keeps-bind}
use sauth.Auth.Integrity.{mint_access-Keeps, new_refresh_token-Keeps}
use sauth.Auth.Refresh.{
  revoke_victim, replayed, not_current, rotation_of, rotate_session, renew, refresh_found,
  refresh_in_tx, refresh, logout_found, logout,
}

module _ (env : Env) {P : Db → Type 0} (kept : IsKept env P) where
  revoke_victim-Keeps : (r : Outcome Session) → Keeps P (revoke_victim env r)
  revoke_victim-Keeps (err e) = search keeps_rules
  revoke_victim-Keeps (ok victim) = search (keeps_rules, write_rules) depth 12

  replayed-Keeps : (r : Outcome ℕ) → Keeps P (replayed env r)
  replayed-Keeps (err e) = search keeps_rules
  replayed-Keeps (ok sid) = search (keeps_rules, read_rules, revoke_victim-Keeps) depth 14

  not_current-Keeps : (h : Text) → Keeps P (not_current env h)
  unfolding not_current
  not_current-Keeps h = search (keeps_rules, read_rules, replayed-Keeps) depth 12

  rotation_of-Keeps : (l : Lookup Session) → Keeps P (rotation_of env l)
  rotation_of-Keeps missing = Keeps-raise _
  rotation_of-Keeps (failed e) = Keeps-raise _
  rotation_of-Keeps (found s) = search keeps_rules

  rotate_session-Keeps : (h nh : Text) (s : Session) → Keeps P (rotate_session env h nh s)
  unfolding rotate_session
  rotate_session-Keeps h nh s = search (keeps_rules, write_rules, rotation_of-Keeps) depth 14

  renew-Keeps : (h : Text) (s : Session) → Keeps P (renew env h s)
  unfolding renew
  renew-Keeps h s = Keeps-bind _ _ (new_refresh_token-Keeps env kept) λ t.
      search (keeps_rules, read_rules, rotate_session-Keeps, mint_access-Keeps env kept) depth 16

  refresh_found-Keeps : (h : Text) (l : Lookup Session) → Keeps P (refresh_found env h l)
  refresh_found-Keeps h missing = not_current-Keeps h
  refresh_found-Keeps h (failed e) = Keeps-raise _
  refresh_found-Keeps h (found s) = search (keeps_rules, renew-Keeps) depth 12

  refresh_in_tx-Keeps : (h : Text) → Keeps P (refresh_in_tx env h)
  unfolding refresh_in_tx
  refresh_in_tx-Keeps h = search (keeps_rules, read_rules, refresh_found-Keeps) depth 12

  pub refresh-Keeps : (raw : Text) → Keeps P (refresh env raw)
  unfolding refresh
  refresh-Keeps raw = search (keeps_rules, refresh_in_tx-Keeps) depth 12

  logout_found-Keeps : (l : Lookup Session) → Keeps P (logout_found env l)
  logout_found-Keeps missing = search keeps_rules
  logout_found-Keeps (failed e) = Keeps-raise _
  logout_found-Keeps (found s) = search (keeps_rules, write_rules)

  pub logout-Keeps : (raw : Text) → Keeps P (logout env raw)
  unfolding logout
  logout-Keeps raw = search (keeps_rules, read_rules, logout_found-Keeps) depth 12
