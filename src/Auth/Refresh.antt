-- ===== src/Auth/Refresh.antt =====
-- Refresh and Logout of backend/internal/auth/service.go.
pub mod Rotation
pub mod Replay
pub mod Twice
pub mod Ending
pub mod Returns
pub mod Atomicity
use sauth.Prelude.{ℕ, ◌+◌, Bool, ◌||◌, not, Option, none, some, [], ltb, if◌then◌else◌}
use sauth.Text.{Text, trim_space, text_eq}
use sauth.Errors.{
  Err, Outcome, ok, err, Lookup, found, missing, failed, refresh_invalid, refresh_reuse,
  user_banned,
}
use sauth.Env.{Env}
use sauth.Db.{User, Session}
use sauth.Db.Table.{is_null}
use sauth.Db.Users.{get_user_by_id_only}
use sauth.Db.Sessions.{
  find_session_by_used_refresh_hash, get_session_by_id, get_session_by_refresh_hash,
  record_used_refresh_hash, revoke_all_user_sessions, revoke_session, rotate_session_refresh_hash,
}
use sauth.Token.{hash_refresh_token, new_refresh_token}
use sauth.Exec.{
  Exec, pure, raise, query, attempt, lookup, commit, in_tx, now, reject_if, ◌>>=◌, ◌>>◌,
}
use sauth.Auth.{Result}
use sauth.Auth.Issue.{mint_access, result_of}

module _ (env : Env) where
  -- if victim, e3 := ...; e3 == nil { _ = ... }
  abbrev pub revoke_victim : Outcome Session → Exec (Unit {0})
  revoke_victim (err e) = pure tt
  revoke_victim (ok victim) = do
    attempt (query env (revoke_all_user_sessions victim.user_id))
    pure tt

  -- The presented token is not current: if sid, e2 := ...; e2 == nil { ... }
  abbrev pub replayed : Outcome ℕ → Exec Result
  replayed (err e) = raise refresh_invalid
  replayed (ok sid) = do
    victim ← attempt (query env (get_session_by_id sid))
    revoke_victim victim
    attempt (commit env)
    raise refresh_reuse

  unfoldable pub not_current : Text → Exec Result
  not_current presented = do
    sid ← attempt (query env (find_session_by_used_refresh_hash presented))
    replayed sid

  -- sess.RevokedAt.Valid || sess.ExpiresAt.Time.Before(time.Now())
  abbrev pub is_dead : ℕ → Session → Bool
  is_dead t sess = not (is_null sess.revoked_at) || ltb sess.expires_at t

  abbrev pub rotation_of : Lookup Session → Exec Session
  rotation_of missing = raise refresh_invalid
  rotation_of (failed e) = raise e
  rotation_of (found rotated) = pure rotated

  -- From RecordUsedRefreshHash to the row that RotateSessionRefreshHash returns.
  unfoldable pub rotate_session : Text → Text → Session → Exec Session
  rotate_session presented new_hash sess = do
    query env (record_used_refresh_hash presented sess.id)
    t ← now
    rotated ←
        lookup (query env (rotate_session_refresh_hash new_hash (t + env.refresh_ttl) sess.id))
    rotation_of rotated

  unfoldable pub renew : Text → Session → Exec Result
  renew presented sess = do
    (new_raw, new_hash) ← new_refresh_token env
    rotated ← rotate_session presented new_hash sess
    user ← query env (get_user_by_id_only env rotated.user_id)
    reject_if user.banned user_banned (do
      minted ← mint_access env user
      commit env
      t ← now
      pure (result_of env t minted new_raw user))

  abbrev pub refresh_found : Text → Lookup Session → Exec Result
  refresh_found presented missing = not_current presented
  refresh_found presented (failed e) = raise e
  refresh_found presented (found sess) = do
    t ← now
    reject_if (is_dead t sess) refresh_invalid (renew presented sess)

  unfoldable pub refresh_in_tx : Text → Exec Result
  refresh_in_tx presented = do
    sess ← lookup (query env (get_session_by_refresh_hash presented))
    refresh_found presented sess

  unfoldable pub refresh : Text → Exec Result
  unfolding refresh_in_tx
  refresh raw_refresh =
      reject_if (text_eq (trim_space raw_refresh) []) refresh_invalid
        (in_tx env (refresh_in_tx (hash_refresh_token env raw_refresh)))

  abbrev pub logout_found : Lookup Session → Exec (Unit {0})
  logout_found missing = pure tt
  logout_found (failed e) = raise e
  logout_found (found sess) = query env (revoke_session sess.id)

  unfoldable pub logout : Text → Exec (Unit {0})
  logout raw_refresh = if text_eq (trim_space raw_refresh) [] then pure tt else do
    sess ← lookup (query env (get_session_by_refresh_hash (hash_refresh_token env raw_refresh)))
    logout_found sess
