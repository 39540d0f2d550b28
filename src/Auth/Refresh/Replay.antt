-- ===== src/Auth/Refresh/Replay.antt =====
-- A refresh token that was rotated away is refused, and ends every session of its user.
use sauth.Prelude.{ℕ, ◌+◌, ◌≡◌, refl, Bool, false, ◌&&◌, none, some, List, [], ◌∷◌, arith, ◌==◌, ap}
use sauth.Text.{Text, text_eq, trim_space}
use sauth.Errors.{err, refresh_reuse, refresh_invalid, no_rows}
use sauth.Env.{Env}
use sauth.Db.{Session, RefreshTokenHistory}
use sauth.Db.Table.{find, exists, update_where, is_null}
use sauth.Db.Sessions.{
  has_hash, has_id, was_hash, revoke, get_session_by_refresh_hash, get_session_by_id,
  find_session_by_used_refresh_hash, revoke_all_user_sessions,
}
use sauth.Token.{hash_refresh_token}
use sauth.Exec.{World, rollback}
use sauth.Exec.Runs.{
  IsHealthy, Runs, Runs-bind, Runs-raise, Runs-pure, Runs-attempt, Runs-lookup, Runs-reject,
  Runs-query, Runs-query_err, Runs-commit, Runs-in_tx,
}
use sauth.Auth.Refresh.{refresh, refresh_in_tx, not_current}

-- The sessions after every session of a user that is not revoked has been revoked at `t`.
abbrev pub all_revoked : ℕ → ℕ → List Session → List Session
all_revoked user_id t =
    update_where (λ (s : Session). s.user_id == user_id && is_null s.revoked_at)
      (revoke (record { uuid = 0; now = t }))

abbrev pub is_open : ℕ → Session → Bool
is_open user_id s = s.user_id == user_id && is_null s.revoked_at

pub exists-all_revoked :
    (user_id t : ℕ) (ss : List Session)
    → exists (is_open user_id) (all_revoked user_id t ss) ≡ false
unfolding exists update_where
exists-all_revoked user_id t [] = refl
exists-all_revoked user_id t (s ∷ ss) = ground (arith, exists-all_revoked user_id t ss)

module _ (env : Env) (healthy : IsHealthy env) where
  not_current-Runs :
      (h : Text) (w : World) (r : RefreshTokenHistory) (victim : Session)
      → find (was_hash h) w.db.refresh_token_history ≡ some r
      → find (has_id r.session_id) w.db.sessions ≡ some victim
      → Runs (not_current env h) w (err refresh_reuse) (record w {
        db = record w.db { sessions = all_revoked victim.user_id w.now w.db.sessions };
        saved = none;
        calls = w.calls + 1 + 1 + 1 + 1;
      })
  unfolding not_current find_session_by_used_refresh_hash get_session_by_id revoke_all_user_sessions
  not_current-Runs h w r victim used held =
      Runs-bind _
        (Runs-attempt (
          Runs-query env healthy (find_session_by_used_refresh_hash h) r.session_id w.db (rw used)))
        (Runs-bind _
          (Runs-attempt
            (Runs-query env healthy (get_session_by_id r.session_id) victim w.db (rw held)))
          (Runs-bind _
            (Runs-bind _
              (Runs-attempt
                (Runs-query env healthy (revoke_all_user_sessions victim.user_id) tt _ refl))
              Runs-pure)
            (Runs-bind _ (Runs-attempt (Runs-commit env healthy)) Runs-raise)))

  -- When no call fails, a token whose hash is in the history and is not the hash of a session is
  -- answered with the reuse error. Every session of the user whose session the history names is
  -- then revoked, at the time of the request; nothing else has changed, and the change is committed.
  pub refresh-replay :
      (raw : Text) (w : World) (r : RefreshTokenHistory) (victim : Session)
      → text_eq (trim_space raw) [] ≡ false
      → find (has_hash (hash_refresh_token env raw)) w.db.sessions ≡ none
      → find (was_hash (hash_refresh_token env raw)) w.db.refresh_token_history ≡ some r
      → find (has_id r.session_id) w.db.sessions ≡ some victim
      → ((refresh env raw w).0 ≡ err refresh_reuse)
        × ((refresh env raw w).1.db
            ≡ record w.db { sessions = all_revoked victim.user_id w.now w.db.sessions })
        × (exists (is_open victim.user_id) (refresh env raw w).1.db.sessions ≡ false)
  unfolding refresh refresh_in_tx get_session_by_refresh_hash rollback
  refresh-replay raw w r victim given absent used held =
      let run = Runs-reject _ refresh_invalid given (
        Runs-in_tx env healthy (
          Runs-bind _
            (Runs-lookup (
              Runs-query_err env healthy (get_session_by_refresh_hash (hash_refresh_token env raw))
                {e = no_rows} (rw absent)))
            (not_current-Runs (hash_refresh_token env raw) _ r victim used held))) in
      (
        ap (λ p. p.0) run.at,
        ap (λ p. p.1.db) run.at,
        rw run.at (exists-all_revoked victim.user_id w.now w.db.sessions),
      )
