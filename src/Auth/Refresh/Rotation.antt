-- ===== src/Auth/Refresh/Rotation.antt =====
-- A refresh that succeeds has rotated the session that held the presented token, and done nothing else.
use mathlib.Core.Path.{subst, ap, ◌∙◌}
use sauth.Prelude.{ℕ, ◌+◌, ◌≡◌, refl, ◌≤◌, ◌==◌, false, none, some, [], arith}
use sauth.Text.{Text, text_eq, trim_space}
use sauth.Errors.{Outcome, ok, err, user_banned, refresh_invalid}
use sauth.Env.{Env}
use sauth.Db.{Db, User, Session}
use sauth.Db.Table.{find, update_where, one, DistinctBy}
use sauth.Db.Table.Laws.{one_ok}
use sauth.Db.Sessions.Laws.{same_id, find-is_live, spent, recorded, replaced}
use sauth.Db.Sessions.{
  record_used_refresh_hash, rotate_session_refresh_hash, has_hash, rotate, is_live,
  get_session_by_refresh_hash,
}
use sauth.Exec.{World, rollback}
use sauth.Exec.Laws.{
  Yields, Yields-run, Yields-pure, Yields-raise, Yields-reject, Yields-bind, Yields-always,
  Yields-query, Yields-read, Yields-read_lookup, Yields-lookup, Yields-in_tx, Yields-commit,
  Yields-now,
}
use sauth.Db.Users.{get_user_by_id_only}
use sauth.Auth.Issue.Laws.{new_refresh_token-Yields, mint_access-Yields}
use sauth.Db.Rbac.{role_names, permission_names}
use sauth.Token.{access_claims, hash_refresh_token}
use sauth.Auth.{Result, to_user_dto}
use sauth.Auth.Refresh.{refresh, refresh_in_tx, not_current, replayed, renew, rotate_session}

module _ (env : Env) where
  -- The database after the rotation of `sess` from `presented` to `new_hash`.
  abbrev pub rotated_db : Text → Text → Session → ℕ → Db → Db
  rotated_db presented new_hash sess t d = record d {
    sessions =
        update_where (is_live sess.id)
          (rotate (record { uuid = 0; now = t }) new_hash (t + env.refresh_ttl)) d.sessions;
    refresh_token_history = spent presented sess.id t d.refresh_token_history;
  }

  -- What a refresh at `t` from the database `before` has done when it returns `res`.
  pub record IsRotation (presented : Text) (t : ℕ) (before : Db) (res : Result) (after : Db)
      : Type 0 where
    pub sess : Session
    pub user : User
    pub current : find (has_hash presented) before.sessions ≡ some sess
    pub alive : sess.revoked_at ≡ none
    pub unexpired : t ≤ sess.expires_at
    pub owner : find (λ (u : User). u.id == sess.user_id) before.users ≡ some user
    pub allowed : user.banned ≡ false
    pub profile : res.user ≡ to_user_dto env user (role_names env user.id before)
    pub jti : ℕ
    pub access :
        res.access_token
        ≡ env.sign (
            access_claims env jti t
              (env.uuid_string user.id)
              (env.uuid_string user.project_id)
              (role_names env user.id before)
              (permission_names env user.id before))
    pub rotated :
        after ≡ rotated_db presented (hash_refresh_token env res.refresh_token) sess t before

  not_current_fails :
      (Q : Result → World → Type 0) (h : Text) (w : World) → Yields (not_current env h) w Q
  unfolding not_current
  not_current_fails Q h w = Yields-bind (Yields-always fails)
    where
      fails : (r : Outcome ℕ) (u : World) → Yields (replayed env r) u Q
      fails (err e) u = Yields-raise _
      fails (ok sid) u = Yields-bind (
          Yields-always λ _ _.
            Yields-bind (Yields-always λ _ _. Yields-bind (Yields-always λ _ _. Yields-raise _)))

  rotate_session-Yields :
      (Q : Session → World → Type 0) (h nh : Text) (sess : Session) (w : World)
      → ((row : Session)
          → find (is_live sess.id) w.db.sessions ≡ some row
          → (s : Session) → s.user_id ≡ row.user_id
          → Q s (record w { db = rotated_db h nh sess w.now w.db; calls = w.calls + 1 + 1 }))
      → Yields (rotate_session env h nh sess) w Q
  unfolding rotate_session
  rotate_session-Yields Q h nh sess w q = Yields-bind (
      Yields-query env (record_used_refresh_hash h sess.id) (λ _ d e. Yields-bind (
        Yields-now (
          Yields-bind (
            Yields-lookup env (rotate_session_refresh_hash nh (w.now + env.refresh_ttl) sess.id)
              (λ s d' e'.
                let (row, f, es, ed) = replaced nh _ sess.id _ d d' s e' in
                let er = recorded h sess.id _ w.db d e in
                Yields-pure (
                  rw (ed, er)
                    (q row (subst (λ (b : Db). find (is_live sess.id) b.sessions ≡ some row) er f) s
                      (ap (λ (b : Session). b.user_id) es))))
              (λ _. Yields-raise _) (λ x. Yields-raise x))))))

  same_row :
      (h : Text) (sess row : Session) (w : World)
      → DistinctBy same_id w.db.sessions
      → find (has_hash h) w.db.sessions ≡ some sess
      → sess.revoked_at ≡ none
      → find (is_live sess.id) w.db.sessions ≡ some row
      → row ≡ sess
  same_row h sess row w ids f alive live =
      cc (find-is_live (has_hash h) w.db.sessions sess ids f alive)

  renew-Yields :
      (h : Text) (sess : Session) (w : World)
      → find (has_hash h) w.db.sessions ≡ some sess
      → sess.revoked_at ≡ none
      → w.now ≤ sess.expires_at
      → DistinctBy same_id w.db.sessions
      → Yields (renew env h sess) w (λ res v. IsRotation h w.now w.db res (rollback v).db)
  unfolding renew get_user_by_id_only rollback role_names permission_names
  renew-Yields h sess w f alive fresh ids = Yields-bind (
      new_refresh_token-Yields env (
        Yields-bind (
          rotate_session-Yields _ h _ sess _ λ row live s owner. Yields-bind (
            Yields-read env (get_user_by_id_only env s.user_id)
              (one (find (λ (u : User). u.id == s.user_id) w.db.users)) refl
              λ user is_user. Yields-reject user.banned user_banned λ allowed. Yields-bind (
                mint_access-Yields env user (
                  Yields-bind (
                    Yields-commit env (
                      Yields-bind (
                        Yields-now (
                          Yields-pure (record {
                            sess = sess;
                            user = user;
                            current = f;
                            alive = alive;
                            unexpired = fresh;
                            owner =
                                subst (λ k. find (λ (u : User). u.id == k) w.db.users ≡ some user)
                                  (owner
                                    ∙ ap (λ (b : Session). b.user_id)
                                        (same_row h sess row w ids f alive live))
                                  (one_ok _ is_user);
                            allowed = allowed;
                            profile = refl;
                            jti = w.calls + 1 + 1 + 1 + 1 + 1 + 1;
                            access = refl;
                            rotated = refl;
                          })))))))))))

  refresh_in_tx-Yields :
      (h : Text) (w : World)
      → DistinctBy same_id w.db.sessions
      → Yields (refresh_in_tx env h) w (λ res v. IsRotation h w.now w.db res (rollback v).db)
  unfolding refresh_in_tx get_session_by_refresh_hash
  refresh_in_tx-Yields h w ids = Yields-bind (
      Yields-read_lookup env (get_session_by_refresh_hash h) (one (find (has_hash h) w.db.sessions))
        refl
        (λ sess e. Yields-bind (
          Yields-now (
            Yields-reject _ _
              λ alive. renew-Yields h sess _ (one_ok _ e) (ground arith) (ground arith) ids)))
        (λ _. not_current_fails _ h _) (λ e. Yields-raise e))

  -- A refresh that returns tokens has found a session by the hash of the presented token, neither
  -- revoked nor expired, of a user that is not banned; the access token and the profile it returns
  -- are that user's, with the roles and permissions of the database. It has moved that session to
  -- the hash of the new token and to a new expiry, has put the presented hash into the history, and
  -- has changed nothing else. The ids of the sessions are distinct.
  pub refresh-rotates :
      (raw : Text) (w v : World) (res : Result)
      → DistinctBy same_id w.db.sessions
      → refresh env raw w ≡ (ok res, v)
      → IsRotation (hash_refresh_token env raw) w.now w.db res v.db
  unfolding refresh
  refresh-rotates raw w v res ids h =
      Yields-run {Q = λ r u. IsRotation (hash_refresh_token env raw) w.now w.db r u.db}
        (Yields-reject (text_eq (trim_space raw) []) refresh_invalid
          λ _. Yields-in_tx env (refresh_in_tx-Yields (hash_refresh_token env raw) _ ids))
        res v h
