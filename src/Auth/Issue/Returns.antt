-- ===== src/Auth/Issue/Returns.antt =====
-- Tokens are issued when no call fails and the random sources are fresh.
use sauth.Prelude.{ℕ, ◌+◌, ◌≡◌, refl, true, false, ◌==◌, [], ◌∷◌, ◌++◌}
use sauth.Text.{Text}
use sauth.Errors.{ok}
use sauth.Env.{Env}
use sauth.Db.{Db, Stamp, User}
use sauth.Db.Table.{exists}
use sauth.Db.Sessions.{CreateSessionParams, create_session, new_session, has_id, has_hash}
use sauth.Db.Rbac.{role_names, permission_names, get_user_role_names, get_user_permission_names}
use sauth.Token.{hash_refresh_token, new_refresh_token, issue_access}
use sauth.Exec.{World}
use sauth.Exec.Runs.{IsHealthy}
use sauth.Exec.Returns.{
  Returns, Returns-pure, Returns-bind, Returns-query, Returns-call, Returns-now,
}
use sauth.Auth.{Result}
use sauth.Auth.Issue.{Minted, mint_access, issue}

-- No UUID and no refresh token that the random sources give is that of a session.
pub record IsFresh (env : Env) (d : Db) : Type 0 where
  pub ids : (n : ℕ) → exists (has_id (env.uuid n)) d.sessions ≡ false
  pub hashes :
      (n : ℕ) → exists (has_hash (hash_refresh_token env (env.random n 32))) d.sessions ≡ false

session_creates :
    (arg : CreateSessionParams) (t : Stamp) (d : Db)
    → exists (has_id t.uuid) d.sessions ≡ false
    → exists (has_hash arg.refresh_token_hash) d.sessions ≡ false
    → exists (λ (u : User). u.id == arg.user_id) d.users ≡ true
    → create_session arg t d
      ≡ ok (new_session t arg, record d { sessions = d.sessions ++ new_session t arg ∷ [] })
unfolding create_session
session_creates arg t d ids hashes owner = rw (ids, hashes, owner, create_session)

module _ (env : Env) (healthy : IsHealthy env) where
  pub mint_access-Returns :
      {Q : Minted → World → Type 0} (user : User) {w : World}
      → ((minted : Minted) (n : ℕ) → Q minted (record w { calls = n }))
      → Returns (mint_access env user) w Q
  unfolding mint_access issue_access get_user_role_names get_user_permission_names
  mint_access-Returns user {w} q = Returns-bind _ (
      Returns-query env healthy (get_user_role_names env user.id) (role_names env user.id w.db) w.db
        refl
        (Returns-bind _ (
          Returns-query env healthy (get_user_permission_names env user.id)
            (permission_names env user.id w.db) w.db refl
            (Returns-bind _ (
              Returns-bind _ (
                Returns-now (
                  Returns-bind _
                    (Returns-call env healthy (Returns-pure (Returns-pure (q _ _)))))))))))

  pub new_refresh_token-Returns :
      {Q : Text × Text → World → Type 0} {w : World}
      → Q
          (env.random w.calls 32, hash_refresh_token env (env.random w.calls 32))
          (record w { calls = w.calls + 1 })
      → Returns (new_refresh_token env) w Q
  unfolding new_refresh_token
  new_refresh_token-Returns q = Returns-bind _ (Returns-call env healthy (Returns-pure q))

  pub issue-Returns :
      {Q : Result → World → Type 0} (user : User) {w : World}
      → IsFresh env w.db
      → exists (λ (u : User). u.id == user.id) w.db.users ≡ true
      → ((res : Result) (d : Db) (n : ℕ) → Q res (record w { db = d; calls = n }))
      → Returns (issue env user) w Q
  unfolding issue
  issue-Returns user {w} fresh known q = Returns-bind _ (
      mint_access-Returns user λ minted n. Returns-bind _ (
        new_refresh_token-Returns (
          Returns-bind _ (
            Returns-now (
              Returns-bind _ (
                Returns-query env healthy _ _ _
                  (session_creates _ _ w.db (fresh.ids _) (fresh.hashes _) known)
                  (Returns-pure (q _ _ _))))))))
