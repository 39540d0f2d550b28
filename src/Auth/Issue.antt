-- ===== src/Auth/Issue.antt =====
-- The helpers of backend/internal/auth/service.go that hand out tokens: mintAccess and issue; and Me.
pub mod Laws
pub mod Quiet
pub mod Returns
use sauth.Prelude.{ℕ, ◌+◌, ◌-◌, ◌/◌, none, List}
use sauth.Text.{Text, lit}
use sauth.Errors.{Err, Lookup, found, missing, failed, user_not_found}
use sauth.Env.{Env}
use sauth.Db.{User, Session}
use sauth.Db.Users.{get_user_by_id}
use sauth.Db.Sessions.{CreateSessionParams, create_session}
use sauth.Db.Rbac.{get_user_role_names, get_user_permission_names}
use sauth.Token.{issue_access, new_refresh_token, second}
use sauth.Exec.{Exec, pure, raise, query, lookup, now, ◌>>=◌, ◌>>◌}
use sauth.Auth.{Result, MeResult, to_user_dto}

-- what mintAccess returns
pub record Minted : Type 0 where
  pub token_str : Text
  pub exp : ℕ
  pub roles : List Text

module _ (env : Env) where
  unfoldable pub mint_access : User → Exec Minted
  mint_access user = do
    roles ← query env (get_user_role_names env user.id)
    perms ← query env (get_user_permission_names env user.id)
    (token_str, exp) ←
        issue_access env (env.uuid_string user.id) (env.uuid_string user.project_id) roles perms
    pure (record { token_str = token_str; exp = exp; roles = roles })

  -- int(time.Until(exp).Seconds())
  abbrev pub expires_in : ℕ → ℕ → ℕ
  expires_in t exp = (exp - t) / second

  abbrev pub result_of : ℕ → Minted → Text → User → Result
  result_of t minted raw_refresh user = record {
    access_token = minted.token_str;
    refresh_token = raw_refresh;
    token_type = lit "Bearer";
    expires_in = expires_in t minted.exp;
    user = to_user_dto env user minted.roles;
  }

  abbrev pub session_params : ℕ → User → Text → CreateSessionParams
  session_params t user refresh_hash = record {
    user_id = user.id;
    refresh_token_hash = refresh_hash;
    device_info = none;
    ip_address = none;
    expires_at = t + env.refresh_ttl;
  }

  unfoldable pub issue : User → Exec Result
  issue user = do
    minted ← mint_access user
    (raw_refresh, refresh_hash) ← new_refresh_token env
    t ← now
    query env (create_session (session_params t user refresh_hash))
    pure (result_of t minted raw_refresh user)

  abbrev pub me_found : Lookup User → Exec MeResult
  me_found missing = raise user_not_found
  me_found (failed e) = raise e
  me_found (found user) = do
    roles ← query env (get_user_role_names env user.id)
    perms ← query env (get_user_permission_names env user.id)
    pure (record { user = to_user_dto env user roles; permissions = perms })

  unfoldable pub me : ℕ → ℕ → Exec MeResult
  me user_id project_id = do
    user ← lookup (query env (get_user_by_id env user_id project_id))
    me_found user
