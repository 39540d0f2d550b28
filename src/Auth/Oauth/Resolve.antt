-- ===== src/Auth/Oauth/Resolve.antt =====
-- resolveOAuthUser of backend/internal/auth/oauth.go: a linked account wins; a user with the address
-- that Google vouches for is linked; otherwise a user is created.
use sauth.Prelude.{ℕ, Bool, true, not, none, some, ◌==◌, if◌then◌else◌}
use sauth.Text.{Text, trim_space, to_lower}
use sauth.Errors.{Lookup, found, missing, failed, oauth_account_conflict, user_banned}
use sauth.Env.{Env, Identity}
use sauth.Db.{User, Project, OauthAccount}
use sauth.Db.Users.{
  CreateUserParams, get_user_by_id_only, get_user_by_email, set_user_email_verified,
}
use sauth.Db.Oauth.{get_oauth_account, create_oauth_account}
use sauth.Exec.{Exec, pure, raise, query, lookup, reject_if, ◌>>=◌, ◌>>◌}
use sauth.Auth.Signup.{create, assign_default_role}
use sauth.Auth.Oauth.{oauth_provider}

-- user.EmailVerified = true, if Google vouches
abbrev pub vouched : Bool → User → User
vouched b user = if b then record user { email_verified = true } else user

module _ (env : Env) where
  unfoldable pub address_of : Identity → Text
  address_of id = to_lower env.lower_rune (trim_space id.email)

  -- if id.EmailVerified { SetUserEmailVerified }
  unfoldable pub vouch : Bool → ℕ → Exec (Unit {0})
  vouch b user_id = if b then query env (set_user_email_verified user_id) else pure tt

  unfoldable pub linked_user : Project → OauthAccount → Exec User
  linked_user project acc = do
    user ← query env (get_user_by_id_only env acc.user_id)
    reject_if (not (user.project_id == project.id)) oauth_account_conflict
        (reject_if user.banned user_banned (pure user))

  unfoldable pub link : Identity → User → Exec User
  link id user = reject_if user.banned user_banned (do
    query env (create_oauth_account user.id oauth_provider id.sub)
    vouch (not user.email_verified) user.id
    pure user)

  abbrev pub oauth_user_params : Project → Identity → CreateUserParams
  oauth_user_params project id = record {
    project_id = project.id;
    email = some (address_of id);
    username = none;
    phone = none;
    password_hash = none;
  }

  unfoldable pub create_oauth_user : Project → Identity → Exec User
  create_oauth_user project id = do
    user ← create env (oauth_user_params project id)
    vouch id.email_verified user.id
    query env (create_oauth_account user.id oauth_provider id.sub)
    assign_default_role env user.id project.id
    pure (vouched id.email_verified user)

  abbrev pub by_address : Project → Identity → Lookup User → Exec User
  by_address project id (found user) = link id user
  by_address project id (failed e) = raise e
  by_address project id missing = create_oauth_user project id

  unfoldable pub unlinked_user : Project → Identity → Exec User
  unlinked_user project id =
      if id.email_verified
      then (do
        user ← lookup (query env (get_user_by_email env project.id (some (address_of id))))
        by_address project id user)
      else create_oauth_user project id

  abbrev pub by_account : Project → Identity → Lookup OauthAccount → Exec User
  by_account project id (found acc) = linked_user project acc
  by_account project id (failed e) = raise e
  by_account project id missing = unlinked_user project id

  unfoldable pub resolve_oauth_user : Project → Identity → Exec User
  resolve_oauth_user project id = do
    acc ← lookup (query env (get_oauth_account oauth_provider id.sub))
    by_account project id acc
