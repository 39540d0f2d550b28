-- ===== src/Auth/Oauth/Callback.antt =====
-- HandleGoogleCallback of backend/internal/auth/oauth.go. It returns the app's redirect URI beside
-- the code or the error: the one of the state once a state is taken, the empty text before.
use sauth.Prelude.{◌+◌, [], ltb, if◌then◌else◌}
use sauth.Text.{Text, text_eq, trim_space}
use sauth.Errors.{
  Outcome, ok, err, Lookup, found, missing, failed, oauth_state_invalid, oauth_exchange_failed,
}
use sauth.Env.{Env, Identity}
use sauth.Db.{Project, OauthState}
use sauth.Db.Users.{get_project_by_id}
use sauth.Db.Oauth.{take_oauth_state, create_auth_exchange_code}
use sauth.Token.{hash_refresh_token, random_token}
use sauth.Google.{exchange}
use sauth.Exec.{
  Exec, pure, raise, lift, query, lookup, attempt, commit, in_tx, now, reject_if, ◌>>=◌, ◌>>◌,
}
use sauth.Auth.Oauth.{google_config_for, auth_code_ttl, auth_code_bytes}
use sauth.Auth.Oauth.Resolve.{resolve_oauth_user}

module _ (env : Env) where
  unfoldable pub callback_in_tx : Project → Identity → Text → Exec Text
  callback_in_tx project ident raw_code = do
    user ← resolve_oauth_user env project ident
    t ← now
    query env (
        create_auth_exchange_code (hash_refresh_token env raw_code) user.id project.id
          (t + auth_code_ttl))
    commit env
    pure raw_code

  -- An error of Google's is ErrOAuthExchangeFailed.
  abbrev pub callback_identified : Project → Outcome Identity → Exec Text
  callback_identified project (err e) = raise oauth_exchange_failed
  callback_identified project (ok ident) = do
    raw_code ← random_token env auth_code_bytes
    in_tx env (callback_in_tx project ident raw_code)

  unfoldable pub callback_known : Text → Project → Exec Text
  callback_known code project = do
    gcfg ← lift (google_config_for env project)
    ident ← attempt (exchange env gcfg code)
    callback_identified project ident

  unfoldable pub callback_state : Text → OauthState → Exec Text
  callback_state code st = do
    t ← now
    reject_if (ltb st.expires_at t) oauth_state_invalid
        (do project ← query env (get_project_by_id st.project_id); callback_known code project)

  abbrev pub callback_taken : Text → Lookup OauthState → Exec (Text × Outcome Text)
  callback_taken code missing = pure ([], err oauth_state_invalid)
  callback_taken code (failed e) = pure ([], err e)
  callback_taken code (found st) = do
    r ← attempt (callback_state code st)
    pure (st.redirect_uri, r)

  unfoldable pub handle_google_callback : Text → Text → Exec (Text × Outcome Text)
  handle_google_callback code state =
      if text_eq (trim_space state) []
      then pure ([], err oauth_state_invalid)
      else (do st ← lookup (query env (take_oauth_state state)); callback_taken code st)
