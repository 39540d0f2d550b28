-- ===== src/Auth/Exchange.antt =====
-- ExchangeAuthCode of backend/internal/auth/oauth.go.
pub mod Success
use sauth.Prelude.{ℕ, []}
use sauth.Text.{Text, text_eq, trim_space}
use sauth.Errors.{Lookup, found, missing, failed, auth_code_invalid, user_banned}
use sauth.Env.{Env}
use sauth.Db.{AuthExchangeCode}
use sauth.Db.Users.{get_user_by_id_only}
use sauth.Db.Oauth.{take_auth_exchange_code}
use sauth.Token.{hash_refresh_token}
use sauth.Exec.{Exec, pure, raise, query, lookup, commit, in_tx, reject_if, ◌>>=◌, ◌>>◌}
use sauth.Auth.{Result}
use sauth.Auth.Issue.{issue}

module _ (env : Env) where
  unfoldable pub exchange_in_tx : AuthExchangeCode → Exec Result
  exchange_in_tx rec = do
    user ← query env (get_user_by_id_only env rec.user_id)
    reject_if user.banned user_banned (do res ← issue env user; commit env; pure res)

  abbrev pub exchange_taken : Lookup AuthExchangeCode → Exec Result
  exchange_taken missing = raise auth_code_invalid
  exchange_taken (failed e) = raise e
  exchange_taken (found rec) = in_tx env (exchange_in_tx rec)

  unfoldable pub exchange_auth_code : ℕ → Text → Exec Result
  exchange_auth_code project_id raw_code =
      reject_if (text_eq (trim_space raw_code) []) auth_code_invalid (do
        rec ←
            lookup
              (query env (take_auth_exchange_code (hash_refresh_token env raw_code) project_id))
        exchange_taken rec)
