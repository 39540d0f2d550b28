-- ===== src/Auth/Login.antt =====
-- Login of backend/internal/auth/service.go.
pub mod Outcomes
pub mod Hiding
pub mod Returns
use sauth.Prelude.{ℕ, Bool, ◌||◌, Option, none, some, []}
use sauth.Text.{Text, text_eq, trim_space, to_lower}
use sauth.Errors.{
  Err, Outcome, ok, err, Lookup, found, missing, failed, invalid_credentials, user_banned, mismatch,
}
use sauth.Env.{Env}
use sauth.Db.{User}
use sauth.Db.Users.{get_user_by_login}
use sauth.Password
use sauth.Exec.{Exec, pure, raise, query, lookup, commit, in_tx, reject_if, ◌>>=◌, ◌>>◌}
use sauth.Auth.{Result}
use sauth.Auth.Issue.{issue}

module _ (env : Env) where
  unfoldable pub login_in_tx : User → Exec Result
  login_in_tx user = do res ← issue env user; commit env; pure res

  abbrev pub login_verified : User → Outcome (Unit {0}) → Exec Result
  login_verified user (err mismatch) = raise invalid_credentials
  login_verified user (err e) = raise e
  login_verified user (ok _) = reject_if user.banned user_banned (in_tx env (login_in_tx user))

  abbrev pub login_hash : Text → User → Option Text → Exec Result
  login_hash plain_password user none = do
    Password.verify_dummy env plain_password
    raise invalid_credentials
  login_hash plain_password user (some hash) =
      login_verified user (Password.verify env hash plain_password)

  abbrev pub login_found : Text → Lookup User → Exec Result
  login_found plain_password missing = do
    Password.verify_dummy env plain_password
    raise invalid_credentials
  login_found plain_password (failed e) = raise e
  login_found plain_password (found user) = login_hash plain_password user user.password_hash

  unfoldable pub login : ℕ → Text → Text → Exec Result
  login project_id identifier plain_password =
      let id = trim_space identifier in
      reject_if (text_eq id [] || text_eq plain_password []) invalid_credentials (do
        user ←
            lookup
              (query env (get_user_by_login env project_id (some (to_lower env.lower_rune id))))
        login_found plain_password user)
