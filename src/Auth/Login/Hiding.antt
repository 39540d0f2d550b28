-- ===== src/Auth/Login/Hiding.antt =====
-- A refused login does not tell who exists.
use sauth.Prelude.{ℕ, ◌+◌, ◌≡◌, false, ◌||◌, none, some, []}
use sauth.Text.{Text, text_eq, trim_space, to_lower}
use sauth.Errors.{err, invalid_credentials, no_rows, found, missing}
use sauth.Env.{Env, differs}
use sauth.Db.{Db, User}
use sauth.Db.Table.{find}
use sauth.Db.Users.{has_login, get_user_by_login}
use sauth.Password
use sauth.Exec.{World}
use sauth.Exec.Runs.{
  IsHealthy, Runs, Runs-bind, Runs-raise, Runs-pure, Runs-lookup, Runs-reject, Runs-query,
  Runs-query_err,
}
use sauth.Auth.Login.{login, login_found}

module _ (env : Env) where
  -- No user has the name; or one has it, without a password, or with another.
  pub data IsWrong (project_id : ℕ) (identifier plain : Text) (d : Db) : Type 0 where
    unknown :
        find
            (has_login env project_id (some (to_lower env.lower_rune (trim_space identifier))))
            d.users
          ≡ none
        → IsWrong project_id identifier plain d
    no_password :
        (user : User)
        → find
            (has_login env project_id (some (to_lower env.lower_rune (trim_space identifier))))
            d.users
          ≡ some user
        → user.password_hash ≡ none
        → IsWrong project_id identifier plain d
    other_password :
        (user : User) (hash : Text)
        → find
            (has_login env project_id (some (to_lower env.lower_rune (trim_space identifier))))
            d.users
          ≡ some user
        → user.password_hash ≡ some hash
        → env.bcrypt_compare hash plain ≡ differs
        → IsWrong project_id identifier plain d

  dummy-Runs :
      (plain : Text) (w : World)
      → Runs (login_found env plain missing) w (err invalid_credentials) w
  unfolding Password.verify_dummy
  dummy-Runs plain w = Runs-bind _ Runs-pure Runs-raise

  none-Runs :
      (plain : Text) (user : User) (w : World)
      → user.password_hash ≡ none
      → Runs (login_found env plain (found user)) w (err invalid_credentials) w
  unfolding Password.verify_dummy
  none-Runs plain user w e = rw e (Runs-bind _ Runs-pure Runs-raise)

  other-Runs :
      (plain hash : Text) (user : User) (w : World)
      → user.password_hash ≡ some hash
      → env.bcrypt_compare hash plain ≡ differs
      → Runs (login_found env plain (found user)) w (err invalid_credentials) w
  unfolding Password.verify
  other-Runs plain hash user w e f = rw (e, Password.verify, f) Runs-raise

  -- When no call fails, a login for a name that no user has, for a user without a password, and with
  -- another password than the user's all end in the same way: the same error, and the same world, in
  -- which nothing but the number of the next call has changed.
  pub login-hides :
      IsHealthy env
      → (project_id : ℕ) (identifier plain : Text) (w : World)
      → (text_eq (trim_space identifier) [] || text_eq plain []) ≡ false
      → IsWrong project_id identifier plain w.db
      → login env project_id identifier plain w
        ≡ (err invalid_credentials, record w { calls = w.calls + 1 })
  unfolding login get_user_by_login
  login-hides healthy project_id identifier plain w given (unknown f) =
      (Runs-reject _ invalid_credentials given (
        Runs-bind _ (Runs-lookup (Runs-query_err env healthy _ {e = no_rows} (rw f)))
          (dummy-Runs plain _))).at
  login-hides healthy project_id identifier plain w given (no_password user f e) =
      (Runs-reject _ invalid_credentials given (
        Runs-bind _ (Runs-lookup (Runs-query env healthy _ user w.db (rw f)))
          (none-Runs plain user _ e))).at
  login-hides healthy project_id identifier plain w given (other_password user hash f e g) =
      (Runs-reject _ invalid_credentials given (
        Runs-bind _ (Runs-lookup (Runs-query env healthy _ user w.db (rw f)))
          (other-Runs plain hash user _ e g))).at
