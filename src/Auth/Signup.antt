-- ===== src/Auth/Signup.antt =====
-- Signup of backend/internal/auth/service.go, with mapCreateUserErr.
pub mod Success
pub mod Atomicity
pub mod Returns
pub mod Taken
use sauth.Prelude.{ℕ, Bool, not, Option, none, some, [], if◌then◌else◌}
use sauth.Text.{Text, text_eq, trim_space, to_lower}
use sauth.Errors.{
  Err, Outcome, ok, err, Lookup, found, missing, failed, invalid_email, email_taken, username_taken,
  unique_violation, uq_users_project_email, uq_users_project_username,
}
use sauth.Env.{Env}
use sauth.Db.{User, Role}
use sauth.Db.Users.{CreateUserParams, create_user}
use sauth.Db.Rbac.{assign_role_to_user, get_default_role}
use sauth.Password
use sauth.Exec.{Exec, pure, raise, query, lookup, attempt, commit, in_tx, reject_if, ◌>>=◌, ◌>>◌}
use sauth.Auth.{Result}
use sauth.Auth.Issue.{issue}

pub record SignupInput : Type 0 where
  pub project_id : ℕ
  pub email : Text
  pub username : Text
  pub password : Text

unfoldable pub map_create_user_err : Err → Err
map_create_user_err (unique_violation uq_users_project_email) = email_taken
map_create_user_err (unique_violation uq_users_project_username) = username_taken
map_create_user_err e = e

-- if err != nil { return nil, mapCreateUserErr(err) }
abbrev pub created : Outcome User → Exec User
created (ok user) = pure user
created (err e) = raise (map_create_user_err e)

-- A username that is blank is not set.
unfoldable pub username_of : Text → Option Text
username_of raw = let u = trim_space raw in if text_eq u [] then none else some u

unfoldable pub email_of : Env → Text → Text
email_of env raw = trim_space (to_lower env.lower_rune raw)

module _ (env : Env) where
  -- The two flows that create users share this: CreateUser, with its errors mapped.
  unfoldable pub create : CreateUserParams → Exec User
  create params = do r ← attempt (query env (create_user env params)); created r

  abbrev pub assign_found : ℕ → ℕ → Lookup Role → Exec (Unit {0})
  assign_found user_id project_id missing = pure tt
  assign_found user_id project_id (failed e) = raise e
  assign_found user_id project_id (found role) =
      query env (assign_role_to_user user_id role.id project_id)

  -- Attach the project's default role, if one is configured.
  unfoldable pub assign_default_role : ℕ → ℕ → Exec (Unit {0})
  assign_default_role user_id project_id = do
    role ← lookup (query env (get_default_role project_id))
    assign_found user_id project_id role

  abbrev pub signup_params : SignupInput → Text → CreateUserParams
  signup_params input hash = record {
    project_id = input.project_id;
    email = some (email_of env input.email);
    username = username_of input.username;
    phone = none;
    password_hash = some hash;
  }

  unfoldable pub signup_in_tx : SignupInput → Text → Exec Result
  signup_in_tx input hash = do
    user ← create (signup_params input hash)
    assign_default_role user.id input.project_id
    res ← issue env user
    commit env
    pure res

  unfoldable pub signup : SignupInput → Exec Result
  signup input =
      reject_if (not (env.is_address (email_of env input.email))) invalid_email
        (do hash ← Password.hash env input.password; in_tx env (signup_in_tx input hash))
