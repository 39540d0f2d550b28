-- ===== src/Auth/Signup/Taken.antt =====
-- A signup with an address that a user of the project has.
use sauth.Prelude.{ℕ, ◌+◌, ◌≤◌, ◌≡◌, refl, ap, true, false, not, ltb, none, some, arith, ◌==◌}
use sauth.Text.{len}
use sauth.Errors.{
  err, email_taken, invalid_email, too_short, too_long, unique_violation, uq_users_project_email,
}
use sauth.Env.{Env}
use sauth.Db.{Db, Stamp, User}
use sauth.Db.Table.{exists}
use sauth.Db.Users.{CreateUserParams, create_user, same_email}
use sauth.Password
use sauth.Exec.{World, rollback}
use sauth.Exec.Runs.{
  IsHealthy, Runs, Runs-bind, Runs-bind_err, Runs-raise, Runs-pure, Runs-attempt, Runs-reject,
  Runs-query_err, Runs-call, Runs-in_tx,
}
use sauth.Auth.Signup.{
  SignupInput, signup, signup_in_tx, signup_params, create, created, map_create_user_err, email_of,
}

module _ (env : Env) (healthy : IsHealthy env) where
  collides :
      (arg : CreateUserParams) (t : Stamp) (d : Db)
      → exists (λ (u : User). u.id == t.uuid) d.users ≡ false
      → exists (same_email env arg.project_id arg.email) d.users ≡ true
      → create_user env arg t d ≡ err (unique_violation uq_users_project_email)
  unfolding create_user
  collides arg t d ids taken = rw (ids, taken, create_user) refl

  -- The transaction is rolled back.
  pub taken-Runs :
      (input : SignupInput) (w : World)
      → env.is_address (email_of env input.email) ≡ true
      → 8 ≤ len input.password
      → len input.password ≤ 72
      → ((n : ℕ) → exists (λ (u : User). u.id == env.uuid n) w.db.users ≡ false)
      → exists (same_email env input.project_id (some (email_of env input.email))) w.db.users ≡ true
      → Runs
          (signup env input)
          w
          (err email_taken)
          (record w { saved = none; calls = w.calls + 1 + 1 + 1 })
  unfolding signup signup_in_tx create map_create_user_err Password.hash rollback
  taken-Runs input w address long short ids taken = Runs-reject _ invalid_email (ap not address) (
      Runs-bind _
        (Runs-reject (ltb (len input.password) 8) too_short (ground arith) (
          Runs-reject (ltb Password.max_len (len input.password)) too_long (ground arith)
            (Runs-bind _ (Runs-call env healthy) Runs-pure)))
        (Runs-in_tx env healthy (
          Runs-bind_err _ (
            Runs-bind created
              (Runs-attempt (
                Runs-query_err env healthy
                  (create_user env (signup_params env input (env.bcrypt w.calls input.password)))
                  {e = unique_violation uq_users_project_email}
                  (collides (signup_params env input (env.bcrypt w.calls input.password)) _ w.db
                    (ids _) taken)))
              Runs-raise))))
