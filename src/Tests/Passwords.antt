-- ===== src/Tests/Passwords.antt =====
-- Signing up and logging in.
use sauth.Prelude.{◌≡◌, refl, ◌==◌}
use sauth.Text.{Text, lit}
use sauth.Errors.{ok, err, fault, invalid_credentials}
use sauth.Text
use sauth.Db.Table
use sauth.Exec
use sauth.Text.Hex
use sauth.Token
use sauth.Auth
use sauth.Auth.Issue
use sauth.Db.Rbac
use sauth.Db.Sessions
use sauth.Db.Users
use sauth.Auth.Signup
use sauth.Password
use sauth.Auth.Login
use sauth.Env.{Env}
use sauth.Exec.{World}
use sauth.Auth.{Result}
use sauth.Auth.Signup.{SignupInput, signup}
use sauth.Auth.Signup.Success.{IsSignedUp, signup-registers}
use sauth.Auth.Signup.Atomicity.{signup-atomic}
use sauth.Auth.Login.{login}
use sauth.Auth.Login.Outcomes.{IsAdmitted, login-admits}
use sauth.Tests.{env, start, result, nobody}

abbrev pub ada : SignupInput
ada = record {
  project_id = 1;
  email = lit " Ada@x.io";
  username = lit "ada";
  password = lit "correct horse";
}

abbrev pub joined : World
joined = (signup env ada start).1

abbrev pub joined_result : Result
joined_result = result (signup env ada start).0 nobody

signup_run : signup env ada start ≡ (ok joined_result, joined)
unfolding Text.text_eq Text.trim_left Text.trim_right Text.trim_space Text.is_space Text.contains
    Text.to_lower Text.to_lower_rune Text.len Text.rune_len Text.has_prefix Table.find Table.exists
    Table.update_where Table.rows_where Table.join Table.insert_sorted Table.order_by Table.distinct
    Exec.reject_if Exec.◌>>=◌ Exec.call Exec.query Exec.begin Exec.commit Exec.rollback
    Exec.deferred Exec.in_tx Hex.hex_encode Token.hash_refresh_token Token.new_refresh_token
    Token.issue_access Auth.to_user_dto Issue.mint_access Issue.issue Rbac.permission_names
    Rbac.role_names Rbac.get_user_permission_names Rbac.get_user_role_names Sessions.create_session
    Rbac.get_default_role Rbac.assign_role_to_user Users.create_user Signup.username_of
    Signup.email_of Signup.create Signup.assign_default_role Signup.map_create_user_err
    Password.hash Signup.signup_in_tx Signup.signup
signup_run = refl

signup-registers_example : IsSignedUp env ada 1_000_000_000 start.db joined_result joined.db
signup-registers_example = signup-registers env ada start joined joined_result signup_run

-- The commit of the signup fails.
abbrev uncommitted : Env
uncommitted = record env { fails = λ n. n == 10 }

uncommitted_run : (signup uncommitted ada start).0 ≡ err fault
unfolding Text.text_eq Text.trim_left Text.trim_right Text.trim_space Text.is_space Text.contains
    Text.to_lower Text.to_lower_rune Text.len Text.rune_len Text.has_prefix Table.find Table.exists
    Table.update_where Table.rows_where Table.join Table.insert_sorted Table.order_by Table.distinct
    Exec.reject_if Exec.◌>>=◌ Exec.call Exec.query Exec.begin Exec.commit Exec.rollback
    Exec.deferred Exec.in_tx Hex.hex_encode Token.hash_refresh_token Token.new_refresh_token
    Token.issue_access Auth.to_user_dto Issue.mint_access Issue.issue Rbac.permission_names
    Rbac.role_names Rbac.get_user_permission_names Rbac.get_user_role_names Sessions.create_session
    Rbac.get_default_role Rbac.assign_role_to_user Users.create_user Signup.username_of
    Signup.email_of Signup.create Signup.assign_default_role Signup.map_create_user_err
    Password.hash Signup.signup_in_tx Signup.signup
uncommitted_run = refl

signup-atomic_example : (signup uncommitted ada start).1.db ≡ start.db
signup-atomic_example = signup-atomic uncommitted ada start fault uncommitted_run

abbrev later : World
later = record joined { now = 2_000_000_000 }

abbrev welcome : World
welcome = (login env 1 (lit "ADA@x.io ") (lit "correct horse") later).1

abbrev welcome_result : Result
welcome_result = result (login env 1 (lit "ADA@x.io ") (lit "correct horse") later).0 nobody

login_run : login env 1 (lit "ADA@x.io ") (lit "correct horse") later ≡ (ok welcome_result, welcome)
unfolding Text.text_eq Text.trim_left Text.trim_right Text.trim_space Text.is_space Text.contains
    Text.to_lower Text.to_lower_rune Text.len Text.rune_len Text.has_prefix Table.find Table.exists
    Table.update_where Table.rows_where Table.join Table.insert_sorted Table.order_by Table.distinct
    Exec.reject_if Exec.◌>>=◌ Exec.call Exec.query Exec.begin Exec.commit Exec.rollback
    Exec.deferred Exec.in_tx Hex.hex_encode Token.hash_refresh_token Token.new_refresh_token
    Token.issue_access Auth.to_user_dto Issue.mint_access Issue.issue Rbac.permission_names
    Rbac.role_names Rbac.get_user_permission_names Rbac.get_user_role_names Sessions.create_session
    Rbac.get_default_role Rbac.assign_role_to_user Users.create_user Signup.username_of
    Signup.email_of Signup.create Signup.assign_default_role Signup.map_create_user_err
    Password.hash Signup.signup_in_tx Signup.signup Password.verify Password.verify_dummy
    Users.get_user_by_login Login.login_in_tx Login.login
login_run = refl

login-admits_example :
    IsAdmitted env 1
      (lit "ADA@x.io ")
      (lit "correct horse")
      2_000_000_000
      later.db
      welcome_result
      welcome.db
login-admits_example =
    login-admits env 1 (lit "ADA@x.io ") (lit "correct horse") later welcome welcome_result
      login_run

wrong_run : (login env 1 (lit "ada") (lit "wrong horse") later).0 ≡ err invalid_credentials
unfolding Text.text_eq Text.trim_left Text.trim_right Text.trim_space Text.is_space Text.contains
    Text.to_lower Text.to_lower_rune Text.len Text.rune_len Text.has_prefix Table.find Table.exists
    Table.update_where Table.rows_where Table.join Table.insert_sorted Table.order_by Table.distinct
    Exec.reject_if Exec.◌>>=◌ Exec.call Exec.query Exec.begin Exec.commit Exec.rollback
    Exec.deferred Exec.in_tx Hex.hex_encode Token.hash_refresh_token Token.new_refresh_token
    Token.issue_access Auth.to_user_dto Issue.mint_access Issue.issue Rbac.permission_names
    Rbac.role_names Rbac.get_user_permission_names Rbac.get_user_role_names Sessions.create_session
    Rbac.get_default_role Rbac.assign_role_to_user Users.create_user Signup.username_of
    Signup.email_of Signup.create Signup.assign_default_role Signup.map_create_user_err
    Password.hash Signup.signup_in_tx Signup.signup Password.verify Password.verify_dummy
    Users.get_user_by_login Login.login_in_tx Login.login
wrong_run = refl
