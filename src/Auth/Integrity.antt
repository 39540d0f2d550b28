-- ===== src/Auth/Integrity.antt =====
-- Signup, login and the exchange of codes keep what the statements keep; the other flows are below.
pub mod Refreshing
pub mod Codes
pub mod SignIns
pub mod Targets
pub mod Invariants
use sauth.Prelude.{ℕ, ◌≡◌, refl, Option, none, some}
use sauth.Text.{Text, trim_space}
use sauth.Errors.{Err, Outcome, ok, err, Lookup, found, missing, failed, mismatch}
use sauth.Env.{Env, Channel, email, sms}
use sauth.Db.{Db, Stamp, User, Session, Role, OtpCode}
use sauth.Db.Users.{CreateUserParams}
use sauth.Db.Kept.{IsKept, read_rules, write_rules}
use sauth.Password
use sauth.Otp
use sauth.Token.{issue_access, new_refresh_token}
use sauth.Exec.{World}
use sauth.Exec.Keeps.{Holds, Keeps, keeps_rules, Keeps-raise, Keeps-bind}
use sauth.Auth.Issue.{Minted, mint_access, issue}
use sauth.Auth.Signup.{
  SignupInput, created, create, assign_found, assign_default_role, signup_in_tx, signup,
}
use sauth.Db.{AuthExchangeCode}
use sauth.Auth.Exchange.{exchange_in_tx, exchange_taken, exchange_auth_code}
use sauth.Auth.Login.{login_in_tx, login_verified, login_hash, login_found, login}

module _ (env : Env) {P : Db → Type 0} (kept : IsKept env P) where
  pub mint_access-Keeps : (user : User) → Keeps P (mint_access env user)
  unfolding mint_access issue_access
  mint_access-Keeps user = search (keeps_rules, read_rules) depth 14

  pub new_refresh_token-Keeps : Keeps P (new_refresh_token env)
  unfolding new_refresh_token
  new_refresh_token-Keeps = search keeps_rules depth 12

  pub issue-Keeps : (user : User) → Keeps P (issue env user)
  unfolding issue
  issue-Keeps user = Keeps-bind _ _ (mint_access-Keeps user) λ minted.
      Keeps-bind _ _ new_refresh_token-Keeps λ t. search (keeps_rules, write_rules) depth 12

  created-Keeps : (r : Outcome User) → Keeps P (created r)
  created-Keeps (ok user) = search keeps_rules
  created-Keeps (err e) = search keeps_rules

  pub create-Keeps : (params : CreateUserParams) → Keeps P (create env params)
  unfolding create
  create-Keeps params = search (keeps_rules, write_rules, created-Keeps) depth 12

  assign_found-Keeps : (u p : ℕ) (l : Lookup Role) → Keeps P (assign_found env u p l)
  assign_found-Keeps u p missing = search keeps_rules
  assign_found-Keeps u p (failed e) = search keeps_rules
  assign_found-Keeps u p (found role) = search (keeps_rules, write_rules)

  pub assign_default_role-Keeps : (u p : ℕ) → Keeps P (assign_default_role env u p)
  unfolding assign_default_role
  assign_default_role-Keeps u p = search (keeps_rules, read_rules, assign_found-Keeps) depth 12

  signup_in_tx-Keeps : (input : SignupInput) (hash : Text) → Keeps P (signup_in_tx env input hash)
  unfolding signup_in_tx
  signup_in_tx-Keeps input hash =
      search (keeps_rules, create-Keeps, assign_default_role-Keeps, issue-Keeps) depth 14

  hash-Keeps : (plain : Text) → Keeps P (Password.hash env plain)
  unfolding Password.hash
  hash-Keeps plain = search keeps_rules depth 12

  pub signup-Keeps : (input : SignupInput) → Keeps P (signup env input)
  unfolding signup
  signup-Keeps input = search (keeps_rules, hash-Keeps, signup_in_tx-Keeps) depth 12

  login_in_tx-Keeps : (user : User) → Keeps P (login_in_tx env user)
  unfolding login_in_tx
  login_in_tx-Keeps user = search (keeps_rules, issue-Keeps) depth 12

  login_verified-Keeps :
      (user : User) (r : Outcome (Unit {0})) → Keeps P (login_verified env user r)
  login_verified-Keeps user (err mismatch) = Keeps-raise _
  login_verified-Keeps user (err e) = Keeps-raise _
  login_verified-Keeps user (ok _) = search (keeps_rules, login_in_tx-Keeps) depth 12

  login_hash-Keeps :
      (plain : Text) (user : User) (h : Option Text) → Keeps P (login_hash env plain user h)
  unfolding Password.verify_dummy
  login_hash-Keeps plain user none = search keeps_rules depth 12
  login_hash-Keeps plain user (some hash) =
      login_verified-Keeps user (Password.verify env hash plain)

  login_found-Keeps : (plain : Text) (l : Lookup User) → Keeps P (login_found env plain l)
  unfolding Password.verify_dummy
  login_found-Keeps plain missing = search keeps_rules depth 12
  login_found-Keeps plain (failed e) = Keeps-raise _
  login_found-Keeps plain (found user) = login_hash-Keeps plain user user.password_hash

  pub login-Keeps : (p : ℕ) (identifier plain : Text) → Keeps P (login env p identifier plain)
  unfolding login
  login-Keeps p identifier plain = search (keeps_rules, read_rules, login_found-Keeps) depth 12

  exchange_in_tx-Keeps : (rec : AuthExchangeCode) → Keeps P (exchange_in_tx env rec)
  unfolding exchange_in_tx
  exchange_in_tx-Keeps rec = search (keeps_rules, read_rules, issue-Keeps) depth 14

  exchange_taken-Keeps : (l : Lookup AuthExchangeCode) → Keeps P (exchange_taken env l)
  exchange_taken-Keeps missing = Keeps-raise _
  exchange_taken-Keeps (failed e) = Keeps-raise _
  exchange_taken-Keeps (found rec) = search (keeps_rules, exchange_in_tx-Keeps) depth 12

  pub exchange-Keeps : (p : ℕ) (raw_code : Text) → Keeps P (exchange_auth_code env p raw_code)
  unfolding exchange_auth_code
  exchange-Keeps p raw_code = search (keeps_rules, write_rules, exchange_taken-Keeps) depth 12
