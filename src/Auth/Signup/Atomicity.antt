-- ===== src/Auth/Signup/Atomicity.antt =====
-- Signing up: everything or nothing.
use sauth.Prelude.{ℕ, ◌≡◌}
use sauth.Errors.{Err, Outcome, err, ok, Lookup, found, missing, failed}
use sauth.Env.{Env}
use sauth.Db.{User, Role}
use sauth.Db.Users.{CreateUserParams}
use sauth.Text.{Text}
use sauth.Password
use sauth.Exec.{World}
use sauth.Exec.Atomic.{IsQuiet, IsAtomic, Any, quiet_rules, atomic_rules}
use sauth.Exec.FailSafe.{IsReader, IsFailSafe, reader_rules, fail_safe_rules}
use sauth.Auth.Issue.Quiet.{issue-IsQuiet}
use sauth.Auth.Signup.{
  SignupInput, created, create, assign_found, assign_default_role, signup_in_tx, signup,
}

module _ (env : Env) where
  created-IsQuiet : (r : Outcome User) → IsQuiet (created r)
  created-IsQuiet (ok user) = search quiet_rules
  created-IsQuiet (err e) = search quiet_rules

  pub create-IsQuiet : (params : CreateUserParams) → IsQuiet (create env params)
  unfolding create
  create-IsQuiet params = search (quiet_rules, created-IsQuiet) depth 12

  assign_found-IsQuiet : (u p : ℕ) (l : Lookup Role) → IsQuiet (assign_found env u p l)
  assign_found-IsQuiet u p (found role) = search quiet_rules
  assign_found-IsQuiet u p missing = search quiet_rules
  assign_found-IsQuiet u p (failed e) = search quiet_rules

  pub assign_default_role-IsQuiet : (u p : ℕ) → IsQuiet (assign_default_role env u p)
  unfolding assign_default_role
  assign_default_role-IsQuiet u p = search (quiet_rules, assign_found-IsQuiet) depth 12

  signup_in_tx-IsAtomic :
      (input : SignupInput) (hash : Text) → IsAtomic Any (signup_in_tx env input hash)
  unfolding signup_in_tx
  signup_in_tx-IsAtomic input hash =
      search (atomic_rules, create-IsQuiet, assign_default_role-IsQuiet, issue-IsQuiet env) depth 12

  pub hash-IsReader : (plain : Text) → IsReader (Password.hash env plain)
  unfolding Password.hash
  hash-IsReader plain = search reader_rules depth 12

  signup-IsFailSafe : (input : SignupInput) → IsFailSafe Any (λ d. d) (signup env input)
  unfolding signup
  signup-IsFailSafe input = search (fail_safe_rules, signup_in_tx-IsAtomic, hash-IsReader) depth 12

  -- A signup that fails, whichever check, statement, commit or random source fails, leaves the
  -- database as it was: no user without a role or a session.
  pub signup-atomic :
      (input : SignupInput) (w : World) (e : Err)
      → (signup env input w).0 ≡ err e
      → (signup env input w).1.db ≡ w.db
  signup-atomic input w e h = (signup-IsFailSafe input).at w e tt h
