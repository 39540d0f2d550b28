-- ===== src/Auth/OtpVerify/Atomicity.antt =====
-- What a verification that fails leaves behind.
use sauth.Prelude.{ℕ, ◌≡◌, Option, none, some, [], arith}
use sauth.Text.{Text, trim_space}
use sauth.Errors.{Err, Outcome, ok, err, Lookup, found, missing, failed}
use sauth.Env.{Env, Channel, email, sms}
use sauth.Db.{Db, Stamp, User, OtpCode}
use sauth.Db.Otp.{consume_otp, increment_otp_attempts, get_otp_by_id}
use sauth.Exec.{World, query}
use sauth.Exec.Atomic.{IsQuiet, IsAtomic, Any, quiet_rules, atomic_rules}
use sauth.Exec.FailSafe.{
  IsReader, IsReader-query, IsFailSafe, IsFailSafe-raise, select-reads, fail_safe_rules,
}
use sauth.Exec.Unseen.{IsUnseen, IsFailSafe-of_unseen, unseen_rules}
use sauth.Auth.Issue.Quiet.{issue-IsQuiet}
use sauth.Auth.Signup.Atomicity.{create-IsQuiet, assign_default_role-IsQuiet}
use sauth.Auth.OtpRequest.{lookup_user_by_destination}
use sauth.Auth.OtpVerify.{
  mark_verified, login_user, signup_user, resolve_user, verify_in_tx, verify_classified,
  count_attempt, lock, check_code, verify_found, verify_id, verify_parsed, verify_otp,
}

-- The database but for the codes.
abbrev pub without_codes : Db → Db
without_codes d = record d { otp_codes = [] }

module _ (env : Env) where
  mark_verified-IsQuiet :
      (user : User) (channel : Channel) → IsQuiet (mark_verified env user channel)
  unfolding mark_verified
  mark_verified-IsQuiet user email = search quiet_rules depth 12
  mark_verified-IsQuiet user sms = search quiet_rules depth 12

  login_user-IsQuiet : (channel : Channel) (l : Lookup User) → IsQuiet (login_user env channel l)
  login_user-IsQuiet channel missing = search quiet_rules
  login_user-IsQuiet channel (failed e) = search quiet_rules
  login_user-IsQuiet channel (found user) = search (quiet_rules, mark_verified-IsQuiet) depth 12

  signup_user-IsQuiet :
      (p : ℕ) (channel : Channel) (dest : Text) (l : Lookup User)
      → IsQuiet (signup_user env p channel dest l)
  signup_user-IsQuiet p channel dest (found user) = search quiet_rules
  signup_user-IsQuiet p channel dest (failed e) = search quiet_rules
  signup_user-IsQuiet p channel dest missing =
      search
        (quiet_rules, create-IsQuiet env, mark_verified-IsQuiet, assign_default_role-IsQuiet env)
        depth 12

  resolve_user-IsQuiet :
      (p : ℕ) (purpose : Text) (channel : Channel) (dest : Text)
      → IsQuiet (resolve_user env p purpose channel dest)
  unfolding resolve_user lookup_user_by_destination
  resolve_user-IsQuiet p purpose channel dest =
      search (quiet_rules, login_user-IsQuiet, signup_user-IsQuiet) depth 14

  verify_in_tx-IsAtomic :
      (id p : ℕ) (purpose : Text) (channel : Channel) (dest : Text)
      → IsAtomic Any (verify_in_tx env id p purpose channel dest)
  unfolding verify_in_tx
  verify_in_tx-IsAtomic id p purpose channel dest =
      search (atomic_rules, resolve_user-IsQuiet, issue-IsQuiet env) depth 12

  classified-IsFailSafe :
      (id p : ℕ) (purpose : Text) (c : Outcome (Channel × Text))
      → IsFailSafe Any without_codes (verify_classified env id p purpose c)
  classified-IsFailSafe id p purpose (err e) = IsFailSafe-raise _
  classified-IsFailSafe id p purpose (ok (channel, dest)) =
      search (fail_safe_rules, verify_in_tx-IsAtomic) depth 12

  consume-unseen :
      (id : ℕ) (t : Stamp) (d : Db) (u : Unit {0}) (d' : Db)
      → consume_otp id t d ≡ ok (u, d')
      → without_codes d' ≡ without_codes d
  unfolding consume_otp
  consume-unseen id t d u d' h = cc h

  increment-unseen :
      (id : ℕ) (t : Stamp) (d : Db) (n : ℕ) (d' : Db)
      → increment_otp_attempts id t d ≡ ok (n, d')
      → without_codes d' ≡ without_codes d
  unfolding increment_otp_attempts
  increment-unseen id t d n d' h = ground arith

  count_attempt-IsUnseen : (id : ℕ) → IsUnseen without_codes (count_attempt env id)
  unfolding count_attempt
  count_attempt-IsUnseen id = search (unseen_rules, consume-unseen, increment-unseen) depth 12

  lock-IsUnseen : (id : ℕ) → IsUnseen without_codes (lock env id)
  unfolding lock
  lock-IsUnseen id = search (unseen_rules, consume-unseen) depth 12

  check_code-IsFailSafe :
      (id p : ℕ) (code : Text) (o : OtpCode)
      → IsFailSafe Any without_codes (check_code env id p code o)
  unfolding check_code
  check_code-IsFailSafe id p code o =
      search (fail_safe_rules, classified-IsFailSafe, IsFailSafe-of_unseen, count_attempt-IsUnseen)
        depth 12

  found-IsFailSafe :
      (id p : ℕ) (code : Text) (l : Lookup OtpCode)
      → IsFailSafe Any without_codes (verify_found env id p code l)
  found-IsFailSafe id p code missing = IsFailSafe-raise _
  found-IsFailSafe id p code (failed e) = IsFailSafe-raise _
  found-IsFailSafe id p code (found o) =
      search (fail_safe_rules, IsFailSafe-of_unseen, lock-IsUnseen, check_code-IsFailSafe) depth 12

  by_id-IsReader : (id : ℕ) → IsReader (query env (get_otp_by_id id))
  unfolding get_otp_by_id
  by_id-IsReader id = IsReader-query env _ λ t d a d' h. select-reads _ d a d' h

  parsed-IsFailSafe :
      (p : ℕ) (code : Text) (id : Option ℕ)
      → IsFailSafe Any without_codes (verify_parsed env p code id)
  unfolding verify_id
  parsed-IsFailSafe p code none = IsFailSafe-raise _
  parsed-IsFailSafe p code (some id) =
      search (fail_safe_rules, by_id-IsReader, found-IsFailSafe) depth 12

  -- A verification that fails, whatever made it fail, has changed nothing but rows of the codes: no
  -- user, role or session is left behind.
  pub verify-atomic :
      (project_id : ℕ) (otp_id_text code : Text) (w : World) (e : Err)
      → (verify_otp env project_id otp_id_text code w).0 ≡ err e
      → without_codes (verify_otp env project_id otp_id_text code w).1.db ≡ without_codes w.db
  unfolding verify_otp
  verify-atomic project_id otp_id_text code w e h =
      (parsed-IsFailSafe project_id code (env.parse_uuid (trim_space otp_id_text))).at w e tt h
