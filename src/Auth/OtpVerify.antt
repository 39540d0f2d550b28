-- ===== src/Auth/OtpVerify.antt =====
-- VerifyOTP of backend/internal/auth/otp.go.
pub mod Atomicity
pub mod Resolve
pub mod Success
pub mod Twice
pub mod Profile
pub mod Attempts
pub mod Lockout
pub mod Returns
pub mod Sent
use sauth.Prelude.{
  ℕ, Bool, true, false, not, ◌||◌, ◌==◌, Option, none, some, [], leb, ltb, if◌then◌else◌,
}
use sauth.Text.{Text, text_eq, trim_space}
use sauth.Errors.{
  Err, Outcome, ok, err, Lookup, found, missing, failed, otp_invalid, otp_expired,
  otp_too_many_attempts, account_exists, user_banned,
}
use sauth.Env.{Env, Channel, email, sms}
use sauth.Db.{User, OtpCode}
use sauth.Db.Table.{is_null}
use sauth.Db.Users.{CreateUserParams, set_user_email_verified, set_user_phone_verified}
use sauth.Db.Otp.{get_otp_by_id, consume_otp, increment_otp_attempts}
use sauth.Otp
use sauth.Exec.{
  Exec, pure, raise, query, lookup, attempt, commit, in_tx, now, reject_if, ◌>>=◌, ◌>>◌,
}
use sauth.Auth.{Result}
use sauth.Auth.Issue.{issue}
use sauth.Auth.Signup.{create, assign_default_role}
use sauth.Auth.Destination.{classify_destination}
use sauth.Auth.OtpRequest.{
  otp_max_attempts, login_purpose, signup_purpose, lookup_user_by_destination,
}

module _ (env : Env) where
  unfoldable pub mark_verified : User → Channel → Exec (Unit {0})
  mark_verified user email =
      if user.email_verified then pure tt else query env (set_user_email_verified user.id)
  mark_verified user sms =
      if user.phone_verified then pure tt else query env (set_user_phone_verified user.id)

  abbrev pub login_user : Channel → Lookup User → Exec User
  login_user channel missing = raise otp_invalid
  login_user channel (failed e) = raise e
  login_user channel (found user) =
      reject_if user.banned user_banned (do mark_verified user channel; pure user)

  abbrev pub destination_params : ℕ → Channel → Text → CreateUserParams
  destination_params project_id email dest = record {
    project_id = project_id;
    email = some dest;
    username = none;
    phone = none;
    password_hash = none;
  }
  destination_params project_id sms dest = record {
    project_id = project_id;
    email = none;
    username = none;
    phone = some dest;
    password_hash = none;
  }

  abbrev pub signup_user : ℕ → Channel → Text → Lookup User → Exec User
  signup_user project_id channel dest (found user) = raise account_exists
  signup_user project_id channel dest (failed e) = raise e
  signup_user project_id channel dest missing = do
    user ← create env (destination_params project_id channel dest)
    mark_verified user channel
    assign_default_role env user.id project_id
    pure user

  -- switch rec.Purpose
  unfoldable pub resolve_user : ℕ → Text → Channel → Text → Exec User
  resolve_user project_id purpose channel dest =
      if text_eq purpose login_purpose
      then (do
        user ← lookup (lookup_user_by_destination env project_id channel dest)
        login_user channel user)
      else if text_eq purpose signup_purpose
      then (do
        user ← lookup (lookup_user_by_destination env project_id channel dest)
        signup_user project_id channel dest user)
      else raise otp_invalid

  unfoldable pub verify_in_tx : ℕ → ℕ → Text → Channel → Text → Exec Result
  verify_in_tx id project_id purpose channel dest = do
    query env (consume_otp id)
    user ← resolve_user project_id purpose channel dest
    res ← issue env user
    commit env
    pure res

  -- The code is right. classifyDestination's error becomes ErrOTPInvalid.
  abbrev pub verify_classified : ℕ → ℕ → Text → Outcome (Channel × Text) → Exec Result
  verify_classified id project_id purpose (err e) = raise otp_invalid
  verify_classified id project_id purpose (ok (channel, dest)) =
      in_tx env (verify_in_tx id project_id purpose channel dest)

  -- if incErr == nil && n >= otpMaxAttempts
  abbrev pub locks : Outcome ℕ → Bool
  locks (ok n) = leb otp_max_attempts n
  locks (err e) = false

  -- The code is wrong.
  unfoldable pub count_attempt : ℕ → Exec Result
  count_attempt id = do
    n ← attempt (query env (increment_otp_attempts id))
    if locks n
        then (do attempt (query env (consume_otp id)); raise otp_invalid)
        else raise otp_invalid

  -- rec.ProjectID != projectID || rec.ConsumedAt.Valid
  abbrev pub is_foreign_or_used : ℕ → OtpCode → Bool
  is_foreign_or_used project_id o = not (o.project_id == project_id) || not (is_null o.consumed_at)

  abbrev pub is_expired : ℕ → OtpCode → Bool
  is_expired t o = ltb o.expires_at t

  abbrev pub is_locked : OtpCode → Bool
  is_locked o = leb otp_max_attempts o.attempts

  unfoldable pub lock : ℕ → Exec Result
  lock id = do attempt (query env (consume_otp id)); raise otp_too_many_attempts

  -- The record is this project's, fresh and not locked.
  unfoldable pub check_code : ℕ → ℕ → Text → OtpCode → Exec Result
  check_code id project_id code o =
      if Otp.equal env code o.code_hash
      then verify_classified id project_id o.purpose (classify_destination env o.destination)
      else count_attempt id

  abbrev pub verify_found : ℕ → ℕ → Text → Lookup OtpCode → Exec Result
  verify_found id project_id code missing = raise otp_invalid
  verify_found id project_id code (failed e) = raise e
  verify_found id project_id code (found o) =
      reject_if (is_foreign_or_used project_id o) otp_invalid (do
        t ← now
        reject_if (is_expired t o) otp_expired
            (if is_locked o then lock id else check_code id project_id code o))

  unfoldable pub verify_id : ℕ → Text → ℕ → Exec Result
  verify_id project_id code id = do
    o ← lookup (query env (get_otp_by_id id))
    verify_found id project_id code o

  abbrev pub verify_parsed : ℕ → Text → Option ℕ → Exec Result
  verify_parsed project_id code none = raise otp_invalid
  verify_parsed project_id code (some id) = verify_id project_id (trim_space code) id

  unfoldable pub verify_otp : ℕ → Text → Text → Exec Result
  verify_otp project_id otp_id code =
      verify_parsed project_id code (env.parse_uuid (trim_space otp_id))
