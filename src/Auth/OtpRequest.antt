-- ===== src/Auth/OtpRequest.antt =====
-- RequestOTP of backend/internal/auth/otp.go, with its constants.
pub mod Steps
pub mod Rules
pub mod Stored
pub mod Returns
pub mod Atomicity
use sauth.Prelude.{
  ℕ, ◌+◌, ◌-◌, ◌*◌, Bool, true, false, not, ◌||◌, ◌&&◌, none, some, List, [], ◌∷◌, ◌++◌, ltb,
  if◌then◌else◌,
}
use sauth.Text.{Text, text_eq, lit}
use sauth.Errors.{
  Err, Outcome, ok, err, Lookup, found, missing, failed, otp_bad_purpose, otp_disabled,
  otp_throttled,
}
use sauth.Env.{Env, Channel, email, sms}
use sauth.Db.{User, OtpCode, Stmt}
use sauth.Db.Users.{get_user_by_email, get_user_by_phone}
use sauth.Db.Otp.{CreateOtpParams, create_otp, get_latest_otp_created_at, invalidate_active_otps}
use sauth.Token.{second}
use sauth.Otp
use sauth.Exec.{
  World, Message, Exec, pure, raise, lift, query, lookup, commit, in_tx, now, reject_if, ◌>>=◌,
  ◌>>◌,
}
use sauth.Auth.Destination.{classify_destination}

abbrev pub otp_ttl : ℕ
otp_ttl = 5 * 60 * second

abbrev pub otp_max_attempts : ℕ
otp_max_attempts = 5

abbrev pub otp_resend_window : ℕ
otp_resend_window = 30 * second

abbrev pub login_purpose : Text
login_purpose = lit "login"

abbrev pub signup_purpose : Text
signup_purpose = lit "signup"

pub record OtpRequestInput : Type 0 where
  pub project_id : ℕ
  pub otp_enabled : Bool
  pub destination : Text
  pub purpose : Text

pub record OtpRequestResult : Type 0 where
  pub otp_id : Text
  pub expires_at : ℕ

-- time.Since(last) < otpResendWindow
abbrev pub too_recent : Lookup ℕ → ℕ → Bool
too_recent (found last) t = ltb t (last + otp_resend_window)
too_recent missing t = false
too_recent (failed e) t = false

-- the errors of the `default` case, and of a throttled request
abbrev pub throttle : Lookup ℕ → ℕ → Outcome (Unit {0})
throttle (failed e) t = err e
throttle missing t = ok tt
throttle (found last) t = if too_recent (found last) t then err otp_throttled else ok tt

-- whether the code could lead somewhere
abbrev pub should_deliver : Text → Lookup User → Outcome Bool
should_deliver purpose (failed e) = err e
should_deliver purpose (found user) = ok (not (text_eq purpose signup_purpose))
should_deliver purpose missing = ok (not (text_eq purpose login_purpose))

module _ (env : Env) where
  unfoldable pub user_by_destination : ℕ → Channel → Text → Stmt User
  user_by_destination project_id email dest = get_user_by_email env project_id (some dest)
  user_by_destination project_id sms dest = get_user_by_phone env project_id (some dest)

  unfoldable pub lookup_user_by_destination : ℕ → Channel → Text → Exec User
  lookup_user_by_destination project_id channel dest =
      query env (user_by_destination project_id channel dest)

  unfoldable pub otp_params : OtpRequestInput → Text → Text → ℕ → CreateOtpParams
  otp_params input dest code t = record {
    project_id = input.project_id;
    destination = dest;
    code_hash = Otp.hash env code;
    purpose = input.purpose;
    expires_at = t + otp_ttl;
  }

  unfoldable pub request_in_tx : OtpRequestInput → Text → Text → Exec OtpCode
  request_in_tx input dest code = do
    query env (invalidate_active_otps input.project_id dest input.purpose)
    t ← now
    row ← query env (create_otp (otp_params input dest code t))
    commit env
    pure row

  -- s.sender.SendOTP: what it cannot deliver is logged, and the request goes on.
  unfoldable pub send_otp : Channel → Text → Text → Text → Exec (Unit {0})
  send_otp channel dest code purpose w = (
    ok tt,
    if env.sender_fails w.calls then w else record w {
      sent =
          w.sent
          ++ record { channel = channel; destination = dest; code = code; purpose = purpose } ∷ [];
    },
  )

  -- Once the user with the destination has been looked up.
  unfoldable pub request_known :
      OtpRequestInput → Channel → Text → Lookup User → Exec OtpRequestResult
  request_known input channel dest user = do
    deliver ← lift (should_deliver input.purpose user)
    code ← Otp.generate env
    row ← in_tx env (request_in_tx input dest code)
    if deliver then send_otp channel dest code input.purpose else pure tt
    pure (record { otp_id = env.uuid_string row.id; expires_at = row.expires_at })

  -- Once the latest code of the same request has been looked up.
  unfoldable pub request_last : OtpRequestInput → Channel → Text → Lookup ℕ → Exec OtpRequestResult
  request_last input channel dest last = do
    t ← now
    lift (throttle last t)
    user ← lookup (lookup_user_by_destination input.project_id channel dest)
    request_known input channel dest user

  unfoldable pub request_classified : OtpRequestInput → Channel × Text → Exec OtpRequestResult
  request_classified input (channel, dest) = do
    last ← lookup (query env (get_latest_otp_created_at input.project_id dest input.purpose))
    request_last input channel dest last

  unfoldable pub request_otp : OtpRequestInput → Exec OtpRequestResult
  request_otp input =
      reject_if
        (not (text_eq input.purpose login_purpose) && not (text_eq input.purpose signup_purpose))
        otp_bad_purpose
        (reject_if (not input.otp_enabled) otp_disabled (do
          classified ← lift (classify_destination env input.destination)
          request_classified input classified))
