-- ===== src/Http.antt =====
-- The wire errors of backend/internal/apierror/apierror.go, mapAuthErr of
-- backend/internal/httpapi/auth_handlers.go, and the answers of
-- backend/internal/httpapi/respond.go. Middleware and handlers are in the modules below.
pub mod Middleware
pub mod Handlers
pub mod Routes
pub mod Refusals
pub mod Access
pub mod Keyless
pub mod Keys
pub mod Bounces
pub mod Codes
pub mod Sessions
use sauth.Prelude.{ℕ, Option}
use sauth.Text.{Text, lit}
use sauth.Errors.{
  Err, Outcome, ok, err, email_taken, username_taken, invalid_email, invalid_credentials,
  user_banned, refresh_invalid, refresh_reuse, user_not_found, otp_disabled, otp_bad_purpose,
  invalid_destination, otp_invalid, otp_expired, otp_too_many_attempts, otp_throttled,
  account_exists, oauth_not_configured, redirect_invalid, redirect_not_allowed, oauth_state_invalid,
  oauth_exchange_failed, auth_code_invalid, oauth_account_conflict, too_long, too_short,
}
use sauth.Auth.{Result, MeResult}
use sauth.Auth.OtpRequest.{OtpRequestResult}

-- Error of apierror.go
pub record ApiError : Type 0 where
  pub status : ℕ
  pub code : Text
  pub message : Text

abbrev pub api_error : ℕ → Text → Text → ApiError
api_error status code message = record { status = status; code = code; message = message }

abbrev pub invalid_request : Text → ApiError
invalid_request = api_error 400 (lit "invalid_request")

abbrev pub wrong_credentials : ApiError
wrong_credentials = api_error 401 (lit "invalid_credentials") (lit "email or password is incorrect")

abbrev pub unauthorized : Text → ApiError
unauthorized = api_error 401 (lit "unauthorized")

abbrev pub not_found : Text → ApiError
not_found = api_error 404 (lit "not_found")

abbrev pub conflict : Text → ApiError
conflict = api_error 409 (lit "conflict")

abbrev pub internal : ApiError
internal = api_error 500 (lit "internal_error") (lit "an internal error occurred")

-- What writeError is given: an error of apierror.go, or another.
pub data Failure : Type 0 where
  api : ApiError → Failure
  other : Err → Failure

unfoldable pub map_auth_err : Err → Failure
map_auth_err email_taken = api (conflict (lit "email already registered"))
map_auth_err username_taken = api (conflict (lit "username already taken"))
map_auth_err invalid_email = api (invalid_request (lit "email is not valid"))
map_auth_err too_short = api (invalid_request (lit "password must be at least 8 characters"))
map_auth_err too_long = api (invalid_request (lit "password must be at most 72 bytes"))
map_auth_err invalid_credentials = api wrong_credentials
map_auth_err user_banned =
    api (api_error 403 (lit "user_banned") (lit "this account has been banned"))
map_auth_err refresh_invalid = api (unauthorized (lit "invalid or expired refresh token"))
map_auth_err refresh_reuse = api (
    api_error 401 (lit "refresh_token_reuse")
      (lit "refresh token reuse detected; all sessions for this user have been revoked"))
map_auth_err user_not_found = api (not_found (lit "user not found"))
map_auth_err otp_disabled =
    api (api_error 403 (lit "otp_disabled") (lit "OTP is not enabled for this project"))
map_auth_err otp_bad_purpose = api (invalid_request (lit "purpose must be 'login' or 'signup'"))
map_auth_err invalid_destination =
    api (invalid_request (lit "email_or_phone is not a valid email or E.164 phone number"))
map_auth_err otp_invalid =
    api (api_error 401 (lit "otp_invalid") (lit "the code is incorrect or no longer valid"))
map_auth_err otp_expired =
    api (api_error 401 (lit "otp_expired") (lit "the code has expired; request a new one"))
map_auth_err otp_too_many_attempts =
    api (api_error 429 (lit "otp_locked") (lit "too many incorrect attempts; request a new code"))
map_auth_err otp_throttled = api (
    api_error 429 (lit "rate_limited") (lit "a code was just sent; wait before requesting another"))
map_auth_err account_exists =
    api (conflict (lit "an account already exists for this email or phone"))
map_auth_err oauth_not_configured = api (
    api_error 400 (lit "oauth_not_configured")
      (lit "Google OAuth is not configured for this project"))
map_auth_err redirect_invalid = api (invalid_request (lit "redirect_uri must be an absolute URL"))
map_auth_err redirect_not_allowed = api (
    api_error 403 (lit "redirect_not_allowed")
      (lit "redirect_uri origin is not in the project's allowed origins"))
map_auth_err oauth_state_invalid = api (
    api_error 400 (lit "oauth_state_invalid")
      (lit "the OAuth state is missing, expired, or already used"))
map_auth_err oauth_exchange_failed =
    api (api_error 502 (lit "oauth_exchange_failed") (lit "Google rejected the authorization code"))
map_auth_err auth_code_invalid = api (
    api_error 401 (lit "auth_code_invalid")
      (lit "the auth_code is invalid, expired, or already used"))
map_auth_err oauth_account_conflict =
    api (conflict (lit "this Google account is linked to another project"))
map_auth_err e = other e

-- What a response carries.
pub data Body : Type 0 where
  tokens : Result → Body
  otp_sent : OtpRequestResult → Body
  profile : MeResult → Body
  -- errorBody
  failure : (code message request_id : Text) → Body
  health : Text → Body
  location : Text → Body
  empty : Body

pub record Response : Type 0 where
  pub status : ℕ
  pub body : Body

abbrev pub response : ℕ → Body → Response
response status body = record { status = status; body = body }

-- errors.As(err, &apiErr), or Internal()
abbrev pub api_of : Failure → ApiError
api_of (api e) = e
api_of (other e) = internal

unfoldable pub write_error : Text → Failure → Response
write_error request_id f =
    response (api_of f).status (failure (api_of f).code (api_of f).message request_id)
