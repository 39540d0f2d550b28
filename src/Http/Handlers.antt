-- ===== src/Http/Handlers.antt =====
-- The handlers of backend/internal/httpapi/auth_handlers.go, oauth_handlers.go and httpapi.go.
use sauth.Prelude.{ℕ, Bool, false, ◌||◌, ◌==◌, Option, none, some, [], ◌∷◌, ◌++◌, if◌then◌else◌}
use sauth.Text.{Text, lit, text_eq}
use sauth.Errors.{Outcome, ok, err}
use sauth.Env.{Env, AccessClaims}
use sauth.Db.{Project}
use sauth.Exec.{Exec, pure, attempt, call, ◌>>=◌}
use sauth.Auth.Issue.{me}
use sauth.Auth.Signup.{signup}
use sauth.Auth.Login.{login}
use sauth.Auth.Refresh.{refresh, logout}
use sauth.Auth.OtpRequest.{request_otp}
use sauth.Auth.OtpVerify.{verify_otp}
use sauth.Auth.Exchange.{exchange_auth_code}
use sauth.Auth.Oauth.{start_google_oauth}
use sauth.Auth.Oauth.Callback.{handle_google_callback}
use sauth.Http.{
  Body, tokens, otp_sent, profile, health, location, empty, Response, response, api, other,
  invalid_request, unauthorized, map_auth_err, write_error,
}
use sauth.Http.Middleware.{HttpRequest, Decoded, decode_json}

pub record SignupBody : Type 0 where
  pub email : Text
  pub username : Text
  pub password : Text

pub record LoginBody : Type 0 where
  pub email_or_username : Text
  pub password : Text

pub record OtpRequestBody : Type 0 where
  pub email_or_phone : Text
  pub purpose : Text

pub record OtpVerifyBody : Type 0 where
  pub otp_id : Text
  pub code : Text

-- if err != nil { writeError(mapAuthErr(err)) } else { writeJSON(status, ...) }
unfoldable pub answered : {A : Type 0} → Text → ℕ → (A → Body) → Outcome A → Response
answered id status body (ok a) = response status (body a)
answered id status body (err e) = write_error id (map_auth_err e)

-- A handler that rejects a body, or answers with what the service says.
unfoldable pub serve_checked :
    {A : Type 0} → Text → Bool → Text → ℕ → (A → Body) → Exec A → Exec Response
serve_checked id b message status body m =
    if b
    then pure (write_error id (api (invalid_request message)))
    else (do r ← attempt m; pure (answered id status body r))

module _ (env : Env) where
  unfoldable pub handle_signup : Text → Project → Decoded SignupBody → Exec Response
  handle_signup id project d = decode_json id d λ input.
      serve_checked id (text_eq input.email [] || text_eq input.password [])
        (lit "email and password are required") 201 tokens
        (signup env (record {
          project_id = project.id;
          email = input.email;
          username = input.username;
          password = input.password;
        }))

  unfoldable pub handle_login : Text → Project → Decoded LoginBody → Exec Response
  handle_login id project d = decode_json id d λ input. do
    r ← attempt (login env project.id input.email_or_username input.password)
    pure (answered id 200 tokens r)

  unfoldable pub handle_otp_request : Text → Project → Decoded OtpRequestBody → Exec Response
  handle_otp_request id project d = decode_json id d λ input.
      serve_checked id (text_eq input.email_or_phone []) (lit "email_or_phone is required") 200
        otp_sent
        (request_otp env (record {
          project_id = project.id;
          otp_enabled = project.otp_enabled;
          destination = input.email_or_phone;
          purpose = input.purpose;
        }))

  unfoldable pub handle_otp_verify : Text → Project → Decoded OtpVerifyBody → Exec Response
  handle_otp_verify id project d = decode_json id d λ input.
      serve_checked id (text_eq input.otp_id [] || text_eq input.code [])
        (lit "otp_id and code are required") 200 tokens
        (verify_otp env project.id input.otp_id input.code)

  -- the body's refresh_token
  unfoldable pub handle_refresh : Text → Decoded Text → Exec Response
  handle_refresh id d =
      decode_json id d
        λ refresh_token. do r ← attempt (refresh env refresh_token); pure (answered id 200 tokens r)

  -- The error of Logout is not mapped.
  abbrev pub logged_out : Text → Outcome (Unit {0}) → Response
  logged_out id (ok u) = response 204 empty
  logged_out id (err e) = write_error id (other e)

  unfoldable pub handle_logout : Text → Decoded Text → Exec Response
  handle_logout id d =
      decode_json id d
        λ refresh_token. do r ← attempt (logout env refresh_token); pure (logged_out id r)

  abbrev pub subject_parsed : Text → Project → Option ℕ → Exec Response
  subject_parsed id project none =
      pure (write_error id (api (unauthorized (lit "malformed subject in access token"))))
  subject_parsed id project (some user_id) = do
    r ← attempt (me env user_id project.id)
    pure (answered id 200 profile r)

  unfoldable pub handle_me : Text → Project → AccessClaims → Exec Response
  handle_me id project claims = subject_parsed id project (env.parse_uuid claims.subject)

  unfoldable pub handle_google_start : HttpRequest → Project → Exec Response
  handle_google_start r project =
      serve_checked r.request_id (text_eq r.redirect_uri [])
        (lit "redirect_uri query parameter is required") 302 location
        (start_google_oauth env project.id r.redirect_uri)

  -- a base that ends in ? or &
  unfoldable pub ends_open : Text → Bool
  ends_open [] = false
  ends_open (c ∷ []) = c == 63 || c == 38
  ends_open (c ∷ d ∷ s) = ends_open (d ∷ s)

  abbrev query_set : Text → Text → Text → Option Text → Text
  query_set base key value (some url) = url
  query_set base key value none =
      base
      ++ (if ends_open base then [] else lit "?")
      ++ env.query_escape key
      ++ lit "="
      ++ env.query_escape value

  unfoldable pub append_query : Text → Text → Text → Text
  append_query base key value = query_set base key value (env.set_query base key value)

  abbrev pub called_back : Text → Text × Outcome Text → Response
  called_back id (uri, ok auth_code) =
      response 302 (location (append_query uri (lit "auth_code") auth_code))
  called_back id (uri, err e) =
      if text_eq uri []
      then write_error id (map_auth_err e)
      else response 302 (location (append_query uri (lit "error") (lit "oauth_failed")))

  unfoldable pub handle_callback : HttpRequest → Exec Response
  handle_callback r = do
    p ← handle_google_callback env r.code r.state
    pure (called_back r.request_id p)

  -- the body's auth_code
  unfoldable pub handle_oauth_exchange : Text → Project → Decoded Text → Exec Response
  handle_oauth_exchange id project d = decode_json id d λ auth_code.
      serve_checked id (text_eq auth_code []) (lit "auth_code is required") 200 tokens
        (exchange_auth_code env project.id auth_code)

  abbrev pub pinged : Outcome ℕ → Response
  pinged (ok n) = response 200 (health (lit "ready"))
  pinged (err e) = response 503 (health (lit "db_unavailable"))

  unfoldable pub handle_ready : Exec Response
  handle_ready = do r ← attempt (call env); pure (pinged r)

unfoldable pub handle_health : Exec Response
handle_health = pure (response 200 (health (lit "ok")))
