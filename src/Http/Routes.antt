-- ===== src/Http/Routes.antt =====
-- Routes of backend/internal/httpapi/httpapi.go and authRouter of auth_handlers.go: which handler
-- answers a request, behind which middleware. The matching of methods and paths is chi's: a route
-- is what was matched, with the decoded body where the handler decodes one.
use sauth.Prelude.{ℕ, List, [], ◌∷◌}
use sauth.Text.{Text}
use sauth.Env.{Env}
use sauth.Db.{Project}
use sauth.Exec.{World, Exec}
use sauth.Http.{Response}
use sauth.Http.Middleware.{HttpRequest, Decoded, require_project, require_access_token}
use sauth.Http.Handlers.{
  SignupBody, LoginBody, OtpRequestBody, OtpVerifyBody, handle_signup, handle_login,
  handle_otp_request, handle_otp_verify, handle_refresh, handle_logout, handle_me,
  handle_google_start, handle_callback, handle_oauth_exchange, handle_health, handle_ready,
}

-- The routes behind requireProject.
pub data ProjectRoute : Type 0 where
  post_signup : Decoded SignupBody → ProjectRoute
  post_login : Decoded LoginBody → ProjectRoute
  post_otp_request : Decoded OtpRequestBody → ProjectRoute
  post_otp_verify : Decoded OtpVerifyBody → ProjectRoute
  get_google_start : ProjectRoute
  post_oauth_exchange : Decoded Text → ProjectRoute
  post_refresh : Decoded Text → ProjectRoute
  post_logout : Decoded Text → ProjectRoute
  get_me : ProjectRoute

pub data Route : Type 0 where
  get_healthz : Route
  get_readyz : Route
  get_google_callback : Route
  in_project : ProjectRoute → Route

module _ (env : Env) where
  unfoldable pub project_router : HttpRequest → ProjectRoute → Project → Exec Response
  project_router r (post_signup d) project = handle_signup env r.request_id project d
  project_router r (post_login d) project = handle_login env r.request_id project d
  project_router r (post_otp_request d) project = handle_otp_request env r.request_id project d
  project_router r (post_otp_verify d) project = handle_otp_verify env r.request_id project d
  project_router r get_google_start project = handle_google_start env r project
  project_router r (post_oauth_exchange d) project =
      handle_oauth_exchange env r.request_id project d
  project_router r (post_refresh d) project = handle_refresh env r.request_id d
  project_router r (post_logout d) project = handle_logout env r.request_id d
  project_router r get_me project =
      require_access_token env r project (handle_me env r.request_id project)

  unfoldable pub routes : HttpRequest → Route → Exec Response
  routes r get_healthz = handle_health
  routes r get_readyz = handle_ready env
  routes r get_google_callback = handle_callback env r
  routes r (in_project route) = require_project env r (project_router r route)

  -- One request after the other, each at its time.
  abbrev pub answered_all : List (ℕ × HttpRequest × Route) → World → World
  answered_all [] w = w
  answered_all ((t, r, route) ∷ rest) w =
      answered_all rest (routes r route (record w { now = t })).1
