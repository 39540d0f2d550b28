-- ===== src/Http/Keys.antt =====
-- Whatever arrives over HTTP keeps what the statements keep.
use sauth.Prelude.{ℕ, Bool, Option, none, some, List, [], ◌∷◌}
use sauth.Text.{Text}
use sauth.Errors.{Outcome, ok, err, Lookup, found, missing, failed}
use sauth.Env.{Env, AccessClaims}
use sauth.Db.{Db, User, Project}
use sauth.Db.Users.{get_project_by_api_key, get_user_by_id}
use sauth.Db.Kept.{read_rules, Preserves-read}
use sauth.Exec.{World, Exec}
use sauth.Exec.FailSafe.{select-reads}
use sauth.Exec.Keeps.{Keeps, Holds, Preserves, keeps_rules, Keeps-pure, Keeps-if}
use sauth.Auth.Issue.{me, me_found}
use sauth.Auth.Integrity.{signup-Keeps, login-Keeps, exchange-Keeps}
use sauth.Auth.Integrity.Refreshing.{refresh-Keeps, logout-Keeps}
use sauth.Auth.Integrity.Codes.{request-Keeps, verify-Keeps}
use sauth.Auth.Integrity.SignIns.{callback-Keeps, start-Keeps}
use sauth.Auth.Integrity.Invariants.{IsInvariant}
use sauth.Http.{Response, Body}
use sauth.Http.Middleware.{
  HttpRequest, Decoded, value, invalid, followed, decode_json, project_found, require_project,
  claims_parsed, token_given, require_access_token, bearer_token,
}
use sauth.Http.Handlers.{
  serve_checked, handle_signup, handle_login, handle_otp_request, handle_otp_verify, handle_refresh,
  handle_logout, subject_parsed, handle_me, handle_google_start, handle_callback,
  handle_oauth_exchange, handle_health, handle_ready,
}
use sauth.Http.Routes.{
  ProjectRoute, post_signup, post_login, post_otp_request, post_otp_verify, get_google_start,
  post_oauth_exchange, post_refresh, post_logout, get_me, Route, get_healthz, get_readyz,
  get_google_callback, in_project, project_router, routes, answered_all,
}

module _ {A : Type 0} {P : Db → Type 0} where
  checked-Keeps :
      (id : Text) (b : Bool) (message : Text) (status : ℕ) (body : A → Body) (m : Exec A)
      → Keeps P m
      → Keeps P (serve_checked id b message status body m)
  unfolding serve_checked
  checked-Keeps id b message status body m k = search keeps_rules depth 12

  decode-Keeps :
      (id : Text) (d : Decoded A) (f : A → Exec Response)
      → ((a : A) → Keeps P (f a))
      → Keeps P (decode_json id d f)
  unfolding decode_json
  decode-Keeps id (value a) f k = k a
  decode-Keeps id (invalid reason) f k = Keeps-pure _
  decode-Keeps id (followed a) f k = Keeps-pure _

module _ {P : Db → Type 0} where
  get_user_by_id-Preserves :
      (env : Env) (id project_id : ℕ) → Preserves P (get_user_by_id env id project_id)
  unfolding get_user_by_id
  get_user_by_id-Preserves env id project_id =
      Preserves-read _ λ t d a d' h. select-reads _ d a d' h

  get_project_by_api_key-Preserves : (key : Text) → Preserves P (get_project_by_api_key key)
  unfolding get_project_by_api_key
  get_project_by_api_key-Preserves key = Preserves-read _ λ t d a d' h. select-reads _ d a d' h

module _ (env : Env) {P : Db → Type 0} (inv : IsInvariant env P) where
  me_found-Keeps : (l : Lookup User) → Keeps P (me_found env l)
  me_found-Keeps missing = search keeps_rules
  me_found-Keeps (failed e) = search keeps_rules
  me_found-Keeps (found user) = search (keeps_rules, read_rules) depth 14

  me-Keeps : (id project_id : ℕ) → Keeps P (me env id project_id)
  unfolding me
  me-Keeps id project_id = search (keeps_rules, get_user_by_id-Preserves, me_found-Keeps) depth 12

  subject-Keeps :
      (id : Text) (project : Project) (o : Option ℕ) → Keeps P (subject_parsed env id project o)
  subject-Keeps id project none = Keeps-pure _
  subject-Keeps id project (some user_id) = search (keeps_rules, me-Keeps) depth 12

  claims-Keeps :
      (id : Text) (project : Project) (o : Outcome AccessClaims)
      → Keeps P (claims_parsed env id project (handle_me env id project) o)
  unfolding handle_me
  claims-Keeps id project (err e) = Keeps-pure _
  claims-Keeps id project (ok c) = Keeps-if _ _ _ (Keeps-pure _) (subject-Keeps id project _)

  token-Keeps :
      (id : Text) (project : Project) (o : Option Text)
      → Keeps P (token_given env id project (handle_me env id project) o)
  token-Keeps id project none = Keeps-pure _
  token-Keeps id project (some raw) = search (keeps_rules, claims-Keeps) depth 12

  router-Keeps :
      (r : HttpRequest) (route : ProjectRoute) (project : Project)
      → Keeps P (project_router env r route project)
  unfolding project_router handle_signup handle_login handle_otp_request handle_otp_verify
      handle_google_start handle_oauth_exchange handle_refresh handle_logout require_access_token
  router-Keeps r (post_signup d) project =
      decode-Keeps _ d _ λ i. checked-Keeps _ _ _ _ _ _ (signup-Keeps env inv.kept _)
  router-Keeps r (post_login d) project =
      decode-Keeps _ d _ λ i. search (keeps_rules, login-Keeps env inv.kept) depth 12
  router-Keeps r (post_otp_request d) project =
      decode-Keeps _ d _ λ i. checked-Keeps _ _ _ _ _ _ (request-Keeps env inv.kept _)
  router-Keeps r (post_otp_verify d) project =
      decode-Keeps _ d _ λ i. checked-Keeps _ _ _ _ _ _ (verify-Keeps env inv.kept _ _ _)
  router-Keeps r get_google_start project =
      checked-Keeps _ _ _ _ _ _ (start-Keeps env inv.Known inv.kept inv.states inv.knows _ _)
  router-Keeps r (post_oauth_exchange d) project =
      decode-Keeps _ d _ λ i. checked-Keeps _ _ _ _ _ _ (exchange-Keeps env inv.kept _ _)
  router-Keeps r (post_refresh d) project =
      decode-Keeps _ d _ λ i. search (keeps_rules, refresh-Keeps env inv.kept) depth 12
  router-Keeps r (post_logout d) project =
      decode-Keeps _ d _ λ i. search (keeps_rules, logout-Keeps env inv.kept) depth 12
  router-Keeps r get_me project = token-Keeps _ project (bearer_token env r)

  found-Keeps :
      (r : HttpRequest) (route : ProjectRoute) (l : Lookup Project)
      → Keeps P (project_found r.request_id (project_router env r route) l)
  found-Keeps r route missing = Keeps-pure _
  found-Keeps r route (failed e) = Keeps-pure _
  found-Keeps r route (found project) = router-Keeps r route project

  routes-Keeps : (r : HttpRequest) (route : Route) → Keeps P (routes env r route)
  unfolding routes handle_health handle_ready handle_callback require_project
  routes-Keeps r get_healthz = Keeps-pure _
  routes-Keeps r get_readyz = search keeps_rules depth 12
  routes-Keeps r get_google_callback = search (keeps_rules, callback-Keeps env inv.kept) depth 12
  routes-Keeps r (in_project route) =
      search (keeps_rules, get_project_by_api_key-Preserves, found-Keeps) depth 14

  pub answered_all-Holds :
      (rs : List (ℕ × HttpRequest × Route)) (w : World)
      → Holds P w
      → Holds P (answered_all env rs w)
  answered_all-Holds [] w h = h
  answered_all-Holds ((t, r, route) ∷ rs) w h =
      answered_all-Holds rs _
        ((routes-Keeps r route).at (record w { now = t }) (record { db = h.db; saved = h.saved }))
