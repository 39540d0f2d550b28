-- ===== src/Tests/Web.antt =====
-- Requests over HTTP.
use sauth.Prelude.{ℕ, ◌≡◌, refl, true, some, none, List, [], ◌∷◌, ◌++◌}
use sauth.Text.{Text, lit}
use sauth.Errors.{ok}
use sauth.Text
use sauth.Db.Table
use sauth.Exec
use sauth.Db.Users
use sauth.Http
use sauth.Http.Middleware
use sauth.Http.Routes
use sauth.Text.Hex
use sauth.Token
use sauth.Auth
use sauth.Auth.Issue
use sauth.Db.Rbac
use sauth.Db.Sessions
use sauth.SecretBox
use sauth.Auth.Oauth as SignIn
use sauth.Http.Handlers
use sauth.Auth.Signup
use sauth.Google
use sauth.Db.Oauth
use sauth.Auth.Oauth.Resolve
use sauth.Auth.Oauth.Callback
use sauth.Env.{Env, AccessClaims}
use sauth.Db.Table.{find}
use sauth.Exec.{World}
use sauth.Auth.{MeResult}
use sauth.Http.{
  Response, Body, profile, failure, response, location, map_auth_err, write_error, other,
}
use sauth.Http.Middleware.{HttpRequest, Decoded, value, api_key_of}
use sauth.Http.Handlers.{append_query}
use sauth.Http.Routes.{
  ProjectRoute, post_refresh, get_me, get_google_start, Route, get_google_callback, in_project,
  routes, answered_all,
}
use sauth.Http.Access.{has_key, IsOwnProfile, me-admits}
use sauth.Http.Keyless.{refusal_status, keyless-refused}
use sauth.Http.Bounces.{IsBounce, callback_bounces}
use sauth.Tests.{env, start}
use sauth.Tests.Refreshes.{before}
use sauth.Tests.SignIns.{shop, opened}

abbrev pub request : HttpRequest
request = record {
  api_key = lit " key";
  api_key_param = [];
  authorization = lit "bearer jwt";
  redirect_uri = lit "ha.io";
  code = lit "g";
  state = 114 ∷ 102 ∷ [];
  request_id = lit "r1";
}

abbrev stranger : HttpRequest
stranger = record request { api_key = []; api_key_param = lit "nope" }

abbrev refusal : Response
refusal = response 401 (failure (lit "unauthorized") (lit "invalid API key") (lit "r1"))

abbrev unmoved : World
unmoved = record start { calls = 1 }

stranger_absent : find (has_key (api_key_of stranger)) start.db.projects ≡ none
unfolding Text.text_eq Text.trim_left Text.trim_right Text.trim_space Text.is_space Text.contains
    Text.to_lower Text.to_lower_rune Text.len Text.rune_len Text.has_prefix Table.find Table.exists
    Table.update_where Table.rows_where Table.join Table.insert_sorted Table.order_by Table.distinct
    Exec.reject_if Exec.◌>>=◌ Exec.call Exec.query Exec.begin Exec.commit Exec.rollback
    Exec.deferred Exec.in_tx Users.get_project_by_api_key Http.map_auth_err Http.write_error
    Middleware.api_key_of Middleware.require_project Routes.project_router Routes.routes
stranger_absent = refl

stranger_run : routes env stranger (in_project get_me) start ≡ (ok refusal, unmoved)
unfolding Text.text_eq Text.trim_left Text.trim_right Text.trim_space Text.is_space Text.contains
    Text.to_lower Text.to_lower_rune Text.len Text.rune_len Text.has_prefix Table.find Table.exists
    Table.update_where Table.rows_where Table.join Table.insert_sorted Table.order_by Table.distinct
    Exec.reject_if Exec.◌>>=◌ Exec.call Exec.query Exec.begin Exec.commit Exec.rollback
    Exec.deferred Exec.in_tx Users.get_project_by_api_key Http.map_auth_err Http.write_error
    Middleware.api_key_of Middleware.require_project Routes.project_router Routes.routes
stranger_run = refl

keyless-refused_example :
    (resp : Response) × (v : World) × (routes env stranger (in_project get_me) start ≡ (ok resp, v))
    × (resp.status ≡ refusal_status env stranger start)
    × (v.db ≡ start.db)
    × (v.sent ≡ start.sent)
keyless-refused_example = keyless-refused env stranger get_me start stranger_absent

-- Every token is one of user 7 in project 1.
abbrev claims : AccessClaims
claims = record {
  project_id = 1 ∷ [];
  roles = [];
  permissions = [];
  subject = 7 ∷ [];
  issuer = lit "sauth";
  issued_at = 0;
  expires_at = 2_000;
  id = [];
}

abbrev trusting : Env
trusting = record env { open_signed = λ t. some claims }

abbrev shown : MeResult
shown = record {
  user = record {
    id = 7 ∷ [];
    email = some (lit "ada@x.io");
    username = none;
    phone = none;
    email_verified = true;
    roles = [];
    created_at = 0;
  };
  permissions = [];
}

abbrev asked : World
asked = record before { calls = 4 }

me_run :
    routes trusting request (in_project get_me) before ≡ (ok (response 200 (profile shown)), asked)
unfolding Text.text_eq Text.trim_left Text.trim_right Text.trim_space Text.is_space Text.contains
    Text.to_lower Text.to_lower_rune Text.len Text.rune_len Text.has_prefix Table.find Table.exists
    Table.update_where Table.rows_where Table.join Table.insert_sorted Table.order_by Table.distinct
    Exec.reject_if Exec.◌>>=◌ Exec.call Exec.query Exec.begin Exec.commit Exec.rollback
    Exec.deferred Exec.in_tx Hex.hex_encode Token.hash_refresh_token Token.new_refresh_token
    Token.issue_access Auth.to_user_dto Issue.mint_access Issue.issue Rbac.permission_names
    Rbac.role_names Rbac.get_user_permission_names Rbac.get_user_role_names Sessions.create_session
    Users.get_project_by_api_key Http.map_auth_err Http.write_error Middleware.api_key_of
    Middleware.require_project Routes.project_router Routes.routes Text.folded Text.equal_fold
    SecretBox.new SecretBox.box_of SecretBox.open_sealed SignIn.redirect_for
    SignIn.google_config_for SignIn.is_listed SignIn.is_admissible SignIn.validate_app_redirect
    Users.get_project_by_id Token.random_token Token.parse_access Users.get_user_by_id Issue.me
    Middleware.is_bearer Middleware.bearer_token Middleware.require_access_token Handlers.answered
    Handlers.handle_me
me_run = refl

me-admits_example :
    IsOwnProfile trusting request 1_000_000_000 before.db shown × (asked.db ≡ before.db)
me-admits_example = me-admits trusting request before asked shown me_run

-- One sign-in is started before the callback comes; its state is the random text of call 2.
abbrev earlier : List (ℕ × HttpRequest × Route)
earlier = (1_000_000_000, request, in_project get_google_start) ∷ []

abbrev bounce : Response
bounce = response 302 (location (lit "ha.io?auth_code=" ++ (114 ∷ 108 ∷ [])))

abbrev bounced_world : World
bounced_world = (routes env request get_google_callback (answered_all env earlier opened)).1

bounce_run :
    routes env request get_google_callback (answered_all env earlier opened)
    ≡ (ok bounce, bounced_world)
unfolding Text.text_eq Text.trim_left Text.trim_right Text.trim_space Text.is_space Text.contains
    Text.to_lower Text.to_lower_rune Text.len Text.rune_len Text.has_prefix Table.find Table.exists
    Table.update_where Table.rows_where Table.join Table.insert_sorted Table.order_by Table.distinct
    Exec.reject_if Exec.◌>>=◌ Exec.call Exec.query Exec.begin Exec.commit Exec.rollback
    Exec.deferred Exec.in_tx Text.folded Text.equal_fold SecretBox.new SecretBox.box_of
    SecretBox.open_sealed SignIn.redirect_for SignIn.google_config_for SignIn.is_listed
    SignIn.is_admissible SignIn.validate_app_redirect Users.get_project_by_id Token.random_token
    Rbac.get_default_role Rbac.assign_role_to_user Users.create_user Signup.username_of
    Signup.email_of Signup.create Signup.assign_default_role Signup.map_create_user_err
    Hex.hex_encode Token.hash_refresh_token Google.identified Google.exchange
    Users.get_user_by_id_only Users.get_user_by_email Users.set_user_email_verified
    Oauth.get_oauth_account Oauth.create_oauth_account Oauth.take_oauth_state
    Oauth.create_auth_exchange_code Resolve.address_of Resolve.vouch Resolve.linked_user
    Resolve.link Resolve.create_oauth_user Resolve.unlinked_user Resolve.resolve_oauth_user
    Callback.callback_in_tx Callback.callback_known Callback.callback_state
    Callback.handle_google_callback Oauth.create_oauth_state SignIn.start_known
    SignIn.start_google_oauth Users.get_project_by_api_key Http.map_auth_err Http.write_error
    Middleware.api_key_of Middleware.require_project Routes.project_router Routes.routes
    Handlers.answered Handlers.serve_checked Handlers.handle_google_start Handlers.ends_open
    Handlers.append_query Handlers.handle_callback
bounce_run = refl

callback_bounces_example : IsBounce env (shop ∷ []) (lit "r1") bounce
callback_bounces_example =
    callback_bounces env (shop ∷ []) earlier request opened bounced_world bounce refl refl refl
      bounce_run
