-- ===== src/Auth/Oauth.antt =====
-- StartGoogleOAuth of backend/internal/auth/oauth.go, with googleConfigFor and
-- validateAppRedirect; HandleGoogleCallback is in the modules below.
pub mod Redirects
pub mod Resolve
pub mod Linking
pub mod Callback
pub mod Admission
pub mod States
pub mod Atomicity
use sauth.Prelude.{
  ℕ, ◌+◌, ◌*◌, Bool, true, false, not, ◌&&◌, ◌||◌, ◌==◌, Option, none, some, List, [], ◌∷◌, ◌++◌,
  if◌then◌else◌,
}
use sauth.Text.{Text, lit, text_eq, trim_space, trim_right, to_lower, equal_fold}
use sauth.Errors.{Outcome, ok, err, oauth_not_configured, redirect_invalid, redirect_not_allowed}
use sauth.Env.{Env, GoogleConfig, Url}
use sauth.Db.{Project}
use sauth.Db.Users.{get_project_by_id}
use sauth.Db.Oauth.{create_oauth_state}
use sauth.SecretBox.{Box, box_of, open_sealed}
use sauth.Token.{random_token, second}
use sauth.Exec.{Exec, pure, lift, query, now, ◌>>=◌, ◌>>◌}

abbrev pub oauth_provider : Text
oauth_provider = lit "google"

abbrev pub oauth_state_ttl : ℕ
oauth_state_ttl = 10 * 60 * second

abbrev pub auth_code_ttl : ℕ
auth_code_ttl = 60 * second

abbrev pub auth_code_bytes : ℕ
auth_code_bytes = 32

abbrev pub oauth_state_size : ℕ
oauth_state_size = 24

-- nil, or the empty string
abbrev pub is_unset : Option Text → Bool
is_unset none = true
is_unset (some s) = text_eq s []

-- *s, of a pointer that is set
abbrev pub or_empty : Option Text → Text
or_empty none = []
or_empty (some s) = s

-- strings.TrimRight(s, "/")
abbrev pub without_slashes : Text → Text
without_slashes = trim_right (λ c. c == 47)

abbrev pub is_loopback : Text → Bool
is_loopback h = text_eq h (lit "localhost") || text_eq h (lit "127.0.0.1") || text_eq h (lit "::1")

abbrev pub is_empty : List Text → Bool
is_empty [] = true
is_empty (o ∷ os) = false

module _ (env : Env) where
  unfoldable pub redirect_for : Project → Text
  redirect_for project =
      if is_unset project.google_oauth_redirect_uri
      then without_slashes env.public_base_url ++ lit "/v1/auth/oauth/google/callback"
      else or_empty project.google_oauth_redirect_uri

  abbrev config_of : Project → Outcome Text → Outcome GoogleConfig
  config_of project (err e) = err e
  config_of project (ok secret) = ok (record {
    client_id = or_empty project.google_oauth_client_id;
    client_secret = secret;
    redirect_url = redirect_for project;
  })

  -- `b` is the box, nil if there is no key.
  abbrev config_with : Project → Option Box → Outcome GoogleConfig
  config_with project none = err oauth_not_configured
  config_with project (some b) =
      if not env.has_google
        || is_unset project.google_oauth_client_id
        || is_unset project.google_oauth_client_secret_enc
      then err oauth_not_configured
      else config_of project (open_sealed env b (or_empty project.google_oauth_client_secret_enc))

  unfoldable pub google_config_for : Project → Outcome GoogleConfig
  google_config_for project = config_with project (box_of env.encryption_key)

  abbrev pub origin_of : Url → Text
  origin_of u = to_lower env.lower_rune (u.scheme ++ lit "://" ++ u.host)

  -- the loop over project.AllowedOrigins
  unfoldable pub is_listed : Text → List Text → Bool
  is_listed origin [] = false
  is_listed origin (allowed ∷ rest) =
      equal_fold env.fold_rune (without_slashes allowed) origin || is_listed origin rest

  unfoldable pub is_admissible : List Text → Url → Bool
  is_admissible origins u =
      is_listed (origin_of u) origins || (is_empty origins && is_loopback u.hostname)

  abbrev pub validate_parsed : Project → Option Url → Outcome (Unit {0})
  validate_parsed project none = err redirect_invalid
  validate_parsed project (some u) =
      if text_eq u.scheme [] || text_eq u.host []
      then err redirect_invalid
      else if is_admissible project.allowed_origins u
      then ok tt
      else err redirect_not_allowed

  unfoldable pub validate_app_redirect : Project → Text → Outcome (Unit {0})
  validate_app_redirect project raw = validate_parsed project (env.parse_url (trim_space raw))

  unfoldable pub start_known : ℕ → Text → Project → Exec Text
  start_known project_id app_redirect_uri project = do
    gcfg ← lift (google_config_for project)
    lift (validate_app_redirect project app_redirect_uri)
    state ← random_token env oauth_state_size
    t ← now
    query env
        (create_oauth_state state project_id oauth_provider app_redirect_uri (t + oauth_state_ttl))
    pure (env.auth_code_url gcfg state)

  unfoldable pub start_google_oauth : ℕ → Text → Exec Text
  start_google_oauth project_id app_redirect_uri = do
    project ← query env (get_project_by_id project_id)
    start_known project_id app_redirect_uri project
