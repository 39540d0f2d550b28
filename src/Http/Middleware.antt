-- ===== src/Http/Middleware.antt =====
-- backend/internal/httpapi/middleware_auth.go, and decodeJSON of
-- backend/internal/httpapi/respond.go. A handler answers every request: it is an action that
-- returns a response.
use sauth.Prelude.{
  Bool, not, ◌&&◌, Option, none, some, ◌++◌, take, drop, leb, ◌==◌, if◌then◌else◌, [],
}
use sauth.Text.{Text, lit, len, text_eq, trim_space, equal_fold}
use sauth.Errors.{Outcome, ok, err, Lookup, found, missing, failed}
use sauth.Env.{Env, AccessClaims}
use sauth.Db.{Project}
use sauth.Db.Users.{get_project_by_api_key}
use sauth.Token.{parse_access}
use sauth.Exec.{Exec, pure, query, lookup, now, ◌>>=◌}
use sauth.Http.{Response, api, other, invalid_request, unauthorized, write_error}

-- The parts of a request that the middleware and the handlers read: the headers X-API-Key and
-- Authorization, and the query parameters.
pub record HttpRequest : Type 0 where
  pub api_key : Text
  pub api_key_param : Text
  pub authorization : Text
  pub redirect_uri : Text
  pub code : Text
  pub state : Text
  pub request_id : Text

-- What the JSON decoder finds in a body: a value of the handler's type, an error and its text, or a
-- value with more behind it.
pub data Decoded (A : Type 0) : Type 0 where
  value : A → Decoded A
  invalid : Text → Decoded A
  followed : A → Decoded A

-- decodeJSON, and what a handler does on its error
unfoldable pub decode_json : {A : Type 0} → Text → Decoded A → (A → Exec Response) → Exec Response
decode_json id (value a) f = f a
decode_json id (invalid reason) f =
    pure (write_error id (api (invalid_request (lit "request body is not valid JSON: " ++ reason))))
decode_json id (followed a) f =
    pure (
      write_error id (api (invalid_request (lit "request body must contain a single JSON object"))))

abbrev pub bearer_prefix : Text
bearer_prefix = lit "Bearer "

unfoldable pub api_key_of : HttpRequest → Text
api_key_of r =
    if text_eq (trim_space r.api_key) [] then trim_space r.api_key_param else trim_space r.api_key

abbrev pub project_found : Text → (Project → Exec Response) → Lookup Project → Exec Response
project_found id next missing = pure (write_error id (api (unauthorized (lit "invalid API key"))))
project_found id next (failed e) = pure (write_error id (other e))
project_found id next (found project) = next project

module _ (env : Env) where
  -- The first seven bytes are those of the prefix up to case. A rune of several bytes is none of it,
  -- so the bytes are the runes.
  unfoldable pub is_bearer : Text → Bool
  is_bearer h =
      not (leb (len h) 7)
      && len (take 7 h) == 7
      && equal_fold env.fold_rune (take 7 h) bearer_prefix

  unfoldable pub bearer_token : HttpRequest → Option Text
  bearer_token r =
      if is_bearer r.authorization then some (trim_space (drop 7 r.authorization)) else none

  unfoldable pub require_project : HttpRequest → (Project → Exec Response) → Exec Response
  require_project r next =
      if text_eq (api_key_of r) []
      then pure (
          write_error r.request_id (
            api
              (unauthorized (lit "missing API key (X-API-Key header or api_key query parameter)"))))
      else (do
        project ← lookup (query env (get_project_by_api_key (api_key_of r)))
        project_found r.request_id next project)

  abbrev pub claims_parsed :
      Text → Project → (AccessClaims → Exec Response) → Outcome AccessClaims → Exec Response
  claims_parsed id project next (err e) =
      pure (write_error id (api (unauthorized (lit "invalid or expired access token"))))
  claims_parsed id project next (ok claims) =
      if not (text_eq claims.project_id (env.uuid_string project.id))
      then pure
          (write_error id (api (unauthorized (lit "access token does not belong to this project"))))
      else next claims

  abbrev pub token_given :
      Text → Project → (AccessClaims → Exec Response) → Option Text → Exec Response
  token_given id project next none =
      pure (write_error id (api (unauthorized (lit "missing or malformed Authorization header"))))
  token_given id project next (some raw) = do
    t ← now
    claims_parsed id project next (parse_access env raw t)

  -- It runs behind require_project, which has put the project on the context.
  unfoldable pub require_access_token :
      HttpRequest → Project → (AccessClaims → Exec Response) → Exec Response
  require_access_token r project next = token_given r.request_id project next (bearer_token r)
