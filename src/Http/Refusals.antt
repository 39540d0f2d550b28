-- ===== src/Http/Refusals.antt =====
-- How the API answers a rotated refresh token, a login that is wrong and an address that is taken.
use sauth.Prelude.{ℕ, ◌+◌, ◌≡◌, ap, true, false, ◌||◌, ◌≤◌, ◌==◌, none, some, []}
use sauth.Text.{Text, lit, len, text_eq, trim_space}
use sauth.Errors.{ok}
use sauth.Env.{Env}
use sauth.Db.{User, Session, Project, RefreshTokenHistory, select}
use sauth.Db.Table.{find, exists, one}
use sauth.Db.Users.{get_project_by_api_key, same_email}
use sauth.Db.Sessions.{has_hash, has_id, was_hash}
use sauth.Token.{hash_refresh_token}
use sauth.Exec.{World, ◌>>=◌}
use sauth.Exec.Runs.{IsHealthy, Runs, Runs-if, Runs-bind, Runs-lookup, Runs-query}
use sauth.Auth.Signup.{SignupInput, email_of}
use sauth.Auth.Signup.Taken.{taken-Runs}
use sauth.Auth.Login.Hiding.{IsWrong, login-hides}
use sauth.Auth.Refresh.{refresh}
use sauth.Auth.Refresh.Replay.{all_revoked, is_open, refresh-replay}
use sauth.Http.{Response, response, failure, tokens, map_auth_err, write_error}
use sauth.Http.Middleware.{
  HttpRequest, value, api_key_of, project_found, require_project, decode_json,
}
use sauth.Http.Handlers.{
  LoginBody, SignupBody, serve_checked, answered, handle_signup, handle_login, handle_refresh,
}
use sauth.Http.Routes.{
  ProjectRoute, post_signup, post_login, post_refresh, in_project, project_router, routes,
}
use sauth.Http.Access.{has_key}

module _ (env : Env) (healthy : IsHealthy env) where
  -- With the key of a project, the handler of the route answers.
  keyed-Runs :
      (r : HttpRequest) (route : ProjectRoute) (project : Project) (w v : World) (resp : Response)
      → text_eq (api_key_of r) [] ≡ false
      → find (has_key (api_key_of r)) w.db.projects ≡ some project
      → Runs (project_router env r route project) (record w { calls = w.calls + 1 }) (ok resp) v
      → Runs (routes env r (in_project route)) w (ok resp) v
  unfolding routes require_project get_project_by_api_key
  keyed-Runs r route project w v resp given keyed run =
      Runs-if (text_eq (api_key_of r) []) (λ blank. absurd (cc (blank, given)))
        (λ _.
          Runs-bind (project_found r.request_id (project_router env r route))
            (Runs-lookup (
              Runs-query env healthy (get_project_by_api_key (api_key_of r)) project w.db
                (ap (λ o. select (one o) w.db) keyed)))
            run)

  -- A rotated token is answered as a theft. When no call fails, a request with the key of a project
  -- that refreshes with a token that is not blank, whose hash is in the history and is not the hash
  -- of a session, is answered with 401 and the code `refresh_token_reuse`. Every session of the
  -- user whose session the history names is revoked, and nothing else of the database has changed.
  -- The session that the history names is there.
  pub replay_answered :
      (r : HttpRequest) (project : Project) (raw : Text) (w : World) (used : RefreshTokenHistory)
      (victim : Session)
      → text_eq (api_key_of r) [] ≡ false
      → find (has_key (api_key_of r)) w.db.projects ≡ some project
      → text_eq (trim_space raw) [] ≡ false
      → find (has_hash (hash_refresh_token env raw)) w.db.sessions ≡ none
      → find (was_hash (hash_refresh_token env raw)) w.db.refresh_token_history ≡ some used
      → find (has_id used.session_id) w.db.sessions ≡ some victim
      → (v : World) × (routes env r (in_project (post_refresh (value raw))) w ≡ (
        ok (
            response 401 (
              failure
                (lit "refresh_token_reuse")
                (lit "refresh token reuse detected; all sessions for this user have been revoked")
                r.request_id)),
        v,
      ))
        × (v.db ≡ record w.db { sessions = all_revoked victim.user_id w.now w.db.sessions })
        × (exists (is_open victim.user_id) v.db.sessions ≡ false)
  unfolding project_router handle_refresh decode_json answered map_auth_err write_error ◌>>=◌
  replay_answered r project raw w used victim given keyed token absent spent held =
      let (reuse, left, ended) =
        refresh-replay env healthy raw (record w { calls = w.calls + 1 }) used victim token absent
          spent held in
      (
        (refresh env raw (record w { calls = w.calls + 1 })).1,
        (keyed-Runs r (post_refresh (value raw)) project w _ _ given keyed (record {
          at =
              ap
                (λ o. (
                  ok (answered r.request_id 200 tokens o),
                  (refresh env raw (record w { calls = w.calls + 1 })).1,
                ))
                reuse;
        })).at,
        left,
        ended,
      )

  -- Wrong logins are answered alike. When no call fails, a request with the key of a project that
  -- logs in with a name that no user of the project has, as a user without a password, or with
  -- another password than the user's is answered with 401 and the code `invalid_credentials`, the
  -- same response each time, and leaves the same world but for the number of the next call. Name
  -- and password are not blank.
  pub wrong_login_answered :
      (r : HttpRequest) (project : Project) (body : LoginBody) (w : World)
      → text_eq (api_key_of r) [] ≡ false
      → find (has_key (api_key_of r)) w.db.projects ≡ some project
      → (text_eq (trim_space body.email_or_username) [] || text_eq body.password []) ≡ false
      → IsWrong env project.id body.email_or_username body.password w.db
      → routes env r (in_project (post_login (value body))) w ≡ (
        ok (
            response 401 (
              failure
                (lit "invalid_credentials")
                (lit "email or password is incorrect")
                r.request_id)),
        record w { calls = w.calls + 1 + 1 },
      )
  unfolding project_router handle_login decode_json answered map_auth_err write_error ◌>>=◌
  wrong_login_answered r project body w given keyed filled wrong =
      (keyed-Runs r (post_login (value body)) project w _ _ given keyed (record {
        at =
            ap (λ p. (ok (answered r.request_id 200 tokens p.0), p.1))
              (login-hides env healthy project.id body.email_or_username body.password
                (record w { calls = w.calls + 1 }) filled wrong);
      })).at

  -- A taken address is a conflict. When no call fails, a request with the key of a project that
  -- signs up with a valid address that a user of the project has, compared as the column is, and
  -- with a password of 8 to 72 bytes is answered with 409 and the code `conflict`, whatever its
  -- username, and leaves the database as it was. Address and password are not empty, and no user has
  -- an id that the random source gives.
  pub taken_answered :
      (r : HttpRequest) (project : Project) (body : SignupBody) (w : World)
      → text_eq (api_key_of r) [] ≡ false
      → find (has_key (api_key_of r)) w.db.projects ≡ some project
      → (text_eq body.email [] || text_eq body.password []) ≡ false
      → env.is_address (email_of env body.email) ≡ true
      → 8 ≤ len body.password
      → len body.password ≤ 72
      → ((n : ℕ) → exists (λ (u : User). u.id == env.uuid n) w.db.users ≡ false)
      → exists (same_email env project.id (some (email_of env body.email))) w.db.users ≡ true
      → routes env r (in_project (post_signup (value body))) w ≡ (
        ok (response 409 (failure (lit "conflict") (lit "email already registered") r.request_id)),
        record w { saved = none; calls = w.calls + 1 + 1 + 1 + 1 },
      )
  unfolding project_router handle_signup serve_checked decode_json answered map_auth_err write_error
      ◌>>=◌
  taken_answered r project body w given keyed filled address long short ids taken =
      let input : SignupInput = record {
        project_id = project.id;
        email = body.email;
        username = body.username;
        password = body.password;
      } in
      (keyed-Runs r (post_signup (value body)) project w _ _ given keyed (
        Runs-if (text_eq body.email [] || text_eq body.password [])
          (λ blank. absurd (cc (blank, filled)))
          (λ _. record {
            at =
                ap (λ p. (ok (answered r.request_id 201 tokens p.0), p.1))
                  (taken-Runs env healthy input (record w { calls = w.calls + 1 }) address long
                    short ids taken).at;
          }))).at
