-- ===== src/Http/Keyless.antt =====
-- A request without the key of a project is refused, and changes nothing.
use sauth.Prelude.{ℕ, ◌≡◌, refl, ap, not, ◌&&◌, ◌+◌, if◌then◌else◌, Bool-cases, none, inl, inr, []}
use sauth.Text.{lit, text_eq}
use sauth.Errors.{ok, fault}
use sauth.Env.{Env}
use sauth.Db.{select}
use sauth.Db.Table.{find, one}
use sauth.Db.Users.{get_project_by_api_key}
use sauth.Exec.{World}
use sauth.Exec.Runs.{Runs-if, Runs-pure, Runs-bind, Runs-failed_lookup, Runs-missed_lookup}
use sauth.Http.{Response, api, unauthorized, other, write_error}
use sauth.Http.Middleware.{HttpRequest, api_key_of, project_found, require_project}
use sauth.Http.Routes.{ProjectRoute, in_project, project_router, routes}
use sauth.Http.Access.{has_key}

module _ (env : Env) where
  -- The status of a request whose key is no project's: the lookup runs where the key is not blank.
  abbrev pub refusal_status : HttpRequest → World → ℕ
  refusal_status r w = if not (text_eq (api_key_of r) []) && env.fails w.calls then 500 else 401

  -- A request whose key is that of no project is refused on every route of a project, before its
  -- handler: it is answered with 500 exactly where the key is not blank and the call that looks it up
  -- fails, and with 401 everywhere else; nothing is written and nothing sent.
  pub keyless-refused :
      (r : HttpRequest) (route : ProjectRoute) (w : World)
      → find (has_key (api_key_of r)) w.db.projects ≡ none
      → (resp : Response) × (v : World) × (routes env r (in_project route) w ≡ (ok resp, v))
        × (resp.status ≡ refusal_status r w)
        × (v.db ≡ w.db)
        × (v.sent ≡ w.sent)
  unfolding routes require_project get_project_by_api_key write_error
  keyless-refused r route w absent = elim (Bool-cases (text_eq (api_key_of r) [])) [
    | inl blank ↦ (
      write_error r.request_id (
          api (unauthorized (lit "missing API key (X-API-Key header or api_key query parameter)"))),
      w,
      (Runs-if (text_eq (api_key_of r) []) (λ _. Runs-pure) λ given. absurd (cc (blank, given))).at,
      rw blank refl,
      refl,
      refl,
    )
    | inr given ↦ elim (Bool-cases (env.fails w.calls)) [
      | inl down ↦ (
        write_error r.request_id (other fault),
        record w { calls = w.calls + 1 },
        (Runs-if (text_eq (api_key_of r) []) (λ blank. absurd (cc (blank, given)))
            (λ _.
              Runs-bind (project_found r.request_id (project_router env r route))
                (Runs-failed_lookup env (get_project_by_api_key (api_key_of r)) w down)
                Runs-pure)).at,
        rw (given, down) refl,
        refl,
        refl,
      )
      | inr up ↦ (
        write_error r.request_id (api (unauthorized (lit "invalid API key"))),
        record w { calls = w.calls + 1 },
        (Runs-if (text_eq (api_key_of r) []) (λ blank. absurd (cc (blank, given)))
            (λ _.
              Runs-bind (project_found r.request_id (project_router env r route))
                (Runs-missed_lookup env (get_project_by_api_key (api_key_of r)) w up
                  (ap (λ o. select (one o) w.db) absent))
                Runs-pure)).at,
        rw (given, up) refl,
        refl,
        refl,
      )
    ]
  ]
