-- ===== src/Http/Bounces.antt =====
-- Where the callback of Google sends the browser.
use sauth.Prelude.{ℕ, ◌≡◌, none, List, [], Bool-cases, inl, inr}
use sauth.Text.{Text, lit, text_eq}
use sauth.Text.Laws.{text_eq_refl}
use sauth.Errors.{Err, Outcome, ok, err}
use sauth.Env.{Env}
use sauth.Db.{Project}
use sauth.Exec.{World}
use sauth.Exec.Laws.{Yields-run, Yields-pure, Yields-bind, Yields-weaken}
use sauth.Auth.Integrity.Targets.{
  IsTarget, IsTrusted, IsTrusted-IsInvariant, BouncesTo, callback-Bounces,
}
use sauth.Http.{Response, response, location, map_auth_err, write_error}
use sauth.Http.Middleware.{HttpRequest}
use sauth.Http.Handlers.{append_query, called_back, handle_callback}
use sauth.Http.Routes.{Route, get_google_callback, routes, answered_all}
use sauth.Http.Keys.{answered_all-Holds}

module _ (env : Env) (projects : List Project) where
  -- What the callback answers: a redirect with one more query parameter to a URI that a project
  -- admits, or the response of an error.
  pub data IsBounce (id : Text) : Response → Type 0 where
    bounced :
        (uri key val : Text) (project_id : ℕ)
        → IsTarget env projects project_id uri
        → IsBounce id (response 302 (location (append_query env uri key val)))
    refused : (e : Err) → IsBounce id (write_error id (map_auth_err e))

  answered_back :
      (id uri : Text) (r : Outcome Text)
      → BouncesTo env projects uri r
      → IsBounce id (called_back env id (uri, r))
  answered_back id uri (ok code) (p, t) = bounced uri (lit "auth_code") code p t
  answered_back id uri (err e) (inl blank) = rw (blank, text_eq_refl []) (refused e)
  answered_back id uri (err e) (inr (p, t)) = elim (Bool-cases (text_eq uri [])) [
    | inl b ↦ rw b (refused e)
    | inr b ↦ rw b (bounced uri (lit "error") (lit "oauth_failed") p t)
  ]

  -- No open redirect. Whatever requests are answered, one after the other, and whichever of their calls
  -- fail, from a database with these projects, no sign-in pending and no transaction open: the
  -- callback of Google, failing or not, sends the browser to a redirect URI that one of the
  -- projects admits, by its allowed origins or as a loopback address if it has none, or answers
  -- with an error and sends it nowhere.
  pub callback_bounces :
      (rs : List (ℕ × HttpRequest × Route)) (r : HttpRequest) (w v : World) (resp : Response)
      → w.saved ≡ none
      → w.db.projects ≡ projects
      → w.db.oauth_states ≡ []
      → routes env r get_google_callback (answered_all env rs w) ≡ (ok resp, v)
      → IsBounce r.request_id resp
  unfolding routes handle_callback
  callback_bounces rs r w v resp closed same none_pending h =
      let k : IsTrusted env projects w.db = record { same = same; targets = rw none_pending tt } in
      let after =
        answered_all-Holds env (IsTrusted-IsInvariant env projects) rs w
          (record { db = k; saved = rw closed tt }) in
      Yields-run {Q = λ a u. IsBounce r.request_id a}
        (Yields-bind (
          Yields-weaken
            (callback-Bounces env projects r.code r.state (answered_all env rs w) after.db)
            λ p u b. Yields-pure (answered_back r.request_id p.0 p.1 b)))
        resp v h
