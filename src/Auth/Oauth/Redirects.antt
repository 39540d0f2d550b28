-- ===== src/Auth/Oauth/Redirects.antt =====
-- Where a Google sign-in may send the browser back to, and what starting one writes.
use mathlib.Core.List.{Memᴰ}
use sauth.Prelude.{
  ℕ, ◌+◌, ◌≡◌, ◌≢◌, refl, true, false, Option, none, some, List, [], ◌∷◌, ◌++◌, arith, Bool-cases,
  inl, inr, ◌==◌,
}
use sauth.Text.{Text, trim_space, equal_fold}
use sauth.Text.Laws.{not_empty}
use sauth.Errors.{ok}
use sauth.Env.{Env, GoogleConfig, Url}
use sauth.Db.{Db, Project, OauthState}
use sauth.Db.Table.{find, exists, one}
use sauth.Db.Table.Laws.{one_ok}
use sauth.Db.Users.{get_project_by_id}
use sauth.Db.Oauth.{is_state}
use sauth.Db.Oauth.Laws.{state_stored}
use sauth.Token.{random_token}
use sauth.Exec.{World}
use sauth.Exec.Laws.{
  Yields-run, Yields-pure, Yields-lift, Yields-bind, Yields-query, Yields-read, Yields-call,
  Yields-now,
}
use sauth.Auth.Oauth.{
  google_config_for, origin_of, is_listed, is_loopback, is_admissible, without_slashes,
  validate_parsed, validate_app_redirect, start_known, start_google_oauth, oauth_provider,
  oauth_state_ttl,
}

module _ (env : Env) where
  -- The origin of `u` is one that the project lists, up to case and trailing slashes; or the project
  -- lists none and `u` is on this machine.
  pub data IsPermitted (origins : List Text) (u : Url) : Type 0 where
    listed :
        (o : Text)
        → Memᴰ o origins
        → equal_fold env.fold_rune (without_slashes o) (origin_of env u) ≡ true
        → IsPermitted origins u
    loopback : origins ≡ [] → is_loopback u.hostname ≡ true → IsPermitted origins u

  -- What validateAppRedirect lets pass.
  pub record IsAllowed (project : Project) (raw : Text) : Type 0 where
    pub url : Url
    pub parsed : env.parse_url (trim_space raw) ≡ some url
    pub absolute : url.scheme ≢ []
    pub hosted : url.host ≢ []
    pub permitted : IsPermitted project.allowed_origins url

  listed_member :
      (origin : Text) (os : List Text)
      → is_listed env origin os ≡ true
      → (o : Text) × Memᴰ o os × (equal_fold env.fold_rune (without_slashes o) origin ≡ true)
  unfolding is_listed
  listed_member origin [] h = cc h
  listed_member origin (o ∷ os) h =
      elim (Bool-cases (equal_fold env.fold_rune (without_slashes o) origin)) [
        | inl e ↦ (o, Memᴰ.head refl, e)
        | inr e ↦
            let (p, m, q) = listed_member origin os (rw (is_listed, e) at h) in (p, Memᴰ.tail m, q)
      ]

  admissible-IsPermitted :
      (os : List Text) (u : Url) → is_admissible env os u ≡ true → IsPermitted os u
  unfolding is_admissible is_listed
  admissible-IsPermitted [] u h = loopback refl h
  admissible-IsPermitted (o ∷ os) u h =
      let (p, m, q) = listed_member (origin_of env u) (o ∷ os) (ground arith) in listed p m q

  validated :
      (project : Project) (raw : Text) (o : Option Url)
      → env.parse_url (trim_space raw) ≡ o
      → validate_parsed env project o ≡ ok tt
      → IsAllowed project raw
  validated project raw none p h = cc h
  validated project raw (some u) p h = record {
    url = u;
    parsed = p;
    absolute = not_empty u.scheme (ground arith);
    hosted = not_empty u.host (ground arith);
    permitted = admissible-IsPermitted project.allowed_origins u (ground arith);
  }

  pub validate-IsAllowed :
      (project : Project) (raw : Text)
      → validate_app_redirect env project raw ≡ ok tt
      → IsAllowed project raw
  unfolding validate_app_redirect
  validate-IsAllowed project raw h = validated project raw (env.parse_url (trim_space raw)) refl h

  -- What starting a sign-in at `t` from `before` has done when it returns the consent page's URL.
  pub record IsStarted (project_id : ℕ) (raw : Text) (t : ℕ) (before : Db) (auth_url : Text)
      (after : Db) : Type 0 where
    pub project : Project
    pub known : find (λ (p : Project). p.id == project_id) before.projects ≡ some project
    pub config : GoogleConfig
    pub configured : google_config_for env project ≡ ok config
    pub allowed : IsAllowed project raw
    pub row : OauthState
    pub fresh : exists (is_state row.state) before.oauth_states ≡ false
    pub of_project : row.project_id ≡ project_id
    pub target : row.redirect_uri ≡ raw
    pub lifetime : row.expires_at ≡ t + oauth_state_ttl
    pub added : after ≡ record before { oauth_states = before.oauth_states ++ row ∷ [] }
    pub page : auth_url ≡ env.auth_code_url config row.state

  -- A Google sign-in that is started has a configured project; the redirect URI that it was given is an
  -- absolute URL with a host whose origin the project lists (or a loopback one, if it lists none).
  -- It has stored one unused state with that URI, valid for ten minutes, and changed nothing else.
  pub start-admits :
      (project_id : ℕ) (raw : Text) (w v : World) (auth_url : Text)
      → start_google_oauth env project_id raw w ≡ (ok auth_url, v)
      → IsStarted project_id raw w.now w.db auth_url v.db
  unfolding start_google_oauth start_known get_project_by_id random_token
  start-admits project_id raw w v auth_url h =
      Yields-run {Q = λ r u. IsStarted project_id raw w.now w.db r u.db}
        (Yields-bind (
          Yields-read env (get_project_by_id project_id)
            (one (find (λ (p : Project). p.id == project_id) w.db.projects)) refl
            λ project e. Yields-bind (
              Yields-lift (google_config_for env project) λ config c. Yields-bind (
                Yields-lift (validate_app_redirect env project raw) λ tt a. Yields-bind (
                  Yields-bind (
                    Yields-call env (
                      Yields-pure (
                        Yields-bind (
                          Yields-now (
                            Yields-bind (
                              Yields-query env _ λ u d f.
                                let (fresh, added) =
                                  state_stored _ oauth_provider raw project_id _ _ _ d u f in
                                Yields-pure (record {
                                  project = project;
                                  known = one_ok _ e;
                                  config = config;
                                  configured = c;
                                  allowed = validate-IsAllowed project raw a;
                                  row = _;
                                  fresh = fresh;
                                  of_project = refl;
                                  target = refl;
                                  lifetime = refl;
                                  added = added;
                                  page = refl;
                                }))))))))))))
        auth_url v h
