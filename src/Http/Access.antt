-- ===== src/Http/Access.antt =====
-- Who gets past the middleware: a profile is shown to the owner of an access token only.
use sauth.Prelude.{ℕ, ◌≡◌, refl, sym, ap, Bool, not, ◌&&◌, Option, none, some, arith, ◌==◌, []}
use mathlib.Core.Path.{subst}
use sauth.Text.{Text, text_eq}
use sauth.Text.Laws.{text_eq_iff}
use sauth.Errors.{Outcome, ok, err}
use sauth.Env.{Env, AccessClaims}
use sauth.Db.{Db, User, Project}
use sauth.Db.Table.{find, one}
use sauth.Db.Table.Laws.{one_ok}
use sauth.Db.Users.{get_project_by_api_key, get_user_by_id}
use sauth.Db.Rbac.{role_names, permission_names, get_user_role_names, get_user_permission_names}
use sauth.Token.{parse_access}
use sauth.Exec.{World}
use sauth.Exec.Laws.{
  Yields, Yields-run, Yields-pure, Yields-raise, Yields-if, Yields-bind, Yields-read_lookup,
  Yields-answer, Yields-now, Yields-attempted,
}
use sauth.Auth.{MeResult, to_user_dto}
use sauth.Auth.Issue.{me}
use sauth.Http.{
  Response, Body, profile, response, write_error, tokens, otp_sent, failure, health, location,
  empty,
}
use sauth.Http.Middleware.{
  HttpRequest, api_key_of, bearer_token, require_project, require_access_token, token_given,
  claims_parsed,
}
use sauth.Http.Handlers.{handle_me, subject_parsed, answered}
use sauth.Http.Routes.{get_me, in_project, project_router, routes}

-- The row of the key.
abbrev pub has_key : Text → Project → Bool
has_key key p = text_eq p.api_key key

-- What a response says of a profile that it carries.
abbrev OnProfile : (MeResult → Type 0) → Body → Type 0
OnProfile T (profile m) = T m
OnProfile T (tokens x) = Unit
OnProfile T (otp_sent x) = Unit
OnProfile T (failure c m i) = Unit
OnProfile T (health x) = Unit
OnProfile T (location x) = Unit
OnProfile T empty = Unit

module _ (env : Env) where
  -- What a request that was answered with the profile `m` at `t` has shown, and found in `d`.
  pub record IsOwnProfile (r : HttpRequest) (t : ℕ) (d : Db) (m : MeResult) : Type 0 where
    pub project : Project
    pub keyed : find (has_key (api_key_of r)) d.projects ≡ some project
    pub raw : Text
    pub bearer : bearer_token env r ≡ some raw
    pub claims : AccessClaims
    pub valid : parse_access env raw t ≡ ok claims
    pub of_project : claims.project_id ≡ env.uuid_string project.id
    pub user_id : ℕ
    pub subject : env.parse_uuid claims.subject ≡ some user_id
    pub user : User
    pub member :
        find (λ (u : User). u.id == user_id && u.project_id == project.id) d.users ≡ some user
    pub shown : m ≡ record {
      user = to_user_dto env user (role_names env user.id d);
      permissions = permission_names env user.id d;
    }

  abbrev Shows : HttpRequest → World → Response → World → Type 0
  Shows r w a u = OnProfile (λ m. IsOwnProfile r w.now w.db m × (u.db ≡ w.db)) a.body

  me-Yields :
      {Q : MeResult → World → Type 0} (user_id project_id : ℕ) {w : World}
      → ((user : User)
          → find (λ (u : User). u.id == user_id && u.project_id == project_id) w.db.users
            ≡ some user
          → (n : ℕ)
          → Q
              (record {
                user = to_user_dto env user (role_names env user.id w.db);
                permissions = permission_names env user.id w.db;
              })
              (record w { calls = n }))
      → Yields (me env user_id project_id) w Q
  unfolding me get_user_by_id get_user_role_names get_user_permission_names
  me-Yields user_id project_id {w} q = Yields-bind (
      Yields-read_lookup env (get_user_by_id env user_id project_id)
        (one (find (λ (u : User). u.id == user_id && u.project_id == project_id) w.db.users)) refl
        (λ user e. Yields-bind (
          Yields-answer env (get_user_role_names env user.id) (role_names env user.id w.db) refl (
            Yields-bind (
              Yields-answer env (get_user_permission_names env user.id)
                (permission_names env user.id w.db) refl (Yields-pure (q user (one_ok _ e) _))))))
        (λ _. Yields-raise _) (λ e. Yields-raise e))

  subject-Yields :
      (r : HttpRequest) (project : Project) (claims : AccessClaims) (raw : Text) (w : World)
      (o : Option ℕ) {u : World}
      → find (has_key (api_key_of r)) w.db.projects ≡ some project
      → bearer_token env r ≡ some raw
      → parse_access env raw w.now ≡ ok claims
      → claims.project_id ≡ env.uuid_string project.id
      → env.parse_uuid claims.subject ≡ o
      → u.db ≡ w.db
      → Yields (subject_parsed env r.request_id project o) u (Shows r w)
  unfolding answered write_error
  subject-Yields r project claims raw w none k b p i s same = Yields-pure tt
  subject-Yields r project claims raw w (some id) {u} k b p i s same = Yields-bind (
      Yields-attempted
        (me-Yields id project.id λ user member n. Yields-pure (
          record {
            project = project;
            keyed = k;
            raw = raw;
            bearer = b;
            claims = claims;
            valid = p;
            of_project = i;
            user_id = id;
            subject = s;
            user = user;
            member =
                subst
                  (λ (d : Db).
                    find (λ (u : User). u.id == id && u.project_id == project.id) d.users
                    ≡ some user)
                  same member;
            shown =
                ap
                  (λ d. record {
                    user = to_user_dto env user (role_names env user.id d);
                    permissions = permission_names env user.id d;
                  })
                  same;
          },
          same,
        ))
        (λ e x. Yields-pure tt))

  claims-Yields :
      (r : HttpRequest) (project : Project) (raw : Text) (w : World) (o : Outcome AccessClaims)
      {u : World}
      → find (has_key (api_key_of r)) w.db.projects ≡ some project
      → bearer_token env r ≡ some raw
      → parse_access env raw w.now ≡ o
      → u.db ≡ w.db
      → Yields
          (claims_parsed env r.request_id project (handle_me env r.request_id project) o)
          u
          (Shows r w)
  unfolding write_error handle_me
  claims-Yields r project raw w (err e) k b p same = Yields-pure tt
  claims-Yields r project raw w (ok c) k b p same =
      Yields-if (not (text_eq c.project_id (env.uuid_string project.id))) (λ _. Yields-pure tt)
        λ n.
          subject-Yields r project c raw w (env.parse_uuid c.subject) k b p
            ((text_eq_iff c.project_id (env.uuid_string project.id)).0 (ground arith)) refl same

  token-Yields :
      (r : HttpRequest) (project : Project) (w : World) (o : Option Text) {u : World}
      → find (has_key (api_key_of r)) w.db.projects ≡ some project
      → bearer_token env r ≡ o
      → u.db ≡ w.db
      → u.now ≡ w.now
      → Yields
          (token_given env r.request_id project (handle_me env r.request_id project) o)
          u
          (Shows r w)
  unfolding write_error
  token-Yields r project w none k b same at = Yields-pure tt
  token-Yields r project w (some raw) k b same at = Yields-bind (
      Yields-now (
        claims-Yields r project raw w (parse_access env raw _) k b
          (ap (parse_access env raw) (sym at)) same))

  -- A profile is shown to its owner: a request that GET /me answers with 200 and a profile gave the key
  -- of a project and an unexpired access token of the issuer whose project is that project and
  -- whose subject is the id of a user of that project. The profile is that user's row, with the
  -- roles and the permissions that the database holds at that moment; nothing is written.
  pub me-admits :
      (r : HttpRequest) (w v : World) (m : MeResult)
      → routes env r (in_project get_me) w ≡ (ok (response 200 (profile m)), v)
      → IsOwnProfile r w.now w.db m × (v.db ≡ w.db)
  unfolding routes require_project project_router require_access_token get_project_by_api_key
      write_error
  me-admits r w v m h =
      Yields-run {Q = Shows r w}
        (Yields-if (text_eq (api_key_of r) []) (λ _. Yields-pure tt)
          λ _. Yields-bind (
            Yields-read_lookup env (get_project_by_api_key (api_key_of r))
              (one (find (has_key (api_key_of r)) w.db.projects)) refl
              (λ project e.
                token-Yields r project w (bearer_token env r) (one_ok _ e) refl refl refl)
              (λ _. Yields-pure tt) (λ e. Yields-pure tt)))
        (response 200 (profile m)) v h
