-- ===== src/Auth/Oauth/States.antt =====
-- A state of a Google sign-in is used once, and what a callback that fails leaves behind.
use sauth.Prelude.{
  ℕ, ◌≡◌, ◌≢◌, refl, sym, ap, ◌∙◌, Bool, true, false, not, Option, none, some, arith, if◌then◌else◌,
}
use sauth.Text.{Text}
use sauth.Errors.{ok}
use sauth.Env.{Env, Identity}
use sauth.Db.{Db, User, Project, Role}
use sauth.Db.Table.{find}
use sauth.Db.Table.Laws.{find-holds}
use sauth.Db.Oauth.{is_state}
use sauth.Db.Oauth.Laws.{find-deleted}
use sauth.Db.Rbac.{is_default_of}
use sauth.Db.Rbac.Laws.{attached_role}
use sauth.Exec.{World}
use sauth.Auth.Oauth.Resolve.{vouched}
use sauth.Auth.Oauth.Linking.{IsResolved, by_account, by_address, created, vouched_db}
use sauth.Auth.Oauth.Callback.{handle_google_callback}
use sauth.Auth.Oauth.Admission.{callback-admits}

vouched_states :
    (b : Bool) (id t : ℕ) (d : Db) → (vouched_db b id t d).oauth_states ≡ d.oauth_states
vouched_states true id t d = refl
vouched_states false id t d = refl

attached_states :
    (b : Bool) (d d' : Db)
    → d'.oauth_states ≡ d.oauth_states
    → (if b then d else d').oauth_states ≡ d.oauth_states
attached_states true d d' e = refl
attached_states false d d' e = e

role_states :
    (user_id project_id : ℕ) (o : Option Role) (d : Db)
    → (attached_role user_id project_id o d).oauth_states ≡ d.oauth_states
role_states user_id project_id none d = refl
role_states user_id project_id (some role) d = attached_states _ d _ refl

module _ (env : Env) where
  resolved_states :
      (project : Project) (id : Identity) (t : ℕ) (before after : Db) (user : User)
      → IsResolved env project id t before user after
      → after.oauth_states ≡ before.oauth_states
  resolved_states project id t before after user (by_account acc u a o p b) = refl
  resolved_states project id t before after user (by_address s u at l v f b) =
      vouched_states (not u.email_verified) u.id t _
  resolved_states project id t before after user (created s s' u du at at' l ins) =
      role_states u.id project.id (find (is_default_of project.id) _) _
      ∙ vouched_states id.email_verified u.id t du
      ∙ ap (λ (d : Db). d.oauth_states) ins.added

  vouched_same :
      (b : Bool) (u : User)
      → (vouched b u).project_id ≡ u.project_id × ((vouched b u).banned ≡ u.banned)
  vouched_same true u = (refl, refl)
  vouched_same false u = (refl, refl)

  -- A user that a Google identity is resolved to, by its account, by its address or as a new user, is of
  -- the project that the sign-in was started for, and is not banned.
  pub resolved-of_project :
      (project : Project) (id : Identity) (t : ℕ) (before after : Db) (user : User)
      → IsResolved env project id t before user after
      → (user.project_id ≡ project.id) × (user.banned ≡ false)
  resolved-of_project project id t before after user (by_account acc u a o p b) = (p, b)
  resolved-of_project project id t before after user (by_address s u at l v f b) =
      let holds = find-holds _ before.users u f in (ground arith, b)
  resolved-of_project project id t before after user (created s s' u du at at' l ins) =
      let (p, b) = vouched_same id.email_verified u in
      (p ∙ ap (λ (x : User). x.project_id) ins.row, b ∙ ap (λ (x : User). x.banned) ins.row)

  -- A state is used once: after a callback that returned a code, no callback with the same state
  -- returns one, whatever Google's code, while the states are as it left them.
  pub callback_twice :
      (code code' state : Text) (w v u : World) (uri raw uri' raw' : Text)
      → handle_google_callback env code state w ≡ (ok (uri, ok raw), v)
      → u.db.oauth_states ≡ v.db.oauth_states
      → (handle_google_callback env code' state u).0 ≢ ok (uri', ok raw')
  callback_twice code code' state w v u uri raw uri' raw' first kept second =
      let a = callback-admits env code state w v uri raw first in
      let x = (handle_google_callback env code' state u).1 in
      let b = callback-admits env code' state u x uri' raw' (ap (λ r. (r, x)) second) in
      let left =
        kept
        ∙ ap (λ (d : Db). d.oauth_states) a.coded.added
        ∙ resolved_states a.project a.ident w.now _ a.coded.with_user a.coded.user
            a.coded.resolved in
      cc (
        sym b.taken
        ∙ ap (find (is_state state)) left
        ∙ find-deleted (is_state state) w.db.oauth_states)
