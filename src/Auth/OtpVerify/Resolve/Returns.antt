-- ===== src/Auth/OtpVerify/Resolve/Returns.antt =====
-- Whom a right code stands for is found or created.
use sauth.Prelude.{ℕ, ◌≡◌, ◌∙◌, refl, ap, Bool, true, false, Option, none, some, ◌&&◌, List, ◌==◌}
use sauth.Text.{Text, text_eq}
use sauth.Env.{Env, Channel, email, sms}
use sauth.Db.{Db, Stamp, User, Project, UserRole, select}
use sauth.Db.Table.{find, exists, one}
use sauth.Db.Table.Laws.{find-none_exists}
use sauth.Db.Table.Distinct.{exists-update}
use sauth.Db.Users.{
  same_email, same_username, same_phone, set_user_email_verified, set_user_phone_verified,
}
use sauth.Db.Rbac.{user_in}
use sauth.Exec.{World}
use sauth.Exec.Runs.{IsHealthy}
use sauth.Exec.Returns.{
  Returns, Returns-pure, Returns-if, Returns-bind, Returns-query, Returns-found, Returns-missing,
  Returns-reject,
}
use sauth.Auth.Login.Returns.{user_exists}
use sauth.Auth.Signup.{create}
use sauth.Auth.Signup.Returns.{
  no_email, no_username, no_phone, in_id, create-Returns, assign-Returns,
}
use sauth.Auth.OtpRequest.{
  login_purpose, signup_purpose, lookup_user_by_destination, user_by_destination,
}
use sauth.Auth.OtpVerify.{mark_verified, destination_params, resolve_user}
use sauth.Auth.OtpVerify.Resolve.{owns, user_by_destination-reads}

module _ (env : Env) (healthy : IsHealthy env) where
  -- A destination is marked as verified in rows that keep their ids and projects.
  mark-Returns :
      {Q : Unit {0} → World → Type 0} (user : User) (channel : Channel) {w : World}
      → ((us : List User) (n : ℕ)
          → ((p : ℕ → ℕ → Bool)
              → exists (λ (u : User). p u.id u.project_id) us
                ≡ exists (λ (u : User). p u.id u.project_id) w.db.users)
          → Q tt (record w { db = record w.db { users = us }; calls = n }))
      → Returns (mark_verified env user channel) w Q
  unfolding mark_verified set_user_email_verified set_user_phone_verified
  mark-Returns user email {w} q =
      Returns-if user.email_verified (λ _. Returns-pure (q w.db.users _ λ p. refl))
        (λ _.
          Returns-query env healthy (set_user_email_verified user.id) tt _ refl
            (q _ _ λ p. exists-update _ _ _ (λ x. refl) w.db.users))
  mark-Returns user sms {w} q =
      Returns-if user.phone_verified (λ _. Returns-pure (q w.db.users _ λ p. refl))
        (λ _.
          Returns-query env healthy (set_user_phone_verified user.id) tt _ refl
            (q _ _ λ p. exists-update _ _ _ (λ x. refl) w.db.users))

  find_owner :
      (project_id : ℕ) (channel : Channel) (dest : Text) (t : Stamp) (d : Db) (o : Option User)
      → find (owns env project_id channel dest) d.users ≡ o
      → user_by_destination env project_id channel dest t d ≡ select (one o) d
  find_owner project_id channel dest t d o e =
      user_by_destination-reads env project_id channel dest t d ∙ ap (λ x. select (one x) d) e

  pub logs_in :
      {Q : User → World → Type 0} (project_id : ℕ) (channel : Channel) (dest : Text) (user : User)
      {w : World}
      → find (owns env project_id channel dest) w.db.users ≡ some user
      → user.banned ≡ false
      → ((us : List User) (rows : List UserRole) (n : ℕ)
          → exists (λ (u : User). u.id == user.id) us ≡ true
          → Q user (record w { db = record w.db { users = us; user_roles = rows }; calls = n }))
      → Returns (resolve_user env project_id login_purpose channel dest) w Q
  unfolding resolve_user lookup_user_by_destination text_eq
  logs_in project_id channel dest user {w} owner allowed q = Returns-bind _ (
      Returns-found (
        Returns-query env healthy (user_by_destination env project_id channel dest) user w.db
          (find_owner project_id channel dest _ w.db _ owner)
          (Returns-reject user.banned _ allowed (
            Returns-bind _ (
              mark-Returns user channel λ us n kept. Returns-pure (
                q us w.db.user_roles n
                  (kept (λ i _. i == user.id) ∙ user_exists _ w.db.users user owner)))))))

  -- A new user of a destination that no user has.
  module _ (project_id : ℕ) (dest : Text) (d : Db) where
    email_free :
        (channel : Channel)
        → find (owns env project_id channel dest) d.users ≡ none
        → exists
            (same_email env project_id (destination_params env project_id channel dest).email)
            d.users
          ≡ false
    email_free email none_has = find-none_exists _ d.users none_has
    email_free sms none_has = no_email env project_id d.users

    phone_free :
        (channel : Channel)
        → find (owns env project_id channel dest) d.users ≡ none
        → exists
            (same_phone env project_id (destination_params env project_id channel dest).phone)
            d.users
          ≡ false
    phone_free email none_has = no_phone env project_id d.users
    phone_free sms none_has = find-none_exists _ d.users none_has

    username_free :
        (channel : Channel)
        → exists
            (same_username env project_id (destination_params env project_id channel dest).username)
            d.users
          ≡ false
    username_free email = no_username env project_id d.users
    username_free sms = no_username env project_id d.users

  creates_owner :
      {Q : User → World → Type 0} (project_id : ℕ) (channel : Channel) (dest : Text) {w : World}
      → find (owns env project_id channel dest) w.db.users ≡ none
      → ((n : ℕ) → exists (λ (u : User). u.id == env.uuid n) w.db.users ≡ false)
      → exists (λ (p : Project). p.id == project_id) w.db.projects ≡ true
      → ((user : User) (us : List User) (n : ℕ)
          → exists (user_in user.id project_id) us ≡ true
          → Q user (record w { db = record w.db { users = us }; calls = n }))
      → Returns (create env (destination_params env project_id channel dest)) w Q
  creates_owner project_id email dest {w} nobody ids project q =
      create-Returns env healthy (destination_params env project_id email dest) ids
        (email_free project_id dest w.db email nobody) (username_free project_id dest w.db email)
        (phone_free project_id dest w.db email nobody) project q
  creates_owner project_id sms dest {w} nobody ids project q =
      create-Returns env healthy (destination_params env project_id sms dest) ids
        (email_free project_id dest w.db sms nobody) (username_free project_id dest w.db sms)
        (phone_free project_id dest w.db sms nobody) project q

  pub signs_up :
      {Q : User → World → Type 0} (project_id : ℕ) (channel : Channel) (dest : Text) {w : World}
      → find (owns env project_id channel dest) w.db.users ≡ none
      → ((n : ℕ) → exists (λ (u : User). u.id == env.uuid n) w.db.users ≡ false)
      → exists (λ (p : Project). p.id == project_id) w.db.projects ≡ true
      → ((user : User) (us : List User) (rows : List UserRole) (n : ℕ)
          → exists (λ (u : User). u.id == user.id) us ≡ true
          → Q user (record w { db = record w.db { users = us; user_roles = rows }; calls = n }))
      → Returns (resolve_user env project_id signup_purpose channel dest) w Q
  unfolding resolve_user lookup_user_by_destination text_eq
  signs_up project_id channel dest {w} nobody ids project q = Returns-bind _ (
      Returns-missing env healthy (user_by_destination env project_id channel dest)
        (find_owner project_id channel dest _ w.db _ nobody)
        (Returns-bind _ (
          creates_owner project_id channel dest nobody ids project λ user us n known.
            Returns-bind _ (
              mark-Returns user channel λ vs m kept.
                let there = kept (λ i j. i == user.id && j == project_id) ∙ known in
                Returns-bind _ (
                  assign-Returns env healthy user.id project_id there
                    (λ rows k. Returns-pure (q user vs rows k (in_id user.id project_id vs there)))
                    _ refl)))))
