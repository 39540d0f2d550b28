-- ===== src/Db/Users/Laws.antt =====
-- What INSERT INTO users has checked when it succeeds.
use sauth.Prelude.{◌≡◌, true, false, arith, ◌==◌, [], ◌∷◌, ◌++◌}
use sauth.Errors.{ok}
use sauth.Env.{Env}
use sauth.Db.{Db, Stamp, User, Project}
use sauth.Db.Table.{exists}
use sauth.Db.Users.{CreateUserParams, create_user, new_user, same_email, same_username, same_phone}

module _ (env : Env) where
  -- The row of `arg` was inserted: its unique columns were free, and its project is there.
  pub record IsInserted (arg : CreateUserParams) (t : Stamp) (before : Db) (user : User)
      (after : Db) : Type 0 where
    pub row : user ≡ new_user env t arg
    pub added : after ≡ record before { users = before.users ++ user ∷ [] }
    pub fresh : exists (λ (u : User). u.id == user.id) before.users ≡ false
    pub email_free : exists (same_email env arg.project_id arg.email) before.users ≡ false
    pub username_free : exists (same_username env arg.project_id arg.username) before.users ≡ false
    pub phone_free : exists (same_phone env arg.project_id arg.phone) before.users ≡ false
    pub in_project : exists (λ (p : Project). p.id == arg.project_id) before.projects ≡ true

  pub create_user-IsInserted :
      (arg : CreateUserParams) (t : Stamp) (d d' : Db) (user : User)
      → create_user env arg t d ≡ ok (user, d')
      → IsInserted arg t d user d'
  unfolding create_user
  create_user-IsInserted arg t d d' user h = record {
    row = ground arith;
    added = ground arith;
    fresh = ground arith;
    email_free = ground arith;
    username_free = ground arith;
    phone_free = ground arith;
    in_project = ground arith;
  }
