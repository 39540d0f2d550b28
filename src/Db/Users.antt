-- ===== src/Db/Users.antt =====
-- backend/internal/db/users.sql.go and projects.sql.go
pub mod Laws
use sauth.Prelude.{
  ℕ, Bool, true, false, not, ◌&&◌, ◌||◌, Option, none, some, List, [], ◌∷◌, ◌++◌, ◌==◌,
  if◌then◌else◌,
}
use sauth.Text.{Text, text_eq, lit}
use sauth.Errors.{
  Outcome, ok, err, unique_violation, uq_users_project_email, uq_users_project_username,
  uq_users_project_phone, other_constraint, foreign_key_violation, ◌>>=◌,
}
use sauth.Env.{Env}
use sauth.Db.{select, Db, User, Project, Stamp, Stmt}
use sauth.Db.Table.{find, exists, update_where, one, sql_eq, citext_eq}

pub record CreateUserParams : Type 0 where
  pub project_id : ℕ
  pub email : Option Text
  pub username : Option Text
  pub phone : Option Text
  pub password_hash : Option Text

-- A check of a constraint before the row is written.
abbrev pub require {ℓ} : {A : Type ℓ} → Bool → Outcome A → Outcome A → Outcome A
require b e next = if b then next else e

module _ (env : Env) where
  -- Rows that a new one with these columns would collide with.
  abbrev pub same_email : ℕ → Option Text → User → Bool
  same_email project_id email u =
      u.project_id == project_id && citext_eq env.lower_rune u.email email

  abbrev pub same_username : ℕ → Option Text → User → Bool
  same_username project_id username u =
      u.project_id == project_id && citext_eq env.lower_rune u.username username

  abbrev pub same_phone : ℕ → Option Text → User → Bool
  same_phone project_id phone u = u.project_id == project_id && sql_eq u.phone phone

  -- The row that INSERT INTO users writes, with the defaults of the columns.
  abbrev pub new_user : Stamp → CreateUserParams → User
  new_user t arg = record {
    id = t.uuid;
    project_id = arg.project_id;
    email = arg.email;
    username = arg.username;
    phone = arg.phone;
    password_hash = arg.password_hash;
    email_verified = false;
    phone_verified = false;
    banned = false;
    metadata = lit "{}";
    created_at = t.now;
    updated_at = t.now;
  }

  unfoldable pub create_user : CreateUserParams → Stmt User
  create_user arg t d =
      if exists (λ (u : User). u.id == t.uuid) d.users
      then err (unique_violation other_constraint)
      else if exists (same_email arg.project_id arg.email) d.users
      then err (unique_violation uq_users_project_email)
      else if exists (same_username arg.project_id arg.username) d.users
      then err (unique_violation uq_users_project_username)
      else if exists (same_phone arg.project_id arg.phone) d.users
      then err (unique_violation uq_users_project_phone)
      else if exists (λ (p : Project). p.id == arg.project_id) d.projects
      then ok (new_user t arg, record d { users = d.users ++ new_user t arg ∷ [] })
      else err foreign_key_violation

  unfoldable pub get_user_by_email : ℕ → Option Text → Stmt User
  get_user_by_email project_id email t d =
      select (one (find (same_email project_id email) d.users)) d

  unfoldable pub get_user_by_id : ℕ → ℕ → Stmt User
  get_user_by_id id project_id t d =
      select (one (find (λ (u : User). u.id == id && u.project_id == project_id) d.users)) d

  unfoldable pub get_user_by_id_only : ℕ → Stmt User
  get_user_by_id_only id t d = select (one (find (λ (u : User). u.id == id) d.users)) d

  abbrev pub has_login : ℕ → Option Text → User → Bool
  has_login project_id identifier u =
      u.project_id == project_id
      && (citext_eq env.lower_rune u.email identifier
          || citext_eq env.lower_rune u.username identifier)

  -- LIMIT 1 without ORDER BY: the oldest row stands for the one that the database picks.
  unfoldable pub get_user_by_login : ℕ → Option Text → Stmt User
  get_user_by_login project_id identifier t d =
      select (one (find (has_login project_id identifier) d.users)) d

  unfoldable pub get_user_by_phone : ℕ → Option Text → Stmt User
  get_user_by_phone project_id phone t d =
      select (one (find (same_phone project_id phone) d.users)) d

-- UPDATE users, with the trigger trg_users_updated
abbrev pub update_users : (User → Bool) → (User → User) → Stmt (Unit {0})
update_users p f t d = ok (
  tt,
  record d { users = update_where p (λ (u : User). record (f u) { updated_at = t.now }) d.users },
)

unfoldable pub set_user_banned : ℕ → Bool → ℕ → Stmt (Unit {0})
set_user_banned id banned project_id =
    update_users (λ (u : User). u.id == id && u.project_id == project_id)
      (λ (u : User). record u { banned = banned })

unfoldable pub set_user_email_verified : ℕ → Stmt (Unit {0})
set_user_email_verified id =
    update_users (λ (u : User). u.id == id) (λ (u : User). record u { email_verified = true })

unfoldable pub set_user_password_hash : ℕ → Option Text → Stmt (Unit {0})
set_user_password_hash id password_hash =
    update_users (λ (u : User). u.id == id)
      (λ (u : User). record u { password_hash = password_hash })

unfoldable pub set_user_phone_verified : ℕ → Stmt (Unit {0})
set_user_phone_verified id =
    update_users (λ (u : User). u.id == id) (λ (u : User). record u { phone_verified = true })

unfoldable pub get_project_by_api_key : Text → Stmt Project
get_project_by_api_key api_key t d =
    select (one (find (λ (p : Project). text_eq p.api_key api_key) d.projects)) d

unfoldable pub get_project_by_id : ℕ → Stmt Project
get_project_by_id id t d = select (one (find (λ (p : Project). p.id == id) d.projects)) d
