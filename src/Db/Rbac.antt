-- ===== src/Db/Rbac.antt =====
-- backend/internal/db/rbac.sql.go
pub mod Laws
use sauth.Prelude.{ℕ, Bool, ◌&&◌, none, some, List, [], ◌∷◌, ◌++◌, map, ◌==◌, if◌then◌else◌}
use sauth.Text.{Text}
use sauth.Errors.{Outcome, ok, err, foreign_key_violation}
use sauth.Env.{Env}
use sauth.Db.{select, Db, User, Role, Permission, RolePermission, UserRole, Stmt}
use sauth.Db.Table.{find, exists, delete_where, rows_where, join, order_by, distinct, one}

-- The foreign keys of user_roles: user and role are of the project that the row names.
abbrev pub user_in : ℕ → ℕ → User → Bool
user_in id project_id u = u.id == id && u.project_id == project_id

abbrev pub role_in : ℕ → ℕ → Role → Bool
role_in id project_id r = r.id == id && r.project_id == project_id

-- ON CONFLICT (user_id, role_id) DO NOTHING
unfoldable pub assign_role_to_user : ℕ → ℕ → ℕ → Stmt (Unit {0})
assign_role_to_user user_id role_id project_id t d =
    if exists (λ (ur : UserRole). ur.user_id == user_id && ur.role_id == role_id) d.user_roles
    then ok (tt, d)
    else if exists (user_in user_id project_id) d.users
        && exists (role_in role_id project_id) d.roles
    then ok (
      tt,
      record d {
        user_roles =
            d.user_roles
            ++ record { user_id = user_id; role_id = role_id; project_id = project_id } ∷ [];
      },
    )
    else err foreign_key_violation

abbrev pub is_default_of : ℕ → Role → Bool
is_default_of project_id r = r.project_id == project_id && r.is_default

unfoldable pub get_default_role : ℕ → Stmt Role
get_default_role project_id t d = select (one (find (is_default_of project_id) d.roles)) d

abbrev roles_of : Db → ℕ → List UserRole
roles_of d user_id = rows_where (λ (ur : UserRole). ur.user_id == user_id) d.user_roles

module _ (env : Env) where
  unfoldable pub permission_names : ℕ → Db → List Text
  permission_names user_id d =
      let granted =
        join
          (λ (ur : UserRole).
            rows_where (λ (rp : RolePermission). rp.role_id == ur.role_id) d.role_permissions)
          (roles_of d user_id) in
      let named =
        join
          (λ (rp : RolePermission).
            rows_where (λ (p : Permission). p.id == rp.permission_id) d.permissions)
          granted in
      order_by env.name_le (distinct (map (λ (p : Permission). p.name) named))

  unfoldable pub get_user_permission_names : ℕ → Stmt (List Text)
  get_user_permission_names user_id t d = ok (permission_names user_id d, d)

  unfoldable pub role_names : ℕ → Db → List Text
  role_names user_id d =
      let named =
        join (λ (ur : UserRole). rows_where (λ (r : Role). r.id == ur.role_id) d.roles)
          (roles_of d user_id) in
      order_by env.name_le (map (λ (r : Role). r.name) named)

  unfoldable pub get_user_role_names : ℕ → Stmt (List Text)
  get_user_role_names user_id t d = ok (role_names user_id d, d)

unfoldable pub remove_role_from_user : ℕ → ℕ → Stmt (Unit {0})
remove_role_from_user user_id role_id t d = ok (
  tt,
  record d {
    user_roles =
        delete_where (λ (ur : UserRole). ur.user_id == user_id && ur.role_id == role_id)
          d.user_roles;
  },
)
