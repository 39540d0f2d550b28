-- ===== src/Db/Rbac/Laws.antt =====
-- What attaching a role has done when it succeeds.
use sauth.Prelude.{ℕ, ◌≡◌, ◌&&◌, Option, none, some, arith, ◌==◌, [], ◌∷◌, ◌++◌, if◌then◌else◌}
use sauth.Errors.{ok}
use sauth.Db.{Db, Stamp, UserRole, Role}
use sauth.Db.Table.{exists, find}
use sauth.Db.Rbac.{assign_role_to_user, is_default_of}

-- The database once the user has the role: the row is added unless it is there.
abbrev pub attached : ℕ → ℕ → ℕ → Db → Db
attached user_id role_id project_id d =
    if exists (λ (ur : UserRole). ur.user_id == user_id && ur.role_id == role_id) d.user_roles
    then d
    else record d {
      user_roles =
          d.user_roles
          ++ record { user_id = user_id; role_id = role_id; project_id = project_id } ∷ [];
    }

abbrev pub attached_role : ℕ → ℕ → Option Role → Db → Db
attached_role user_id project_id none d = d
attached_role user_id project_id (some role) d = attached user_id role.id project_id d

-- The database once the user has the default role of the project, if it has one.
abbrev pub default_attached : ℕ → ℕ → Db → Db
default_attached user_id project_id d =
    attached_role user_id project_id (find (is_default_of project_id) d.roles) d

pub assign-attached :
    (user_id role_id project_id : ℕ) (t : Stamp) (d d' : Db) (u : Unit {0})
    → assign_role_to_user user_id role_id project_id t d ≡ ok (u, d')
    → d' ≡ attached user_id role_id project_id d
unfolding assign_role_to_user
assign-attached user_id role_id project_id t d d' u h = ground arith
