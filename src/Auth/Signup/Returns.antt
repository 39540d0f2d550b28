-- ===== src/Auth/Signup/Returns.antt =====
-- A signup succeeds.
use sauth.Prelude.{
  ℕ, ◌≤◌, ◌≡◌, refl, ap, true, false, not, ltb, Option, none, some, ◌&&◌, List, [], ◌∷◌, ◌++◌,
  arith, ◌==◌, Bool-cases, inl, inr, ==_refl,
}
use sauth.Text.{Text, len}
use sauth.Errors.{ok}
use sauth.Env.{Env}
use sauth.Db.{Db, Stamp, User, Role, Project, UserRole, select}
use sauth.Db.Table.{find, exists, one, sql_eq, citext_eq}
use sauth.Db.Users.{CreateUserParams, create_user, new_user, same_email, same_username, same_phone}
use sauth.Db.Rbac.{get_default_role, assign_role_to_user, is_default_of, role_in, user_in}
use sauth.Password
use sauth.Exec.{World}
use sauth.Exec.Runs.{IsHealthy}
use sauth.Exec.Returns.{
  Returns, Returns-pure, Returns-bind, Returns-query, Returns-found, Returns-missing,
  Returns-attempt, Returns-call, Returns-reject, Returns-in_tx, Returns-commit,
}
use sauth.Auth.{Result}
use sauth.Auth.Issue.Returns.{IsFresh, issue-Returns}
use sauth.Auth.Signup.{
  SignupInput, signup_params, create, assign_default_role, signup_in_tx, signup, email_of,
  username_of,
}

null_eq : (o : Option Text) → sql_eq o none ≡ false
null_eq none = refl
null_eq (some t) = refl

citext_null : (lower_rune : ℕ → ℕ) (o : Option Text) → citext_eq lower_rune o none ≡ false
citext_null lower_rune none = refl
citext_null lower_rune (some t) = refl

-- NULL is equal to no column.
pub no_phone :
    (env : Env) (project_id : ℕ) (us : List User)
    → exists (same_phone env project_id none) us ≡ false
unfolding exists
no_phone env project_id [] = refl
no_phone env project_id (u ∷ us) = ground (arith, null_eq u.phone, no_phone env project_id us)

pub no_email :
    (env : Env) (project_id : ℕ) (us : List User)
    → exists (same_email env project_id none) us ≡ false
unfolding exists
no_email env project_id [] = refl
no_email env project_id (u ∷ us) =
    ground (arith, citext_null env.lower_rune u.email, no_email env project_id us)

pub no_username :
    (env : Env) (project_id : ℕ) (us : List User)
    → exists (same_username env project_id none) us ≡ false
unfolding exists
no_username env project_id [] = refl
no_username env project_id (u ∷ us) =
    ground (arith, citext_null env.lower_rune u.username, no_username env project_id us)

default-role_in :
    (project_id : ℕ) (rs : List Role) (r : Role)
    → find (is_default_of project_id) rs ≡ some r
    → exists (role_in r.id project_id) rs ≡ true
unfolding find exists
default-role_in project_id [] r f = cc f
default-role_in project_id (x ∷ rs) r f = elim (Bool-cases (is_default_of project_id x)) [
  | inl hit ↦ ground (arith, ==_refl r.id)
  | inr miss ↦ ground (arith, default-role_in project_id rs r)
]

last_in :
    (id project_id : ℕ) (us : List User) (u : User)
    → user_in id project_id u ≡ true
    → exists (user_in id project_id) (us ++ u ∷ []) ≡ true
unfolding exists
last_in id project_id [] u h = ground arith
last_in id project_id (x ∷ us) u h = ground (arith, last_in id project_id us u h)

pub in_id :
    (id project_id : ℕ) (us : List User)
    → exists (user_in id project_id) us ≡ true
    → exists (λ (u : User). u.id == id) us ≡ true
unfolding exists
in_id id project_id [] h = cc h
in_id id project_id (x ∷ us) h = ground (arith, in_id id project_id us)

-- A row of the user and the role is there already, or it is added.
assigns :
    (user_id role_id project_id : ℕ) (t : Stamp) (d : Db)
    → exists (user_in user_id project_id) d.users ≡ true
    → exists (role_in role_id project_id) d.roles ≡ true
    → (rows : List UserRole) × (assign_role_to_user user_id role_id project_id t d
        ≡ ok (tt, record d { user_roles = rows }))
unfolding assign_role_to_user
assigns user_id role_id project_id t d user role =
    elim (Bool-cases
      (exists (λ (ur : UserRole). ur.user_id == user_id && ur.role_id == role_id) d.user_roles)) [
        | inl held ↦ (d.user_roles, rw (held, assign_role_to_user) refl)
        | inr free ↦ (
          d.user_roles
              ++ record { user_id = user_id; role_id = role_id; project_id = project_id } ∷ [],
          rw (free, user, role, assign_role_to_user) refl,
        )
      ]

module _ (env : Env) (healthy : IsHealthy env) where
  creates :
      (arg : CreateUserParams) (t : Stamp) (d : Db)
      → exists (λ (u : User). u.id == t.uuid) d.users ≡ false
      → exists (same_email env arg.project_id arg.email) d.users ≡ false
      → exists (same_username env arg.project_id arg.username) d.users ≡ false
      → exists (same_phone env arg.project_id arg.phone) d.users ≡ false
      → exists (λ (p : Project). p.id == arg.project_id) d.projects ≡ true
      → create_user env arg t d
        ≡ ok (new_user env t arg, record d { users = d.users ++ new_user env t arg ∷ [] })
  unfolding create_user
  creates arg t d id email username phone project =
      rw (id, email, username, phone, project, create_user) refl

  -- A user with free columns is created.
  pub create-Returns :
      {Q : User → World → Type 0} (arg : CreateUserParams) {w : World}
      → ((n : ℕ) → exists (λ (u : User). u.id == env.uuid n) w.db.users ≡ false)
      → exists (same_email env arg.project_id arg.email) w.db.users ≡ false
      → exists (same_username env arg.project_id arg.username) w.db.users ≡ false
      → exists (same_phone env arg.project_id arg.phone) w.db.users ≡ false
      → exists (λ (p : Project). p.id == arg.project_id) w.db.projects ≡ true
      → ((user : User) (us : List User) (n : ℕ)
          → exists (user_in user.id arg.project_id) us ≡ true
          → Q user (record w { db = record w.db { users = us }; calls = n }))
      → Returns (create env arg) w Q
  unfolding create
  create-Returns arg {w} ids email username phone project q = Returns-bind _ (
      Returns-attempt (
        Returns-query env healthy _ _ _ (creates arg _ w.db (ids _) email username phone project)
          (Returns-pure (q _ _ _ (known _)))))
    where
      known :
          (t : Stamp)
          → exists (user_in t.uuid arg.project_id) (w.db.users ++ new_user env t arg ∷ []) ≡ true
      known t =
          last_in t.uuid arg.project_id w.db.users (new_user env t arg)
            (ground (arith, ==_refl t.uuid, ==_refl arg.project_id))

  pub assign-Returns :
      {Q : Unit {0} → World → Type 0} (user_id project_id : ℕ) {w : World}
      → exists (user_in user_id project_id) w.db.users ≡ true
      → ((rows : List UserRole) (n : ℕ)
          → Q tt (record w { db = record w.db { user_roles = rows }; calls = n }))
      → (o : Option Role) → find (is_default_of project_id) w.db.roles ≡ o
      → Returns (assign_default_role env user_id project_id) w Q
  unfolding assign_default_role get_default_role
  assign-Returns user_id project_id {w} known q none e = Returns-bind _ (
      Returns-missing env healthy (get_default_role project_id) (ap (λ o. select (one o) w.db) e)
        (Returns-pure (q w.db.user_roles _)))
  assign-Returns user_id project_id {w} known q (some role) e = Returns-bind _ (
      Returns-found (
        Returns-query env healthy (get_default_role project_id) role w.db
          (ap (λ o. select (one o) w.db) e)
          (let a =
              assigns user_id role.id project_id _ w.db known
                (default-role_in project_id w.db.roles role e) in
            Returns-query env healthy _ tt _ a.1 (q a.0 _))))

  in_tx-Returns :
      (input : SignupInput) (hash : Text) (w : World)
      → ((n : ℕ) → exists (λ (u : User). u.id == env.uuid n) w.db.users ≡ false)
      → exists (same_email env input.project_id (some (email_of env input.email))) w.db.users
        ≡ false
      → exists (same_username env input.project_id (username_of input.username)) w.db.users ≡ false
      → exists (λ (p : Project). p.id == input.project_id) w.db.projects ≡ true
      → IsFresh env w.db
      → Returns (signup_in_tx env input hash) w (λ _ _. Unit)
  unfolding signup_in_tx
  in_tx-Returns input hash w ids email username project fresh = Returns-bind _ (
      create-Returns (signup_params env input hash) ids email username
        (no_phone env input.project_id w.db.users) project
        λ user us n known. Returns-bind _ (
          assign-Returns user.id input.project_id known
            (λ rows n'. Returns-bind _ (
              issue-Returns env healthy user (record { ids = fresh.ids; hashes = fresh.hashes })
                (in_id user.id input.project_id us known)
                λ res d m. Returns-bind _ (Returns-commit env healthy (Returns-pure tt))))
            _ refl))

  -- A signup succeeds. When no call fails, an e-mail address and a password of 8 to 72 bytes are
  -- answered with tokens, where no user of the project has the address or the username, the project is there, and
  -- no user or session has an id or a hash that the random sources give.
  pub signup_returns :
      (input : SignupInput) (w : World)
      → env.is_address (email_of env input.email) ≡ true
      → 8 ≤ len input.password
      → len input.password ≤ 72
      → exists (same_email env input.project_id (some (email_of env input.email))) w.db.users
        ≡ false
      → exists (same_username env input.project_id (username_of input.username)) w.db.users ≡ false
      → exists (λ (p : Project). p.id == input.project_id) w.db.projects ≡ true
      → ((n : ℕ) → exists (λ (u : User). u.id == env.uuid n) w.db.users ≡ false)
      → IsFresh env w.db
      → (res : Result) × ((signup env input w).0 ≡ ok res)
  unfolding signup Password.hash
  signup_returns input w address long short email username project ids fresh =
      let y : Returns (signup env input) w (λ _ _. Unit) = Returns-reject _ _ (ap not address) (
        Returns-bind _ (
          Returns-reject (ltb (len input.password) 8) _ (ground arith) (
            Returns-reject (ltb Password.max_len (len input.password)) _ (ground arith) (
              Returns-bind _ (
                Returns-call env healthy (
                  Returns-pure (
                    Returns-in_tx env healthy
                      (in_tx-Returns input _ _ ids email username project fresh)))))))) in
      (y.result, ap (λ p. p.0) y.runs)
