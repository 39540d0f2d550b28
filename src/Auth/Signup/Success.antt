-- ===== src/Auth/Signup/Success.antt =====
-- What a signup that returns tokens has checked and written.
use sauth.Prelude.{ℕ, ◌+◌, ◌≤◌, ◌≡◌, refl, true, arith}
use sauth.Text.{len}
use sauth.Errors.{ok, invalid_email, too_short, too_long}
use sauth.Env.{Env}
use sauth.Db.{Db, Stamp, User}
use sauth.Db.Table.{find, one}
use sauth.Db.Table.Laws.{one_ok, one_no_rows}
use sauth.Db.Users.{CreateUserParams, create_user}
use sauth.Db.Users.Laws.{IsInserted, create_user-IsInserted}
use sauth.Db.Rbac.{get_default_role, assign_role_to_user, is_default_of}
use sauth.Db.Rbac.Laws.{default_attached, assign-attached}
use sauth.Password
use sauth.Exec.{World, rollback}
use sauth.Exec.Laws.{
  Yields, Yields-run, Yields-pure, Yields-raise, Yields-reject, Yields-bind, Yields-query,
  Yields-attempt, Yields-read_lookup, Yields-call, Yields-in_tx, Yields-commit, stamp,
}
use sauth.Auth.{Result}
use sauth.Auth.Issue.Laws.{IsIssued, issue-Yields}
use sauth.Auth.Signup.{
  SignupInput, create, assign_default_role, signup_params, signup_in_tx, signup, email_of,
}

module _ (env : Env) where
  pub create-Yields :
      {Q : User → World → Type 0} (params : CreateUserParams) {w : World}
      → ((t : Stamp) (user : User) (d : Db)
          → t.now ≡ w.now
          → IsInserted env params t w.db user d
          → Q user (record w { db = d; calls = w.calls + 1 }))
      → Yields (create env params) w Q
  unfolding create
  create-Yields params {w} q = Yields-bind (
      Yields-attempt env (create_user env params)
        (λ user d e.
          Yields-pure
            (q (stamp env w) user d refl (create_user-IsInserted env params _ w.db d user e)))
        (λ e. Yields-raise _))

  pub assign_default_role-Yields :
      {Q : Unit {0} → World → Type 0} (user_id project_id : ℕ) {w : World}
      → ((d : Db)
          → d ≡ default_attached user_id project_id w.db
          → (n : ℕ) → Q tt (record w { db = d; calls = n }))
      → Yields (assign_default_role env user_id project_id) w Q
  unfolding assign_default_role get_default_role
  assign_default_role-Yields {Q} user_id project_id {w} q = Yields-bind (
      Yields-read_lookup env (get_default_role project_id)
        (one (find (is_default_of project_id) w.db.roles)) refl
        (λ role e. Yields-query env (assign_role_to_user user_id role.id project_id) λ u d f.
          q d (rw (one_ok _ e) (assign-attached user_id role.id project_id _ w.db d u f)) _)
        (λ e. Yields-pure (q w.db (rw (one_no_rows _ e)) _)) (λ e. Yields-raise e))

  -- What a signup at `t` from `before` has done when it returns `res`.
  pub record IsSignedUp (input : SignupInput) (t : ℕ) (before : Db) (res : Result) (after : Db)
      : Type 0 where
    pub address : env.is_address (email_of env input.email) ≡ true
    pub long_enough : 8 ≤ len input.password
    pub short_enough : len input.password ≤ 72
    pub salt : ℕ
    pub s : Stamp
    pub at : s.now ≡ t
    pub user : User
    pub with_user : Db
    pub inserted :
        IsInserted env
          (signup_params env input (env.bcrypt salt input.password))
          s
          before
          user
          with_user
    pub with_role : Db
    pub role : with_role ≡ default_attached user.id input.project_id with_user
    pub issued : IsIssued env user t with_role res after

  -- A signup that returns tokens was given an e-mail address and a password of 8 to 72 bytes. It
  -- has inserted the user with the trimmed, lower-cased address and the bcrypt hash of the password
  -- (the address and the username were free in the project), attached the project's default role if
  -- there is one, added one open session of the user, and changed nothing else.
  pub signup-registers :
      (input : SignupInput) (w v : World) (res : Result)
      → signup env input w ≡ (ok res, v)
      → IsSignedUp input w.now w.db res v.db
  unfolding signup signup_in_tx Password.hash rollback
  signup-registers input w v res h =
      Yields-run {Q = λ r u. IsSignedUp input w.now w.db r u.db}
        (Yields-reject _ invalid_email λ address. Yields-bind (
          Yields-reject _ too_short λ long. Yields-reject _ too_long λ short. Yields-bind (
            Yields-call env (
              Yields-pure (
                Yields-in_tx env (
                  Yields-bind (
                    create-Yields _ λ t user d at ins. Yields-bind (
                      assign_default_role-Yields user.id input.project_id λ dr role _. Yields-bind (
                        issue-Yields env user λ r d' i m. Yields-bind (
                          Yields-commit env (
                            Yields-pure (record {
                              address = ground arith;
                              long_enough = ground arith;
                              short_enough = ground arith;
                              salt = w.calls;
                              s = t;
                              at = at;
                              user = user;
                              with_user = d;
                              with_role = dr;
                              role = role;
                              inserted = ins;
                              issued = i;
                            }))))))))))))
        res v h
