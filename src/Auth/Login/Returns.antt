-- ===== src/Auth/Login/Returns.antt =====
-- A login succeeds.
use sauth.Prelude.{
  ℕ, ◌≡◌, ◌∙◌, ap, Bool, true, false, ◌||◌, Option, none, some, List, [], ◌∷◌, arith, ◌==◌,
  Bool-cases, inl, inr, ==_refl,
}
use sauth.Text.{Text, text_eq, trim_space, to_lower}
use sauth.Errors.{Outcome, ok, err}
use sauth.Env.{Env, matches}
use sauth.Db.{User}
use sauth.Db.Table.{find, exists}
use sauth.Db.Table.Every.{some_inj}
use sauth.Db.Users.{get_user_by_login, has_login}
use sauth.Password
use sauth.Exec.{World}
use sauth.Exec.Runs.{IsHealthy}
use sauth.Exec.Returns.{
  Returns, Returns-pure, Returns-bind, Returns-query, Returns-found, Returns-reject, Returns-in_tx,
  Returns-commit,
}
use sauth.Auth.{Result}
use sauth.Auth.Issue.Returns.{IsFresh, issue-Returns}
use sauth.Auth.Login.{login, login_hash, login_verified, login_in_tx}

pub user_exists :
    (p : User → Bool) (us : List User) (u : User)
    → find p us ≡ some u
    → exists (λ (x : User). x.id == u.id) us ≡ true
unfolding find exists
user_exists p [] u f = cc f
user_exists p (x ∷ us) u f = elim (Bool-cases (p x)) [
  | inl hit ↦ ground (arith, ==_refl u.id)
  | inr miss ↦ ground (arith, user_exists p us u)
]

module _ (env : Env) (healthy : IsHealthy env) where
  verified-Returns :
      (user : User) (w : World) (r : Outcome Unit)
      → r ≡ ok tt
      → user.banned ≡ false
      → IsFresh env w.db
      → exists (λ (u : User). u.id == user.id) w.db.users ≡ true
      → Returns (login_verified env user r) w (λ _ _. Unit)
  unfolding login_in_tx
  verified-Returns user w (ok _) e allowed fresh known = Returns-reject user.banned _ allowed (
      Returns-in_tx env healthy (
        Returns-bind _ (
          issue-Returns env healthy user fresh known
            λ res d n. Returns-bind _ (Returns-commit env healthy (Returns-pure tt)))))
  verified-Returns user w (err e) wrong allowed fresh known =
      let never : ⊥ = cc wrong in absurd never

  hash-Returns :
      (plain hash : Text) (user : User) (w : World) (stored : Option Text)
      → stored ≡ some hash
      → env.bcrypt_compare hash plain ≡ matches
      → user.banned ≡ false
      → IsFresh env w.db
      → exists (λ (u : User). u.id == user.id) w.db.users ≡ true
      → Returns (login_hash env plain user stored) w (λ _ _. Unit)
  unfolding Password.verify
  hash-Returns plain hash user w none wrong right allowed fresh known =
      let never : ⊥ = cc wrong in absurd never
  hash-Returns plain hash user w (some h) e right allowed fresh known =
      verified-Returns user w _
        (ap (λ x. Password.verified (env.bcrypt_compare x plain)) (some_inj e)
          ∙ ap Password.verified right)
        allowed fresh known

  -- A login succeeds. When no call fails, the name of a user of the project that is not banned, with the
  -- password that the stored hash was made of, is answered with tokens. Name and password are not
  -- blank, and no session has an id or a hash that the random sources give.
  pub login_returns :
      (project_id : ℕ) (identifier plain hash : Text) (w : World) (user : User)
      → (text_eq (trim_space identifier) [] || text_eq plain []) ≡ false
      → find
          (has_login env project_id (some (to_lower env.lower_rune (trim_space identifier))))
          w.db.users
        ≡ some user
      → user.password_hash ≡ some hash
      → env.bcrypt_compare hash plain ≡ matches
      → user.banned ≡ false
      → IsFresh env w.db
      → (res : Result) × ((login env project_id identifier plain w).0 ≡ ok res)
  unfolding login get_user_by_login
  login_returns project_id identifier plain hash w user given f e right allowed fresh =
      let y : Returns (login env project_id identifier plain) w (λ _ _. Unit) =
        Returns-reject _ _ given (
          Returns-bind _ (
            Returns-found (
              Returns-query env healthy
                (get_user_by_login env project_id
                  (some (to_lower env.lower_rune (trim_space identifier))))
                user w.db (rw f)
                (hash-Returns plain hash user _ _ e right allowed fresh
                  (user_exists _ w.db.users user f))))) in
      (y.result, ap (λ p. p.0) y.runs)
