-- ===== src/Auth/Login/Outcomes.antt =====
-- What a login leaves behind, and whom it lets in.
use sauth.Prelude.{ℕ, ◌+◌, ◌≡◌, refl, false, Option, none, some}
use sauth.Text.{Text, trim_space, to_lower}
use sauth.Errors.{Err, Outcome, ok, err, Lookup, found, missing, failed, mismatch, user_banned}
use sauth.Env.{Env, Comparison, matches, differs, malformed}
use sauth.Db.{Db, User}
use sauth.Db.Users.{has_login, get_user_by_login}
use sauth.Exec.{World, query, rollback}
use sauth.Exec.Atomic.{IsAtomic, Any, atomic_rules}
use sauth.Exec.FailSafe.{
  IsReader, IsReader-query, IsFailSafe, IsFailSafe-raise, select-reads, fail_safe_rules,
}
use sauth.Auth.{Result}
use sauth.Auth.Issue.Quiet.{issue-IsQuiet}
use sauth.Auth.Login.{login, login_in_tx, login_found, login_hash, login_verified}
use sauth.Password
use sauth.Exec.Laws.{
  Yields, Yields-run, Yields-pure, Yields-raise, Yields-reject, Yields-bind, Yields-read_lookup,
  Yields-in_tx, Yields-commit,
}
use sauth.Auth.Issue.Laws.{IsIssued, issue-Yields}
use sauth.Db.Table.{find, one}
use sauth.Db.Table.Laws.{one_ok}

verified-ok_matches : (c : Comparison) (u : Unit {0}) → Password.verified c ≡ ok u → c ≡ matches
verified-ok_matches matches u h = refl
verified-ok_matches differs u h = cc
verified-ok_matches malformed u h = cc

module _ (env : Env) where
  login_in_tx-IsAtomic : (user : User) → IsAtomic Any (login_in_tx env user)
  unfolding login_in_tx
  login_in_tx-IsAtomic user = search (atomic_rules, issue-IsQuiet env user) depth 12

  verified-IsFailSafe :
      (user : User) (r : Outcome (Unit {0})) → IsFailSafe Any (λ d. d) (login_verified env user r)
  verified-IsFailSafe user (ok _) = search (fail_safe_rules, login_in_tx-IsAtomic) depth 12
  verified-IsFailSafe user (err mismatch) = IsFailSafe-raise _
  verified-IsFailSafe user (err e) = IsFailSafe-raise _

  login_hash-IsFailSafe :
      (plain : Text) (user : User) (h : Option Text)
      → IsFailSafe Any (λ d. d) (login_hash env plain user h)
  unfolding Password.verify_dummy
  login_hash-IsFailSafe plain user none = search fail_safe_rules depth 12
  login_hash-IsFailSafe plain user (some hash) =
      verified-IsFailSafe user (Password.verify env hash plain)

  login_found-IsFailSafe :
      (plain : Text) (l : Lookup User) → IsFailSafe Any (λ d. d) (login_found env plain l)
  unfolding Password.verify_dummy
  login_found-IsFailSafe plain missing = search fail_safe_rules depth 12
  login_found-IsFailSafe plain (failed e) = IsFailSafe-raise _
  login_found-IsFailSafe plain (found user) = login_hash-IsFailSafe plain user user.password_hash

  by_login-IsReader : (p : ℕ) (l : Option Text) → IsReader (query env (get_user_by_login env p l))
  unfolding get_user_by_login
  by_login-IsReader p l = IsReader-query env _ λ t d a d' h. select-reads _ d a d' h

  login-IsFailSafe : (p : ℕ) (i plain : Text) → IsFailSafe Any (λ d. d) (login env p i plain)
  unfolding login
  login-IsFailSafe p i plain =
      search (fail_safe_rules, by_login-IsReader, login_found-IsFailSafe) depth 12

  -- A login that fails leaves the database as it was, whatever made it fail.
  pub login-atomic :
      (project_id : ℕ) (identifier plain : Text) (w : World) (e : Err)
      → (login env project_id identifier plain w).0 ≡ err e
      → (login env project_id identifier plain w).1.db ≡ w.db
  login-atomic project_id identifier plain w e h =
      (login-IsFailSafe project_id identifier plain).at w e tt h

  -- Whom a login at `t` from `before` has let in when it returns `res`.
  pub record IsAdmitted (project_id : ℕ) (identifier plain : Text) (t : ℕ) (before : Db)
      (res : Result) (after : Db) : Type 0 where
    pub user : User
    pub hash : Text
    pub named :
        find
          (has_login env project_id (some (to_lower env.lower_rune (trim_space identifier))))
          before.users
        ≡ some user
    pub hashed : user.password_hash ≡ some hash
    pub right : env.bcrypt_compare hash plain ≡ matches
    pub allowed : user.banned ≡ false
    pub issued : IsIssued env user t before res after

  verified-matches :
      (hash plain : Text) (u : Unit {0})
      → Password.verify env hash plain ≡ ok u
      → env.bcrypt_compare hash plain ≡ matches
  unfolding Password.verify
  verified-matches hash plain u h = verified-ok_matches _ u h

  -- A login that returns tokens has found a user of the project by e-mail or username, lower-cased
  -- and trimmed, with a stored hash that the password matches, and not banned. It has added one open
  -- session of that user, under the hash of the refresh token it returns, and changed nothing else.
  pub login-admits :
      (project_id : ℕ) (identifier plain : Text) (w v : World) (res : Result)
      → login env project_id identifier plain w ≡ (ok res, v)
      → IsAdmitted project_id identifier plain w.now w.db res v.db
  unfolding login login_in_tx get_user_by_login Password.verify_dummy rollback
  login-admits project_id identifier plain w v res h =
      Yields-run {Q = λ r u. IsAdmitted project_id identifier plain w.now w.db r u.db}
        (Yields-reject _ _ λ _. Yields-bind (
          Yields-read_lookup env _
            (one (
              find
                (has_login env project_id (some (to_lower env.lower_rune (trim_space identifier))))
                w.db.users))
            refl (λ user e. hash_case user (one_ok _ e) user.password_hash refl)
            (λ _. Yields-bind (Yields-pure (Yields-raise _))) (λ e. Yields-raise e)))
        res v h
    where
      Admitted : Result → World → Type 0
      Admitted r u = IsAdmitted project_id identifier plain w.now w.db r u.db

      verified_case :
          (user : User) (hash : Text)
          → find
              (has_login env project_id (some (to_lower env.lower_rune (trim_space identifier))))
              w.db.users
            ≡ some user
          → user.password_hash ≡ some hash
          → (r : Outcome (Unit {0})) → Password.verify env hash plain ≡ r
          → Yields (login_verified env user r) (record w { calls = w.calls + 1 }) Admitted
      verified_case user hash f p (err mismatch) e = Yields-raise _
      verified_case user hash f p (err x) e = Yields-raise _
      verified_case user hash f p (ok u) e = Yields-reject user.banned user_banned λ allowed.
          Yields-in_tx env (
            Yields-bind (
              issue-Yields env user λ r d i n. Yields-bind (
                Yields-commit env (
                  Yields-pure (record {
                    user = user;
                    hash = hash;
                    named = f;
                    hashed = p;
                    right = verified-matches hash plain u e;
                    allowed = allowed;
                    issued = i;
                  })))))

      hash_case :
          (user : User)
          → find
              (has_login env project_id (some (to_lower env.lower_rune (trim_space identifier))))
              w.db.users
            ≡ some user
          → (p : Option Text) → user.password_hash ≡ p
          → Yields (login_hash env plain user p) (record w { calls = w.calls + 1 }) Admitted
      hash_case user f none e = Yields-bind (Yields-pure (Yields-raise _))
      hash_case user f (some hash) e =
          verified_case user hash f e (Password.verify env hash plain) refl
