-- ===== src/Exec/Atomic.antt =====
-- Transactions that fail leave the database as it was.
use sauth.Prelude.{ℕ, ◌≡◌, ◌≢◌, refl, Bool, true, false, if◌then◌else◌, Bool-cases, inl, inr, ◌∙◌}
use sauth.Errors.{Err, Outcome, ok, err}
use sauth.Env.{Env}
use sauth.Db.{Db, Stmt}
use sauth.Exec.{
  World, Exec, continue, ◌>>=◌, query, call, commit, pure, raise, lift, attempt, lookup, settle,
  reject_if, now,
}

-- `m` does not begin, commit or roll back.
pub record IsQuiet {A : Type 0} (m : Exec A) : Type 0 where
  pub at : (w : World) → (m w).1.saved ≡ w.saved

-- `m` has not committed when it fails with an error of `E`.
pub record IsAtomic {A : Type 0} (E : Err → Type 0) (m : Exec A) : Type 0 where
  pub at : (w : World) (e : Err) → E e → (m w).0 ≡ err e → (m w).1.saved ≡ w.saved

-- Every error.
abbrev pub Any : Err → Type 0
Any e = Unit

module _ {A : Type 0} where
  pub IsQuiet-pure : (a : A) → IsQuiet (pure a)
  IsQuiet-pure a = record { at = λ w. refl }

  pub IsQuiet-raise : (e : Err) → IsQuiet (raise {A = A} e)
  IsQuiet-raise e = record { at = λ w. refl }

  pub IsQuiet-lift : (r : Outcome A) → IsQuiet (lift r)
  IsQuiet-lift r = record { at = λ w. refl }

  pub IsQuiet-lookup : (m : Exec A) → IsQuiet m → IsQuiet (lookup m)
  IsQuiet-lookup m q = record { at = q.at }

  pub IsQuiet-attempt : (m : Exec A) → IsQuiet m → IsQuiet (attempt m)
  IsQuiet-attempt m q = record { at = q.at }

  pub IsQuiet-if : (b : Bool) (m n : Exec A) → IsQuiet m → IsQuiet n → IsQuiet (if b then m else n)
  IsQuiet-if true m n q r = q
  IsQuiet-if false m n q r = r

  pub IsQuiet-reject : (b : Bool) (e : Err) (m : Exec A) → IsQuiet m → IsQuiet (reject_if b e m)
  unfolding reject_if
  IsQuiet-reject b e m q = IsQuiet-if b (raise e) m (IsQuiet-raise e) q

  saved-settle : (env : Env) (r : Outcome (A × Db)) (w : World) → (settle env r w).1.saved ≡ w.saved
  saved-settle env (ok (a, d)) w = refl
  saved-settle env (err e) w = refl

  pub IsQuiet-query : (env : Env) (s : Stmt A) → IsQuiet (query env s)
  unfolding query
  IsQuiet-query env s = record {
    at = λ w. elim (Bool-cases (env.fails w.calls)) [
      | inl e ↦ rw (e, query, call, ◌>>=◌)
      | inr e ↦ rw (e, query, call, ◌>>=◌) (saved-settle env _ _)
    ];
  }

module _ {A : Type 0} {E : Err → Type 0} where
  pub IsAtomic-of_quiet : (m : Exec A) → IsQuiet m → IsAtomic E m
  IsAtomic-of_quiet m q = record { at = λ w e x h. q.at w }

  pub IsAtomic-if :
      (b : Bool) (m n : Exec A) → IsAtomic E m → IsAtomic E n → IsAtomic E (if b then m else n)
  IsAtomic-if true m n q r = q
  IsAtomic-if false m n q r = r

  pub IsAtomic-raise : (e : Err) → IsAtomic E (raise {A = A} e)
  IsAtomic-raise e = IsAtomic-of_quiet (raise e) (IsQuiet-raise e)

  pub IsAtomic-reject :
      (b : Bool) (e : Err) (m : Exec A) → IsAtomic E m → IsAtomic E (reject_if b e m)
  unfolding reject_if
  IsAtomic-reject b e m q = IsAtomic-if b (raise e) m (IsAtomic-raise e) q

  pub IsAtomic-pure : (a : A) → IsAtomic E (pure a)
  IsAtomic-pure a = IsAtomic-of_quiet (pure a) (IsQuiet-pure a)

  -- return res, nil after tx.Commit
  pub IsAtomic-commit :
      (env : Env) (m : Exec A)
      → ((w : World) (e : Err) → (m w).0 ≢ err e)
      → IsAtomic E (commit env >>= λ _. m)
  unfolding commit
  IsAtomic-commit env m total = record {
    at = λ w x _ h. elim (Bool-cases (env.fails w.calls)) [
      | inl e ↦ rw (e, commit, call, ◌>>=◌)
      | inr e ↦ absurd (total _ x (rw (e, commit, call, ◌>>=◌) at h))
    ];
  }

  pub IsAtomic-commit-pure : (env : Env) (a : A) → IsAtomic E (commit env >>= λ _. pure a)
  IsAtomic-commit-pure env a = IsAtomic-commit env (pure a) (λ w e h. cc)

  pub IsAtomic-commit_now :
      (env : Env) (f : ℕ → A) → IsAtomic E (commit env >>= λ _. now >>= λ t. pure (f t))
  unfolding ◌>>=◌
  IsAtomic-commit_now env f = IsAtomic-commit env _ (λ w e h. cc)

  -- An action that returns one error only, whatever happens before.
  pub IsAtomic-attempt-raise :
      {B : Type 0} (m : Exec B) (e : Err)
      → ((x : Err) → E x → x ≢ e)
      → IsAtomic E (attempt m >>= λ _. raise {A = A} e)
  unfolding ◌>>=◌
  IsAtomic-attempt-raise m e other = record { at = λ w x ex h. absurd (other x ex (cc)) }

pub IsQuiet-now : IsQuiet now
IsQuiet-now = record { at = λ w. refl }

pub IsQuiet-call : (env : Env) → IsQuiet (call env)
unfolding call
IsQuiet-call env = record {
  at = λ w. elim (Bool-cases (env.fails w.calls)) [ inl e ↦ rw (e, call) | inr e ↦ rw (e, call) ];
}

module _ {A B : Type 0} where
  saved-continue :
      (f : A → Exec B)
      → ((a : A) → IsQuiet (f a))
      → (r : Outcome A) (w : World) → (continue r f w).1.saved ≡ w.saved
  saved-continue f q (ok a) w = (q a).at w
  saved-continue f q (err e) w = refl

  pub IsQuiet-bind :
      (m : Exec A) (f : A → Exec B) → IsQuiet m → ((a : A) → IsQuiet (f a)) → IsQuiet (m >>= f)
  unfolding ◌>>=◌
  IsQuiet-bind m f q r = record { at = λ w. saved-continue f r (m w).0 (m w).1 ∙ q.at w }

  saved-continue_err :
      {E : Err → Type 0} (f : A → Exec B)
      → ((a : A) → IsAtomic E (f a))
      → (r : Outcome A) (w : World) (e : Err) → E e
      → (continue r f w).0 ≡ err e
      → (continue r f w).1.saved ≡ w.saved
  saved-continue_err f q (ok a) w e x h = (q a).at w e x h
  saved-continue_err f q (err d) w e x h = refl

  pub IsAtomic-bind :
      {E : Err → Type 0} (m : Exec A) (f : A → Exec B)
      → IsQuiet m
      → ((a : A) → IsAtomic E (f a))
      → IsAtomic E (m >>= f)
  unfolding ◌>>=◌
  IsAtomic-bind m f q r = record {
    at = λ w e x h. saved-continue_err f r (m w).0 (m w).1 e x h ∙ q.at w;
  }

pub ruleset quiet_rules = (
  IsQuiet-pure, IsQuiet-raise, IsQuiet-lift, IsQuiet-lookup, IsQuiet-attempt, IsQuiet-if,
  IsQuiet-query, IsQuiet-now, IsQuiet-call, IsQuiet-bind, IsQuiet-reject,
)

pub ruleset atomic_rules = (
  quiet_rules, IsAtomic-commit-pure, IsAtomic-commit_now, IsAtomic-bind, IsAtomic-if,
  IsAtomic-raise, IsAtomic-pure, IsAtomic-reject,
)
