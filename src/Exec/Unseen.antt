-- ===== src/Exec/Unseen.antt =====
-- Actions that change nothing of what a view of the database Shows, and functions that end with them.
use sauth.Prelude.{◌≡◌, ◌≢◌, refl, Bool, true, false, ap, ◌∙◌, if◌then◌else◌, Bool-cases, inl, inr}
use sauth.Errors.{Err, Outcome, ok, err}
use sauth.Env.{Env}
use sauth.Db.{Db, Stamp, Stmt}
use sauth.Exec.{World, Exec, continue, ◌>>=◌, query, call, pure, raise, attempt, settle}
use sauth.Exec.FailSafe.{IsFailSafe}

-- Whatever `m` returns, the view is as it was.
pub record IsUnseen {A : Type 0} (view : Db → Db) (m : Exec A) : Type 0 where
  pub at : (w : World) → view (m w).1.db ≡ view w.db

-- `m` returns no error.
pub record IsSure {A : Type 0} (m : Exec A) : Type 0 where
  pub at : (w : World) (e : Err) → (m w).0 ≢ err e

module _ {A : Type 0} {view : Db → Db} where
  pub IsUnseen-raise : (e : Err) → IsUnseen view (raise {A = A} e)
  IsUnseen-raise e = record { at = λ w. refl }

  pub IsUnseen-attempt : (m : Exec A) → IsUnseen view m → IsUnseen view (attempt m)
  IsUnseen-attempt m q = record { at = q.at }

  pub IsUnseen-if :
      (b : Bool) (m n : Exec A)
      → IsUnseen view m
      → IsUnseen view n
      → IsUnseen view (if b then m else n)
  IsUnseen-if true m n q r = q
  IsUnseen-if false m n q r = r

  view-settle :
      (env : Env) (r : Outcome (A × Db)) (w : World)
      → ((a : A) (d : Db) → r ≡ ok (a, d) → view d ≡ view w.db)
      → view (settle env r w).1.db ≡ view w.db
  view-settle env (ok (a, d)) w keeps = keeps a d refl
  view-settle env (err e) w keeps = refl

  pub IsUnseen-query :
      (env : Env) (s : Stmt A)
      → ((t : Stamp) (d : Db) (a : A) (d' : Db) → s t d ≡ ok (a, d') → view d' ≡ view d)
      → IsUnseen view (query env s)
  unfolding query
  IsUnseen-query env s keeps = record {
    at = λ w. elim (Bool-cases (env.fails w.calls)) [
      | inl e ↦ rw (e, query, call, ◌>>=◌)
      | inr e ↦ rw (e, query, call, ◌>>=◌) (view-settle env _ _ (keeps _ w.db))
    ];
  }

module _ {A B : Type 0} {view : Db → Db} where
  view-continue :
      (f : A → Exec B)
      → ((a : A) → IsUnseen view (f a))
      → (r : Outcome A) (w : World) → view (continue r f w).1.db ≡ view w.db
  view-continue f q (ok a) w = (q a).at w
  view-continue f q (err e) w = refl

  pub IsUnseen-bind :
      (m : Exec A) (f : A → Exec B)
      → IsUnseen view m
      → ((a : A) → IsUnseen view (f a))
      → IsUnseen view (m >>= f)
  unfolding ◌>>=◌
  IsUnseen-bind m f q r = record { at = λ w. view-continue f r (m w).0 (m w).1 ∙ q.at w }

module _ {A : Type 0} {E : Err → Type 0} {view : Db → Db} where
  pub IsFailSafe-of_unseen : (m : Exec A) → IsUnseen view m → IsFailSafe E view m
  IsFailSafe-of_unseen m q = record { at = λ w e x h. q.at w }

module _ {A : Type 0} where
  pub IsSure-pure : (a : A) → IsSure (pure a)
  IsSure-pure a = record { at = λ w e h. cc h }

  pub IsSure-if : (b : Bool) (m n : Exec A) → IsSure m → IsSure n → IsSure (if b then m else n)
  IsSure-if true m n q r = q
  IsSure-if false m n q r = r

module _ {A B : Type 0} where
  sure-continue :
      (f : A → Exec B)
      → ((a : A) → IsSure (f a))
      → (r : Outcome A) (w : World) (e : Err) → (continue r f w).0 ≡ err e
      → r ≡ err e
  sure-continue f q (ok a) w e h = elim ((q a).at w e h) [ ]
  sure-continue f q (err x) w e h = cc h

  pub IsSure-bind :
      (m : Exec A) (f : A → Exec B) → IsSure m → ((a : A) → IsSure (f a)) → IsSure (m >>= f)
  unfolding ◌>>=◌
  IsSure-bind m f q r = record { at = λ w e h. q.at w e (sure-continue f r (m w).0 (m w).1 e h) }

  sure-view :
      (view : Db → Db) (f : A → Exec B)
      → ((a : A) → IsSure (f a))
      → (r : Outcome A) (w : World) (e : Err) → (continue r f w).0 ≡ err e
      → (continue r f w).1 ≡ w
  sure-view view f q (ok a) w e h = elim ((q a).at w e h) [ ]
  sure-view view f q (err x) w e h = refl

  -- A function that goes on with what cannot fail.
  pub IsFailSafe-before :
      {E : Err → Type 0} {view : Db → Db} (m : Exec A) (f : A → Exec B)
      → IsFailSafe E view m
      → ((a : A) → IsSure (f a))
      → IsFailSafe E view (m >>= f)
  unfolding ◌>>=◌
  IsFailSafe-before {view = view} m f q r = record {
    at = λ w e x h.
        ap (λ (u : World). view u.db) (sure-view view f r (m w).0 (m w).1 e h)
        ∙ q.at w e x (sure-continue f r (m w).0 (m w).1 e h);
  }

pub ruleset unseen_rules =
    (IsUnseen-raise, IsUnseen-attempt, IsUnseen-if, IsUnseen-query, IsUnseen-bind)

pub ruleset sure_rules = (IsSure-pure, IsSure-if, IsSure-bind)
