-- ===== src/Exec/FailSafe.antt =====
-- What functions that fail leave of the database.
use sauth.Prelude.{◌≡◌, refl, Bool, true, false, some, if◌then◌else◌, Bool-cases, inl, inr, ◌∙◌, ap}
use sauth.Errors.{Err, Outcome, ok, err}
use sauth.Env.{Env}
use sauth.Db.{Db, Stamp, Stmt, select}
use sauth.Exec.{
  World, Exec, continue, ◌>>=◌, query, call, begin, in_tx, rollback, pure, raise, lift, attempt,
  lookup, settle, reject_if, now,
}
use sauth.Exec.Atomic.{IsAtomic, atomic_rules}

db-rollback : (u : World) (d : Db) → u.saved ≡ some d → (rollback u).db ≡ d
unfolding rollback
db-rollback u d e = rw (e, rollback)

-- `m` changes nothing of the database, whatever it returns.
pub record IsReader {A : Type 0} (m : Exec A) : Type 0 where
  pub at : (w : World) → (m w).1.db ≡ w.db

-- What a failure of `m` with an error of `E` leaves of the database is what was there, as far as
-- `view` Shows it.
pub record IsFailSafe {A : Type 0} (E : Err → Type 0) (view : Db → Db) (m : Exec A) : Type 0 where
  pub at : (w : World) (e : Err) → E e → (m w).0 ≡ err e → view (m w).1.db ≡ view w.db

module _ {A : Type 0} where
  pub IsReader-pure : (a : A) → IsReader (pure a)
  IsReader-pure a = record { at = λ w. refl }

  pub IsReader-raise : (e : Err) → IsReader (raise {A = A} e)
  IsReader-raise e = record { at = λ w. refl }

  pub IsReader-lift : (r : Outcome A) → IsReader (lift r)
  IsReader-lift r = record { at = λ w. refl }

  pub IsReader-lookup : (m : Exec A) → IsReader m → IsReader (lookup m)
  IsReader-lookup m q = record { at = q.at }

  pub IsReader-attempt : (m : Exec A) → IsReader m → IsReader (attempt m)
  IsReader-attempt m q = record { at = q.at }

  pub IsReader-if :
      (b : Bool) (m n : Exec A) → IsReader m → IsReader n → IsReader (if b then m else n)
  IsReader-if true m n q r = q
  IsReader-if false m n q r = r

  pub IsReader-reject : (b : Bool) (e : Err) (m : Exec A) → IsReader m → IsReader (reject_if b e m)
  unfolding reject_if
  IsReader-reject b e m q = IsReader-if b (raise e) m (IsReader-raise e) q

  db-settle :
      (env : Env) (r : Outcome (A × Db)) (w : World)
      → ((a : A) (d : Db) → r ≡ ok (a, d) → d ≡ w.db)
      → (settle env r w).1.db ≡ w.db
  db-settle env (ok (a, d)) w reads = reads a d refl
  db-settle env (err e) w reads = refl

  pub IsReader-query :
      (env : Env) (s : Stmt A)
      → ((t : Stamp) (d : Db) (a : A) (d' : Db) → s t d ≡ ok (a, d') → d' ≡ d)
      → IsReader (query env s)
  unfolding query
  IsReader-query env s reads = record {
    at = λ w. elim (Bool-cases (env.fails w.calls)) [
      | inl e ↦ rw (e, query, call, ◌>>=◌)
      | inr e ↦ rw (e, query, call, ◌>>=◌) (db-settle env _ _ (reads _ w.db))
    ];
  }

-- A statement that only reads hands its database back.
pub select-reads :
    {A : Type 0} (r : Outcome A) (d : Db) (a : A) (d' : Db) → select r d ≡ ok (a, d') → d' ≡ d
select-reads (ok b) d a d' h = cc
select-reads (err e) d a d' h = cc

pub IsReader-now : IsReader now
IsReader-now = record { at = λ w. refl }

pub IsReader-call : (env : Env) → IsReader (call env)
unfolding call
IsReader-call env = record {
  at = λ w. elim (Bool-cases (env.fails w.calls)) [ inl e ↦ rw (e, call) | inr e ↦ rw (e, call) ];
}

module _ {A B : Type 0} where
  db-continue :
      (f : A → Exec B)
      → ((a : A) → IsReader (f a))
      → (r : Outcome A) (w : World) → (continue r f w).1.db ≡ w.db
  db-continue f q (ok a) w = (q a).at w
  db-continue f q (err e) w = refl

  pub IsReader-bind :
      (m : Exec A) (f : A → Exec B) → IsReader m → ((a : A) → IsReader (f a)) → IsReader (m >>= f)
  unfolding ◌>>=◌
  IsReader-bind m f q r = record { at = λ w. db-continue f r (m w).0 (m w).1 ∙ q.at w }

module _ {A : Type 0} {E : Err → Type 0} {view : Db → Db} where
  pub IsFailSafe-of_reader : (m : Exec A) → IsReader m → IsFailSafe E view m
  IsFailSafe-of_reader m q = record { at = λ w e x h. ap view (q.at w) }

  pub IsFailSafe-if :
      (b : Bool) (m n : Exec A)
      → IsFailSafe E view m
      → IsFailSafe E view n
      → IsFailSafe E view (if b then m else n)
  IsFailSafe-if true m n q r = q
  IsFailSafe-if false m n q r = r

  pub IsFailSafe-raise : (e : Err) → IsFailSafe E view (raise {A = A} e)
  IsFailSafe-raise e = IsFailSafe-of_reader (raise e) (IsReader-raise e)

  pub IsFailSafe-pure : (a : A) → IsFailSafe E view (pure a)
  IsFailSafe-pure a = IsFailSafe-of_reader (pure a) (IsReader-pure a)

  pub IsFailSafe-reject :
      (b : Bool) (e : Err) (m : Exec A) → IsFailSafe E view m → IsFailSafe E view (reject_if b e m)
  unfolding reject_if
  IsFailSafe-reject b e m q = IsFailSafe-if b (raise e) m (IsFailSafe-raise e) q

  -- A transaction that fails, in its body or at its commit, has changed nothing.
  pub IsFailSafe-in_tx : (env : Env) (m : Exec A) → IsAtomic E m → IsFailSafe E view (in_tx env m)
  unfolding in_tx
  IsFailSafe-in_tx env m q = record {
    at = λ w e x h. elim (Bool-cases (env.fails w.calls)) [
      | inl b ↦ rw (b, in_tx, begin, call, ◌>>=◌)
      | inr b ↦
          rw (b, in_tx, begin, call, ◌>>=◌)
            (ap view (db-rollback _ _ (q.at _ e x (rw (b, in_tx, begin, call, ◌>>=◌) at h))))
    ];
  }

module _ {A B : Type 0} {E : Err → Type 0} {view : Db → Db} where
  view-continue :
      (f : A → Exec B)
      → ((a : A) → IsFailSafe E view (f a))
      → (r : Outcome A) (w : World) (e : Err) → E e
      → (continue r f w).0 ≡ err e
      → view (continue r f w).1.db ≡ view w.db
  view-continue f q (ok a) w e x h = (q a).at w e x h
  view-continue f q (err d) w e x h = refl

  pub IsFailSafe-bind :
      (m : Exec A) (f : A → Exec B)
      → IsReader m
      → ((a : A) → IsFailSafe E view (f a))
      → IsFailSafe E view (m >>= f)
  unfolding ◌>>=◌
  IsFailSafe-bind m f q r = record {
    at = λ w e x h. view-continue f r (m w).0 (m w).1 e x h ∙ ap view (q.at w);
  }

pub ruleset reader_rules = (
  IsReader-pure, IsReader-raise, IsReader-lift, IsReader-lookup, IsReader-attempt, IsReader-if,
  IsReader-reject, IsReader-now, IsReader-call, IsReader-bind,
)

pub ruleset fail_safe_rules = (
  atomic_rules, reader_rules, IsFailSafe-if, IsFailSafe-raise, IsFailSafe-pure, IsFailSafe-reject,
  IsFailSafe-in_tx, IsFailSafe-bind,
)
