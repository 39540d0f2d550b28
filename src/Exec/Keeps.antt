-- ===== src/Exec/Keeps.antt =====
-- Invariants of the database: what statements keep, actions keep, failing or not.
use sauth.Prelude.{
  ◌≡◌, refl, Bool, true, false, Option, none, some, if◌then◌else◌, Bool-cases, inl, inr,
}
use sauth.Errors.{Err, Outcome, ok, err}
use sauth.Env.{Env}
use sauth.Db.{Db, Stamp, Stmt}
use sauth.Exec.{
  World, Exec, continue, ◌>>=◌, query, call, begin, commit, in_tx, deferred, rollback, pure, raise,
  lift, attempt, lookup, settle, now, reject_if,
}

-- A statement that succeeds keeps `P`.
pub record Preserves {A : Type 0} (P : Db → Type 0) (s : Stmt A) : Type 0 where
  pub at : (t : Stamp) (d : Db) (a : A) (d' : Db) → P d → s t d ≡ ok (a, d') → P d'

abbrev pub SavedHolds : (Db → Type 0) → Option Db → Type 0
SavedHolds P none = Unit
SavedHolds P (some d) = P d

-- `P` holds of the database, and of what a Rollback would restore.
pub record Holds (P : Db → Type 0) (w : World) : Type 0 where
  pub db : P w.db
  pub saved : SavedHolds P w.saved

pub record Keeps {A : Type 0} (P : Db → Type 0) (m : Exec A) : Type 0 where
  pub at : (w : World) → Holds P w → Holds P (m w).1

module _ {A : Type 0} {P : Db → Type 0} where
  pub Keeps-pure : (a : A) → Keeps P (pure a)
  Keeps-pure a = record { at = λ w h. h }

  pub Keeps-raise : (e : Err) → Keeps P (raise {A = A} e)
  Keeps-raise e = record { at = λ w h. h }

  pub Keeps-lift : (r : Outcome A) → Keeps P (lift r)
  Keeps-lift r = record { at = λ w h. h }

  pub Keeps-lookup : (m : Exec A) → Keeps P m → Keeps P (lookup m)
  Keeps-lookup m k = record { at = k.at }

  pub Keeps-attempt : (m : Exec A) → Keeps P m → Keeps P (attempt m)
  Keeps-attempt m k = record { at = k.at }

  pub Keeps-if : (b : Bool) (m n : Exec A) → Keeps P m → Keeps P n → Keeps P (if b then m else n)
  Keeps-if true m n q r = q
  Keeps-if false m n q r = r

  pub Keeps-reject : (b : Bool) (e : Err) (m : Exec A) → Keeps P m → Keeps P (reject_if b e m)
  unfolding reject_if
  Keeps-reject b e m k = Keeps-if b (raise e) m (Keeps-raise e) k

module _ {P : Db → Type 0} where
  pub Keeps-now : Keeps P now
  Keeps-now = record { at = λ w h. h }

  pub Keeps-call : (env : Env) → Keeps P (call env)
  unfolding call
  Keeps-call env = record {
    at = λ w h. elim (Bool-cases (env.fails w.calls)) [
      | inl e ↦ rw (e, call) (record { db = h.db; saved = h.saved })
      | inr e ↦ rw (e, call) (record { db = h.db; saved = h.saved })
    ];
  }

  pub Keeps-begin : (env : Env) → Keeps P (begin env)
  unfolding begin
  Keeps-begin env = record {
    at = λ w h. elim (Bool-cases (env.fails w.calls)) [
      | inl e ↦ rw (e, begin, call, ◌>>=◌) (record { db = h.db; saved = h.saved })
      | inr e ↦ rw (e, begin, call, ◌>>=◌) (record { db = h.db; saved = h.db })
    ];
  }

  pub Keeps-commit : (env : Env) → Keeps P (commit env)
  unfolding commit
  Keeps-commit env = record {
    at = λ w h. elim (Bool-cases (env.fails w.calls)) [
      | inl e ↦ rw (e, commit, call, ◌>>=◌) (record { db = h.db; saved = h.saved })
      | inr e ↦ rw (e, commit, call, ◌>>=◌) (record { db = h.db; saved = tt })
    ];
  }

  Holds-rollback_of :
      (s : Option Db) (w : World) → w.saved ≡ s → P w.db → SavedHolds P s → Holds P (rollback w)
  unfolding rollback
  Holds-rollback_of none w e d k = rw (e, rollback) (record { db = d; saved = rw e tt })
  Holds-rollback_of (some b) w e d k = rw (e, rollback) (record { db = k; saved = tt })

  pub Holds-rollback : (w : World) → Holds P w → Holds P (rollback w)
  Holds-rollback w h = Holds-rollback_of w.saved w refl h.db h.saved

module _ {A : Type 0} {P : Db → Type 0} (env : Env) where
  Holds-settle :
      (s : Stmt A)
      → Preserves P s
      → (t : Stamp) (r : Outcome (A × Db)) (w : World) → s t w.db ≡ r
      → Holds P w
      → Holds P (settle env r w).1
  Holds-settle s k t (ok (a, d)) w e h = record { db = k.at t w.db a d h.db e; saved = h.saved }
  Holds-settle s k t (err x) w e h = h

  pub Keeps-query : (s : Stmt A) → Preserves P s → Keeps P (query env s)
  unfolding query
  Keeps-query s k = record {
    at = λ w h. elim (Bool-cases (env.fails w.calls)) [
      | inl e ↦ rw (e, query, call, ◌>>=◌) (record { db = h.db; saved = h.saved })
      | inr e ↦
          rw (e, query, call, ◌>>=◌)
            (Holds-settle s k _ _ _ refl (record { db = h.db; saved = h.saved }))
    ];
  }

module _ {A B : Type 0} {P : Db → Type 0} where
  Holds-continue :
      (f : A → Exec B)
      → ((a : A) → Keeps P (f a))
      → (r : Outcome A) (w : World) → Holds P w
      → Holds P (continue r f w).1
  Holds-continue f k (ok a) w h = (k a).at w h
  Holds-continue f k (err e) w h = h

  pub Keeps-bind :
      (m : Exec A) (f : A → Exec B) → Keeps P m → ((a : A) → Keeps P (f a)) → Keeps P (m >>= f)
  unfolding ◌>>=◌
  Keeps-bind m f k l = record { at = λ w h. Holds-continue f l (m w).0 (m w).1 (k.at w h) }

module _ {A : Type 0} {P : Db → Type 0} where
  pub Keeps-in_tx : (env : Env) (m : Exec A) → Keeps P m → Keeps P (in_tx env m)
  unfolding in_tx
  Keeps-in_tx env m k =
      Keeps-bind (begin env) (λ _. deferred m) (Keeps-begin env)
        λ _. record { at = λ w h. Holds-rollback (m w).1 (k.at w h) }

pub ruleset keeps_rules = (
  Keeps-pure, Keeps-raise, Keeps-lift, Keeps-lookup, Keeps-attempt, Keeps-if, Keeps-reject,
  Keeps-now, Keeps-call, Keeps-commit, Keeps-query, Keeps-bind, Keeps-in_tx,
)
