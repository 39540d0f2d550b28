-- ===== src/Exec/Laws.antt =====
-- What holds of an action when it succeeds, stated forwards over the world that it starts from.
use mathlib.Core.Path.{subst}
use sauth.Prelude.{
  ℕ, ◌+◌, ◌≡◌, refl, Bool, true, false, none, some, if◌then◌else◌, Bool-cases, inl, inr,
}
use sauth.Errors.{Err, Outcome, ok, err, fault, no_rows, Lookup, found, missing, failed, classify}
use sauth.Env.{Env}
use sauth.Db.{Db, Stamp, Stmt, select}
use sauth.Exec.{
  World, Exec, continue, ◌>>=◌, query, call, begin, commit, in_tx, rollback, pure, raise, lift,
  attempt, lookup, settle, reject_if, now,
}

module _ {A : Type 0} where
  abbrev pub After : (A → World → Type 0) → Outcome A → World → Type 0
  After Q (ok a) v = Q a v
  After Q (err e) v = Unit

-- Whenever `m` succeeds from `w`, its result and the world that it leaves satisfy `Q`.
pub record Yields {A : Type 0} (m : Exec A) (w : World) (Q : A → World → Type 0) : Type 0 where
  pub after : After Q (m w).0 (m w).1

After-always :
    {A : Type 0} {Q : A → World → Type 0} (r : Outcome A) (w : World)
    → ((a : A) (v : World) → Q a v)
    → After Q r w
After-always (ok a) w q = q a w
After-always (err e) w q = tt

After-continue :
    {A B : Type 0} (Q : A → World → Type 0) (r : Outcome B) (f : B → Exec A) (w : World)
    → After (λ b u. Yields (f b) u Q) r w
    → After Q (continue r f w).0 (continue r f w).1
After-continue Q (ok b) f w y = y.after
After-continue Q (err e) f w y = tt

abbrev pub stamp : Env → World → Stamp
stamp env w = record { uuid = env.uuid w.calls; now = w.now }

module _ {A : Type 0} {Q : A → World → Type 0} where
  -- The use of the rules: from a run that succeeded.
  pub Yields-run :
      {m : Exec A} {w : World} → Yields m w Q → (a : A) (v : World) → m w ≡ (ok a, v) → Q a v
  Yields-run y a v e = subst (λ p. After Q p.0 p.1) e y.after

  pub Yields-pure : {a : A} {w : World} → Q a w → Yields (pure a) w Q
  Yields-pure q = record { after = q }

  pub Yields-raise : (e : Err) {w : World} → Yields (raise e) w Q
  Yields-raise e = record { after = tt }

  pub Yields-if :
      (b : Bool) {m n : Exec A} {w : World}
      → (b ≡ true → Yields m w Q)
      → (b ≡ false → Yields n w Q)
      → Yields (if b then m else n) w Q
  Yields-if true y z = y refl
  Yields-if false y z = z refl

  pub Yields-always : {m : Exec A} {w : World} → ((a : A) (v : World) → Q a v) → Yields m w Q
  Yields-always {m = m} {w = w} q = record { after = After-always (m w).0 (m w).1 q }

  -- The rest of a function after `if b { return nil, e }`.
  pub Yields-reject :
      (b : Bool) (e : Err) {m : Exec A} {w : World}
      → (b ≡ false → Yields m w Q)
      → Yields (reject_if b e m) w Q
  unfolding reject_if
  Yields-reject b e y = Yields-if b (λ _. Yields-raise e) y

  pub Yields-bind :
      {B : Type 0} {m : Exec B} {f : B → Exec A} {w : World}
      → Yields m w (λ b u. Yields (f b) u Q)
      → Yields (m >>= f) w Q
  unfolding ◌>>=◌
  Yields-bind {m = m} {f = f} {w = w} y = record {
    after = After-continue Q (m w).0 f (m w).1 y.after;
  }

After-weaken :
    {A : Type 0} (P Q : A → World → Type 0) (r : Outcome A) (w : World)
    → After P r w
    → ((a : A) (u : World) → P a u → Q a u)
    → After Q r w
After-weaken P Q (ok a) w y f = f a w y
After-weaken P Q (err e) w y f = tt

pub Yields-weaken :
    {A : Type 0} {P Q : A → World → Type 0} {m : Exec A} {w : World}
    → Yields m w P
    → ((a : A) (u : World) → P a u → Q a u)
    → Yields m w Q
Yields-weaken {P = P} {Q = Q} {m = m} {w = w} y f = record {
  after = After-weaken P Q (m w).0 (m w).1 y.after f;
}

After-either :
    {A : Type 0} (Q : Outcome A → World → Type 0) (r : Outcome A) (w : World)
    → After (λ a u. Q (ok a) u) r w
    → ((e : Err) (u : World) → Q (err e) u)
    → Q r w
After-either Q (ok a) w y x = y
After-either Q (err e) w y x = x e w

-- A function whose error is inspected: of its failure nothing is known.
pub Yields-attempted :
    {A : Type 0} {Q : Outcome A → World → Type 0} {m : Exec A} {w : World}
    → Yields m w (λ a u. Q (ok a) u)
    → ((e : Err) (u : World) → Q (err e) u)
    → Yields (attempt m) w Q
Yields-attempted {Q = Q} {m = m} {w = w} y x = record {
  after = After-either Q (m w).0 (m w).1 y.after x;
}

After-rollback :
    {A : Type 0} (Q : A → World → Type 0) (r : Outcome A) (w : World)
    → After (λ a u. Q a (rollback u)) r w
    → After Q r (rollback w)
After-rollback Q (ok a) w q = q
After-rollback Q (err e) w q = tt

module _ {A : Type 0} where
  pub Yields-lift :
      {Q : A → World → Type 0} (r : Outcome A) {w : World}
      → ((a : A) → r ≡ ok a → Q a w)
      → Yields (lift r) w Q
  Yields-lift (ok a) q = record { after = q a refl }
  Yields-lift (err e) q = record { after = tt }

module _ {A : Type 0} (env : Env) where
  After-settle :
      (Q : A → World → Type 0) (r : Outcome (A × Db)) (w : World)
      → ((a : A) (d : Db) → r ≡ ok (a, d) → Q a (record w { db = d }))
      → After Q (settle env r w).0 (settle env r w).1
  After-settle Q (ok (a, d)) w q = q a d refl
  After-settle Q (err e) w q = tt

  pub Yields-query :
      {Q : A → World → Type 0} (s : Stmt A) {w : World}
      → ((a : A) (d : Db)
          → s (stamp env w) w.db ≡ ok (a, d)
          → Q a (record w { db = d; calls = w.calls + 1 }))
      → Yields (query env s) w Q
  unfolding query
  Yields-query {Q = Q} s {w} q = elim (Bool-cases (env.fails w.calls)) [
    | inl e ↦ record { after = rw (e, query, call, ◌>>=◌) tt }
    | inr e ↦ record { after = rw (e, query, call, ◌>>=◌) (After-settle Q _ _ q) }
  ]

  After-lookup :
      (Q : Lookup A → World → Type 0) (r : Outcome (A × Db)) (w : World)
      → ((a : A) (d : Db) → r ≡ ok (a, d) → Q (found a) (record w { db = d }))
      → (r ≡ err no_rows → Q missing w)
      → ((e : Err) → Q (failed e) w)
      → Q (classify (settle env r w).0) (settle env r w).1
  After-lookup Q (ok (a, d)) w f m x = f a d refl
  After-lookup Q (err no_rows) w f m x = m refl
  After-lookup Q (err e) w f m x = x e

  -- A statement whose error is asked for ErrNoRows: what each answer says of the statement.
  pub Yields-lookup :
      {Q : Lookup A → World → Type 0} (s : Stmt A) {w : World}
      → ((a : A) (d : Db)
          → s (stamp env w) w.db ≡ ok (a, d)
          → Q (found a) (record w { db = d; calls = w.calls + 1 }))
      → (s (stamp env w) w.db ≡ err no_rows → Q missing (record w { calls = w.calls + 1 }))
      → ((e : Err) → Q (failed e) (record w { calls = w.calls + 1 }))
      → Yields (lookup (query env s)) w Q
  unfolding query
  Yields-lookup {Q = Q} s {w} f m x = elim (Bool-cases (env.fails w.calls)) [
    | inl e ↦ record { after = rw (e, query, call, ◌>>=◌) (x fault) }
    | inr e ↦ record { after = rw (e, query, call, ◌>>=◌) (After-lookup Q _ _ f m x) }
  ]

  After-attempt :
      (Q : Outcome A → World → Type 0) (r : Outcome (A × Db)) (w : World)
      → ((a : A) (d : Db) → r ≡ ok (a, d) → Q (ok a) (record w { db = d }))
      → ((e : Err) → r ≡ err e → Q (err e) w)
      → Q (settle env r w).0 (settle env r w).1
  After-attempt Q (ok (a, d)) w f x = f a d refl
  After-attempt Q (err e) w f x = x e refl

  -- A statement whose error is mapped or ignored; the error may also be that of the call.
  pub Yields-attempt :
      {Q : Outcome A → World → Type 0} (s : Stmt A) {w : World}
      → ((a : A) (d : Db)
          → s (stamp env w) w.db ≡ ok (a, d)
          → Q (ok a) (record w { db = d; calls = w.calls + 1 }))
      → ((e : Err) → Q (err e) (record w { calls = w.calls + 1 }))
      → Yields (attempt (query env s)) w Q
  unfolding query
  Yields-attempt {Q = Q} s {w} f x = elim (Bool-cases (env.fails w.calls)) [
    | inl e ↦ record { after = rw (e, query, call, ◌>>=◌) (x fault) }
    | inr e ↦ record { after = rw (e, query, call, ◌>>=◌) (After-attempt Q _ _ f (λ y _. x y)) }
  ]

  After-select :
      (Q : A → World → Type 0) (r : Outcome A) (w : World)
      → ((a : A) → r ≡ ok a → Q a w)
      → After Q (settle env (select r w.db) w).0 (settle env (select r w.db) w).1
  After-select Q (ok a) w q = q a refl
  After-select Q (err e) w q = tt

  After-select_lookup :
      (Q : Lookup A → World → Type 0) (r : Outcome A) (w : World)
      → ((a : A) → r ≡ ok a → Q (found a) w)
      → (r ≡ err no_rows → Q missing w)
      → ((e : Err) → Q (failed e) w)
      → Q (classify (settle env (select r w.db) w).0) (settle env (select r w.db) w).1
  After-select_lookup Q (ok a) w f m x = f a refl
  After-select_lookup Q (err no_rows) w f m x = m refl
  After-select_lookup Q (err e) w f m x = x e

  -- The same of a statement that only reads.
  pub Yields-read :
      {Q : A → World → Type 0} (s : Stmt A) (r : Outcome A) {w : World}
      → s (stamp env w) w.db ≡ select r w.db
      → ((a : A) → r ≡ ok a → Q a (record w { calls = w.calls + 1 }))
      → Yields (query env s) w Q
  unfolding query
  Yields-read {Q = Q} s r {w} reads q = elim (Bool-cases (env.fails w.calls)) [
    | inl e ↦ record { after = rw (e, query, call, ◌>>=◌) tt }
    | inr e ↦ record { after = rw (e, query, call, ◌>>=◌, reads) (After-select Q r _ q) }
  ]

  -- A statement that answers `a` and writes nothing.
  pub Yields-answer :
      {Q : A → World → Type 0} (s : Stmt A) (a : A) {w : World}
      → s (stamp env w) w.db ≡ ok (a, w.db)
      → Q a (record w { calls = w.calls + 1 })
      → Yields (query env s) w Q
  unfolding query
  Yields-answer s a {w} answers q = elim (Bool-cases (env.fails w.calls)) [
    | inl e ↦ record { after = rw (e, query, call, ◌>>=◌) tt }
    | inr e ↦ record { after = rw (e, query, call, ◌>>=◌, answers) q }
  ]

  pub Yields-read_lookup :
      {Q : Lookup A → World → Type 0} (s : Stmt A) (r : Outcome A) {w : World}
      → s (stamp env w) w.db ≡ select r w.db
      → ((a : A) → r ≡ ok a → Q (found a) (record w { calls = w.calls + 1 }))
      → (r ≡ err no_rows → Q missing (record w { calls = w.calls + 1 }))
      → ((e : Err) → Q (failed e) (record w { calls = w.calls + 1 }))
      → Yields (lookup (query env s)) w Q
  unfolding query
  Yields-read_lookup {Q = Q} s r {w} reads f m x = elim (Bool-cases (env.fails w.calls)) [
    | inl e ↦ record { after = rw (e, query, call, ◌>>=◌) (x fault) }
    | inr e ↦ record { after = rw (e, query, call, ◌>>=◌, reads) (After-select_lookup Q r _ f m x) }
  ]

  -- A transaction whose body succeeds has committed, or is rolled back.
  pub Yields-in_tx :
      {Q : A → World → Type 0} {m : Exec A} {w : World}
      → Yields m (record w { saved = some w.db; calls = w.calls + 1 }) (λ a u. Q a (rollback u))
      → Yields (in_tx env m) w Q
  unfolding in_tx
  Yields-in_tx {Q = Q} {w = w} y = elim (Bool-cases (env.fails w.calls)) [
    | inl e ↦ record { after = rw (e, in_tx, begin, call, ◌>>=◌) tt }
    | inr e ↦ record { after = rw (e, in_tx, begin, call, ◌>>=◌) (After-rollback Q _ _ y.after) }
  ]

pub Yields-now : {Q : ℕ → World → Type 0} {w : World} → Q w.now w → Yields now w Q
Yields-now q = record { after = q }

module _ (env : Env) where
  pub Yields-call :
      {Q : ℕ → World → Type 0} {w : World}
      → Q w.calls (record w { calls = w.calls + 1 })
      → Yields (call env) w Q
  unfolding call
  Yields-call {w = w} q = elim (Bool-cases (env.fails w.calls)) [
    | inl e ↦ record { after = rw (e, call) tt }
    | inr e ↦ record { after = rw (e, call) q }
  ]

  pub Yields-commit :
      {Q : Unit {0} → World → Type 0} {w : World}
      → Q tt (record w { saved = none; calls = w.calls + 1 })
      → Yields (commit env) w Q
  unfolding commit
  Yields-commit {w = w} q = elim (Bool-cases (env.fails w.calls)) [
    | inl e ↦ record { after = rw (e, commit, call, ◌>>=◌) tt }
    | inr e ↦ record { after = rw (e, commit, call, ◌>>=◌) q }
  ]
