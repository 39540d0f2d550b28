-- ===== src/Exec/Runs.antt =====
-- What actions return when no call fails, step by step.
use sauth.Prelude.{ℕ, ◌+◌, ◌≡◌, refl, Bool, true, false, none, some, ap, ◌∙◌, if◌then◌else◌}
use sauth.Errors.{Err, Outcome, ok, err, classify, missing, failed, fault, no_rows}
use sauth.Env.{Env}
use sauth.Db.{Db, Stmt}
use sauth.Exec.{
  World, Exec, continue, ◌>>=◌, query, call, begin, commit, in_tx, rollback, lookup, attempt, pure,
  raise, reject_if, now,
}
use sauth.Exec.Laws.{stamp}

-- No call fails.
abbrev pub IsHealthy : Env → Type 0
IsHealthy env = (n : ℕ) → env.fails n ≡ false

-- From `w`, `m` returns `r` and leaves `v`.
pub record Runs {A : Type 0} (m : Exec A) (w : World) (r : Outcome A) (v : World) : Type 0 where
  pub at : m w ≡ (r, v)

module _ {A B : Type 0} where
  pub Runs-bind :
      {m : Exec A} (f : A → Exec B) {w u v : World} {a : A} {r : Outcome B}
      → Runs m w (ok a) u
      → Runs (f a) u r v
      → Runs (m >>= f) w r v
  unfolding ◌>>=◌
  Runs-bind f e h = record { at = ap (λ p. continue p.0 f p.1) e.at ∙ h.at }

  pub Runs-bind_err :
      {m : Exec A} (f : A → Exec B) {w u : World} {e : Err}
      → Runs m w (err e) u
      → Runs (m >>= f) w (err e) u
  unfolding ◌>>=◌
  Runs-bind_err f e = record { at = ap (λ p. continue p.0 f p.1) e.at }

module _ {A : Type 0} where
  pub Runs-pure : {a : A} {w : World} → Runs (pure a) w (ok a) w
  Runs-pure = record { at = refl }

  pub Runs-raise : {e : Err} {w : World} → Runs (raise {A = A} e) w (err e) w
  Runs-raise = record { at = refl }

  pub Runs-attempt :
      {m : Exec A} {w u : World} {r : Outcome A} → Runs m w r u → Runs (attempt m) w (ok r) u
  Runs-attempt e = record { at = ap (λ p. (ok p.0, p.1)) e.at }

  pub Runs-lookup :
      {m : Exec A} {w u : World} {r : Outcome A}
      → Runs m w r u
      → Runs (lookup m) w (ok (classify r)) u
  Runs-lookup e = record { at = ap (λ p. (ok (classify p.0), p.1)) e.at }

  pub Runs-reject :
      (b : Bool) (e : Err) {m : Exec A} {w v : World} {r : Outcome A}
      → b ≡ false
      → Runs m w r v
      → Runs (reject_if b e m) w r v
  unfolding reject_if
  Runs-reject b e h run = record { at = rw (h, reject_if) run.at }

  pub Runs-rejected :
      (b : Bool) (e : Err) (m : Exec A) {w : World} → b ≡ true → Runs (reject_if b e m) w (err e) w
  unfolding reject_if
  Runs-rejected b e m h = record { at = rw (h, reject_if) }

  pub Runs-if :
      (b : Bool) {m n : Exec A} {w v : World} {r : Outcome A}
      → (b ≡ true → Runs m w r v)
      → (b ≡ false → Runs n w r v)
      → Runs (if b then m else n) w r v
  Runs-if true run run' = run refl
  Runs-if false run run' = run' refl

pub Runs-now : {w : World} → Runs now w (ok w.now) w
Runs-now = record { at = refl }

-- A read whose call fails, and one that finds no row.
module _ (env : Env) where
  pub Runs-failed_lookup :
      {A : Type 0} (s : Stmt A) (w : World)
      → env.fails w.calls ≡ true
      → Runs (lookup (query env s)) w (ok (failed fault)) (record w { calls = w.calls + 1 })
  unfolding query call
  Runs-failed_lookup s w e = record { at = rw (e, query, call, ◌>>=◌) refl }

  pub Runs-missed_lookup :
      {A : Type 0} (s : Stmt A) (w : World)
      → env.fails w.calls ≡ false
      → s (stamp env w) w.db ≡ err no_rows
      → Runs (lookup (query env s)) w (ok missing) (record w { calls = w.calls + 1 })
  unfolding query call
  Runs-missed_lookup s w e none_has = record { at = rw (e, query, call, ◌>>=◌, none_has) refl }

module _ (env : Env) (healthy : IsHealthy env) where
  pub Runs-query :
      {A : Type 0} (s : Stmt A) {w : World} (a : A) (d : Db)
      → s (stamp env w) w.db ≡ ok (a, d)
      → Runs (query env s) w (ok a) (record w { db = d; calls = w.calls + 1 })
  unfolding query
  Runs-query s {w} a d e = record { at = rw (healthy w.calls, query, call, ◌>>=◌, e) }

  pub Runs-query_err :
      {A : Type 0} (s : Stmt A) {w : World} {e : Err}
      → s (stamp env w) w.db ≡ err e
      → Runs (query env s) w (err e) (record w { calls = w.calls + 1 })
  unfolding query
  Runs-query_err s {w} e = record { at = rw (healthy w.calls, query, call, ◌>>=◌, e) }

  pub Runs-call : {w : World} → Runs (call env) w (ok w.calls) (record w { calls = w.calls + 1 })
  unfolding call
  Runs-call {w} = record { at = rw (healthy w.calls, call) }

  pub Runs-commit :
      {w : World} → Runs (commit env) w (ok tt) (record w { saved = none; calls = w.calls + 1 })
  unfolding commit
  Runs-commit {w} = record { at = rw (healthy w.calls, commit, call, ◌>>=◌) }

  pub Runs-in_tx :
      {A : Type 0} {m : Exec A} {w : World} {r : Outcome A} {v : World}
      → Runs m (record w { saved = some w.db; calls = w.calls + 1 }) r v
      → Runs (in_tx env m) w r (rollback v)
  unfolding in_tx
  Runs-in_tx {w = w} e = record {
    at = rw (healthy w.calls, in_tx, begin, call, ◌>>=◌) (ap (λ p. (p.0, rollback p.1)) e.at);
  }
