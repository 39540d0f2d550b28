-- ===== src/Exec/Returns.antt =====
-- What actions return when no call fails and every check passes: a value, and what holds of it.
use sauth.Prelude.{ℕ, ◌+◌, ◌≡◌, refl, ap, ◌∙◌, Bool, true, false, if◌then◌else◌, some, none}
use sauth.Errors.{Err, Outcome, ok, err, no_rows, Lookup, found, missing, classify}
use sauth.Env.{Env}
use sauth.Db.{Db, Stmt}
use sauth.Exec.{
  World, Exec, continue, ◌>>=◌, query, call, commit, in_tx, rollback, pure, lift, attempt, lookup,
  reject_if, now,
}
use sauth.Exec.Laws.{stamp}
use sauth.Exec.Runs.{
  IsHealthy, Runs-query, Runs-query_err, Runs-call, Runs-commit, Runs-in_tx, Runs-reject,
}

-- From `w`, `m` succeeds, and its result and the world that it leaves satisfy `Q`.
pub record Returns {A : Type 0} (m : Exec A) (w : World) (Q : A → World → Type 0) : Type 0 where
  pub result : A
  pub final : World
  pub runs : m w ≡ (ok result, final)
  pub holds : Q result final

module _ {A : Type 0} {Q : A → World → Type 0} where
  pub Returns-pure : {a : A} {w : World} → Q a w → Returns (pure a) w Q
  Returns-pure q = record { result = _; final = _; runs = refl; holds = q }

  pub Returns-lift : (r : Outcome A) (a : A) {w : World} → r ≡ ok a → Q a w → Returns (lift r) w Q
  Returns-lift r a {w} e q = record { result = a; final = w; runs = ap (λ x. (x, w)) e; holds = q }

  pub Returns-bind :
      {B : Type 0} {m : Exec B} (f : B → Exec A) {w : World}
      → Returns m w (λ b u. Returns (f b) u Q)
      → Returns (m >>= f) w Q
  unfolding ◌>>=◌
  Returns-bind f y = record {
    result = y.holds.result;
    final = y.holds.final;
    runs = ap (λ p. continue p.0 f p.1) y.runs ∙ y.holds.runs;
    holds = y.holds.holds;
  }

  pub Returns-reject :
      (b : Bool) (e : Err) {m : Exec A} {w : World}
      → b ≡ false
      → Returns m w Q
      → Returns (reject_if b e m) w Q
  Returns-reject b e pass y = record {
    result = y.result;
    final = y.final;
    runs = (Runs-reject b e pass (record { at = y.runs })).at;
    holds = y.holds;
  }

  pub Returns-if :
      (b : Bool) {m n : Exec A} {w : World}
      → (b ≡ true → Returns m w Q)
      → (b ≡ false → Returns n w Q)
      → Returns (if b then m else n) w Q
  Returns-if true y z = y refl
  Returns-if false y z = z refl

module _ {A : Type 0} where
  pub Returns-found :
      {Q : Lookup A → World → Type 0} {m : Exec A} {w : World}
      → Returns m w (λ a u. Q (found a) u)
      → Returns (lookup m) w Q
  Returns-found y = record {
    result = found y.result;
    final = y.final;
    runs = ap (λ p. (ok (classify p.0), p.1)) y.runs;
    holds = y.holds;
  }

  pub Returns-attempt :
      {Q : Outcome A → World → Type 0} {m : Exec A} {w : World}
      → Returns m w (λ a u. Q (ok a) u)
      → Returns (attempt m) w Q
  Returns-attempt y = record {
    result = ok y.result;
    final = y.final;
    runs = ap (λ p. (ok p.0, p.1)) y.runs;
    holds = y.holds;
  }

pub Returns-now : {Q : ℕ → World → Type 0} {w : World} → Q w.now w → Returns now w Q
Returns-now q = record { result = _; final = _; runs = refl; holds = q }

module _ (env : Env) (healthy : IsHealthy env) where
  pub Returns-query :
      {A : Type 0} {Q : A → World → Type 0} (s : Stmt A) (a : A) (d : Db) {w : World}
      → s (stamp env w) w.db ≡ ok (a, d)
      → Q a (record w { db = d; calls = w.calls + 1 })
      → Returns (query env s) w Q
  Returns-query s a d e q = record {
    result = a;
    final = _;
    runs = (Runs-query env healthy s a d e).at;
    holds = q;
  }

  pub Returns-missing :
      {A : Type 0} {Q : Lookup A → World → Type 0} (s : Stmt A) {w : World}
      → s (stamp env w) w.db ≡ err no_rows
      → Q missing (record w { calls = w.calls + 1 })
      → Returns (lookup (query env s)) w Q
  Returns-missing s e q = record {
    result = missing;
    final = _;
    runs = ap (λ p. (ok (classify p.0), p.1)) (Runs-query_err env healthy s e).at;
    holds = q;
  }

  pub Returns-call :
      {Q : ℕ → World → Type 0} {w : World}
      → Q w.calls (record w { calls = w.calls + 1 })
      → Returns (call env) w Q
  Returns-call q = record { result = _; final = _; runs = (Runs-call env healthy).at; holds = q }

  pub Returns-commit :
      {Q : Unit {0} → World → Type 0} {w : World}
      → Q tt (record w { saved = none; calls = w.calls + 1 })
      → Returns (commit env) w Q
  Returns-commit q = record {
    result = tt;
    final = _;
    runs = (Runs-commit env healthy).at;
    holds = q;
  }

  pub Returns-in_tx :
      {A : Type 0} {Q : A → World → Type 0} {m : Exec A} {w : World}
      → Returns m (record w { saved = some w.db; calls = w.calls + 1 }) (λ a u. Q a (rollback u))
      → Returns (in_tx env m) w Q
  Returns-in_tx y = record {
    result = y.result;
    final = rollback y.final;
    runs = (Runs-in_tx env healthy (record { at = y.runs })).at;
    holds = y.holds;
  }
