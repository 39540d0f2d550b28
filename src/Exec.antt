-- ===== src/Exec.antt =====
-- How the service runs: a function of Go that returns `(T, error)` and acts on the database is an
-- action on a `World`. Transactions are pgx's: `begin` remembers the database, `commit` forgets what
-- it remembered, and the deferred Rollback restores it if it is still remembered.
--
-- One request is handled at one time `now`; the database's clock is the program's. A commit that
-- reports an error has not taken effect.
pub mod Laws
pub mod Keeps
pub mod Atomic
pub mod FailSafe
pub mod Unseen
pub mod Runs
pub mod Returns
use sauth.Prelude.{ℕ, ◌+◌, Bool, Option, none, some, List, ◌++◌, [], ◌∷◌, if◌then◌else◌}
use sauth.Text.{Text}
use sauth.Errors.{Err, Outcome, ok, err, fault, Lookup, classify}
use sauth.Env.{Env, Channel}
use sauth.Db.{Db, Stamp, Stmt}

-- A code that was handed to the sender.
pub record Message : Type 0 where
  pub channel : Channel
  pub destination : Text
  pub code : Text
  pub purpose : Text

pub record World : Type 0 where
  pub db : Db
  pub saved : Option Db
  pub now : ℕ
  pub calls : ℕ
  pub sent : List Message

abbrev pub Exec : Type 0 → Type 0
Exec A = World → Outcome A × World

module _ {A : Type 0} where
  abbrev pub pure : A → Exec A
  pure a w = (ok a, w)

  -- return nil, e
  abbrev pub raise : Err → Exec A
  raise e w = (err e, w)

  abbrev pub lift : Outcome A → Exec A
  lift r w = (r, w)

  -- A call whose error is inspected, or ignored.
  abbrev pub attempt : Exec A → Exec (Outcome A)
  attempt m w = let (r, w') = m w in (ok r, w')

  -- A call whose error is asked for pgx.ErrNoRows.
  abbrev pub lookup : Exec A → Exec (Lookup A)
  lookup m w = let (r, w') = m w in (ok (classify r), w')

  -- if b { return nil, e }, before the rest
  unfoldable pub reject_if : Bool → Err → Exec A → Exec A
  reject_if b e m = if b then raise e else m

module _ {A B : Type 0} where
  abbrev pub continue : Outcome A → (A → Exec B) → Exec B
  continue (ok a) f w = f a w
  continue (err e) f w = (err e, w)

  infixl 5 ◌>>=◌ ◌>>◌
  -- if err != nil { return nil, err }, before the rest
  unfoldable pub ◌>>=◌ : Exec A → (A → Exec B) → Exec B
  ◌>>=◌ m f w = let (r, w') = m w in continue r f w'

  abbrev pub ◌>>◌ : Exec A → Exec B → Exec B
  m >> n = m >>= λ _. n

abbrev pub now : Exec ℕ
now w = (ok w.now, w)

module _ (env : Env) where
  -- A call that leaves the program: its number, or an error.
  unfoldable pub call : Exec ℕ
  call w =
      let w' = record w { calls = w.calls + 1 } in
      if env.fails w.calls then (err fault, w') else (ok w.calls, w')

  abbrev settle : {A : Type 0} → Outcome (A × Db) → World → Outcome A × World
  settle (ok (a, d)) w = (ok a, record w { db = d })
  settle (err e) w = (err e, w)

  -- One statement: q.db.QueryRow, Query or Exec
  unfoldable pub query : {A : Type 0} → Stmt A → Exec A
  unfolding call ◌>>=◌
  query s = do n ← call; λ w. settle (s (record { uuid = env.uuid n; now = w.now }) w.db) w

  -- s.pool.Begin(ctx)
  unfoldable pub begin : Exec (Unit {0})
  unfolding call ◌>>=◌
  begin = do call; λ w. (ok tt, record w { saved = some w.db })

  -- tx.Commit(ctx)
  unfoldable pub commit : Exec (Unit {0})
  unfolding call ◌>>=◌
  commit = do call; λ w. (ok tt, record w { saved = none })

-- tx.Rollback(ctx), which does nothing after a commit
unfoldable pub rollback : World → World
rollback w = elim w.saved [ none ↦ w | some d ↦ record w { db = d; saved = none } ]

-- A body under `defer tx.Rollback(ctx)`
unfoldable pub deferred : {A : Type 0} → Exec A → Exec A
unfolding rollback
deferred m w = let (r, w') = m w in (r, rollback w')

-- tx, err := s.pool.Begin(ctx); defer tx.Rollback(ctx); the rest of the function
unfoldable pub in_tx : Env → {A : Type 0} → Exec A → Exec A
unfolding begin deferred ◌>>=◌
in_tx env m = do begin env; deferred m
