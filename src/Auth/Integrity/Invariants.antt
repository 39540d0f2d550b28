-- ===== src/Auth/Integrity/Invariants.antt =====
-- The properties of the database that every request keeps.
use sauth.Prelude.{ℕ}
use sauth.Text.{Text}
use sauth.Env.{Env}
use sauth.Db.{Db, Project}
use sauth.Db.Kept.{IsKept, KeepsStates}
use sauth.Db.Integrity.Statements.{IsKeyed}
use sauth.Db.Integrity.Keyed.{IsKeyed-IsKept, IsKeyed-KeepsStates}
use sauth.Auth.Integrity.SignIns.{Knows}

-- What has to be shown of a property of the database for every request to keep it.
pub record IsInvariant (env : Env) (P : Db → Type 0) : Type 1 where
  pub kept : IsKept env P
  pub Known : ℕ → Text → Project → Type 0
  pub states : KeepsStates P Known
  pub knows : Knows env P Known

module _ (env : Env) where
  pub IsKeyed-IsInvariant : IsInvariant env (IsKeyed env)
  IsKeyed-IsInvariant = record {
    kept = IsKeyed-IsKept env;
    Known = λ p raw project. Unit;
    states = IsKeyed-KeepsStates env;
    knows = record { knows = λ d p raw project k f v. tt };
  }
