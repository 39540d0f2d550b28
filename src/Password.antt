-- ===== src/Password.antt =====
-- backend/internal/password/password.go. The work factor only costs time.
use sauth.Prelude.{ℕ, ltb}
use sauth.Text.{Text, len}
use sauth.Errors.{Outcome, ok, err, mismatch, too_long, too_short, fault}
use sauth.Env.{Env, Comparison, matches, differs, malformed}
use sauth.Exec.{Exec, pure, reject_if, call, ◌>>=◌}

abbrev pub max_len : ℕ
max_len = 72

abbrev pub verified : Comparison → Outcome (Unit {0})
verified matches = ok tt
verified differs = err mismatch
verified malformed = err fault

module _ (env : Env) where
  unfoldable pub hash : Text → Exec Text
  hash plain =
      reject_if (ltb (len plain) 8) too_short
        (reject_if (ltb max_len (len plain)) too_long (do n ← call env; pure (env.bcrypt n plain)))

  -- VerifyDummy: the comparison is made for its time, and its result is dropped.
  unfoldable pub verify_dummy : Text → Exec (Unit {0})
  verify_dummy plain = pure tt

  unfoldable pub verify : Text → Text → Outcome (Unit {0})
  verify hash plain = verified (env.bcrypt_compare hash plain)
