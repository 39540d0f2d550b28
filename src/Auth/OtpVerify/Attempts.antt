-- ===== src/Auth/OtpVerify/Attempts.antt =====
-- Wrong codes are counted, and the fifth ends the code.
use sauth.Prelude.{
  ℕ, ◌+◌, ◌<◌, ◌≡◌, refl, true, false, some, List, ap, arith, leb, if◌then◌else◌, Bool-cases, inl,
  inr,
}
use sauth.Text.{Text, trim_space}
use sauth.Errors.{Outcome, found, ok, err, otp_invalid, otp_expired}
use sauth.Env.{Env}
use sauth.Db.{OtpCode}
use sauth.Db.Table.{find, update_where}
use sauth.Db.Otp.{otp_id, consume, attempt_more, consume_otp, increment_otp_attempts, get_otp_by_id}
use sauth.Db.Otp.Laws.{increment-counts}
use sauth.Otp
use sauth.Exec.{World, attempt, query}
use sauth.Exec.Runs.{
  IsHealthy, Runs, Runs-bind, Runs-raise, Runs-attempt, Runs-lookup, Runs-reject, Runs-if,
  Runs-query, Runs-now,
}
use sauth.Auth.{Result}
use sauth.Auth.OtpRequest.{otp_max_attempts}
use sauth.Auth.OtpVerify.{
  verify_otp, verify_id, check_code, count_attempt, lock, is_foreign_or_used, is_expired, is_locked,
  verify_found,
}

-- The codes after one more wrong attempt at `t` on the row of `id`, which had `n` before.
abbrev pub missed : ℕ → ℕ → ℕ → List OtpCode → List OtpCode
missed id n t os =
    let counted = update_where (otp_id id) attempt_more os in
    if leb otp_max_attempts (n + 1)
    then update_where (otp_id id) (consume (record { uuid = 0; now = t })) counted
    else counted

module _ (env : Env) (healthy : IsHealthy env) where
  counted-Runs :
      (id : ℕ) (w : World) (o : OtpCode)
      → find (otp_id id) w.db.otp_codes ≡ some o
      → o.attempts < otp_max_attempts
      → Runs
          (attempt (query env (increment_otp_attempts id)))
          w
          (ok (ok (o.attempts + 1)))
          (record w {
            db = record w.db { otp_codes = update_where (otp_id id) attempt_more w.db.otp_codes };
            calls = w.calls + 1;
          })
  counted-Runs id w o f few = Runs-attempt (
      Runs-query env healthy (increment_otp_attempts id) _ _
        (increment-counts id _ w.db o f (ground arith)))

  pub consumed-Runs :
      (id : ℕ) (w : World)
      → Runs (attempt (query env (consume_otp id))) w (ok (ok tt)) (record w {
        db = record w.db {
          otp_codes =
              update_where (otp_id id) (consume (record { uuid = 0; now = w.now })) w.db.otp_codes;
        };
        calls = w.calls + 1;
      })
  unfolding consume_otp
  consumed-Runs id w = Runs-attempt (Runs-query env healthy (consume_otp id) tt _ refl)

  count_attempt-Runs :
      (id : ℕ) (w : World) (o : OtpCode)
      → find (otp_id id) w.db.otp_codes ≡ some o
      → o.attempts < otp_max_attempts
      → (n : ℕ) × Runs (count_attempt env id) w (err otp_invalid) (record w {
        db = record w.db { otp_codes = missed id o.attempts w.now w.db.otp_codes };
        calls = n;
      })
  unfolding count_attempt
  count_attempt-Runs id w o f few = elim (Bool-cases (leb otp_max_attempts (o.attempts + 1))) [
    | inl last ↦ (
      w.calls + 1 + 1,
      Runs-bind _ (counted-Runs id w o f few) (
          Runs-if (leb otp_max_attempts (o.attempts + 1))
            (λ _. rw last (Runs-bind _ (consumed-Runs id _) Runs-raise)) (λ b. cc (b, last))),
    )
    | inr more ↦ (
      w.calls + 1,
      Runs-bind _ (counted-Runs id w o f few) (
          Runs-if (leb otp_max_attempts (o.attempts + 1)) (λ b. cc (b, more))
            (λ _. rw more Runs-raise)),
    )
  ]

  -- Up to the record: its answer when it is found.
  pub found-Runs :
      (project_id : ℕ) (otp_id_text code : Text) (id : ℕ) (w : World) (o : OtpCode)
      (r : Outcome Result) (v : World)
      → env.parse_uuid (trim_space otp_id_text) ≡ some id
      → find (otp_id id) w.db.otp_codes ≡ some o
      → Runs
          (verify_found env id project_id (trim_space code) (found o))
          (record w { calls = w.calls + 1 })
          r
          v
      → Runs (verify_otp env project_id otp_id_text code) w r v
  unfolding verify_otp verify_id get_otp_by_id
  found-Runs project_id otp_id_text code id w o r v p f run = record {
    at =
        rw (p, verify_otp)
          (Runs-bind _ (Runs-lookup (Runs-query env healthy (get_otp_by_id id) o w.db (rw f)))
            run).at;
  }

  pub fresh-Runs :
      (id project_id : ℕ) (code : Text) (o : OtpCode) (w : World) (r : Outcome Result) (v : World)
      → is_foreign_or_used env project_id o ≡ false
      → is_expired env w.now o ≡ false
      → (is_locked env o ≡ true → Runs (lock env id) w r v)
      → (is_locked env o ≡ false → Runs (check_code env id project_id code o) w r v)
      → Runs (verify_found env id project_id code (found o)) w r v
  fresh-Runs id project_id code o w r v own fresh l c =
      Runs-reject (is_foreign_or_used env project_id o) otp_invalid own (
        Runs-bind _ Runs-now
          (Runs-reject (is_expired env w.now o) otp_expired fresh (Runs-if (is_locked env o) l c)))

  -- When no call fails, a wrong code for a record of the project that is fresh and not locked is
  -- answered with the invalid-code error, and is counted; the fifth also consumes the record. Nothing
  -- else changes.
  pub verify-counts :
      (project_id : ℕ) (otp_id_text code : Text) (id : ℕ) (w : World) (o : OtpCode)
      → env.parse_uuid (trim_space otp_id_text) ≡ some id
      → find (otp_id id) w.db.otp_codes ≡ some o
      → is_foreign_or_used env project_id o ≡ false
      → is_expired env w.now o ≡ false
      → o.attempts < otp_max_attempts
      → Otp.equal env (trim_space code) o.code_hash ≡ false
      → ((verify_otp env project_id otp_id_text code w).0 ≡ err otp_invalid)
        × ((verify_otp env project_id otp_id_text code w).1.db
            ≡ record w.db { otp_codes = missed id o.attempts w.now w.db.otp_codes })
  unfolding check_code
  verify-counts project_id otp_id_text code id w o p f own fresh few wrong =
      let (n, counting) = count_attempt-Runs id (record w { calls = w.calls + 1 }) o f few in
      let run = found-Runs project_id otp_id_text code id w o _ _ p f (
        fresh-Runs id project_id (trim_space code) o (record w { calls = w.calls + 1 }) _ _ own
          fresh (λ l. ground arith)
          (λ _.
            Runs-if (Otp.equal env (trim_space code) o.code_hash) (λ b. cc (b, wrong))
              (λ _. counting))) in
      (ap (λ p. p.0) run.at, ap (λ p. p.1.db) run.at)
