-- ===== src/Auth/OtpVerify/Success.antt =====
-- What a verification of a one-time code that returns tokens has checked and written.
use sauth.Prelude.{ℕ, ◌+◌, ◌≤◌, ◌<◌, ◌≡◌, refl, true, false, Option, none, some, arith}
use sauth.Text.{Text, trim_space}
use sauth.Errors.{Outcome, ok, err, otp_invalid, otp_expired}
use sauth.Env.{Env, Channel}
use sauth.Db.{Db, User, OtpCode}
use sauth.Db.Table.{find, one, update_where, is_null}
use sauth.Db.Table.Laws.{one_ok}
use sauth.Db.Otp.{otp_id, consume, consume_otp, get_otp_by_id}
use sauth.Otp
use sauth.Exec.{World, rollback}
use sauth.Exec.Laws.{
  Yields, Yields-run, Yields-pure, Yields-raise, Yields-reject, Yields-if, Yields-always,
  Yields-bind, Yields-query, Yields-read_lookup, Yields-now, Yields-in_tx, Yields-commit,
}
use sauth.Auth.{Result}
use sauth.Auth.Issue.Laws.{IsIssued, issue-Yields}
use sauth.Auth.Destination.{classify_destination}
use sauth.Auth.OtpRequest.{otp_max_attempts}
use sauth.Auth.OtpVerify.{
  verify_in_tx, count_attempt, lock, check_code, verify_parsed, verify_classified, verify_id,
  verify_otp, locks, is_foreign_or_used, is_expired, is_locked,
}
use sauth.Auth.OtpVerify.Resolve.{IsResolved, resolve_user-Yields}

null_none : (o : Option ℕ) → is_null o ≡ true → o ≡ none
null_none none h = refl
null_none (some t) h = cc

module _ (env : Env) where
  -- What the verification of `code` under `otp_id` at `t` from `before` has done when it returns `res`.
  pub record IsVerified (project_id : ℕ) (otp_id_text code : Text) (t : ℕ) (before : Db)
      (res : Result) (after : Db) : Type 0 where
    pub id : ℕ
    pub parsed : env.parse_uuid (trim_space otp_id_text) ≡ some id
    pub code_row : OtpCode
    pub named : find (otp_id id) before.otp_codes ≡ some code_row
    pub own : code_row.project_id ≡ project_id
    pub unconsumed : code_row.consumed_at ≡ none
    pub unexpired : t ≤ code_row.expires_at
    pub unlocked : code_row.attempts < otp_max_attempts
    pub right : Otp.equal env (trim_space code) code_row.code_hash ≡ true
    pub channel : Channel
    pub dest : Text
    pub destination : classify_destination env code_row.destination ≡ ok (channel, dest)
    pub consumed : Db
    pub consumes : consumed ≡ record before {
      otp_codes =
          update_where (otp_id id) (consume (record { uuid = 0; now = t })) before.otp_codes;
    }
    pub user : User
    pub settled : Db
    pub resolved : IsResolved env project_id code_row.purpose channel dest t consumed user settled
    pub issued : IsIssued env user t settled res after

  wrong_code_fails :
      (Q : Result → World → Type 0) (id : ℕ) (w : World) → Yields (count_attempt env id) w Q
  unfolding count_attempt
  wrong_code_fails Q id w = Yields-bind (
      Yields-always λ n u.
        Yields-if (locks env n) (λ _. Yields-bind (Yields-always λ _ _. Yields-raise otp_invalid))
          (λ _. Yields-raise otp_invalid))

  locked_fails : (Q : Result → World → Type 0) (id : ℕ) (w : World) → Yields (lock env id) w Q
  unfolding lock
  locked_fails Q id w = Yields-bind (Yields-always λ _ _. Yields-raise _)

  -- A verification that returns tokens names a code of the project that is unconsumed, unexpired
  -- and has had fewer than five wrong attempts, and brings the right code. It has consumed the code;
  -- for the purpose `login` the user that has the destination, not banned, has it marked as verified;
  -- for `signup` no user had it, and a new user has it, marked as verified, with the default role.
  -- It has added one open session of that user, and changed nothing else.
  pub verify-admits :
      (project_id : ℕ) (otp_id_text code : Text) (w v : World) (res : Result)
      → verify_otp env project_id otp_id_text code w ≡ (ok res, v)
      → IsVerified project_id otp_id_text code w.now w.db res v.db
  unfolding verify_otp verify_id verify_in_tx check_code consume_otp get_otp_by_id rollback
  verify-admits project_id otp_id_text code w v res h =
      Yields-run {Q = λ r u. IsVerified project_id otp_id_text code w.now w.db r u.db}
        (parsed_case _ refl) res v h
    where
      Admitted : Result → World → Type 0
      Admitted r u = IsVerified project_id otp_id_text code w.now w.db r u.db

      classified_case :
          (id : ℕ) (o : OtpCode)
          → env.parse_uuid (trim_space otp_id_text) ≡ some id
          → find (otp_id id) w.db.otp_codes ≡ some o
          → is_foreign_or_used env project_id o ≡ false
          → is_expired env w.now o ≡ false
          → is_locked env o ≡ false
          → Otp.equal env (trim_space code) o.code_hash ≡ true
          → (c : Outcome (Channel × Text)) → classify_destination env o.destination ≡ c
          → Yields
              (verify_classified env id project_id o.purpose c)
              (record w { calls = w.calls + 1 })
              Admitted
      classified_case id o p f own fresh unlocked right (err e) c = Yields-raise _
      classified_case id o p f own fresh unlocked right (ok (channel, dest)) c = Yields-in_tx env (
          Yields-bind (
            Yields-query env (consume_otp id) λ _ dc e. Yields-bind (
              resolve_user-Yields env project_id o.purpose channel dest λ user ds r _. Yields-bind (
                issue-Yields env user λ res' d' i _. Yields-bind (
                  Yields-commit env (
                    Yields-pure (record {
                      id = id;
                      parsed = p;
                      code_row = o;
                      named = f;
                      own = ground arith;
                      unconsumed = null_none _ (ground arith);
                      unexpired = ground arith;
                      unlocked = ground arith;
                      right = right;
                      channel = channel;
                      dest = dest;
                      destination = c;
                      consumed = dc;
                      consumes = cc;
                      user = user;
                      settled = ds;
                      resolved = r;
                      issued = i;
                    })))))))

      parsed_case :
          (o : Option ℕ)
          → env.parse_uuid (trim_space otp_id_text) ≡ o
          → Yields (verify_parsed env project_id code o) w Admitted
      parsed_case none p = Yields-raise _
      parsed_case (some id) p = Yields-bind (
          Yields-read_lookup env (get_otp_by_id id) (one (find (otp_id id) w.db.otp_codes)) refl
            (λ o f. Yields-reject (is_foreign_or_used env project_id o) otp_invalid λ own.
              Yields-bind (
                Yields-now (
                  Yields-reject (is_expired env w.now o) otp_expired λ fresh.
                    Yields-if (is_locked env o) (λ _. locked_fails Admitted id _)
                      λ unlocked.
                        Yields-if (Otp.equal env (trim_space code) o.code_hash)
                          (λ right.
                            classified_case id o p (one_ok _ f) own fresh unlocked right
                              (classify_destination env o.destination) refl)
                          (λ _. wrong_code_fails Admitted id _))))
            (λ _. Yields-raise _) (λ e. Yields-raise e))
