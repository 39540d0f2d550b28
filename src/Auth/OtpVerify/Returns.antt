-- ===== src/Auth/OtpVerify/Returns.antt =====
-- The right code signs in.
use mathlib.Core.Path.{subst}
use sauth.Prelude.{
  ℕ, ◌≤◌, ◌<◌, ◌≡◌, refl, sym, ap, true, false, none, some, List, arith, ◌==◌, ◌∙◌, ==_refl,
}
use sauth.Text.{Text, trim_space}
use sauth.Errors.{Outcome, ok}
use sauth.Env.{Env, Channel}
use sauth.Db.{Db, User, Project, UserRole, OtpCode, select}
use sauth.Db.Table.{find, exists, one}
use sauth.Db.Otp.{otp_id, consume_otp, get_otp_by_id}
use sauth.Otp
use sauth.Exec.{World}
use sauth.Exec.Runs.{IsHealthy}
use sauth.Exec.Returns.{
  Returns, Returns-pure, Returns-if, Returns-bind, Returns-query, Returns-found, Returns-now,
  Returns-reject, Returns-in_tx, Returns-commit,
}
use sauth.Auth.{Result}
use sauth.Auth.Issue.Returns.{IsFresh, issue-Returns}
use sauth.Auth.Destination.{classify_destination}
use sauth.Auth.OtpRequest.{otp_max_attempts, login_purpose, signup_purpose}
use sauth.Auth.OtpVerify.{
  resolve_user, verify_in_tx, verify_classified, check_code, verify_id, verify_parsed, verify_otp,
  is_foreign_or_used, is_expired, is_locked,
}
use sauth.Auth.OtpVerify.Resolve.{owns}
use sauth.Auth.OtpVerify.Resolve.Returns.{logs_in, signs_up}

module _ (env : Env) where
  -- The owner of a destination whom a code of the purpose lets in.
  pub data IsWelcome (project_id : ℕ) (channel : Channel) (dest : Text) (d : Db)
      : Text → Type 0 where
    owner :
        (user : User)
        → find (owns env project_id channel dest) d.users ≡ some user
        → user.banned ≡ false
        → IsWelcome project_id channel dest d login_purpose
    newcomer :
        find (owns env project_id channel dest) d.users ≡ none
        → exists (λ (p : Project). p.id == project_id) d.projects ≡ true
        → ((n : ℕ) → exists (λ (u : User). u.id == env.uuid n) d.users ≡ false)
        → IsWelcome project_id channel dest d signup_purpose

  -- It is about users and projects.
  pub same_users :
      {project_id : ℕ} {channel : Channel} {dest purpose : Text} {d : Db} {os : List OtpCode}
      → IsWelcome project_id channel dest d purpose
      → IsWelcome project_id channel dest (record d { otp_codes = os }) purpose
  same_users (owner user f allowed) = owner user f allowed
  same_users (newcomer nobody project ids) = newcomer nobody project ids

  module _ (healthy : IsHealthy env) where
    welcomes :
        {Q : User → World → Type 0} (project_id : ℕ) (purpose : Text) (channel : Channel)
        (dest : Text) {w : World}
        → IsWelcome project_id channel dest w.db purpose
        → ((user : User) (us : List User) (rows : List UserRole) (n : ℕ)
            → exists (λ (u : User). u.id == user.id) us ≡ true
            → Q user (record w { db = record w.db { users = us; user_roles = rows }; calls = n }))
        → Returns (resolve_user env project_id purpose channel dest) w Q
    welcomes project_id purpose channel dest (owner user f allowed) q =
        logs_in env healthy project_id channel dest user f allowed (q user)
    welcomes project_id purpose channel dest (newcomer nobody project ids) q =
        signs_up env healthy project_id channel dest nobody ids project q

    in_tx-Returns :
        (id project_id : ℕ) (purpose : Text) (channel : Channel) (dest : Text) {w : World}
        → IsWelcome project_id channel dest w.db purpose
        → IsFresh env w.db
        → Returns (verify_in_tx env id project_id purpose channel dest) w (λ _ _. Unit)
    unfolding verify_in_tx consume_otp
    in_tx-Returns id project_id purpose channel dest {w} welcome fresh = Returns-bind _ (
        Returns-query env healthy (consume_otp id) tt _ refl (
          Returns-bind _ (
            welcomes project_id purpose channel dest (same_users welcome) λ user us rows n there.
              Returns-bind _ (
                issue-Returns env healthy user (record { ids = fresh.ids; hashes = fresh.hashes })
                  there λ res d m. Returns-bind _ (Returns-commit env healthy (Returns-pure tt))))))

    classified-Returns :
        (id project_id : ℕ) (purpose : Text) (channel : Channel) (dest : Text) {w : World}
        (c : Outcome (Channel × Text))
        → c ≡ ok (channel, dest)
        → IsWelcome project_id channel dest w.db purpose
        → IsFresh env w.db
        → Returns (verify_classified env id project_id purpose c) w (λ _ _. Unit)
    classified-Returns id project_id purpose channel dest {w} c e welcome fresh =
        subst (λ x. Returns (verify_classified env id project_id purpose x) w (λ _ _. Unit)) (sym e)
          (Returns-in_tx env healthy (
            in_tx-Returns id project_id purpose channel dest (same_users welcome)
              (record { ids = fresh.ids; hashes = fresh.hashes })))

    -- The right code signs in. When no call fails, a code of the project that is unconsumed,
    -- unexpired and has had fewer than five wrong attempts, presented with its id, is answered with tokens:
    -- for the purpose `login` where a user of the project that is not banned has the destination, for
    -- `signup` where nobody has it and the project is there. No session has an id or a
    -- hash that the random sources give, and for a signup no user has such an id.
    pub verify_returns :
        (project_id id : ℕ) (otp_id_text code : Text) (w : World) (o : OtpCode) (channel : Channel)
        (dest : Text)
        → env.parse_uuid (trim_space otp_id_text) ≡ some id
        → find (otp_id id) w.db.otp_codes ≡ some o
        → o.project_id ≡ project_id
        → o.consumed_at ≡ none
        → w.now ≤ o.expires_at
        → o.attempts < otp_max_attempts
        → Otp.equal env (trim_space code) o.code_hash ≡ true
        → classify_destination env o.destination ≡ ok (channel, dest)
        → IsWelcome project_id channel dest w.db o.purpose
        → IsFresh env w.db
        → (res : Result) × ((verify_otp env project_id otp_id_text code w).0 ≡ ok res)
    unfolding verify_otp verify_id check_code get_otp_by_id
    verify_returns project_id id otp_id_text code w o channel dest parsed f own open_still
          fresh_code few right class welcome fresh =
        let usable : is_foreign_or_used env project_id o ≡ false =
          rw (own, open_still, ==_refl project_id) refl in
        let y : Returns (verify_id env project_id (trim_space code) id) w (λ _ _. Unit) =
          Returns-bind _ (
            Returns-found (
              Returns-query env healthy (get_otp_by_id id) o w.db (ap (λ x. select (one x) w.db) f)
                (Returns-reject _ _ usable (
                  Returns-bind _ (
                    Returns-now (
                      Returns-reject (is_expired env w.now o) _ (ground arith) (
                        Returns-if (is_locked env o) (λ locked. absurd (ground arith))
                          (λ _.
                            Returns-if (Otp.equal env (trim_space code) o.code_hash)
                              (λ _.
                                classified-Returns id project_id o.purpose channel dest _ class
                                  welcome (record { ids = fresh.ids; hashes = fresh.hashes }))
                              (λ wrong. absurd (cc (right, wrong))))))))))) in
        (
          y.result,
          ap (λ x. (verify_parsed env project_id code x w).0) parsed ∙ ap (λ p. p.0) y.runs,
        )
