-- ===== src/Auth/Exchange/Success.antt =====
-- What an exchange of a code that returns tokens has checked and written; a code is exchanged once.
use mathlib.Core.Path.{subst}
use sauth.Prelude.{ℕ, ◌≤◌, ◌≡◌, ◌≢◌, ◌∙◌, sym, ap, refl, false, ◌==◌, none, some, arith}
use sauth.Text.{Text}
use sauth.Errors.{ok, auth_code_invalid, user_banned}
use sauth.Env.{Env}
use sauth.Db.{Db, User, AuthExchangeCode}
use sauth.Db.Table.{find, update_where, one}
use sauth.Db.Table.Laws.{one_ok}
use sauth.Db.Users.{get_user_by_id_only}
use sauth.Db.Oauth.{is_takeable, take_code, take_auth_exchange_code}
use sauth.Db.Oauth.Laws.{took, find-taken}
use sauth.Token.{hash_refresh_token}
use sauth.Exec.{World, rollback}
use sauth.Exec.Laws.{
  Yields, Yields-run, Yields-pure, Yields-raise, Yields-reject, Yields-bind, Yields-read,
  Yields-lookup, Yields-in_tx, Yields-commit,
}
use sauth.Auth.{Result}
use sauth.Auth.Issue.Laws.{IsIssued, issue-Yields}
use sauth.Auth.Exchange.{exchange_in_tx, exchange_auth_code}

module _ (env : Env) where
  -- The database once the codes of the hash that could be taken at `t` are consumed.
  abbrev pub codes_taken : Text → ℕ → ℕ → Db → Db
  codes_taken hash project_id t d = record d {
    auth_exchange_codes =
        update_where (is_takeable (record { uuid = 0; now = t }) hash project_id)
          (take_code (record { uuid = 0; now = t })) d.auth_exchange_codes;
  }

  -- What an exchange at `t` from `before` has done when it returns `res`.
  pub record IsExchanged (project_id : ℕ) (hash : Text) (t : ℕ) (before : Db) (res : Result)
      (after : Db) : Type 0 where
    pub code : AuthExchangeCode
    pub takeable :
        find (is_takeable (record { uuid = 0; now = t }) hash project_id) before.auth_exchange_codes
        ≡ some code
    pub user : User
    pub owner : find (λ (u : User). u.id == code.user_id) before.users ≡ some user
    pub allowed : user.banned ≡ false
    pub issued : IsIssued env user t (codes_taken hash project_id t before) res after

  exchange_in_tx-Yields :
      {Q : Result → World → Type 0} (rec : AuthExchangeCode) {w : World}
      → ((res : Result) (d : Db) (user : User)
          → find (λ (u : User). u.id == rec.user_id) w.db.users ≡ some user
          → user.banned ≡ false
          → IsIssued env user w.now w.db res d
          → (n : ℕ) → Q res (record w { db = d; saved = none; calls = n }))
      → Yields (exchange_in_tx env rec) w Q
  unfolding exchange_in_tx get_user_by_id_only
  exchange_in_tx-Yields rec {w} q = Yields-bind (
      Yields-read env (get_user_by_id_only env rec.user_id)
        (one (find (λ (u : User). u.id == rec.user_id) w.db.users)) refl
        λ user e. Yields-reject user.banned user_banned λ allowed. Yields-bind (
          issue-Yields env user λ res d i n.
            Yields-bind (Yields-commit env (Yields-pure (q res d user (one_ok _ e) allowed i _)))))

  -- An exchange that returns tokens has found a code of the project under the hash of the text that
  -- was presented, unconsumed and unexpired, of a user that is not banned. It has consumed the code,
  -- added one open session of that user, and changed nothing else.
  pub exchange-admits :
      (project_id : ℕ) (raw_code : Text) (w v : World) (res : Result)
      → exchange_auth_code env project_id raw_code w ≡ (ok res, v)
      → IsExchanged project_id (hash_refresh_token env raw_code) w.now w.db res v.db
  unfolding exchange_auth_code rollback
  exchange-admits project_id raw_code w v res h =
      Yields-run
        {Q = λ r u. IsExchanged project_id (hash_refresh_token env raw_code) w.now w.db r u.db}
        (Yields-reject _ auth_code_invalid λ _. Yields-bind (
          Yields-lookup env (take_auth_exchange_code (hash_refresh_token env raw_code) project_id)
            (λ c d e.
              let (row, f, same, left) =
                took (hash_refresh_token env raw_code) project_id _ w.db d c e in
              Yields-in_tx env (
                exchange_in_tx-Yields c λ res' d' user owner allowed i n. record {
                  code = row;
                  takeable = f;
                  user = user;
                  owner =
                      subst (λ k. find (λ (u : User). u.id == k) w.db.users ≡ some user)
                        (ap (λ (x : AuthExchangeCode). x.user_id) same)
                        (subst (λ us. find (λ (u : User). u.id == c.user_id) us ≡ some user)
                          (ap (λ (b : Db). b.users) left) owner);
                  allowed = allowed;
                  issued = subst (λ b. IsIssued env user w.now b res' d') left i;
                }))
            (λ _. Yields-raise _) (λ e. Yields-raise e)))
        res v h

  -- A code is exchanged once: after an exchange that returned tokens, the same text gives none, in the
  -- same project, at no time before the exchange and while the codes are as it left them.
  pub exchange_twice :
      (project_id : ℕ) (raw_code : Text) (w v u : World) (res res' : Result)
      → exchange_auth_code env project_id raw_code w ≡ (ok res, v)
      → u.db.auth_exchange_codes ≡ v.db.auth_exchange_codes
      → w.now ≤ u.now
      → (exchange_auth_code env project_id raw_code u).0 ≢ ok res'
  exchange_twice project_id raw_code w v u res res' first kept later second =
      let hash = hash_refresh_token env raw_code in
      let a = exchange-admits project_id raw_code w v res first in
      let x = (exchange_auth_code env project_id raw_code u).1 in
      let b = exchange-admits project_id raw_code u x res' (ap (λ r. (r, x)) second) in
      let codes = kept ∙ ap (λ (d : Db). d.auth_exchange_codes) a.issued.added in
      let gone =
        find-taken hash project_id (record { uuid = 0; now = w.now })
          (record { uuid = 0; now = u.now }) w.db.auth_exchange_codes (ground arith) in
      cc (
        sym b.takeable
        ∙ ap (find (is_takeable (record { uuid = 0; now = u.now }) hash project_id)) codes
        ∙ gone)
