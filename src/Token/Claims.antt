-- ===== src/Token/Claims.antt =====
-- An access token, issued and then parsed.
use sauth.Prelude.{ℕ, ◌+◌, ◌*◌, ◌≤◌, ◌<◌, ◌≡◌, ◌∙◌, refl, some, List, arith, ltb, if◌then◌else◌}
use sauth.Text.{Text}
use sauth.Text.Laws.{text_eq_refl}
use sauth.Errors.{ok, err, fault}
use sauth.Env.{Env, AccessClaims}
use sauth.Exec.{World}
use sauth.Exec.Laws.{Yields-run, Yields-pure, Yields-bind, Yields-call, Yields-now}
use sauth.Token.{second, access_claims, issue_access, parse_access, checked}

module _ (env : Env) where
  parse-signed :
      (c : AccessClaims) (t : ℕ)
      → env.open_signed (env.sign c) ≡ some c
      → c.issuer ≡ env.issuer
      → parse_access env (env.sign c) t
        ≡ (if ltb t (c.expires_at * second) then ok c else err fault)
  unfolding parse_access checked
  parse-signed c t opens issuer = rw (parse_access, opens, issuer, text_eq_refl env.issuer)

  -- What parsing `token_str` gives at each time `t`.
  pub record Opens (claims : AccessClaims) (token_str : Text) : Type 0 where
    pub before : (t : ℕ) → t < claims.expires_at * second → parse_access env token_str t ≡ ok claims
    pub after : (t : ℕ) → claims.expires_at * second ≤ t → parse_access env token_str t ≡ err fault

  -- A token that was issued is parsed, until its expiry in whole seconds, to the claims that were
  -- issued: the user, the project, the roles and the permissions; from then on it is refused. The
  -- signature opens to what was signed.
  pub parse-issue :
      (user_id project_id : Text) (roles permissions : List Text) (w v : World) (token_str : Text)
      (exp : ℕ)
      → env.open_signed
          (env.sign (access_claims env w.calls w.now user_id project_id roles permissions))
        ≡ some (access_claims env w.calls w.now user_id project_id roles permissions)
      → issue_access env user_id project_id roles permissions w ≡ (ok (token_str, exp), v)
      → (exp ≡ w.now + env.access_ttl)
        × Opens (access_claims env w.calls w.now user_id project_id roles permissions) token_str
  unfolding issue_access
  parse-issue user_id project_id roles permissions w v token_str exp opens h =
      Yields-run
        {Q = λ p _.
          (p.1 ≡ w.now + env.access_ttl)
          × Opens (access_claims env w.calls w.now user_id project_id roles permissions) p.0}
        (Yields-bind (
          Yields-now (
            Yields-bind (
              Yields-call env (
                Yields-pure (
                  refl,
                  record {
                    before = λ t early. parse-signed _ t opens refl ∙ ground arith;
                    after = λ t late. parse-signed _ t opens refl ∙ ground arith;
                  },
                ))))))
        (token_str, exp) v h
