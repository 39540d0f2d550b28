-- ===== src/Token.antt =====
-- backend/internal/token/token.go
pub mod Claims
use sauth.Prelude.{ℕ, ◌+◌, ◌*◌, ◌/◌, Option, none, some, List, ltb, ◌&&◌, if◌then◌else◌}
use sauth.Text.{Text, text_eq}
use sauth.Text.Hex.{hex_encode}
use sauth.Errors.{Outcome, ok, err, fault}
use sauth.Env.{Env, AccessClaims}
use sauth.Exec.{Exec, pure, call, now, ◌>>=◌}

abbrev pub second : ℕ
second = 1_000_000

-- jwt.NewNumericDate
abbrev pub numeric_date : ℕ → ℕ
numeric_date t = t / second

module _ (env : Env) where
  unfoldable pub hash_refresh_token : Text → Text
  hash_refresh_token raw = hex_encode (env.sha256 raw)

  unfoldable pub random_token : ℕ → Exec Text
  random_token n_bytes = do n ← call env; pure (env.random n n_bytes)

  -- the raw token, and its hash
  unfoldable pub new_refresh_token : Exec (Text × Text)
  new_refresh_token = do n ← call env; pure (env.random n 32, hash_refresh_token (env.random n 32))

  -- the claims that IssueAccess signs at `now`
  abbrev pub access_claims : ℕ → ℕ → Text → Text → List Text → List Text → AccessClaims
  access_claims n t user_id project_id roles permissions = record {
    project_id = project_id;
    roles = roles;
    permissions = permissions;
    subject = user_id;
    issuer = env.issuer;
    issued_at = numeric_date t;
    expires_at = numeric_date (t + env.access_ttl);
    id = env.uuid_string (env.uuid n);
  }

  -- the signed token, and when it expires
  unfoldable pub issue_access : Text → Text → List Text → List Text → Exec (Text × ℕ)
  issue_access user_id project_id roles permissions = do
    t ← now
    n ← call env
    pure (env.sign (access_claims n t user_id project_id roles permissions), t + env.access_ttl)

  -- What jwt.ParseWithClaims checks of a token whose signature verifies: the issuer that
  -- WithIssuer names, and the expiry.
  checked : ℕ → Option AccessClaims → Outcome AccessClaims
  checked t none = err fault
  checked t (some c) =
      if text_eq c.issuer env.issuer && ltb t (c.expires_at * second) then ok c else err fault

  unfoldable pub parse_access : Text → ℕ → Outcome AccessClaims
  unfolding checked
  parse_access raw t = checked t (env.open_signed raw)
