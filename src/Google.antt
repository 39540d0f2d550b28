-- ===== src/Google.antt =====
-- The client of backend/internal/googleoauth/googleoauth.go. The protocol of golang.org/x/oauth2
-- and Google's answers are arguments; each of the two requests can fail.
pub mod Laws
use sauth.Prelude.{ℕ, Option, none, some, not, ◌||◌, ◌==◌, []}
use sauth.Text.{Text, text_eq}
use sauth.Errors.{fault}
use sauth.Env.{Env, GoogleConfig, Identity, Userinfo, UserinfoResponse}
use sauth.Exec.{Exec, pure, raise, call, reject_if, ◌>>=◌, ◌>>◌}

abbrev pub identity_of : Userinfo → Identity
identity_of body = record {
  sub = body.id;
  email = body.email;
  email_verified = body.verified_email;
  name = body.name;
}

unfoldable pub identified : Userinfo → Exec Identity
identified body =
    reject_if (text_eq body.id [] || text_eq body.email []) fault (pure (identity_of body))

abbrev pub decoded : Option Userinfo → Exec Identity
decoded none = raise fault
decoded (some body) = identified body

abbrev pub responded : Option UserinfoResponse → Exec Identity
responded none = raise fault
responded (some resp) = reject_if (not (resp.status == 200)) fault (decoded resp.body)

module _ (env : Env) where
  abbrev pub tokened : Option Text → Exec Identity
  tokened none = raise fault
  tokened (some tok) = do call env; responded (env.google_userinfo tok)

  unfoldable pub exchange : GoogleConfig → Text → Exec Identity
  exchange cfg code = do call env; tokened (env.google_token cfg code)
