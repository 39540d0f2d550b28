-- ===== src/Db/Integrity/Keyed.antt =====
-- The flows keep the unique keys of users and sessions, since the statements do.
use sauth.Prelude.{◌≡◌, ◌∙◌, refl, ap}
use sauth.Env.{Env}
use sauth.Db.{Db}
use sauth.Db.Oauth.Laws.{code_stored, account_linked, state_took, state_stored}
use sauth.Db.Integrity.Statements.{
  IsKeyed, IsKeyed-elsewhere, IsKeyed-create_user, IsKeyed-email_verified, IsKeyed-phone_verified,
  IsKeyed-assign, IsKeyed-create_otp, IsKeyed-consume, IsKeyed-increment, IsKeyed-invalidate,
  IsKeyed-take,
}
use sauth.Db.Integrity.Sessions.{
  IsKeyed-create_session, IsKeyed-rotate, IsKeyed-revoke_all, IsKeyed-revoke, IsKeyed-record,
}
use sauth.Db.Kept.{IsKept, KeepsStates}

module _ (env : Env) where
  IsKeyed-of :
      (d d' b : Db)
      → d' ≡ b
      → b.users ≡ d.users
      → b.sessions ≡ d.sessions
      → IsKeyed env d
      → IsKeyed env d'
  IsKeyed-of d d' b e u s k =
      IsKeyed-elsewhere env d d' (ap (λ (x : Db). x.users) e ∙ u)
        (ap (λ (x : Db). x.sessions) e ∙ s) k

  pub IsKeyed-IsKept : IsKept env (IsKeyed env)
  IsKeyed-IsKept = record {
    creates_user = IsKeyed-create_user env;
    creates_session = IsKeyed-create_session env;
    rotates = IsKeyed-rotate env;
    revokes_all = IsKeyed-revoke_all env;
    revokes = IsKeyed-revoke env;
    records = IsKeyed-record env;
    verifies_email = IsKeyed-email_verified env;
    verifies_phone = IsKeyed-phone_verified env;
    assigns = IsKeyed-assign env;
    creates_otp = IsKeyed-create_otp env;
    consumes = IsKeyed-consume env;
    increments = IsKeyed-increment env;
    invalidates = IsKeyed-invalidate env;
    takes_code = IsKeyed-take env;
    creates_code = λ h u p x. record {
      at = λ t d a d' k e. IsKeyed-of d d' _ (code_stored h u p x t d d' a e).1 refl refl k;
    };
    creates_account = λ u p s. record {
      at = λ t d a d' k e. IsKeyed-of d d' _ (account_linked u p s t d d' a e).1 refl refl k;
    };
    takes_state = λ s. record {
      at = λ t d a d' k e. IsKeyed-of d d' _ (state_took s t d d' a e).1 refl refl k;
    };
  }

  pub IsKeyed-KeepsStates : KeepsStates (IsKeyed env) (λ p raw project. Unit)
  IsKeyed-KeepsStates = record {
    stores = λ s p raw id x project known. record {
      at = λ t d a d' k e. IsKeyed-of d d' _ (state_stored s p raw id x t d d' a e).1 refl refl k;
    };
  }
