-- ===== src/Db/Otp/Elsewhere.antt =====
-- The statements that leave the one-time codes alone.
use sauth.Prelude.{ℕ, List, ap, arith}
use sauth.Text.{Text}
use sauth.Env.{Env}
use sauth.Db.{Db, OtpCode}
use sauth.Db.Kept.{Leaves}
use sauth.Db.Users.{CreateUserParams, create_user, set_user_email_verified, set_user_phone_verified}
use sauth.Db.Sessions.{
  CreateSessionParams, create_session, rotate_session_refresh_hash, revoke_all_user_sessions,
  revoke_session, record_used_refresh_hash,
}
use sauth.Db.Sessions.Laws.{replaced}
use sauth.Db.Rbac.{assign_role_to_user}
use sauth.Db.Oauth.{
  take_auth_exchange_code, create_auth_exchange_code, create_oauth_account, take_oauth_state,
  create_oauth_state,
}
use sauth.Db.Oauth.Laws.{took, state_took}

abbrev pub otp_codes_of : Db → List OtpCode
otp_codes_of d = d.otp_codes

pub create_user-Leaves :
    (env : Env) (arg : CreateUserParams) → Leaves otp_codes_of (create_user env arg)
unfolding create_user
create_user-Leaves env arg = record { at = λ t d a d' h. ground arith }

pub create_session-Leaves : (arg : CreateSessionParams) → Leaves otp_codes_of (create_session arg)
unfolding create_session
create_session-Leaves arg = record { at = λ t d a d' h. ground arith }

pub rotate_session_refresh_hash-Leaves :
    (new_hash : Text) (expires_at id : ℕ)
    → Leaves otp_codes_of (rotate_session_refresh_hash new_hash expires_at id)
rotate_session_refresh_hash-Leaves new_hash expires_at id = record {
  at = λ t d a d' h.
      let (_, _, _, e) = replaced new_hash expires_at id t d d' a h in ap otp_codes_of e;
}

pub revoke_all_user_sessions-Leaves :
    (user_id : ℕ) → Leaves otp_codes_of (revoke_all_user_sessions user_id)
unfolding revoke_all_user_sessions
revoke_all_user_sessions-Leaves user_id = record { at = λ t d a d' h. cc h }

pub revoke_session-Leaves : (id : ℕ) → Leaves otp_codes_of (revoke_session id)
unfolding revoke_session
revoke_session-Leaves id = record { at = λ t d a d' h. cc h }

pub record_used_refresh_hash-Leaves :
    (hash : Text) (id : ℕ) → Leaves otp_codes_of (record_used_refresh_hash hash id)
unfolding record_used_refresh_hash
record_used_refresh_hash-Leaves hash id = record { at = λ t d a d' h. ground arith }

pub set_user_email_verified-Leaves : (id : ℕ) → Leaves otp_codes_of (set_user_email_verified id)
unfolding set_user_email_verified
set_user_email_verified-Leaves id = record { at = λ t d a d' h. cc h }

pub set_user_phone_verified-Leaves : (id : ℕ) → Leaves otp_codes_of (set_user_phone_verified id)
unfolding set_user_phone_verified
set_user_phone_verified-Leaves id = record { at = λ t d a d' h. cc h }

pub assign_role_to_user-Leaves :
    (user_id role_id project_id : ℕ)
    → Leaves otp_codes_of (assign_role_to_user user_id role_id project_id)
unfolding assign_role_to_user
assign_role_to_user-Leaves user_id role_id project_id = record { at = λ t d a d' h. ground arith }

pub take_auth_exchange_code-Leaves :
    (hash : Text) (project_id : ℕ) → Leaves otp_codes_of (take_auth_exchange_code hash project_id)
take_auth_exchange_code-Leaves hash project_id = record {
  at = λ t d a d' h. let (_, _, _, e) = took hash project_id t d d' a h in ap otp_codes_of e;
}

pub create_auth_exchange_code-Leaves :
    (hash : Text) (user_id project_id expires_at : ℕ)
    → Leaves otp_codes_of (create_auth_exchange_code hash user_id project_id expires_at)
unfolding create_auth_exchange_code
create_auth_exchange_code-Leaves hash user_id project_id expires_at = record {
  at = λ t d a d' h. ground arith;
}

pub create_oauth_account-Leaves :
    (user_id : ℕ) (provider sub : Text)
    → Leaves otp_codes_of (create_oauth_account user_id provider sub)
unfolding create_oauth_account
create_oauth_account-Leaves user_id provider sub = record { at = λ t d a d' h. ground arith }

pub take_oauth_state-Leaves : (state : Text) → Leaves otp_codes_of (take_oauth_state state)
take_oauth_state-Leaves state = record {
  at = λ t d a d' h. let (_, e) = state_took state t d d' a h in ap otp_codes_of e;
}

pub create_oauth_state-Leaves :
    (state provider raw : Text) (project_id expires_at : ℕ)
    → Leaves otp_codes_of (create_oauth_state state project_id provider raw expires_at)
unfolding create_oauth_state
create_oauth_state-Leaves state provider raw project_id expires_at = record {
  at = λ t d a d' h. ground arith;
}
