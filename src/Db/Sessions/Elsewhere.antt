-- ===== src/Db/Sessions/Elsewhere.antt =====
-- The statements that leave the sessions alone.
use sauth.Prelude.{ℕ, List, ap, arith}
use sauth.Text.{Text}
use sauth.Env.{Env}
use sauth.Db.{Db, Session}
use sauth.Db.Kept.{Leaves}
use sauth.Db.Users.{CreateUserParams, create_user, set_user_email_verified, set_user_phone_verified}
use sauth.Db.Sessions.{record_used_refresh_hash}
use sauth.Db.Rbac.{assign_role_to_user}
use sauth.Db.Otp.{
  CreateOtpParams, create_otp, consume_otp, increment_otp_attempts, invalidate_active_otps,
}
use sauth.Db.Oauth.{
  take_auth_exchange_code, create_auth_exchange_code, create_oauth_account, take_oauth_state,
  create_oauth_state,
}
use sauth.Db.Oauth.Laws.{took, state_took}

abbrev pub sessions_of : Db → List Session
sessions_of d = d.sessions

pub create_user-Leaves :
    (env : Env) (arg : CreateUserParams) → Leaves sessions_of (create_user env arg)
unfolding create_user
create_user-Leaves env arg = record { at = λ t d a d' h. ground arith }

pub record_used_refresh_hash-Leaves :
    (hash : Text) (id : ℕ) → Leaves sessions_of (record_used_refresh_hash hash id)
unfolding record_used_refresh_hash
record_used_refresh_hash-Leaves hash id = record { at = λ t d a d' h. ground arith }

pub set_user_email_verified-Leaves : (id : ℕ) → Leaves sessions_of (set_user_email_verified id)
unfolding set_user_email_verified
set_user_email_verified-Leaves id = record { at = λ t d a d' h. cc h }

pub set_user_phone_verified-Leaves : (id : ℕ) → Leaves sessions_of (set_user_phone_verified id)
unfolding set_user_phone_verified
set_user_phone_verified-Leaves id = record { at = λ t d a d' h. cc h }

pub assign_role_to_user-Leaves :
    (user_id role_id project_id : ℕ)
    → Leaves sessions_of (assign_role_to_user user_id role_id project_id)
unfolding assign_role_to_user
assign_role_to_user-Leaves user_id role_id project_id = record { at = λ t d a d' h. ground arith }

pub create_otp-Leaves : (arg : CreateOtpParams) → Leaves sessions_of (create_otp arg)
unfolding create_otp
create_otp-Leaves arg = record { at = λ t d a d' h. ground arith }

pub consume_otp-Leaves : (id : ℕ) → Leaves sessions_of (consume_otp id)
unfolding consume_otp
consume_otp-Leaves id = record { at = λ t d a d' h. cc h }

pub increment_otp_attempts-Leaves : (id : ℕ) → Leaves sessions_of (increment_otp_attempts id)
unfolding increment_otp_attempts
increment_otp_attempts-Leaves id = record { at = λ t d a d' h. ground arith }

pub invalidate_active_otps-Leaves :
    (project_id : ℕ) (dest purpose : Text)
    → Leaves sessions_of (invalidate_active_otps project_id dest purpose)
unfolding invalidate_active_otps
invalidate_active_otps-Leaves project_id dest purpose = record { at = λ t d a d' h. cc h }

pub take_auth_exchange_code-Leaves :
    (hash : Text) (project_id : ℕ) → Leaves sessions_of (take_auth_exchange_code hash project_id)
take_auth_exchange_code-Leaves hash project_id = record {
  at = λ t d a d' h. let (_, _, _, e) = took hash project_id t d d' a h in ap sessions_of e;
}

pub create_auth_exchange_code-Leaves :
    (hash : Text) (user_id project_id expires_at : ℕ)
    → Leaves sessions_of (create_auth_exchange_code hash user_id project_id expires_at)
unfolding create_auth_exchange_code
create_auth_exchange_code-Leaves hash user_id project_id expires_at = record {
  at = λ t d a d' h. ground arith;
}

pub create_oauth_account-Leaves :
    (user_id : ℕ) (provider sub : Text)
    → Leaves sessions_of (create_oauth_account user_id provider sub)
unfolding create_oauth_account
create_oauth_account-Leaves user_id provider sub = record { at = λ t d a d' h. ground arith }

pub take_oauth_state-Leaves : (state : Text) → Leaves sessions_of (take_oauth_state state)
take_oauth_state-Leaves state = record {
  at = λ t d a d' h. let (_, e) = state_took state t d d' a h in ap sessions_of e;
}

pub create_oauth_state-Leaves :
    (state provider raw : Text) (project_id expires_at : ℕ)
    → Leaves sessions_of (create_oauth_state state project_id provider raw expires_at)
unfolding create_oauth_state
create_oauth_state-Leaves state provider raw project_id expires_at = record {
  at = λ t d a d' h. ground arith;
}
