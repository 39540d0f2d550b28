-- ===== src/Db/Targets.antt =====
-- The statements that leave the projects and the pending sign-ins alone.
use sauth.Prelude.{ℕ, ◌≡◌, ap, arith}
use sauth.Text.{Text}
use sauth.Errors.{ok}
use sauth.Env.{Env}
use sauth.Db.{Db, Stamp, Stmt}
use sauth.Db.Users.{CreateUserParams, create_user, set_user_email_verified, set_user_phone_verified}
use sauth.Db.Sessions.{
  CreateSessionParams, create_session, rotate_session_refresh_hash, revoke_all_user_sessions,
  revoke_session, record_used_refresh_hash,
}
use sauth.Db.Sessions.Laws.{replaced}
use sauth.Db.Rbac.{assign_role_to_user}
use sauth.Db.Otp.{
  CreateOtpParams, create_otp, consume_otp, increment_otp_attempts, invalidate_active_otps,
}
use sauth.Db.Oauth.{take_auth_exchange_code, create_auth_exchange_code, create_oauth_account}
use sauth.Db.Oauth.Laws.{took}

pub record LeavesTargets {A : Type 0} (s : Stmt A) : Type 0 where
  pub at :
      (t : Stamp) (d : Db) (a : A) (d' : Db)
      → s t d ≡ ok (a, d')
      → (d'.projects ≡ d.projects) × (d'.oauth_states ≡ d.oauth_states)

pub create_user-LeavesTargets :
    (env : Env) (arg : CreateUserParams) → LeavesTargets (create_user env arg)
unfolding create_user
create_user-LeavesTargets env arg = record { at = λ t d a d' h. (ground arith, ground arith) }

pub create_session-LeavesTargets : (arg : CreateSessionParams) → LeavesTargets (create_session arg)
unfolding create_session
create_session-LeavesTargets arg = record { at = λ t d a d' h. (ground arith, ground arith) }

pub rotate_session_refresh_hash-LeavesTargets :
    (new_hash : Text) (expires_at id : ℕ)
    → LeavesTargets (rotate_session_refresh_hash new_hash expires_at id)
rotate_session_refresh_hash-LeavesTargets new_hash expires_at id = record {
  at = λ t d a d' h.
      let (_, _, _, e) = replaced new_hash expires_at id t d d' a h in
      (ap (λ (b : Db). b.projects) e, ap (λ (b : Db). b.oauth_states) e);
}

pub revoke_all_user_sessions-LeavesTargets :
    (user_id : ℕ) → LeavesTargets (revoke_all_user_sessions user_id)
unfolding revoke_all_user_sessions
revoke_all_user_sessions-LeavesTargets user_id = record { at = λ t d a d' h. (cc h, cc h) }

pub revoke_session-LeavesTargets : (id : ℕ) → LeavesTargets (revoke_session id)
unfolding revoke_session
revoke_session-LeavesTargets id = record { at = λ t d a d' h. (cc h, cc h) }

pub record_used_refresh_hash-LeavesTargets :
    (hash : Text) (id : ℕ) → LeavesTargets (record_used_refresh_hash hash id)
unfolding record_used_refresh_hash
record_used_refresh_hash-LeavesTargets hash id = record {
  at = λ t d a d' h. (ground arith, ground arith);
}

pub set_user_email_verified-LeavesTargets : (id : ℕ) → LeavesTargets (set_user_email_verified id)
unfolding set_user_email_verified
set_user_email_verified-LeavesTargets id = record { at = λ t d a d' h. (cc h, cc h) }

pub set_user_phone_verified-LeavesTargets : (id : ℕ) → LeavesTargets (set_user_phone_verified id)
unfolding set_user_phone_verified
set_user_phone_verified-LeavesTargets id = record { at = λ t d a d' h. (cc h, cc h) }

pub assign_role_to_user-LeavesTargets :
    (user_id role_id project_id : ℕ)
    → LeavesTargets (assign_role_to_user user_id role_id project_id)
unfolding assign_role_to_user
assign_role_to_user-LeavesTargets user_id role_id project_id = record {
  at = λ t d a d' h. (ground arith, ground arith);
}

pub create_otp-LeavesTargets : (arg : CreateOtpParams) → LeavesTargets (create_otp arg)
unfolding create_otp
create_otp-LeavesTargets arg = record { at = λ t d a d' h. (ground arith, ground arith) }

pub consume_otp-LeavesTargets : (id : ℕ) → LeavesTargets (consume_otp id)
unfolding consume_otp
consume_otp-LeavesTargets id = record { at = λ t d a d' h. (cc h, cc h) }

pub increment_otp_attempts-LeavesTargets : (id : ℕ) → LeavesTargets (increment_otp_attempts id)
unfolding increment_otp_attempts
increment_otp_attempts-LeavesTargets id = record { at = λ t d a d' h. (ground arith, ground arith) }

pub invalidate_active_otps-LeavesTargets :
    (project_id : ℕ) (dest purpose : Text)
    → LeavesTargets (invalidate_active_otps project_id dest purpose)
unfolding invalidate_active_otps
invalidate_active_otps-LeavesTargets project_id dest purpose = record {
  at = λ t d a d' h. (cc h, cc h);
}

pub take_auth_exchange_code-LeavesTargets :
    (hash : Text) (project_id : ℕ) → LeavesTargets (take_auth_exchange_code hash project_id)
take_auth_exchange_code-LeavesTargets hash project_id = record {
  at = λ t d a d' h.
      let (_, _, _, e) = took hash project_id t d d' a h in
      (ap (λ (b : Db). b.projects) e, ap (λ (b : Db). b.oauth_states) e);
}

pub create_auth_exchange_code-LeavesTargets :
    (hash : Text) (user_id project_id expires_at : ℕ)
    → LeavesTargets (create_auth_exchange_code hash user_id project_id expires_at)
unfolding create_auth_exchange_code
create_auth_exchange_code-LeavesTargets hash user_id project_id expires_at = record {
  at = λ t d a d' h. (ground arith, ground arith);
}

pub create_oauth_account-LeavesTargets :
    (user_id : ℕ) (provider sub : Text) → LeavesTargets (create_oauth_account user_id provider sub)
unfolding create_oauth_account
create_oauth_account-LeavesTargets user_id provider sub = record {
  at = λ t d a d' h. (ground arith, ground arith);
}
