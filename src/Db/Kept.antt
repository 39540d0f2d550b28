-- ===== src/Db/Kept.antt =====
-- What has to be shown of a property of the database for the flows to keep it: the statements that
-- they write with keep it. Those that only read keep every property.
use mathlib.Core.Path.{subst}
use sauth.Prelude.{ℕ, ◌≡◌, sym, Option}
use sauth.Text.{Text}
use sauth.Errors.{ok}
use sauth.Env.{Env}
use sauth.Db.{Db, Stamp, Stmt, Project}
use sauth.Db.Users.{
  CreateUserParams, create_user, set_user_email_verified, set_user_phone_verified,
  get_user_by_login, get_user_by_email, get_user_by_phone, get_user_by_id_only, get_project_by_id,
}
use sauth.Db.Sessions.{
  CreateSessionParams, create_session, rotate_session_refresh_hash, revoke_all_user_sessions,
  revoke_session, record_used_refresh_hash, find_session_by_used_refresh_hash, get_session_by_id,
  get_session_by_refresh_hash,
}
use sauth.Db.Rbac.{
  assign_role_to_user, get_default_role, get_user_role_names, get_user_permission_names,
}
use sauth.Db.Otp.{
  CreateOtpParams, create_otp, consume_otp, increment_otp_attempts, invalidate_active_otps,
  get_latest_otp_created_at, get_otp_by_id,
}
use sauth.Db.Oauth.{
  take_auth_exchange_code, create_auth_exchange_code, create_oauth_account, get_oauth_account,
  take_oauth_state, create_oauth_state,
}
use sauth.Exec.Keeps.{Preserves}
use sauth.Exec.FailSafe.{select-reads}

pub record IsKept (env : Env) (P : Db → Type 0) : Type 0 where
  pub creates_user : (arg : CreateUserParams) → Preserves P (create_user env arg)
  pub creates_session : (arg : CreateSessionParams) → Preserves P (create_session arg)
  pub rotates :
      (new_hash : Text) (expires_at id : ℕ)
      → Preserves P (rotate_session_refresh_hash new_hash expires_at id)
  pub revokes_all : (user_id : ℕ) → Preserves P (revoke_all_user_sessions user_id)
  pub revokes : (id : ℕ) → Preserves P (revoke_session id)
  pub records : (hash : Text) (id : ℕ) → Preserves P (record_used_refresh_hash hash id)
  pub verifies_email : (id : ℕ) → Preserves P (set_user_email_verified id)
  pub verifies_phone : (id : ℕ) → Preserves P (set_user_phone_verified id)
  pub assigns :
      (user_id role_id project_id : ℕ)
      → Preserves P (assign_role_to_user user_id role_id project_id)
  pub creates_otp : (arg : CreateOtpParams) → Preserves P (create_otp arg)
  pub consumes : (id : ℕ) → Preserves P (consume_otp id)
  pub increments : (id : ℕ) → Preserves P (increment_otp_attempts id)
  pub invalidates :
      (project_id : ℕ) (dest purpose : Text)
      → Preserves P (invalidate_active_otps project_id dest purpose)
  pub takes_code :
      (hash : Text) (project_id : ℕ) → Preserves P (take_auth_exchange_code hash project_id)
  pub creates_code :
      (hash : Text) (user_id project_id expires_at : ℕ)
      → Preserves P (create_auth_exchange_code hash user_id project_id expires_at)
  pub creates_account :
      (user_id : ℕ) (provider sub : Text) → Preserves P (create_oauth_account user_id provider sub)
  pub takes_state : (state : Text) → Preserves P (take_oauth_state state)

-- A state is stored for a project and a redirect URI that `Known` admits.
pub record KeepsStates (P : Db → Type 0) (Known : ℕ → Text → Project → Type 0) : Type 0 where
  pub stores :
      (state provider raw : Text) (project_id expires_at : ℕ) (project : Project)
      → Known project_id raw project
      → Preserves P (create_oauth_state state project_id provider raw expires_at)

module _ {A : Type 0} {P : Db → Type 0} where
  -- A statement that hands its database back keeps every property.
  pub Preserves-read :
      (s : Stmt A)
      → ((t : Stamp) (d : Db) (a : A) (d' : Db) → s t d ≡ ok (a, d') → d' ≡ d)
      → Preserves P s
  Preserves-read s reads = record { at = λ t d a d' k h. subst P (sym (reads t d a d' h)) k }

-- The statement leaves what `view` Shows as it was.
pub record Leaves {A V : Type 0} (view : Db → V) (s : Stmt A) : Type 0 where
  pub at : (t : Stamp) (d : Db) (a : A) (d' : Db) → s t d ≡ ok (a, d') → view d' ≡ view d

-- It keeps every property of what it leaves.
pub Preserves-left :
    {A V : Type 0} {view : Db → V} (Q : V → Type 0) (s : Stmt A)
    → Leaves view s
    → Preserves (λ d. Q (view d)) s
Preserves-left Q s l = record { at = λ t d a d' k h. subst Q (sym (l.at t d a d' h)) k }

module _ {P : Db → Type 0} where
  pub get_user_by_login-Preserves :
      (env : Env) (project_id : ℕ) (identifier : Option Text)
      → Preserves P (get_user_by_login env project_id identifier)
  unfolding get_user_by_login
  get_user_by_login-Preserves env project_id identifier =
      Preserves-read _ λ t d a d' h. select-reads _ d a d' h

  pub get_user_by_email-Preserves :
      (env : Env) (project_id : ℕ) (address : Option Text)
      → Preserves P (get_user_by_email env project_id address)
  unfolding get_user_by_email
  get_user_by_email-Preserves env project_id address =
      Preserves-read _ λ t d a d' h. select-reads _ d a d' h

  pub get_user_by_phone-Preserves :
      (env : Env) (project_id : ℕ) (phone : Option Text)
      → Preserves P (get_user_by_phone env project_id phone)
  unfolding get_user_by_phone
  get_user_by_phone-Preserves env project_id phone =
      Preserves-read _ λ t d a d' h. select-reads _ d a d' h

  pub get_user_by_id_only-Preserves :
      (env : Env) (id : ℕ) → Preserves P (get_user_by_id_only env id)
  unfolding get_user_by_id_only
  get_user_by_id_only-Preserves env id = Preserves-read _ λ t d a d' h. select-reads _ d a d' h

  pub get_project_by_id-Preserves : (id : ℕ) → Preserves P (get_project_by_id id)
  unfolding get_project_by_id
  get_project_by_id-Preserves id = Preserves-read _ λ t d a d' h. select-reads _ d a d' h

  pub find_session_by_used_refresh_hash-Preserves :
      (token_hash : Text) → Preserves P (find_session_by_used_refresh_hash token_hash)
  unfolding find_session_by_used_refresh_hash
  find_session_by_used_refresh_hash-Preserves token_hash =
      Preserves-read _ λ t d a d' h. select-reads _ d a d' h

  pub get_session_by_id-Preserves : (id : ℕ) → Preserves P (get_session_by_id id)
  unfolding get_session_by_id
  get_session_by_id-Preserves id = Preserves-read _ λ t d a d' h. select-reads _ d a d' h

  pub get_session_by_refresh_hash-Preserves :
      (refresh_token_hash : Text) → Preserves P (get_session_by_refresh_hash refresh_token_hash)
  unfolding get_session_by_refresh_hash
  get_session_by_refresh_hash-Preserves refresh_token_hash =
      Preserves-read _ λ t d a d' h. select-reads _ d a d' h

  pub get_default_role-Preserves : (project_id : ℕ) → Preserves P (get_default_role project_id)
  unfolding get_default_role
  get_default_role-Preserves project_id = Preserves-read _ λ t d a d' h. select-reads _ d a d' h

  pub get_latest_otp_created_at-Preserves :
      (project_id : ℕ) (destination purpose : Text)
      → Preserves P (get_latest_otp_created_at project_id destination purpose)
  unfolding get_latest_otp_created_at
  get_latest_otp_created_at-Preserves project_id destination purpose =
      Preserves-read _ λ t d a d' h. select-reads _ d a d' h

  pub get_otp_by_id-Preserves : (id : ℕ) → Preserves P (get_otp_by_id id)
  unfolding get_otp_by_id
  get_otp_by_id-Preserves id = Preserves-read _ λ t d a d' h. select-reads _ d a d' h

  pub get_oauth_account-Preserves :
      (provider sub : Text) → Preserves P (get_oauth_account provider sub)
  unfolding get_oauth_account
  get_oauth_account-Preserves provider sub = Preserves-read _ λ t d a d' h. select-reads _ d a d' h

  pub get_user_role_names-Preserves :
      (env : Env) (user_id : ℕ) → Preserves P (get_user_role_names env user_id)
  unfolding get_user_role_names
  get_user_role_names-Preserves env user_id = Preserves-read _ λ t d a d' h. cc h

  pub get_user_permission_names-Preserves :
      (env : Env) (user_id : ℕ) → Preserves P (get_user_permission_names env user_id)
  unfolding get_user_permission_names
  get_user_permission_names-Preserves env user_id = Preserves-read _ λ t d a d' h. cc h

module _ {env : Env} {P : Db → Type 0} where
  pub creates_user_kept :
      IsKept env P → (arg : CreateUserParams) → Preserves P (create_user env arg)
  creates_user_kept kept arg = kept.creates_user arg

  pub creates_session_kept :
      IsKept env P → (arg : CreateSessionParams) → Preserves P (create_session arg)
  creates_session_kept kept arg = kept.creates_session arg

  pub rotates_kept :
      IsKept env P
      → (new_hash : Text) (expires_at id : ℕ)
      → Preserves P (rotate_session_refresh_hash new_hash expires_at id)
  rotates_kept kept new_hash expires_at id = kept.rotates new_hash expires_at id

  pub revokes_all_kept :
      IsKept env P → (user_id : ℕ) → Preserves P (revoke_all_user_sessions user_id)
  revokes_all_kept kept user_id = kept.revokes_all user_id

  pub revokes_kept : IsKept env P → (id : ℕ) → Preserves P (revoke_session id)
  revokes_kept kept id = kept.revokes id

  pub records_kept :
      IsKept env P → (hash : Text) (id : ℕ) → Preserves P (record_used_refresh_hash hash id)
  records_kept kept hash id = kept.records hash id

  pub verifies_email_kept : IsKept env P → (id : ℕ) → Preserves P (set_user_email_verified id)
  verifies_email_kept kept id = kept.verifies_email id

  pub verifies_phone_kept : IsKept env P → (id : ℕ) → Preserves P (set_user_phone_verified id)
  verifies_phone_kept kept id = kept.verifies_phone id

  pub assigns_kept :
      IsKept env P
      → (user_id role_id project_id : ℕ)
      → Preserves P (assign_role_to_user user_id role_id project_id)
  assigns_kept kept user_id role_id project_id = kept.assigns user_id role_id project_id

  pub creates_otp_kept : IsKept env P → (arg : CreateOtpParams) → Preserves P (create_otp arg)
  creates_otp_kept kept arg = kept.creates_otp arg

  pub consumes_kept : IsKept env P → (id : ℕ) → Preserves P (consume_otp id)
  consumes_kept kept id = kept.consumes id

  pub increments_kept : IsKept env P → (id : ℕ) → Preserves P (increment_otp_attempts id)
  increments_kept kept id = kept.increments id

  pub invalidates_kept :
      IsKept env P
      → (project_id : ℕ) (dest purpose : Text)
      → Preserves P (invalidate_active_otps project_id dest purpose)
  invalidates_kept kept project_id dest purpose = kept.invalidates project_id dest purpose

  pub takes_code_kept :
      IsKept env P
      → (hash : Text) (project_id : ℕ) → Preserves P (take_auth_exchange_code hash project_id)
  takes_code_kept kept hash project_id = kept.takes_code hash project_id

  pub creates_code_kept :
      IsKept env P
      → (hash : Text) (user_id project_id expires_at : ℕ)
      → Preserves P (create_auth_exchange_code hash user_id project_id expires_at)
  creates_code_kept kept hash user_id project_id expires_at =
      kept.creates_code hash user_id project_id expires_at

  pub creates_account_kept :
      IsKept env P
      → (user_id : ℕ) (provider sub : Text)
      → Preserves P (create_oauth_account user_id provider sub)
  creates_account_kept kept user_id provider sub = kept.creates_account user_id provider sub

  pub takes_state_kept : IsKept env P → (state : Text) → Preserves P (take_oauth_state state)
  takes_state_kept kept state = kept.takes_state state

pub ruleset read_rules = (
  get_user_by_login-Preserves, get_user_by_email-Preserves, get_user_by_phone-Preserves,
  get_user_by_id_only-Preserves, get_project_by_id-Preserves,
  find_session_by_used_refresh_hash-Preserves, get_session_by_id-Preserves,
  get_session_by_refresh_hash-Preserves, get_default_role-Preserves,
  get_latest_otp_created_at-Preserves, get_otp_by_id-Preserves, get_oauth_account-Preserves,
  get_user_role_names-Preserves, get_user_permission_names-Preserves,
)

pub ruleset write_rules = (
  creates_user_kept, creates_session_kept, rotates_kept, revokes_all_kept, revokes_kept,
  records_kept, verifies_email_kept, verifies_phone_kept, assigns_kept, creates_otp_kept,
  consumes_kept, increments_kept, invalidates_kept, takes_code_kept, creates_code_kept,
  creates_account_kept, takes_state_kept,
)
