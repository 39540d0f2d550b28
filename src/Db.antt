-- ===== src/Db.antt =====
-- The rows of the database (backend/internal/db/models.go, with the tables of
-- backend/migrations/0001_init.up.sql and 0002_refresh_token_history.up.sql). A UUID is a number,
-- a time is in microseconds since the epoch, and a nullable column is an `Option`.
-- The queries are in the modules below.
pub mod Table
pub mod Kept
pub mod Targets
pub mod Integrity
pub mod Users
pub mod Sessions
pub mod Rbac
pub mod Otp
pub mod Oauth
use sauth.Prelude.{ℕ, Bool, Option, List}
use sauth.Text.{Text}
use sauth.Errors.{Outcome, ok, ◌>>=◌}

pub record User : Type 0 where
  pub id : ℕ
  pub project_id : ℕ
  pub email : Option Text
  pub username : Option Text
  pub phone : Option Text
  pub password_hash : Option Text
  pub email_verified : Bool
  pub phone_verified : Bool
  pub banned : Bool
  pub metadata : Text
  pub created_at : ℕ
  pub updated_at : ℕ

pub record Session : Type 0 where
  pub id : ℕ
  pub user_id : ℕ
  pub refresh_token_hash : Text
  pub device_info : Option Text
  pub ip_address : Option Text
  pub expires_at : ℕ
  pub revoked_at : Option ℕ
  pub created_at : ℕ
  pub last_used_at : ℕ

pub record RefreshTokenHistory : Type 0 where
  pub token_hash : Text
  pub session_id : ℕ
  pub used_at : ℕ

pub record OtpCode : Type 0 where
  pub id : ℕ
  pub user_id : Option ℕ
  pub project_id : ℕ
  pub destination : Text
  pub code_hash : Text
  pub purpose : Text
  pub attempts : ℕ
  pub expires_at : ℕ
  pub consumed_at : Option ℕ
  pub created_at : ℕ

pub record Role : Type 0 where
  pub id : ℕ
  pub project_id : ℕ
  pub name : Text
  pub description : Option Text
  pub is_default : Bool
  pub created_at : ℕ

pub record Permission : Type 0 where
  pub id : ℕ
  pub project_id : ℕ
  pub name : Text
  pub description : Option Text
  pub created_at : ℕ

pub record RolePermission : Type 0 where
  pub role_id : ℕ
  pub permission_id : ℕ
  pub project_id : ℕ

pub record UserRole : Type 0 where
  pub user_id : ℕ
  pub role_id : ℕ
  pub project_id : ℕ

pub record Project : Type 0 where
  pub id : ℕ
  pub org_id : ℕ
  pub name : Text
  pub environment : Text
  pub api_key : Text
  pub api_secret_hash : Text
  pub allowed_origins : List Text
  pub otp_enabled : Bool
  pub google_oauth_client_id : Option Text
  pub google_oauth_client_secret_enc : Option Text
  pub google_oauth_redirect_uri : Option Text
  pub access_token_ttl_seconds : ℕ
  pub refresh_token_ttl_seconds : ℕ
  pub created_at : ℕ
  pub updated_at : ℕ

pub record OauthAccount : Type 0 where
  pub id : ℕ
  pub user_id : ℕ
  pub provider : Text
  pub provider_user_id : Text
  pub access_token_enc : Option Text
  pub refresh_token_enc : Option Text
  pub created_at : ℕ

pub record OauthState : Type 0 where
  pub state : Text
  pub project_id : ℕ
  pub provider : Text
  pub redirect_uri : Text
  pub created_at : ℕ
  pub expires_at : ℕ

pub record AuthExchangeCode : Type 0 where
  pub code_hash : Text
  pub user_id : ℕ
  pub project_id : ℕ
  pub created_at : ℕ
  pub expires_at : ℕ
  pub consumed_at : Option ℕ

pub record Db : Type 0 where
  pub projects : List Project
  pub users : List User
  pub sessions : List Session
  pub refresh_token_history : List RefreshTokenHistory
  pub otp_codes : List OtpCode
  pub roles : List Role
  pub permissions : List Permission
  pub role_permissions : List RolePermission
  pub user_roles : List UserRole
  pub oauth_accounts : List OauthAccount
  pub oauth_states : List OauthState
  pub auth_exchange_codes : List AuthExchangeCode

-- What one statement is given: the UUID that gen_random_uuid() would return, and now().
pub record Stamp : Type 0 where
  pub uuid : ℕ
  pub now : ℕ

-- One SQL statement. A statement that fails changes nothing, since only `ok` carries a database.
abbrev pub Stmt : Type 0 → Type 0
Stmt A = Stamp → Db → Outcome (A × Db)

-- A query that only reads.
abbrev pub select : {A : Type 0} → Outcome A → Db → Outcome (A × Db)
select r d = r >>= λ a. ok (a, d)
