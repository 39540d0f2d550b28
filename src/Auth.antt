-- ===== src/Auth.antt =====
-- backend/internal/auth/dto.go; the flows of backend/internal/auth are in the modules below.
pub mod Issue
pub mod Signup
pub mod Login
pub mod Refresh
pub mod Destination
pub mod OtpRequest
pub mod OtpVerify
pub mod Exchange
pub mod Oauth
pub mod Integrity
use sauth.Prelude.{ℕ, Bool, Option, List}
use sauth.Text.{Text}
use sauth.Env.{Env}
use sauth.Db.{User}

pub record UserDto : Type 0 where
  pub id : Text
  pub email : Option Text
  pub username : Option Text
  pub phone : Option Text
  pub email_verified : Bool
  pub roles : List Text
  pub created_at : ℕ

pub record Result : Type 0 where
  pub access_token : Text
  pub refresh_token : Text
  pub token_type : Text
  pub expires_in : ℕ
  pub user : UserDto

pub record MeResult : Type 0 where
  pub user : UserDto
  pub permissions : List Text

unfoldable pub to_user_dto : Env → User → List Text → UserDto
to_user_dto env u roles = record {
  id = env.uuid_string u.id;
  email = u.email;
  username = u.username;
  phone = u.phone;
  email_verified = u.email_verified;
  roles = roles;
  created_at = u.created_at;
}
