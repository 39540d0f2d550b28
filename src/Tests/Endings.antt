-- ===== src/Tests/Endings.antt =====
-- Logging out, and the profile after a signup by e-mail code.
use sauth.Prelude.{◌≡◌, ◌≢◌, refl, true, false, none, some, [], ◌∷◌}
use sauth.Text.{Text, lit, text_eq, trim_space}
use sauth.Errors.{ok}
use sauth.Text
use sauth.Db.Table
use sauth.Exec
use sauth.Text.Hex
use sauth.Token
use sauth.Auth
use sauth.Auth.Issue
use sauth.Db.Rbac
use sauth.Db.Sessions
use sauth.Db.Users
use sauth.Auth.Refresh
use sauth.Auth.Destination
use sauth.Db.Otp as DbOtp
use sauth.Otp
use sauth.Auth.OtpRequest
use sauth.Auth.Signup
use sauth.Auth.OtpVerify
use sauth.Env.{email}
use sauth.Db.{OtpCode}
use sauth.Db.Table.{find, DistinctBy}
use sauth.Db.Sessions.{has_hash}
use sauth.Db.Otp.{otp_id}
use sauth.Token.{hash_refresh_token}
use sauth.Exec.{World}
use sauth.Auth.{Result}
use sauth.Auth.Refresh.{logout, refresh}
use sauth.Auth.Refresh.Ending.{ended, logout_ends}
use sauth.Auth.OtpRequest.{signup_purpose}
use sauth.Auth.Destination.{classify_destination}
use sauth.Auth.OtpVerify.{verify_otp}
use sauth.Auth.OtpVerify.Profile.{IsStale, verify-IsStale}
use sauth.Tests.{env, start, result, nobody}
use sauth.Tests.Refreshes.{before, token_1, before-ids}

abbrev gone : World
gone = (logout env token_1 before).1

logout_run : logout env token_1 before ≡ (ok tt, gone)
unfolding Text.text_eq Text.trim_left Text.trim_right Text.trim_space Text.is_space Text.contains
    Text.to_lower Text.to_lower_rune Text.len Text.rune_len Text.has_prefix Table.find Table.exists
    Table.update_where Table.rows_where Table.join Table.insert_sorted Table.order_by Table.distinct
    Exec.reject_if Exec.◌>>=◌ Exec.call Exec.query Exec.begin Exec.commit Exec.rollback
    Exec.deferred Exec.in_tx Hex.hex_encode Token.hash_refresh_token Token.new_refresh_token
    Token.issue_access Auth.to_user_dto Issue.mint_access Issue.issue Rbac.permission_names
    Rbac.role_names Rbac.get_user_permission_names Rbac.get_user_role_names Sessions.create_session
    Users.get_user_by_id_only Sessions.find_session_by_used_refresh_hash Sessions.get_session_by_id
    Sessions.get_session_by_refresh_hash Sessions.record_used_refresh_hash
    Sessions.revoke_all_user_sessions Sessions.rotate_session_refresh_hash Refresh.not_current
    Refresh.rotate_session Refresh.renew Refresh.refresh_in_tx Refresh.refresh
    Sessions.revoke_session Refresh.logout
logout_run = refl

token_given : text_eq (trim_space token_1) [] ≡ false
unfolding Text.text_eq Text.trim_left Text.trim_right Text.trim_space Text.is_space
token_given = refl

logout_ends_example :
    (gone.db ≡ record before.db {
      sessions =
          ended before.now
            (find (has_hash (hash_refresh_token env token_1)) before.db.sessions)
            before.db.sessions;
    })
    × ((u : World) (res : Result) → u.db ≡ gone.db → (refresh env token_1 u).0 ≢ ok res)
logout_ends_example = logout_ends env token_1 before gone tt token_given before-ids logout_run

-- A code for a signup.
abbrev pub code : OtpCode
code = record {
  id = 50;
  user_id = none;
  project_id = 1;
  destination = lit "a@x";
  code_hash = Otp.hash env (lit "12");
  purpose = lit "signup";
  attempts = 0;
  expires_at = 1_200_000_000;
  consumed_at = none;
  created_at = 0;
}

abbrev invited : World
invited = record start { db = record start.db { otp_codes = code ∷ [] } }

abbrev pub code_id : Text
code_id = 50 ∷ []

abbrev arrived : World
arrived = (verify_otp env 1 code_id (lit "12") invited).1

abbrev arrived_result : Result
arrived_result = result (verify_otp env 1 code_id (lit "12") invited).0 nobody

arrived_run : verify_otp env 1 code_id (lit "12") invited ≡ (ok arrived_result, arrived)
unfolding Text.text_eq Text.trim_left Text.trim_right Text.trim_space Text.is_space Text.contains
    Text.to_lower Text.to_lower_rune Text.len Text.rune_len Text.has_prefix Table.find Table.exists
    Table.update_where Table.rows_where Table.join Table.insert_sorted Table.order_by Table.distinct
    Exec.reject_if Exec.◌>>=◌ Exec.call Exec.query Exec.begin Exec.commit Exec.rollback
    Exec.deferred Exec.in_tx Destination.phone_runes Destination.bounded_phone
    Destination.normalize_phone Destination.classify_destination Hex.hex_encode
    Users.get_user_by_email Users.get_user_by_phone DbOtp.latest DbOtp.get_latest_otp_created_at
    DbOtp.create_otp DbOtp.invalidate_active_otps Otp.times_ten Otp.decimal Otp.sprintf_zero_padded
    Otp.generate Otp.hash OtpRequest.user_by_destination OtpRequest.lookup_user_by_destination
    OtpRequest.otp_params OtpRequest.request_in_tx OtpRequest.send_otp OtpRequest.request_known
    OtpRequest.request_last OtpRequest.request_classified OtpRequest.request_otp
    Token.hash_refresh_token Token.new_refresh_token Token.issue_access Auth.to_user_dto
    Issue.mint_access Issue.issue Rbac.permission_names Rbac.role_names
    Rbac.get_user_permission_names Rbac.get_user_role_names Sessions.create_session
    Rbac.get_default_role Rbac.assign_role_to_user Users.create_user Signup.username_of
    Signup.email_of Signup.create Signup.assign_default_role Signup.map_create_user_err
    Hex.from_hex_char Hex.hex_decode Users.set_user_email_verified Users.set_user_phone_verified
    DbOtp.consume_otp DbOtp.get_otp_by_id DbOtp.increment_otp_attempts Otp.equal
    OtpVerify.mark_verified OtpVerify.resolve_user OtpVerify.verify_in_tx OtpVerify.count_attempt
    OtpVerify.lock OtpVerify.check_code OtpVerify.verify_id OtpVerify.verify_otp
arrived_run = refl

pub code_parsed : env.parse_uuid (trim_space code_id) ≡ some 50
unfolding Text.text_eq Text.trim_left Text.trim_right Text.trim_space Text.is_space
code_parsed = refl

code_named : find (otp_id 50) invited.db.otp_codes ≡ some code
unfolding Text.text_eq Table.find Table.exists Hex.hex_encode Token.hash_refresh_token
code_named = refl

code_signs : text_eq code.purpose signup_purpose ≡ true
unfolding Text.text_eq Text.trim_left Text.trim_right Text.trim_space Text.is_space
code_signs = refl

code_mail : classify_destination env code.destination ≡ ok (email, lit "a@x")
unfolding Text.text_eq Text.trim_left Text.trim_right Text.trim_space Text.is_space Text.contains
    Text.to_lower Text.to_lower_rune Destination.classify_destination
code_mail = refl

verify-IsStale_example : IsStale env arrived_result arrived.db
verify-IsStale_example =
    verify-IsStale env 1 code_id (lit "12") 50 code (lit "a@x") invited arrived arrived_result
      code_parsed code_named code_signs code_mail arrived_run
