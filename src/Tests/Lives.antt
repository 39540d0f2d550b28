-- ===== src/Tests/Lives.antt =====
-- What stays, whatever else is asked of the server.
use sauth.Prelude.{ℕ, ◌≡◌, ◌≢◌, refl, some, none, List, [], ◌∷◌}
use sauth.Text.{Text, lit}
use sauth.Errors.{ok}
use sauth.Text
use sauth.Db.Table
use sauth.Exec
use sauth.Auth.Destination
use sauth.Text.Hex
use sauth.Db.Users
use sauth.Db.Otp as DbOtp
use sauth.Otp
use sauth.Auth.OtpRequest
use sauth.Token
use sauth.Auth
use sauth.Auth.Issue
use sauth.Db.Rbac
use sauth.Db.Sessions
use sauth.Auth.Signup
use sauth.Auth.OtpVerify
use sauth.Db.{OtpCode, Session}
use sauth.Db.Table.{find, is_null}
use sauth.Db.Otp.{otp_id}
use sauth.Db.Otp.Life.{HasLived}
use sauth.Db.Sessions.{has_hash}
use sauth.Db.Integrity.Statements.{IsKeyed}
use sauth.Token.{hash_refresh_token}
use sauth.Exec.{World}
use sauth.Auth.Refresh.{refresh}
use sauth.Auth.OtpVerify.{verify_otp}
use sauth.Http.Middleware.{HttpRequest, value}
use sauth.Http.Handlers.{OtpVerifyBody}
use sauth.Http.Routes.{
  Route, post_refresh, post_otp_verify, get_google_callback, in_project, answered_all,
}
use sauth.Http.Codes.{codes-HasLived, verify_once}
use sauth.Http.Sessions.{revoked_forever}
use sauth.Tests.{env, start, nobody}
use sauth.Tests.Codes.{asked_result, soon, entered, entered_result, verify_run}

abbrev pub request : HttpRequest
request = record {
  api_key = lit "key";
  api_key_param = [];
  authorization = [];
  redirect_uri = [];
  code = lit "g";
  state = lit "s";
  request_id = lit "r1";
}

abbrev guess : OtpVerifyBody
guess = record { otp_id = 50 ∷ []; code = lit "000001" }

abbrev requests : List (ℕ × HttpRequest × Route)
requests =
    (1_100_000_000, request, in_project (post_otp_verify (value guess)))
    ∷ (1_200_000_000, request, in_project (post_refresh (value (lit "a"))))
    ∷ (1_300_000_000, request, get_google_callback)
    ∷ []

abbrev code : OtpCode
code = record {
  id = 50;
  user_id = none;
  project_id = 1;
  destination = lit "a@x";
  code_hash = lit "00";
  purpose = lit "signup";
  attempts = 4;
  expires_at = 2_000_000_000;
  consumed_at = none;
  created_at = 0;
}

abbrev sent : World
sent = record start { db = record start.db { otp_codes = code ∷ [] } }

code_named : find (otp_id 50) sent.db.otp_codes ≡ some code
unfolding Table.find
code_named = refl

codes-HasLived_example : HasLived 50 code (answered_all env requests sent).db.otp_codes
codes-HasLived_example = codes-HasLived env requests sent 50 code refl code_named

entered_closed : entered.saved ≡ none
unfolding Text.text_eq Text.trim_left Text.trim_right Text.trim_space Text.is_space Text.contains
    Text.to_lower Text.to_lower_rune Text.len Text.rune_len Text.has_prefix Table.find Table.exists
    Table.update_where Table.rows_where Table.join Table.insert_sorted Table.order_by Table.distinct
    Exec.reject_if Exec.◌>>=◌ Exec.call Exec.query Exec.begin Exec.commit Exec.rollback
    Exec.deferred Exec.in_tx Destination.phone_runes Destination.bounded_phone
    Destination.normalize_phone Destination.classify_destination Hex.hex_encode
    Users.get_user_by_email Users.get_user_by_phone DbOtp.latest DbOtp.get_latest_otp_created_at
    DbOtp.create_otp DbOtp.invalidate_active_otps Otp.times_ten Otp.decimal Otp.sprintf_zero_padded
    Otp.generate Otp.hash OtpRequest.user_by_destination OtpRequest.lookup_user_by_destination
    OtpRequest.otp_params OtpRequest.request_in_tx OtpRequest.send_otp OtpRequest.request_known
    OtpRequest.request_last OtpRequest.request_classified OtpRequest.request_otp
    Token.hash_refresh_token Token.new_refresh_token Token.issue_access Auth.to_user_dto
    Issue.mint_access Issue.issue Rbac.permission_names Rbac.role_names
    Rbac.get_user_permission_names Rbac.get_user_role_names Sessions.create_session
    Rbac.get_default_role Rbac.assign_role_to_user Users.create_user Signup.username_of
    Signup.email_of Signup.create Signup.assign_default_role Signup.map_create_user_err
    Hex.from_hex_char Hex.hex_decode Users.set_user_email_verified Users.set_user_phone_verified
    DbOtp.consume_otp DbOtp.get_otp_by_id DbOtp.increment_otp_attempts Otp.equal
    OtpVerify.mark_verified OtpVerify.resolve_user OtpVerify.verify_in_tx OtpVerify.count_attempt
    OtpVerify.lock OtpVerify.check_code OtpVerify.verify_id OtpVerify.verify_otp
entered_closed = refl

verify_once_example :
    (verify_otp env 1 asked_result.otp_id
      (lit "000002")
      (record (answered_all env requests entered) { now = 1_400_000_000 })).0
    ≢ ok nobody
verify_once_example =
    verify_once env 1 1 1_400_000_000 asked_result.otp_id (lit "000002") asked_result.otp_id
      (lit "000002") soon entered entered_result nobody requests verify_run entered_closed refl

abbrev ended : Session
ended = record {
  id = 31;
  user_id = 7;
  refresh_token_hash = lit "61";
  device_info = none;
  ip_address = none;
  expires_at = 9_000_000_000;
  revoked_at = some 900_000_000;
  created_at = 0;
  last_used_at = 0;
}

abbrev left : World
left = record start { db = record start.db { sessions = ended ∷ [] } }

left-IsKeyed : IsKeyed env left.db
unfolding Table.exists
left-IsKeyed = record {
  user_ids = tt;
  user_emails = tt;
  session_ids = (refl, tt);
  session_hashes = (refl, tt);
}

ended_found : find (has_hash (hash_refresh_token env (lit "a"))) left.db.sessions ≡ some ended
unfolding Table.find Text.text_eq Hex.hex_encode Token.hash_refresh_token
ended_found = refl

revoked_forever_example :
    (refresh env (lit "a") (record (answered_all env requests left) { now = 1_400_000_000 })).0
    ≢ ok nobody
revoked_forever_example =
    revoked_forever env (lit "a") ended left requests 1_400_000_000 nobody refl left-IsKeyed
      ended_found refl
