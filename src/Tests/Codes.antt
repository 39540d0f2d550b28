-- ===== src/Tests/Codes.antt =====
-- Asking for one-time codes, and verifying them.
use sauth.Prelude.{◌≡◌, ◌≢◌, refl, true, false, none, some, List, [], ◌∷◌, arith}
use sauth.Text.{Text, lit, trim_space}
use sauth.Errors.{ok, err, otp_invalid, otp_throttled}
use sauth.Text
use sauth.Db.Table
use sauth.Exec
use sauth.Auth.Destination
use sauth.Text.Hex
use sauth.Db.Users
use sauth.Db.Otp as DbOtp
use sauth.Otp
use sauth.Auth.OtpRequest
use sauth.Token
use sauth.Auth
use sauth.Auth.Issue
use sauth.Db.Rbac
use sauth.Db.Sessions
use sauth.Auth.Signup
use sauth.Auth.OtpVerify
use sauth.Db.{OtpCode}
use sauth.Db.Table.{find}
use sauth.Db.Otp.{otp_id}
use sauth.Exec.{World}
use sauth.Exec.Runs.{IsHealthy}
use sauth.Auth.{Result}
use sauth.Auth.OtpRequest.{OtpRequestInput, OtpRequestResult, request_otp}
use sauth.Auth.OtpRequest.Rules.{IsRequested, request-creates}
use sauth.Tests.Values.{random_below-less}
use sauth.Auth.OtpVerify.{verify_otp, is_foreign_or_used, is_expired}
use sauth.Auth.OtpVerify.Success.{IsVerified, verify-admits}
use sauth.Auth.OtpVerify.Atomicity.{without_codes, verify-atomic}
use sauth.Auth.OtpVerify.Attempts.{missed, verify-counts}
use sauth.Auth.OtpVerify.Lockout.{Guess, guessed, AreWrong, guessing_ends}
use sauth.Tests.{env, start, result, nobody}

env-IsHealthy : IsHealthy env
env-IsHealthy n = refl

abbrev asked : OtpRequestInput
asked = record {
  project_id = 1;
  otp_enabled = true;
  destination = lit "+49 (151) 123-4567";
  purpose = lit "signup";
}

abbrev asked_world : World
asked_world = (request_otp env asked start).1

abbrev pub asked_result : OtpRequestResult
asked_result = result (request_otp env asked start).0 (record { otp_id = []; expires_at = 0 })

request_run : request_otp env asked start ≡ (ok asked_result, asked_world)
unfolding Text.text_eq Text.trim_left Text.trim_right Text.trim_space Text.is_space Text.contains
    Text.to_lower Text.to_lower_rune Text.len Text.rune_len Text.has_prefix Table.find Table.exists
    Table.update_where Table.rows_where Table.join Table.insert_sorted Table.order_by Table.distinct
    Exec.reject_if Exec.◌>>=◌ Exec.call Exec.query Exec.begin Exec.commit Exec.rollback
    Exec.deferred Exec.in_tx Destination.phone_runes Destination.bounded_phone
    Destination.normalize_phone Destination.classify_destination Hex.hex_encode
    Users.get_user_by_email Users.get_user_by_phone DbOtp.latest DbOtp.get_latest_otp_created_at
    DbOtp.create_otp DbOtp.invalidate_active_otps Otp.times_ten Otp.decimal Otp.sprintf_zero_padded
    Otp.generate Otp.hash OtpRequest.user_by_destination OtpRequest.lookup_user_by_destination
    OtpRequest.otp_params OtpRequest.request_in_tx OtpRequest.send_otp OtpRequest.request_known
    OtpRequest.request_last OtpRequest.request_classified OtpRequest.request_otp
request_run = refl

request-creates_example : IsRequested env asked start asked_result asked_world
request-creates_example =
    request-creates env random_below-less asked start asked_world asked_result request_run

-- The same again, one second later.
abbrev pub soon : World
soon = record asked_world { now = 1_001_000_000 }

throttled_run : (request_otp env asked soon).0 ≡ err otp_throttled
unfolding Text.text_eq Text.trim_left Text.trim_right Text.trim_space Text.is_space Text.contains
    Text.to_lower Text.to_lower_rune Text.len Text.rune_len Text.has_prefix Table.find Table.exists
    Table.update_where Table.rows_where Table.join Table.insert_sorted Table.order_by Table.distinct
    Exec.reject_if Exec.◌>>=◌ Exec.call Exec.query Exec.begin Exec.commit Exec.rollback
    Exec.deferred Exec.in_tx Destination.phone_runes Destination.bounded_phone
    Destination.normalize_phone Destination.classify_destination Hex.hex_encode
    Users.get_user_by_email Users.get_user_by_phone DbOtp.latest DbOtp.get_latest_otp_created_at
    DbOtp.create_otp DbOtp.invalidate_active_otps Otp.times_ten Otp.decimal Otp.sprintf_zero_padded
    Otp.generate Otp.hash OtpRequest.user_by_destination OtpRequest.lookup_user_by_destination
    OtpRequest.otp_params OtpRequest.request_in_tx OtpRequest.send_otp OtpRequest.request_known
    OtpRequest.request_last OtpRequest.request_classified OtpRequest.request_otp
throttled_run = refl

abbrev pub entered : World
entered = (verify_otp env 1 asked_result.otp_id (lit "000002") soon).1

abbrev pub entered_result : Result
entered_result = result (verify_otp env 1 asked_result.otp_id (lit "000002") soon).0 nobody

pub verify_run :
    verify_otp env 1 asked_result.otp_id (lit "000002") soon ≡ (ok entered_result, entered)
unfolding Text.text_eq Text.trim_left Text.trim_right Text.trim_space Text.is_space Text.contains
    Text.to_lower Text.to_lower_rune Text.len Text.rune_len Text.has_prefix Table.find Table.exists
    Table.update_where Table.rows_where Table.join Table.insert_sorted Table.order_by Table.distinct
    Exec.reject_if Exec.◌>>=◌ Exec.call Exec.query Exec.begin Exec.commit Exec.rollback
    Exec.deferred Exec.in_tx Destination.phone_runes Destination.bounded_phone
    Destination.normalize_phone Destination.classify_destination Hex.hex_encode
    Users.get_user_by_email Users.get_user_by_phone DbOtp.latest DbOtp.get_latest_otp_created_at
    DbOtp.create_otp DbOtp.invalidate_active_otps Otp.times_ten Otp.decimal Otp.sprintf_zero_padded
    Otp.generate Otp.hash OtpRequest.user_by_destination OtpRequest.lookup_user_by_destination
    OtpRequest.otp_params OtpRequest.request_in_tx OtpRequest.send_otp OtpRequest.request_known
    OtpRequest.request_last OtpRequest.request_classified OtpRequest.request_otp
    Token.hash_refresh_token Token.new_refresh_token Token.issue_access Auth.to_user_dto
    Issue.mint_access Issue.issue Rbac.permission_names Rbac.role_names
    Rbac.get_user_permission_names Rbac.get_user_role_names Sessions.create_session
    Rbac.get_default_role Rbac.assign_role_to_user Users.create_user Signup.username_of
    Signup.email_of Signup.create Signup.assign_default_role Signup.map_create_user_err
    Hex.from_hex_char Hex.hex_decode Users.set_user_email_verified Users.set_user_phone_verified
    DbOtp.consume_otp DbOtp.get_otp_by_id DbOtp.increment_otp_attempts Otp.equal
    OtpVerify.mark_verified OtpVerify.resolve_user OtpVerify.verify_in_tx OtpVerify.count_attempt
    OtpVerify.lock OtpVerify.check_code OtpVerify.verify_id OtpVerify.verify_otp
verify_run = refl

verify-admits_example :
    IsVerified env 1 asked_result.otp_id
      (lit "000002")
      1_001_000_000
      soon.db
      entered_result
      entered.db
verify-admits_example =
    verify-admits env 1 asked_result.otp_id (lit "000002") soon entered entered_result verify_run

mistyped_run : (verify_otp env 1 asked_result.otp_id (lit "000003") soon).0 ≡ err otp_invalid
unfolding Text.text_eq Text.trim_left Text.trim_right Text.trim_space Text.is_space Text.contains
    Text.to_lower Text.to_lower_rune Text.len Text.rune_len Text.has_prefix Table.find Table.exists
    Table.update_where Table.rows_where Table.join Table.insert_sorted Table.order_by Table.distinct
    Exec.reject_if Exec.◌>>=◌ Exec.call Exec.query Exec.begin Exec.commit Exec.rollback
    Exec.deferred Exec.in_tx Destination.phone_runes Destination.bounded_phone
    Destination.normalize_phone Destination.classify_destination Hex.hex_encode
    Users.get_user_by_email Users.get_user_by_phone DbOtp.latest DbOtp.get_latest_otp_created_at
    DbOtp.create_otp DbOtp.invalidate_active_otps Otp.times_ten Otp.decimal Otp.sprintf_zero_padded
    Otp.generate Otp.hash OtpRequest.user_by_destination OtpRequest.lookup_user_by_destination
    OtpRequest.otp_params OtpRequest.request_in_tx OtpRequest.send_otp OtpRequest.request_known
    OtpRequest.request_last OtpRequest.request_classified OtpRequest.request_otp
    Token.hash_refresh_token Token.new_refresh_token Token.issue_access Auth.to_user_dto
    Issue.mint_access Issue.issue Rbac.permission_names Rbac.role_names
    Rbac.get_user_permission_names Rbac.get_user_role_names Sessions.create_session
    Rbac.get_default_role Rbac.assign_role_to_user Users.create_user Signup.username_of
    Signup.email_of Signup.create Signup.assign_default_role Signup.map_create_user_err
    Hex.from_hex_char Hex.hex_decode Users.set_user_email_verified Users.set_user_phone_verified
    DbOtp.consume_otp DbOtp.get_otp_by_id DbOtp.increment_otp_attempts Otp.equal
    OtpVerify.mark_verified OtpVerify.resolve_user OtpVerify.verify_in_tx OtpVerify.count_attempt
    OtpVerify.lock OtpVerify.check_code OtpVerify.verify_id OtpVerify.verify_otp
mistyped_run = refl

verify-atomic_example :
    without_codes (verify_otp env 1 asked_result.otp_id (lit "000003") soon).1.db
    ≡ without_codes soon.db
verify-atomic_example =
    verify-atomic env 1 asked_result.otp_id (lit "000003") soon otp_invalid mistyped_run

-- A code with one wrong attempt.
abbrev pub code : OtpCode
code = record {
  id = 50;
  user_id = none;
  project_id = 1;
  destination = lit "ada@x.io";
  code_hash = Otp.hash env (lit "123456");
  purpose = lit "login";
  attempts = 1;
  expires_at = 1_200_000_000;
  consumed_at = none;
  created_at = 0;
}

abbrev guessing : World
guessing = record start { db = record start.db { otp_codes = code ∷ [] } }

abbrev pub code_id : Text
code_id = 50 ∷ []

pub code_parsed : env.parse_uuid (trim_space code_id) ≡ some 50
unfolding Text.text_eq Text.trim_left Text.trim_right Text.trim_space Text.is_space
code_parsed = refl

code_named : find (otp_id 50) guessing.db.otp_codes ≡ some code
unfolding Text.text_eq Table.find Table.exists Hex.hex_encode Token.hash_refresh_token
code_named = refl

code_wrong : Otp.equal env (trim_space (lit "123450")) code.code_hash ≡ false
unfolding Text.text_eq Text.trim_left Text.trim_right Text.trim_space Text.is_space Hex.hex_encode
    Hex.from_hex_char Hex.hex_decode Otp.hash Otp.equal
code_wrong = refl

verify-counts_example :
    ((verify_otp env 1 code_id (lit "123450") guessing).0 ≡ err otp_invalid)
    × ((verify_otp env 1 code_id (lit "123450") guessing).1.db
        ≡ record guessing.db { otp_codes = missed 50 1 guessing.now guessing.db.otp_codes })
verify-counts_example =
    verify-counts env env-IsHealthy 1 code_id (lit "123450") 50 guessing code code_parsed code_named
      refl refl (omega arith) code_wrong

abbrev guess : Guess
guess = record { time = 1_100_000_000; code = lit "123450" }

abbrev guesses : List Guess
guesses = guess ∷ guess ∷ guess ∷ guess ∷ guess ∷ []

guesses-AreWrong : AreWrong env env-IsHealthy code_id 50 code_parsed code guesses
guesses-AreWrong = (
  code_wrong,
  omega arith,
  (
    code_wrong,
    omega arith,
    (code_wrong, omega arith, (code_wrong, omega arith, (code_wrong, omega arith, tt))),
  ),
)

-- The right code comes after five wrong ones.
guessing_ends_example :
    (verify_otp env 1 code_id
      (lit "123456")
      (record (guessed env env-IsHealthy code_id 50 code_parsed code guesses guessing) {
        now = 1_150_000_000;
      })).0
    ≢ ok nobody
guessing_ends_example =
    guessing_ends env env-IsHealthy code_id 50 code_parsed code guesses guessing code_named
      guesses-AreWrong (omega arith) 1 (lit "123456") 1_150_000_000 nobody
