-- ===== src/Tests/Successes.antt =====
-- Sign-ins that succeed.
use sauth.Prelude.{ℕ, ◌+◌, ◌≡◌, refl, true, false, Option, none, some, [], ◌∷◌, ◌++◌, ◌≤◌, arith}
use sauth.Text.{Text, lit, trim_space}
use sauth.Errors.{ok}
use sauth.Text
use sauth.Db.Table
use sauth.Text.Hex
use sauth.Token
use sauth.Auth.Signup
use sauth.Otp
use sauth.Auth.Destination
use sauth.Db.Otp as DbOtp
use sauth.Env.{Env, email}
use sauth.Db.{User}
use sauth.Db.Table.{find, exists}
use sauth.Db.Sessions.{has_hash, has_id}
use sauth.Db.Otp.{otp_id, latest, same_request}
use sauth.Token.{hash_refresh_token}
use sauth.Exec.{World}
use sauth.Auth.{Result}
use sauth.Auth.Issue.Returns.{IsFresh}
use sauth.Auth.Signup.{signup}
use sauth.Auth.Signup.Returns.{signup_returns}
use sauth.Auth.Login.{login}
use sauth.Auth.Login.Returns.{login_returns}
use sauth.Auth.Refresh.{refresh}
use sauth.Auth.Refresh.Returns.{refresh_returns}
use sauth.Auth.Destination.{classify_destination}
use sauth.Auth.OtpVerify.{verify_otp}
use sauth.Auth.OtpVerify.Returns.{IsWelcome, owner, newcomer, verify_returns}
use sauth.Auth.OtpVerify.Sent.{sent_signs_in}
use sauth.Auth.OtpRequest.{OtpRequestInput, OtpRequestResult, otp_resend_window, request_otp}
use sauth.Auth.OtpRequest.Steps.{message}
use sauth.Tests.{env, start}
use sauth.Tests.Values.{otp_mac-AreBytes}
use sauth.Tests.Codes.{code, code_id, code_parsed}
use sauth.Tests.Passwords.{ada}
use sauth.Tests.Refreshes.{env-IsHealthy, before, user, token_1, session, before-ids}

unused :
    (n : ℕ)
    → exists (has_hash (hash_refresh_token env (env.random n 32))) before.db.sessions ≡ false
unfolding Text.text_eq Table.find Table.exists Hex.hex_encode Token.hash_refresh_token
unused n = refl

refresh_returns_example : (res : Result) × ((refresh env token_1 before).0 ≡ ok res)
unfolding Text.text_eq Text.trim_left Text.trim_right Text.trim_space Text.is_space Text.to_lower
    Text.to_lower_rune Table.find Table.exists Hex.hex_encode Token.hash_refresh_token
refresh_returns_example =
    refresh_returns env env-IsHealthy token_1 before (session 31 (lit "61")) user refl refl refl
      (ground arith) before-ids refl refl unused

-- The stored hash is that of "pass".
abbrev owner_row : User
owner_row = record user { password_hash = some (1 ∷ lit "pass") }

abbrev enrolled : World
enrolled = record before { db = record before.db { users = owner_row ∷ [] } }

new_ids : (n : ℕ) → exists (has_id (env.uuid n)) enrolled.db.sessions ≡ false
unfolding exists
new_ids n = ground arith

enrolled-IsFresh : IsFresh env enrolled.db
enrolled-IsFresh = record { ids = new_ids; hashes = unused }

login_returns_example :
    (res : Result) × ((login env 1 (lit "ada@x.io") (lit "pass") enrolled).0 ≡ ok res)
unfolding Text.text_eq Text.trim_left Text.trim_right Text.trim_space Text.is_space Text.to_lower
    Text.to_lower_rune Table.find Table.exists Hex.hex_encode Token.hash_refresh_token
login_returns_example =
    login_returns env env-IsHealthy 1 (lit "ada@x.io") (lit "pass") (1 ∷ lit "pass") enrolled
      owner_row refl refl refl refl refl enrolled-IsFresh

signup_returns_example : (res : Result) × ((signup env ada start).0 ≡ ok res)
unfolding Text.text_eq Text.trim_left Text.trim_right Text.trim_space Text.is_space Text.to_lower
    Text.to_lower_rune Table.find Table.exists Hex.hex_encode Token.hash_refresh_token Text.contains
    Text.len Text.rune_len Signup.email_of Signup.username_of
signup_returns_example =
    signup_returns env env-IsHealthy ada start refl (ground arith) (ground arith) refl refl refl
      (λ n. refl) (record { ids = λ n. refl; hashes = λ n. refl })

-- A code was sent to the user.
abbrev awaited : World
awaited = record enrolled { db = record enrolled.db { otp_codes = code ∷ [] } }

code_there : find (otp_id 50) awaited.db.otp_codes ≡ some code
unfolding Text.text_eq Table.find Table.exists Hex.hex_encode Token.hash_refresh_token
code_there = refl

code_right : Otp.equal env (trim_space (lit " 123456")) code.code_hash ≡ true
unfolding Text.text_eq Text.trim_left Text.trim_right Text.trim_space Text.is_space Hex.hex_encode
    Hex.from_hex_char Hex.hex_decode Otp.hash Otp.equal
code_right = refl

code_mail : classify_destination env code.destination ≡ ok (email, lit "ada@x.io")
unfolding Text.text_eq Text.trim_left Text.trim_right Text.trim_space Text.is_space Text.contains
    Text.to_lower Text.to_lower_rune Destination.classify_destination
code_mail = refl

owner-IsWelcome : IsWelcome env 1 email (lit "ada@x.io") awaited.db code.purpose
unfolding Text.text_eq Text.trim_left Text.trim_right Text.trim_space Text.is_space Text.to_lower
    Text.to_lower_rune Table.find Table.exists Hex.hex_encode Token.hash_refresh_token
owner-IsWelcome = owner owner_row refl refl

verify_returns_example :
    (res : Result) × ((verify_otp env 1 code_id (lit " 123456") awaited).0 ≡ ok res)
verify_returns_example =
    verify_returns env env-IsHealthy 1 50 code_id (lit " 123456") awaited code email
      (lit "ada@x.io") code_parsed code_there refl refl (ground arith) (ground arith) code_right
      code_mail owner-IsWelcome (record { ids = new_ids; hashes = unused })

-- An id is written between two letters.
abbrev second_rune : Text → Option ℕ
second_rune (c ∷ n ∷ s) = some n
second_rune _ = none

abbrev lettered : Env
lettered = record env { parse_uuid = second_rune; uuid_string = λ n. 105 ∷ n ∷ 100 ∷ [] }

ids_parsed : (n : ℕ) → lettered.parse_uuid (trim_space (lettered.uuid_string n)) ≡ some n
unfolding Text.text_eq Text.trim_left Text.trim_right Text.trim_space Text.is_space
ids_parsed n = refl

abbrev invitation : OtpRequestInput
invitation = record {
  project_id = 1;
  otp_enabled = true;
  destination = lit " new@x.io";
  purpose = lit "signup";
}

given_class : classify_destination lettered invitation.destination ≡ ok (email, lit "new@x.io")
unfolding Text.text_eq Text.trim_left Text.trim_right Text.trim_space Text.is_space Text.contains
    Text.to_lower Text.to_lower_rune Destination.classify_destination
given_class = refl

normal_class : classify_destination lettered (lit "new@x.io") ≡ ok (email, lit "new@x.io")
unfolding Text.text_eq Text.trim_left Text.trim_right Text.trim_space Text.is_space Text.contains
    Text.to_lower Text.to_lower_rune Destination.classify_destination
normal_class = refl

newcomer-IsWelcome : IsWelcome lettered 1 email (lit "new@x.io") start.db invitation.purpose
unfolding Text.text_eq Text.trim_left Text.trim_right Text.trim_space Text.is_space Text.to_lower
    Text.to_lower_rune Table.find Table.exists Hex.hex_encode Token.hash_refresh_token
newcomer-IsWelcome = newcomer refl refl (λ n. refl)

none_before :
    (last : ℕ)
    → latest (same_request 1 (lit "new@x.io") (lit "signup")) start.db.otp_codes ≡ some last
    → last + otp_resend_window ≤ start.now
unfolding DbOtp.latest
none_before last h = absurd (cc h)

start-IsFresh : IsFresh lettered start.db
unfolding Text.text_eq Table.find Table.exists Hex.hex_encode Token.hash_refresh_token
start-IsFresh = record { ids = λ n. refl; hashes = λ n. refl }

sent_signs_in_example :
    (res : OtpRequestResult) × (v : World) × (code : Text) × (request_otp lettered invitation start
      ≡ (ok res, v))
    × (v.sent ≡ start.sent ++ message email (lit "new@x.io") code invitation.purpose ∷ [])
    × (r : Result) × ((verify_otp lettered 1 res.otp_id code
          (record v { now = start.now + 200_000_000 })).0
        ≡ ok r)
unfolding Text.text_eq Table.find Table.exists Hex.hex_encode Token.hash_refresh_token
sent_signs_in_example =
    sent_signs_in lettered (λ n. refl) (λ n. refl) otp_mac-AreBytes ids_parsed invitation email
      (lit "new@x.io") start 200_000_000 refl given_class normal_class none_before (λ n. refl) refl
      newcomer-IsWelcome start-IsFresh (omega arith)
