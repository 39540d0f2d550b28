-- ===== src/Tests/Answers.antt =====
-- Requests over HTTP that are refused by the service.
use sauth.Prelude.{ℕ, ◌+◌, ◌==◌, ◌≡◌, refl, true, false, none, some, [], ◌∷◌, arith}
use sauth.Text.{Text, lit, text_eq}
use sauth.Errors.{ok}
use sauth.Text
use sauth.Db.Table
use sauth.Http.Middleware
use sauth.Text.Hex
use sauth.Token
use sauth.Auth.Signup
use sauth.Db.{User}
use sauth.Db.Table.{find, exists}
use sauth.Db.Users.{same_email}
use sauth.Exec.{World}
use sauth.Auth.Signup.{email_of}
use sauth.Auth.Login.Hiding.{other_password}
use sauth.Auth.Refresh.Replay.{all_revoked, is_open}
use sauth.Http.{failure, response}
use sauth.Http.Middleware.{HttpRequest, value, api_key_of}
use sauth.Http.Handlers.{SignupBody, LoginBody}
use sauth.Http.Routes.{post_signup, post_login, post_refresh, in_project, routes}
use sauth.Http.Access.{has_key}
use sauth.Http.Refusals.{replay_answered, wrong_login_answered, taken_answered}
use sauth.Tests.{env, project}
use sauth.Tests.Refreshes.{
  env-IsHealthy, stolen, old, session, old_given, old_absent, old_used, old_session,
}
use sauth.Tests.Refusals.{guarded, bob, bob_given, bob_found, bob_differs}
use sauth.Tests.Web.{request}

key_given : text_eq (api_key_of request) [] ≡ false
unfolding Text.text_eq Text.trim_left Text.trim_right Text.trim_space Text.is_space Table.find
    Middleware.api_key_of
key_given = refl

stolen_keyed : find (has_key (api_key_of request)) stolen.db.projects ≡ some project
unfolding Text.text_eq Text.trim_left Text.trim_right Text.trim_space Text.is_space Table.find
    Middleware.api_key_of
stolen_keyed = refl

replay_answered_example :
    (v : World) × (routes env request (in_project (post_refresh (value (lit "old")))) stolen ≡ (
      ok (
          response 401 (
            failure
              (lit "refresh_token_reuse")
              (lit "refresh token reuse detected; all sessions for this user have been revoked")
              (lit "r1"))),
      v,
    ))
    × (v.db ≡ record stolen.db { sessions = all_revoked 7 stolen.now stolen.db.sessions })
    × (exists (is_open 7) v.db.sessions ≡ false)
replay_answered_example =
    replay_answered env env-IsHealthy request project (lit "old") stolen old (session 31 (lit "bb"))
      key_given stolen_keyed old_given old_absent old_used old_session

abbrev guess : LoginBody
guess = record { email_or_username = lit "Bob@x.io"; password = lit "wrong horse" }

guarded_keyed : find (has_key (api_key_of request)) guarded.db.projects ≡ some project
unfolding Text.text_eq Text.trim_left Text.trim_right Text.trim_space Text.is_space Table.find
    Middleware.api_key_of
guarded_keyed = refl

wrong_login_answered_example :
    routes env request (in_project (post_login (value guess))) guarded ≡ (
      ok (
          response 401 (
            failure (lit "invalid_credentials") (lit "email or password is incorrect") (lit "r1"))),
      record guarded { calls = guarded.calls + 1 + 1 },
    )
wrong_login_answered_example =
    wrong_login_answered env env-IsHealthy request project guess guarded key_given guarded_keyed
      bob_given (other_password bob (9 ∷ lit "right horse") bob_found refl bob_differs)

abbrev rejoining : SignupBody
rejoining = record {
  email = lit " bob@x.io";
  username = lit "bobby";
  password = lit "correct horse";
}

rejoining_address : env.is_address (email_of env rejoining.email) ≡ true
unfolding Text.text_eq Text.trim_left Text.trim_right Text.trim_space Text.is_space Text.to_lower
    Text.to_lower_rune Table.find Table.exists Hex.hex_encode Token.hash_refresh_token Text.contains
    Text.len Text.rune_len Signup.email_of Signup.username_of
rejoining_address = refl

rejoining_taken :
    exists (same_email env 1 (some (email_of env rejoining.email))) guarded.db.users ≡ true
unfolding Text.text_eq Text.trim_left Text.trim_right Text.trim_space Text.is_space Text.to_lower
    Text.to_lower_rune Table.find Table.exists Hex.hex_encode Token.hash_refresh_token Text.contains
    Text.len Text.rune_len Signup.email_of Signup.username_of
rejoining_taken = refl

new_ids : (n : ℕ) → exists (λ (u : User). u.id == env.uuid n) guarded.db.users ≡ false
unfolding exists
new_ids n = ground arith

taken_answered_example : routes env request (in_project (post_signup (value rejoining))) guarded ≡ (
  ok (response 409 (failure (lit "conflict") (lit "email already registered") (lit "r1"))),
  record guarded { saved = none; calls = guarded.calls + 1 + 1 + 1 + 1 },
)
unfolding Text.text_eq Text.trim_left Text.trim_right Text.trim_space Text.is_space Text.to_lower
    Text.to_lower_rune Table.find Table.exists Hex.hex_encode Token.hash_refresh_token Text.contains
    Text.len Text.rune_len Signup.email_of Signup.username_of
taken_answered_example =
    taken_answered env env-IsHealthy request project rejoining guarded key_given guarded_keyed refl
      rejoining_address (ground arith) (ground arith) new_ids rejoining_taken
