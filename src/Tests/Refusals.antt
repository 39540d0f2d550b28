-- ===== src/Tests/Refusals.antt =====
-- A login with another password than the user's.
use sauth.Prelude.{◌+◌, ◌≡◌, refl, true, false, ◌||◌, none, some, [], ◌∷◌}
use sauth.Text.{Text, lit, text_eq, to_lower, trim_space}
use sauth.Errors.{err, invalid_credentials}
use sauth.Text
use sauth.Db.Table
use sauth.Text.Hex
use sauth.Token
use sauth.Env.{differs}
use sauth.Db.{User}
use sauth.Db.Table.{find}
use sauth.Db.Users.{has_login}
use sauth.Exec.{World}
use sauth.Exec.Runs.{IsHealthy}
use sauth.Auth.Login.{login}
use sauth.Auth.Login.Hiding.{other_password, login-hides}
use sauth.Tests.{env, start}

env-IsHealthy : IsHealthy env
env-IsHealthy n = refl

abbrev pub bob : User
bob = record {
  id = 8;
  project_id = 1;
  email = some (lit "bob@x.io");
  username = none;
  phone = none;
  password_hash = some (9 ∷ lit "right horse");
  email_verified = true;
  phone_verified = false;
  banned = true;
  metadata = [];
  created_at = 0;
  updated_at = 0;
}

abbrev pub guarded : World
guarded = record start { db = record start.db { users = bob ∷ [] } }

pub bob_given : (text_eq (trim_space (lit "Bob@x.io")) [] || text_eq (lit "wrong horse") []) ≡ false
unfolding Text.text_eq Text.trim_left Text.trim_right Text.trim_space Text.is_space
bob_given = refl

pub bob_found :
    find
      (has_login env 1 (some (to_lower env.lower_rune (trim_space (lit "Bob@x.io")))))
      guarded.db.users
    ≡ some bob
unfolding Text.text_eq Text.trim_left Text.trim_right Text.trim_space Text.is_space Text.to_lower
    Text.to_lower_rune Table.find Table.exists Hex.hex_encode Token.hash_refresh_token
bob_found = refl

pub bob_differs : env.bcrypt_compare (9 ∷ lit "right horse") (lit "wrong horse") ≡ differs
unfolding Text.text_eq Text.trim_left Text.trim_right Text.trim_space Text.is_space
bob_differs = refl

login-hides_example :
    login env 1 (lit "Bob@x.io") (lit "wrong horse") guarded
    ≡ (err invalid_credentials, record guarded { calls = guarded.calls + 1 })
login-hides_example =
    login-hides env env-IsHealthy 1 (lit "Bob@x.io") (lit "wrong horse") guarded bob_given
      (other_password bob (9 ∷ lit "right horse") bob_found refl bob_differs)
