-- ===== src/Tests/Refreshes.antt =====
-- Refreshing, and presenting a refresh token again.
use sauth.Prelude.{ℕ, ◌≡◌, ◌≢◌, refl, true, false, none, some, [], ◌∷◌}
use sauth.Text.{Text, lit, text_eq, trim_space}
use sauth.Errors.{ok, err, refresh_reuse, refresh_invalid}
use sauth.Text
use sauth.Db.Table
use sauth.Exec
use sauth.Text.Hex
use sauth.Token
use sauth.Auth
use sauth.Auth.Issue
use sauth.Db.Rbac
use sauth.Db.Sessions
use sauth.Db.Users
use sauth.Auth.Refresh
use sauth.Db.{User, Session, RefreshTokenHistory}
use sauth.Db.Table.{find, exists, DistinctBy}
use sauth.Db.Sessions.{has_hash, has_id, was_hash}
use sauth.Db.Sessions.Laws.{same_id, same_hash}
use sauth.Token.{hash_refresh_token}
use sauth.Exec.{World}
use sauth.Exec.Runs.{IsHealthy}
use sauth.Auth.{Result}
use sauth.Auth.Refresh.{refresh}
use sauth.Auth.Refresh.Rotation.{IsRotation, refresh-rotates}
use sauth.Auth.Refresh.Replay.{all_revoked, is_open, refresh-replay}
use sauth.Auth.Refresh.Twice.{refresh_twice}
use sauth.Auth.Refresh.Atomicity.{refresh-atomic}
use sauth.Tests.{env, start, result, nobody}

pub env-IsHealthy : IsHealthy env
env-IsHealthy n = refl

abbrev pub session : ℕ → Text → Session
session id hash = record {
  id = id;
  user_id = 7;
  refresh_token_hash = hash;
  device_info = none;
  ip_address = none;
  expires_at = 9_000_000_000;
  revoked_at = none;
  created_at = 0;
  last_used_at = 0;
}

abbrev pub user : User
user = record {
  id = 7;
  project_id = 1;
  email = some (lit "ada@x.io");
  username = none;
  phone = none;
  password_hash = none;
  email_verified = true;
  phone_verified = false;
  banned = false;
  metadata = [];
  created_at = 0;
  updated_at = 0;
}

abbrev pub token_1 : Text
token_1 = lit "a"

-- A user with the session that "a" is the refresh token of, and another.
abbrev pub before : World
before = record start {
  db = record start.db {
    users = user ∷ [];
    sessions = session 31 (lit "61") ∷ session 32 (lit "62") ∷ [];
  };
}

abbrev after : World
after = (refresh env token_1 before).1

abbrev after_result : Result
after_result = result (refresh env token_1 before).0 nobody

refresh_run : refresh env token_1 before ≡ (ok after_result, after)
unfolding Text.text_eq Text.trim_left Text.trim_right Text.trim_space Text.is_space Text.contains
    Text.to_lower Text.to_lower_rune Text.len Text.rune_len Text.has_prefix Table.find Table.exists
    Table.update_where Table.rows_where Table.join Table.insert_sorted Table.order_by Table.distinct
    Exec.reject_if Exec.◌>>=◌ Exec.call Exec.query Exec.begin Exec.commit Exec.rollback
    Exec.deferred Exec.in_tx Hex.hex_encode Token.hash_refresh_token Token.new_refresh_token
    Token.issue_access Auth.to_user_dto Issue.mint_access Issue.issue Rbac.permission_names
    Rbac.role_names Rbac.get_user_permission_names Rbac.get_user_role_names Sessions.create_session
    Users.get_user_by_id_only Sessions.find_session_by_used_refresh_hash Sessions.get_session_by_id
    Sessions.get_session_by_refresh_hash Sessions.record_used_refresh_hash
    Sessions.revoke_all_user_sessions Sessions.rotate_session_refresh_hash Refresh.not_current
    Refresh.rotate_session Refresh.renew Refresh.refresh_in_tx Refresh.refresh
refresh_run = refl

pub before-ids : DistinctBy same_id before.db.sessions
unfolding Text.text_eq Table.find Table.exists Hex.hex_encode Token.hash_refresh_token
before-ids = (refl, (refl, tt))

before-hashes : DistinctBy same_hash before.db.sessions
unfolding Text.text_eq Table.find Table.exists Hex.hex_encode Token.hash_refresh_token
before-hashes = (refl, (refl, tt))

refresh-rotates_example :
    IsRotation env (hash_refresh_token env token_1) 1_000_000_000 before.db after_result after.db
refresh-rotates_example =
    refresh-rotates env token_1 before after after_result before-ids refresh_run

unspent : exists (was_hash (hash_refresh_token env token_1)) before.db.refresh_token_history ≡ false
unfolding Text.text_eq Table.find Table.exists Hex.hex_encode Token.hash_refresh_token
unspent = refl

another :
    text_eq (hash_refresh_token env after_result.refresh_token) (hash_refresh_token env token_1)
    ≡ false
unfolding Text.text_eq Text.trim_left Text.trim_right Text.trim_space Text.is_space Text.contains
    Text.to_lower Text.to_lower_rune Text.len Text.rune_len Text.has_prefix Table.find Table.exists
    Table.update_where Table.rows_where Table.join Table.insert_sorted Table.order_by Table.distinct
    Exec.reject_if Exec.◌>>=◌ Exec.call Exec.query Exec.begin Exec.commit Exec.rollback
    Exec.deferred Exec.in_tx Hex.hex_encode Token.hash_refresh_token Token.new_refresh_token
    Token.issue_access Auth.to_user_dto Issue.mint_access Issue.issue Rbac.permission_names
    Rbac.role_names Rbac.get_user_permission_names Rbac.get_user_role_names Sessions.create_session
    Users.get_user_by_id_only Sessions.find_session_by_used_refresh_hash Sessions.get_session_by_id
    Sessions.get_session_by_refresh_hash Sessions.record_used_refresh_hash
    Sessions.revoke_all_user_sessions Sessions.rotate_session_refresh_hash Refresh.not_current
    Refresh.rotate_session Refresh.renew Refresh.refresh_in_tx Refresh.refresh
another = refl

refresh_twice_example :
    (sess : Session) × (find (has_hash (hash_refresh_token env token_1)) before.db.sessions
      ≡ some sess)
    × ((refresh env token_1 (record after { now = 3_000_000_000 })).0 ≡ err refresh_reuse)
    × (exists
          (is_open sess.user_id)
          (refresh env token_1 (record after { now = 3_000_000_000 })).1.db.sessions
        ≡ false)
refresh_twice_example =
    refresh_twice env env-IsHealthy token_1 before after after_result before-ids before-hashes
      unspent another refresh_run (record after { now = 3_000_000_000 }) refl

abbrev pub old : RefreshTokenHistory
old = record { token_hash = hash_refresh_token env (lit "old"); session_id = 31; used_at = 5 }

-- A user with two sessions, whose token "old" was rotated away.
abbrev pub stolen : World
stolen = record start {
  db = record start.db {
    sessions = session 30 (lit "aa") ∷ session 31 (lit "bb") ∷ [];
    refresh_token_history = old ∷ [];
  };
}

pub old_given : text_eq (trim_space (lit "old")) [] ≡ false
unfolding Text.text_eq Text.trim_left Text.trim_right Text.trim_space Text.is_space
old_given = refl

pub old_absent : find (has_hash (hash_refresh_token env (lit "old"))) stolen.db.sessions ≡ none
unfolding Text.text_eq Table.find Table.exists Hex.hex_encode Token.hash_refresh_token
old_absent = refl

pub old_used :
    find (was_hash (hash_refresh_token env (lit "old"))) stolen.db.refresh_token_history ≡ some old
unfolding Text.text_eq Table.find Table.exists Hex.hex_encode Token.hash_refresh_token
old_used = refl

pub old_session : find (has_id 31) stolen.db.sessions ≡ some (session 31 (lit "bb"))
unfolding Text.text_eq Table.find Table.exists Hex.hex_encode Token.hash_refresh_token
old_session = refl

refresh-replay_example :
    ((refresh env (lit "old") stolen).0 ≡ err refresh_reuse)
    × ((refresh env (lit "old") stolen).1.db
        ≡ record stolen.db { sessions = all_revoked 7 stolen.now stolen.db.sessions })
    × (exists (is_open 7) (refresh env (lit "old") stolen).1.db.sessions ≡ false)
refresh-replay_example =
    refresh-replay env env-IsHealthy (lit "old") stolen old (session 31 (lit "bb")) old_given
      old_absent old_used old_session

unknown_run : (refresh env (lit "unknown") stolen).0 ≡ err refresh_invalid
unfolding Text.text_eq Text.trim_left Text.trim_right Text.trim_space Text.is_space Text.contains
    Text.to_lower Text.to_lower_rune Text.len Text.rune_len Text.has_prefix Table.find Table.exists
    Table.update_where Table.rows_where Table.join Table.insert_sorted Table.order_by Table.distinct
    Exec.reject_if Exec.◌>>=◌ Exec.call Exec.query Exec.begin Exec.commit Exec.rollback
    Exec.deferred Exec.in_tx Hex.hex_encode Token.hash_refresh_token Token.new_refresh_token
    Token.issue_access Auth.to_user_dto Issue.mint_access Issue.issue Rbac.permission_names
    Rbac.role_names Rbac.get_user_permission_names Rbac.get_user_role_names Sessions.create_session
    Users.get_user_by_id_only Sessions.find_session_by_used_refresh_hash Sessions.get_session_by_id
    Sessions.get_session_by_refresh_hash Sessions.record_used_refresh_hash
    Sessions.revoke_all_user_sessions Sessions.rotate_session_refresh_hash Refresh.not_current
    Refresh.rotate_session Refresh.renew Refresh.refresh_in_tx Refresh.refresh
unknown_run = refl

invalid_not_reuse : refresh_invalid ≢ refresh_reuse
invalid_not_reuse h = cc h

refresh-atomic_example : (refresh env (lit "unknown") stolen).1.db ≡ stolen.db
refresh-atomic_example =
    refresh-atomic env (lit "unknown") stolen refresh_invalid invalid_not_reuse unknown_run
