-- ===== src/Db/Sessions.antt =====
-- backend/internal/db/sessions.sql.go
pub mod Laws
pub mod Elsewhere
pub mod Life
use sauth.Prelude.{
  ℕ, Bool, true, false, ◌&&◌, not, Option, none, some, List, [], ◌∷◌, ◌++◌, ◌==◌, ltb,
  if◌then◌else◌,
}
use sauth.Text.{Text, text_eq}
use sauth.Errors.{
  Outcome, ok, err, no_rows, unique_violation, other_constraint, foreign_key_violation,
}
use sauth.Db.{select, Db, User, Session, RefreshTokenHistory, Stamp, Stmt}
use sauth.Db.Table.{find, exists, update_where, delete_where, one, is_null}

pub record CreateSessionParams : Type 0 where
  pub user_id : ℕ
  pub refresh_token_hash : Text
  pub device_info : Option Text
  pub ip_address : Option Text
  pub expires_at : ℕ

abbrev pub has_hash : Text → Session → Bool
has_hash h s = text_eq s.refresh_token_hash h

abbrev pub has_id : ℕ → Session → Bool
has_id id s = s.id == id

abbrev pub was_hash : Text → RefreshTokenHistory → Bool
was_hash h r = text_eq r.token_hash h

abbrev pub new_session : Stamp → CreateSessionParams → Session
new_session t arg = record {
  id = t.uuid;
  user_id = arg.user_id;
  refresh_token_hash = arg.refresh_token_hash;
  device_info = arg.device_info;
  ip_address = arg.ip_address;
  expires_at = arg.expires_at;
  revoked_at = none;
  created_at = t.now;
  last_used_at = t.now;
}

unfoldable pub create_session : CreateSessionParams → Stmt Session
create_session arg t d =
    if exists (has_id t.uuid) d.sessions
    then err (unique_violation other_constraint)
    else if exists (has_hash arg.refresh_token_hash) d.sessions
    then err (unique_violation other_constraint)
    else if exists (λ (u : User). u.id == arg.user_id) d.users
    then ok (new_session t arg, record d { sessions = d.sessions ++ new_session t arg ∷ [] })
    else err foreign_key_violation

-- The rows of refresh_token_history go with their session (ON DELETE CASCADE).
unfoldable pub delete_expired_sessions : Stmt (Unit {0})
delete_expired_sessions t d =
    let expired = λ (s : Session). ltb s.expires_at t.now in
    ok (
      tt,
      record d {
        sessions = delete_where expired d.sessions;
        refresh_token_history =
            delete_where
              (λ (r : RefreshTokenHistory).
                exists (λ (s : Session). expired s && s.id == r.session_id) d.sessions)
              d.refresh_token_history;
      },
    )

abbrev session_of : Option RefreshTokenHistory → Option ℕ
session_of none = none
session_of (some r) = some r.session_id

unfoldable pub find_session_by_used_refresh_hash : Text → Stmt ℕ
find_session_by_used_refresh_hash token_hash t d =
    select (one (session_of (find (was_hash token_hash) d.refresh_token_history))) d

unfoldable pub get_session_by_id : ℕ → Stmt Session
get_session_by_id id t d = select (one (find (has_id id) d.sessions)) d

unfoldable pub get_session_by_refresh_hash : Text → Stmt Session
get_session_by_refresh_hash refresh_token_hash t d =
    select (one (find (has_hash refresh_token_hash) d.sessions)) d

abbrev pub used : Stamp → Text → ℕ → RefreshTokenHistory
used t token_hash session_id = record {
  token_hash = token_hash;
  session_id = session_id;
  used_at = t.now;
}

-- ON CONFLICT (token_hash) DO NOTHING
unfoldable pub record_used_refresh_hash : Text → ℕ → Stmt (Unit {0})
record_used_refresh_hash token_hash session_id t d =
    if exists (was_hash token_hash) d.refresh_token_history
    then ok (tt, d)
    else if exists (has_id session_id) d.sessions
    then ok (
      tt,
      record d {
        refresh_token_history = d.refresh_token_history ++ used t token_hash session_id ∷ [];
      },
    )
    else err foreign_key_violation

abbrev pub revoke : Stamp → Session → Session
revoke t s = record s { revoked_at = some t.now }

unfoldable pub revoke_all_user_sessions : ℕ → Stmt (Unit {0})
revoke_all_user_sessions user_id t d = ok (
  tt,
  record d {
    sessions =
        update_where (λ (s : Session). s.user_id == user_id && is_null s.revoked_at) (revoke t)
          d.sessions;
  },
)

unfoldable pub revoke_session : ℕ → Stmt (Unit {0})
revoke_session id t d =
    ok (tt, record d { sessions = update_where (has_id id) (revoke t) d.sessions })

abbrev pub rotate : Stamp → Text → ℕ → Session → Session
rotate t new_hash expires_at s = record s {
  refresh_token_hash = new_hash;
  expires_at = expires_at;
  last_used_at = t.now;
}

-- A row that the UPDATE of RotateSessionRefreshHash finds.
abbrev pub is_live : ℕ → Session → Bool
is_live id s = s.id == id && is_null s.revoked_at

-- The row that the UPDATE returns, unless its new hash is the hash of another row.
rotated : Stamp → Text → ℕ → ℕ → Db → Option Session → Outcome (Session × Db)
rotated t new_hash expires_at id d none = err no_rows
rotated t new_hash expires_at id d (some s) =
    if exists (λ (s' : Session). has_hash new_hash s' && not (has_id id s')) d.sessions
    then err (unique_violation other_constraint)
    else ok (
      rotate t new_hash expires_at s,
      record d { sessions = update_where (is_live id) (rotate t new_hash expires_at) d.sessions },
    )

unfoldable pub rotate_session_refresh_hash : Text → ℕ → ℕ → Stmt Session
unfolding rotated
rotate_session_refresh_hash new_hash expires_at id t d =
    rotated t new_hash expires_at id d (find (is_live id) d.sessions)
